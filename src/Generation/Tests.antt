-- ===== src/Generation/Tests.antt =====
-- A concrete trie of transactions, loaded and read.
use zk_evm.Prelude.{
  map, take, ◌-◌, ℕ, zero, suc, ◌+◌, ◌^◌, ◌<◌, ◌≡◌, refl, arith, Bool, true, false, some, List, [],
  ◌∷◌, length, ◌==◌, if◌then◌else◌,
}
use zk_evm.Mpt.Nibbles.Value.{nib, digits}
use zk_evm.Mpt.Node.{Bytes, H256, Node, leaf, branch, extension, empty}
use zk_evm.Mpt.Trie.Meaning.{Fixed}
use zk_evm.Mpt.Hashing.{RlpItem, hash_trie}
use zk_evm.Generation.Errors.{ProgramResult, ok, err, panic}
use zk_evm.Generation.Mpt.{MemoryValues, set_cell, load_mpt, parse_txn}
use zk_evm.Generation.Mpt.Loading.{Loadable, Loaded, load_mpt-Loaded}
use zk_evm.Mpt.Nibbles.{new}
use zk_evm.Generation.LinkedList.{
  storage_linked_list, empty_list_mem, LinkedList, from_mem_and_segment, take_nodes,
  get_storage_leaves,
}
use zk_evm.Generation.LinkedList.Leaves.{IsSingle, take_nodes-get_storage_leaves}
use zk_evm.Generation.TrieExtractor.{read_txn_rlp_value, get_trie, get_txn_trie}
use zk_evm.Generation.TrieExtractor.Nodes.{Agree, LeafValues}
use zk_evm.Generation.TrieExtractor.Reading.{Undoes, get_trie-load_mpt}
use zk_evm.Generation.TrieExtractor.Transactions.{IsTxn, txn-Undoes, hash_trie-get_txn_trie}

abbrev first_txn : Node
first_txn = leaf (nib (2 ∷ [])) (7 ∷ (9 ∷ []))

abbrev second_txn : Node
second_txn = leaf (nib (9 ∷ [])) (8 ∷ [])

abbrev txns_below : ℕ → Node
txns_below i = if i == 1 then first_txn else if i == 5 then second_txn else empty

abbrev two_txns : Node
two_txns = extension (nib (3 ∷ [])) (branch txns_below [])

two_txns-Fixed : Fixed 3 two_txns
two_txns-Fixed =
    (3 ∷ [], 2, omega arith, refl, omega arith, refl, (refl, λ i to. cases (i == 1) (i == 5)))
  where
    cases : (c d : Bool) → Fixed 1 (if c then first_txn else if d then second_txn else empty)
    cases true d = (2 ∷ [], omega arith, refl, refl)
    cases false true = (9 ∷ [], omega arith, refl, refl)
    cases false false = tt

abbrev start : MemoryValues
start = some 0 ∷ []

abbrev filled : MemoryValues
unfolding load_mpt parse_txn set_cell
filled = elim (load_mpt parse_txn two_txns start) [ ok (p, n) ↦ n | err e ↦ [] | panic ↦ [] ]

filled_lem : load_mpt parse_txn two_txns start ≡ ok (1, filled)
unfolding load_mpt parse_txn set_cell
filled_lem = refl

filled-short : length filled < 2 ^ 64
unfolding load_mpt parse_txn set_cell
filled-short = omega arith

two_txns-Loadable : Loadable parse_txn two_txns
unfolding parse_txn
two_txns-Loadable = (omega arith, λ i to. cases (i == 1) (i == 5))
  where
    cases :
        (c d : Bool) → Loadable parse_txn (if c then first_txn else if d then second_txn else empty)
    cases true d = (omega arith, 2 ∷ (7 ∷ (9 ∷ [])), refl)
    cases false true = (omega arith, 1 ∷ (8 ∷ []), refl)
    cases false false = tt

load_mpt-Loaded_example : Loaded parse_txn two_txns start (load_mpt parse_txn two_txns start)
load_mpt-Loaded_example = load_mpt-Loaded parse_txn two_txns start two_txns-Loadable refl

get_trie-load_mpt_example :
    (s : Node) × (get_trie filled read_txn_rlp_value 4 1 ≡ ok s) × Agree two_txns s
get_trie-load_mpt_example =
    get_trie-load_mpt parse_txn read_txn_rlp_value two_txns 3 start 1 filled 4 two_txns-Fixed
      (omega arith) (λ i to. cases (i == 1) (i == 5)) refl filled_lem filled-short (omega arith)
  where
    cases :
        (c d : Bool)
        → LeafValues
            (Undoes parse_txn read_txn_rlp_value)
            (if c then first_txn else if d then second_txn else empty)
    cases true d = txn-Undoes (7 ∷ (9 ∷ [])) ((omega arith, (omega arith, tt)), omega arith)
    cases false true = txn-Undoes (8 ∷ []) ((omega arith, tt), omega arith)
    cases false false = tt

abbrev zero_bytes : ℕ → Bytes
zero_bytes zero = []
zero_bytes (suc n) = 0 ∷ zero_bytes n

abbrev some_list : List RlpItem → Bytes
some_list items = length items ∷ zero_bytes 39

abbrev some_hash : Bytes → H256
some_hash bytes = length bytes + 7

hash_trie-get_txn_trie_example :
    (s : Node) × (get_txn_trie filled 4 1 ≡ ok s)
    × (hash_trie some_list [] some_hash two_txns ≡ hash_trie some_list [] some_hash s)
hash_trie-get_txn_trie_example =
    hash_trie-get_txn_trie some_list [] some_hash two_txns 3 start 1 filled 4 two_txns-Fixed
      (omega arith) (λ i to. cases (i == 1) (i == 5)) refl filled_lem filled-short (omega arith)
  where
    cases :
        (c d : Bool) → LeafValues IsTxn (if c then first_txn else if d then second_txn else empty)
    cases true d = ((omega arith, (omega arith, tt)), omega arith)
    cases false true = ((omega arith, tt), omega arith)
    cases false false = tt

-- A storage trie whose values are one byte, which is the word.
abbrev byte_parser : Bytes → ProgramResult (List ℕ)
byte_parser v = ok v

abbrev first_byte : Bytes → ℕ
first_byte [] = 0
first_byte (b ∷ v) = b

abbrev slots_below : ℕ → Node
slots_below i =
    if i == 1
    then leaf (nib (2 ∷ [])) (7 ∷ [])
    else if i == 5
    then leaf (nib (9 ∷ [])) (8 ∷ [])
    else empty

abbrev two_slots : Node
two_slots = extension (nib (3 ∷ [])) (branch slots_below [])

two_slots-Fixed : Fixed 3 two_slots
two_slots-Fixed =
    (3 ∷ [], 2, omega arith, refl, omega arith, refl, (refl, λ i to. cases (i == 1) (i == 5)))
  where
    cases :
        (c d : Bool)
        → Fixed 1 (
            if c
            then leaf (nib (2 ∷ [])) (7 ∷ [])
            else if d
            then leaf (nib (9 ∷ [])) (8 ∷ [])
            else empty)
    cases true d = (2 ∷ [], omega arith, refl, refl)
    cases false true = (9 ∷ [], omega arith, refl, refl)
    cases false false = tt

take_nodes-get_storage_leaves_example :
    (n : MemoryValues) × (list : LinkedList) × (items : List (List ℕ)) × (get_storage_leaves
        byte_parser 100 new two_slots
        (empty_list_mem 5 storage_linked_list)
      ≡ ok n)
    × (from_mem_and_segment n storage_linked_list ≡ ok list)
    × (take_nodes 3 5 list ≡ ok items)
    × (map (take 4) items
        ≡ (100 ∷ (0x312 ∷ (7 ∷ (0 ∷ []))))
          ∷ ((100 ∷ (0x359 ∷ (8 ∷ (0 ∷ [])))) ∷ (((2 ^ 256 - 1) ∷ (0 ∷ (0 ∷ (0 ∷ [])))) ∷ [])))
unfolding digits
take_nodes-get_storage_leaves_example =
    take_nodes-get_storage_leaves byte_parser 100 first_byte two_slots 3 two_slots-Fixed
      (omega arith) (λ i to. cases (i == 1) (i == 5)) (omega arith)
  where
    cases :
        (c d : Bool)
        → LeafValues (IsSingle byte_parser 100 first_byte) (
            if c
            then leaf (nib (2 ∷ [])) (7 ∷ [])
            else if d
            then leaf (nib (9 ∷ [])) (8 ∷ [])
            else empty)
    cases true d = refl
    cases false true = refl
    cases false false = tt
