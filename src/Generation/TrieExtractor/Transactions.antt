-- ===== src/Generation/TrieExtractor/Transactions.antt =====
-- The transactions trie, from `load_linked_lists_and_txn_and_receipt_mpts` to `get_txn_trie`.
use zk_evm.Prelude.{
  ℕ, ◌^◌, ◌≤◌, ◌<◌, ◌≡◌, refl, ap, arith, some, List, [], ◌∷◌, ◌++◌, length, map, take, All, ltb-lt,
  leb-le,
}
use zk_evm.Mpt.Node.{Bytes, H256, Node, empty, hash, branch, extension, leaf}
use zk_evm.Mpt.Trie.Meaning.{Fixed}
use zk_evm.Mpt.Hashing.{RlpItem, rlp_encode_and_hash_node, hash_trie}
use zk_evm.Mpt.Subsets.Hashes.{child_items-same}
use zk_evm.Generation.Errors.{ok}
use zk_evm.Generation.Mpt.{MemoryValues, load_mpt, parse_txn}
use zk_evm.Generation.Mpt.Cells.{Starts}
use zk_evm.Generation.TrieExtractor.{read_bytes, read_txn_rlp_value, get_txn_trie}
use zk_evm.Generation.TrieExtractor.Nodes.{Agree, LeafValues}
use zk_evm.Generation.TrieExtractor.Reading.{Undoes, get_trie-load_mpt}

-- The bytes of a transaction, fewer than a `usize` can count.
abbrev pub IsTxn : Bytes → Type 0
IsTxn v = All (λ b. b < 256) v × (length v < 2 ^ 64)

read_bytes-map : (v : Bytes) → All (λ b. b < 256) v → read_bytes (map some v) ≡ ok v
read_bytes-map [] h = refl
read_bytes-map (b ∷ v) h = rw (ltb-lt b 256 h.0, read_bytes-map v h.1) refl

take-map : (v : Bytes) (rest : MemoryValues) → take (length v) (map some v ++ rest) ≡ map some v
take-map [] rest = refl
take-map (b ∷ v) rest = ap (λ t. some b ∷ t) (take-map v rest)

length-map : (v : Bytes) (rest : MemoryValues) → length v ≤ length (map some v ++ rest)
length-map [] rest = omega arith
length-map (b ∷ v) rest = omega (arith, length-map v rest)

pub txn-Undoes : (v : Bytes) → IsTxn v → Undoes parse_txn read_txn_rlp_value v
unfolding parse_txn read_txn_rlp_value
txn-Undoes v (bytes, short) = (
  length v ∷ v,
  refl,
  λ m rest.
      rw
        (
          ltb-lt (length v) (2 ^ 64) short,
          leb-le (length v) (length (map some v ++ rest)) (length-map v rest),
          take-map v rest,
          read_bytes-map v bytes,
        )
        refl,
)

txns-Undoes : (t : Node) → LeafValues IsTxn t → LeafValues (Undoes parse_txn read_txn_rlp_value) t
txns-Undoes empty h = tt
txns-Undoes (hash x) h = tt
txns-Undoes (branch c v) h = λ i to. txns-Undoes (c i) (h i to)
txns-Undoes (extension n c) h = txns-Undoes c h
txns-Undoes (leaf n v) h = txn-Undoes v h

module _ (rlp_list : List RlpItem → Bytes) (null_rlp : Bytes) (keccak : Bytes → H256) where
  Agree-encode :
      (s t : Node)
      → Agree s t
      → rlp_encode_and_hash_node rlp_list null_rlp keccak s
        ≡ rlp_encode_and_hash_node rlp_list null_rlp keccak t
  unfolding rlp_encode_and_hash_node
  Agree-encode empty empty h = refl
  Agree-encode (hash x) (hash y) h = rw h refl
  Agree-encode (branch c v) (branch d w) (below, e) =
      rw
        (
          child_items-same 16 0 (λ i. rlp_encode_and_hash_node rlp_list null_rlp keccak (c i))
              (λ i. rlp_encode_and_hash_node rlp_list null_rlp keccak (d i))
              (λ j to. Agree-encode (c j) (d j) (below j to)),
          e,
        )
        refl
  Agree-encode (extension n c) (extension o d) (e, h) = rw (e, Agree-encode c d h) refl
  Agree-encode (leaf n v) (leaf o w) (e, f) = rw (e, f) refl
  Agree-encode s t h = absurd h

  -- A trie of transactions over keys of one length, of at most 64 nibbles, loaded into a memory with
  -- a 0 in front, and read with more fuel than a key has nibbles: if the memory's length is below
  -- 2 ^ 64, then no error or panic occurs, and the trie is read with the same hash, whatever RLP and
  -- keccak compute.
  pub hash_trie-get_txn_trie :
      (t : Node) (len : ℕ) (m : MemoryValues) (p : ℕ) (n : MemoryValues) (fuel : ℕ)
      → Fixed len t
      → len ≤ 64
      → LeafValues IsTxn t
      → Starts m
      → load_mpt parse_txn t m ≡ ok (p, n)
      → length n < 2 ^ 64
      → len < fuel
      → (s : Node) × (get_txn_trie n fuel p ≡ ok s)
        × (hash_trie rlp_list null_rlp keccak t ≡ hash_trie rlp_list null_rlp keccak s)
  unfolding get_txn_trie hash_trie
  hash_trie-get_txn_trie t len m p n fuel f h v start run small e =
      let (s, read, same) =
        get_trie-load_mpt parse_txn read_txn_rlp_value t len m p n fuel f h (txns-Undoes t v) start
          run small e in
      (s, read, rw (Agree-encode t s same) refl)
