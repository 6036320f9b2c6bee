-- ===== src/Generation/LinkedList/Leaves.antt =====
-- The storage leaves of a trie, as a linked list.
use zk_evm.Prelude.{
  ℕ, zero, suc, ◌+◌, ◌-◌, ◌*◌, ◌^◌, ◌≤◌, ◌<◌, ◌≡◌, refl, arith, List, [], ◌∷◌, ◌++◌, length,
  length-append, map, take, All-append, append_assoc, append-nil, ltb-lt, checked_sub-le,
}
use zk_evm.Mpt.Nibbles.{new, merge_nibbles}
use zk_evm.Mpt.Nibbles.Value.{nib, IsNibs, value, digits-value}
use zk_evm.Mpt.Nibbles.Joins.{merge_nibbles-nib}
use zk_evm.Mpt.Node.{Bytes, Node, empty, hash, branch, extension, leaf}
use zk_evm.Mpt.Trie.Meaning.{Fixed, key_of}
use zk_evm.Generation.Errors.{ProgramResult, ok, call, ◌>>=◌}
use zk_evm.Generation.Mpt.{MemoryValues, pushed}
use zk_evm.Generation.TrieExtractor.Nodes.{LeafValues}
use zk_evm.Generation.TrieExtractor.Reading.{packed-lt}
use zk_evm.Generation.LinkedList.{
  storage_linked_list, storage_linked_list_node_size, empty_list_mem, LinkedList,
  from_mem_and_segment, take_nodes, leaves_loop, nibble_key, get_storage_leaves,
}
use zk_evm.Generation.LinkedList.Links.{
  Slot, payload, node_words, Linked-ge, Linked, put-Linked, read-Linked, reader, length-Linked,
}

-- The lists of the children from `i` on, one after the other.
abbrev pub joined : ℕ → ℕ → (ℕ → List (List ℕ)) → List (List ℕ)
joined zero i g = []
joined (suc left) i g = g i ++ joined left (i + 1) g

-- The node that the empty list has, without its pointer.
abbrev pub special : List ℕ
special = (2 ^ 256 - 1) ∷ (0 ∷ (0 ∷ (0 ∷ [])))

first_node :
    (n : MemoryValues) → 0 < length n → from_mem_and_segment n storage_linked_list ≡ ok (reader n 0)
unfolding from_mem_and_segment
first_node [] h = absurd (omega arith)
first_node (c ∷ n) h = refl

module _ (parse_value : Bytes → ProgramResult (List ℕ)) (address : ℕ) (word_of : Bytes → ℕ) where
  -- The slots below a node that stands at a path, from left to right.
  abbrev pub slots : List ℕ → Node → List (List ℕ)
  slots l empty = []
  slots l (hash h) = []
  slots l (branch c v) = joined 16 0 (λ i. slots (l ++ (i ∷ [])) (c i))
  slots l (extension n c) = slots (l ++ key_of n) c
  slots l (leaf n v) =
      payload (record { address = address; key = value (l ++ key_of n); word = word_of v }) ∷ []

  abbrev pub IsSingle : Bytes → Type 0
  IsSingle v = parse_value v ≡ ok (word_of v ∷ [])

  -- The list grows by some nodes.
  abbrev Grows : List (List ℕ) → (MemoryValues → ProgramResult MemoryValues) → Type 0
  Grows new run =
      (m : MemoryValues) (b : List ℕ) (bs : List (List ℕ))
      → Linked m 0 (b ∷ bs)
      → (n : MemoryValues) × (run m ≡ ok n) × Linked n 0 (b ∷ (bs ++ new))

  loop-Grows :
      (left i : ℕ) (g : ℕ → List (List ℕ)) (child : ℕ → MemoryValues → ProgramResult MemoryValues)
      → ((j : ℕ) → j < i + left → Grows (g j) (child j))
      → Grows (joined left i g) (leaves_loop left i child)
  loop-Grows zero i g child each m b bs h = (m, refl, rw (append-nil bs) h)
  loop-Grows (suc left) i g child each m b bs h =
      let (n, run, h1) = each i (omega arith) m b bs h in
      let (o, run2, h2) =
        loop-Grows left (i + 1) g child (λ j to. each j (omega arith)) n b (bs ++ g i) h1 in
      (o, rw run run2, rw (append_assoc bs (g i) (joined left (i + 1) g)) at h2)

  nibble_key-nib : (i : ℕ) → nibble_key i ≡ nib (i ∷ [])
  nibble_key-nib i =
      let same : i ≡ i * 16 ^ 0 + 0 = omega arith in λ j. record { count = 1; packed = same j }

  get_storage_leaves-Grows :
      (t : Node) (len : ℕ) (l : List ℕ)
      → Fixed len t
      → LeafValues IsSingle t
      → IsNibs l
      → length l + len ≤ 64
      → Grows (slots l t) (get_storage_leaves parse_value address (nib l) t)
  unfolding get_storage_leaves
  get_storage_leaves-Grows empty len l f v hl fits m b bs h = (m, refl, rw (append-nil bs) h)
  get_storage_leaves-Grows (hash x) len l f v hl fits m b bs h = (m, refl, rw (append-nil bs) h)
  get_storage_leaves-Grows (branch c w) zero l f v hl fits m b bs h = absurd f
  get_storage_leaves-Grows (branch c w) (suc len) l f v hl fits m b bs h =
      loop-Grows 16 0 (λ i. slots (l ++ (i ∷ [])) (c i))
        (λ i leaves. call (merge_nibbles (nib l) (nibble_key i)) >>= λ extended_key.
          get_storage_leaves parse_value address extended_key (c i) leaves)
        (λ j to m b bs h.
          let (n, run, grown) =
            get_storage_leaves-Grows (c j) len (l ++ (j ∷ [])) (f.1 j to) (v j to)
              (All-append (λ x. x < 16) l (j ∷ []) hl (to, tt))
              (omega (arith, length-append l (j ∷ []))) m b bs h in
          (
            n,
            rw (nibble_key-nib j, merge_nibbles-nib l (j ∷ []) hl (to, tt) (omega arith)) run,
            grown,
          ))
        m b bs h
  get_storage_leaves-Grows (extension x c) len l (k, rest, hk, en, pos, el, f) v hl fits m b bs h =
      let (n, run, grown) =
        get_storage_leaves-Grows c rest (l ++ k) f v (All-append (λ x. x < 16) l k hl hk)
          (omega (arith, length-append l k)) m b bs h in
      (n, rw (en, merge_nibbles-nib l k hl hk (omega arith)) run, rw (en, digits-value k hk) grown)
  get_storage_leaves-Grows (leaf x w) len l (k, hk, en, el) v hl fits m b bs h =
      let s : Slot = record { address = address; key = value (l ++ k); word = word_of w } in
      let (n, run, grown) = put-Linked m b bs s h in
      let small =
        packed-lt (nib (l ++ k)) (l ++ k) (All-append (λ x. x < 16) l k hl hk) refl
          (omega (arith, length-append l k)) in
      (
        pushed n (node_words (payload s)),
        rw
            (
              en,
              merge_nibbles-nib l k hl hk (omega arith),
              checked_sub-le (length m) 1 (omega (arith, Linked-ge m 0 b bs h)),
              run,
              ltb-lt (value (l ++ k)) (2 ^ 256) small,
              v,
            )
            refl,
        rw (en, digits-value k hk) grown,
      )

  -- The storage leaves of a trie over keys of one length, of at most 64 nibbles, each of whose values
  -- is a single word, where the addresses of the list stay below 2 ^ 64: put behind the empty list,
  -- they make a linked list without an error or a panic, and that list, read from its first node on,
  -- gives the address, key and value of each leaf of the trie, from left to right, and then the first
  -- node again.
  pub take_nodes-get_storage_leaves :
      (t : Node) (len : ℕ)
      → Fixed len t
      → len ≤ 64
      → LeafValues IsSingle t
      → storage_linked_list + 5 * suc (length (slots [] t)) < 2 ^ 64
      → (n : MemoryValues) × (list : LinkedList) × (items : List (List ℕ)) × (get_storage_leaves
            parse_value address new t
            (empty_list_mem storage_linked_list_node_size storage_linked_list)
          ≡ ok n)
        × (from_mem_and_segment n storage_linked_list ≡ ok list)
        × (take_nodes (suc (length (slots [] t))) storage_linked_list_node_size list ≡ ok items)
        × (map (take 4) items ≡ slots [] t ++ (special ∷ []))
  unfolding empty_list_mem new
  take_nodes-get_storage_leaves t len f fits v small =
      let (n, run, linked) =
        get_storage_leaves-Grows t len [] f v tt (omega arith)
          (empty_list_mem 5 storage_linked_list) special []
          (refl, (refl, (refl, (refl, (refl, omega arith)))), refl, refl) in
      let long = length-Linked n 0 (special ∷ slots [] t) linked in
      let (items, read, same) =
        read-Linked n special (slots [] t) 0 special (slots [] t) linked linked (omega arith) in
      (n, reader n 0, items, run, first_node n (omega arith), read, same)
