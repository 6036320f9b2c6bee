-- ===== src/Mpt/Subsets/Hashes.antt =====
-- A subset has the encoding of the trie that it was made from, whatever was marked.
use zk_evm.Prelude.{
  ℕ, zero, suc, ◌+◌, ◌≤◌, ◌<◌, ◌≡◌, refl, sym, arith, true, false, Option, none, some, List, [],
  ◌∷◌, ◌++◌, Bool-cases, inl, inr, ◌==◌, ==_iff, if◌then◌else◌,
}
use zk_evm.Mpt.Node.{Bytes, H256, Node, empty, hash, branch, extension, leaf, is_empty_bytes}
use zk_evm.Mpt.Conversions.HexPrefix.{to_hex_prefix_encoding-some}
use zk_evm.Mpt.Trie.Meaning.{Fixed}
use zk_evm.Mpt.Hashing.{
  EncodedNode, raw, hashed, RlpItem, string, append_to_stream, child_items,
  hash_bytes_if_large_enough, rlp_encode_and_hash_node,
}
use zk_evm.Mpt.Subsets.{
  TrackedNodeInfo, TrackedNode, tracked, tracked_empty, tracked_hash, tracked_leaf, tracked_branch,
  tracked_extension, child_array, cut, hashed_or, create_partial_trie_subset_from_tracked_trie,
}

-- A tracked trie that was made from a trie.
abbrev pub Tracks : Node → TrackedNode → Type 0
Tracks empty (tracked tracked_empty info) = info.underlying_node ≡ empty
Tracks (hash h) (tracked tracked_hash info) = info.underlying_node ≡ hash h
Tracks (branch c v) (tracked (tracked_branch d) info) =
    (info.underlying_node ≡ branch c v) × ((i : ℕ) → i < 16 → Tracks (c i) (d i))
Tracks (extension n c) (tracked (tracked_extension d) info) =
    (info.underlying_node ≡ extension n c) × Tracks c d
Tracks (leaf n v) (tracked tracked_leaf info) = info.underlying_node ≡ leaf n v
Tracks n t = ⊥

child_items-some :
    (left i : ℕ) (f : ℕ → Option EncodedNode)
    → ((j : ℕ) → j < i + left → (e : EncodedNode) × (f j ≡ some e))
    → (items : List RlpItem) × (child_items left i f ≡ some items)
child_items-some zero i f h = ([], refl)
child_items-some (suc left) i f h =
    let (e, p) = h i (omega arith) in
    let (es, q) = child_items-some left (i + 1) f (λ j to. h j (omega arith)) in
    (append_to_stream e ∷ es, rw (p, q) refl)

pub child_items-same :
    (left i : ℕ) (f g : ℕ → Option EncodedNode)
    → ((j : ℕ) → j < i + left → f j ≡ g j)
    → child_items left i f ≡ child_items left i g
child_items-same zero i f g h = refl
child_items-same (suc left) i f g h =
    rw (h i (omega arith), child_items-same left (i + 1) f g (λ j to. h j (omega arith))) refl

child_array-some :
    (Q : ℕ → Node → Type 0) (left i : ℕ) (f : ℕ → Option Node)
    → ((j : ℕ) → j < i + left → (s : Node) × (f j ≡ some s) × Q j s)
    → (array : ℕ → Node) × (child_array left i f ≡ some array)
      × ((j : ℕ) → i ≤ j → j < i + left → Q j (array j))
child_array-some Q zero i f h = (λ j. empty, refl, λ j a b. absurd (omega arith))
child_array-some Q (suc left) i f h =
    let (s, e, q) = h i (omega arith) in
    let (others, p, all) = child_array-some Q left (i + 1) f (λ j to. h j (omega arith)) in
    (
      λ j. if j == i then s else others j,
      rw (e, p) refl,
      λ j from to. elim (Bool-cases (j == i)) [
        | inl here ↦ rw (here, (==_iff j i).0 here) q
        | inr later ↦ rw later (all j (after j i from later) (omega arith))
      ],
    )
  where
    after : (j i : ℕ) → i ≤ j → (j == i) ≡ false → i + 1 ≤ j
    after j i from later = ground (arith, from, later)

module _ (rlp_list : List RlpItem → Bytes) (null_rlp : Bytes) (keccak : Bytes → H256) where
  abbrev encode : Node → Option EncodedNode
  encode n = rlp_encode_and_hash_node rlp_list null_rlp keccak n

  pub encode-some :
      (n : Node) (len : ℕ) → Fixed len n → len ≤ 64 → (e : EncodedNode) × (encode n ≡ some e)
  unfolding rlp_encode_and_hash_node
  encode-some empty len f h = (raw null_rlp, refl)
  encode-some (hash x) len f h = (hashed x, refl)
  encode-some (branch c v) zero f h = absurd f
  encode-some (branch c v) (suc len) f h =
      let (items, p) =
        child_items-some 16 0 (λ i. encode (c i))
          (λ j to. encode-some (c j) len (f.1 j to) (omega arith)) in
      (
        hash_bytes_if_large_enough rlp_list null_rlp keccak
            (rlp_list (items ++ ((if is_empty_bytes v then string [] else string v) ∷ []))),
        rw p refl,
      )
  encode-some (extension n child) len (l, rest, hl, en, pos, el, f) h =
      let (key, k) = to_hex_prefix_encoding-some n false (rw en (omega arith)) in
      let (e, p) = encode-some child rest f (omega arith) in
      (
        hash_bytes_if_large_enough rlp_list null_rlp keccak
            (rlp_list (string key ∷ (append_to_stream e ∷ []))),
        rw (k, p) refl,
      )
  encode-some (leaf n v) len (l, hl, en, el) h =
      let (key, k) = to_hex_prefix_encoding-some n true (rw en (omega arith)) in
      (
        hash_bytes_if_large_enough rlp_list null_rlp keccak
            (rlp_list (string key ∷ (string v ∷ []))),
        rw k refl,
      )

  -- Some node with the encoding of the given one.
  abbrev Same : Node → Option Node → Type 0
  Same n out = (s : Node) × (out ≡ some s) × (encode s ≡ encode n)

  cut-Same :
      (n : Node) (len : ℕ) (info : TrackedNodeInfo) (kept : Option Node)
      → Fixed len n
      → len ≤ 64
      → info.underlying_node ≡ n
      → Same n kept
      → Same n (cut rlp_list null_rlp keccak info kept)
  unfolding rlp_encode_and_hash_node
  cut-Same n len info kept f h u same = elim (Bool-cases info.touched) [
    | inl marked ↦ rw marked same
    | inr not_marked ↦
        let (e, p) = encode-some n len f h in rw (not_marked, u) (by_size (encode n) e refl p)
  ]
    where
      by_size :
          (o : Option EncodedNode) (e : EncodedNode)
          → encode n ≡ o
          → o ≡ some e
          → Same n (hashed_or rlp_list null_rlp keccak o kept)
      by_size none e q p = cc
      by_size (some (raw b)) e q p = same
      by_size (some (hashed x)) e q p = (hash x, refl, sym q)

  pub create-Same :
      (n : Node) (t : TrackedNode) (len : ℕ)
      → Fixed len n
      → len ≤ 64
      → Tracks n t
      → Same n (create_partial_trie_subset_from_tracked_trie rlp_list null_rlp keccak t)
  unfolding create_partial_trie_subset_from_tracked_trie rlp_encode_and_hash_node
  create-Same empty (tracked tracked_empty info) len f h u =
      cut-Same empty len info _ f h u (empty, refl, refl)
  create-Same (hash x) (tracked tracked_hash info) len f h u =
      cut-Same (hash x) len info _ f h u (hash x, rw u refl, refl)
  create-Same (branch c v) (tracked (tracked_branch d) info) zero f h u = absurd f
  create-Same (branch c v) (tracked (tracked_branch d) info) (suc len) f h (u, below) =
      let (array, p, all) =
        child_array-some (λ j s. encode s ≡ encode (c j)) 16 0
          (λ i. create_partial_trie_subset_from_tracked_trie rlp_list null_rlp keccak (d i))
          (λ j to. create-Same (c j) (d j) len (f.1 j to) (omega arith) (below j to)) in
      let same : child_items 16 0 (λ i. encode (array i)) ≡ child_items 16 0 (λ i. encode (c i)) =
        child_items-same 16 0 (λ i. encode (array i)) (λ i. encode (c i))
          (λ j to. all j (omega arith) to) in
      cut-Same (branch c v) (suc len) info _ f h u (branch array v, rw (u, p) refl, rw same refl)
  create-Same (extension n child) (tracked (tracked_extension d) info) len
        (l, rest, hl, en, pos, el, f) h (u, below) =
      let (s, p, e) = create-Same child d rest f (omega arith) below in
      cut-Same (extension n child) len info _ (l, rest, hl, en, pos, el, f) h u
        (extension n s, rw (u, p) refl, rw e refl)
  create-Same (leaf n v) (tracked tracked_leaf info) len f h u =
      cut-Same (leaf n v) len info _ f h u (leaf n v, rw u refl, refl)
  create-Same n t len f h u = absurd u
