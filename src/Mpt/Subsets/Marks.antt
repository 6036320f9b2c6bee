-- ===== src/Mpt/Subsets/Marks.antt =====
-- Marking the nodes that some keys need, and the subsets that come of it.
use zk_evm.Prelude.{
  ℕ, zero, suc, ◌≤◌, ◌≡◌, refl, arith, Option, List, [], ◌∷◌, length, drop, map, All, All-drop,
  length-drop, Bool-cases, inl, inr, ◌==◌, ==_iff, ltb-lt,
}
use zk_evm.Mpt.Nibbles.Value.{nib, IsNibs}
use zk_evm.Mpt.Nibbles.Compare.{agree, identical-nib}
use zk_evm.Mpt.Nibbles.Access.{pop_next_nibble_front-nib, is_empty-cons}
use zk_evm.Mpt.Nibbles.Slices.{pop_nibbles_front-nib}
use zk_evm.Mpt.Node.{Bytes, H256, Node, empty, hash, branch, extension, leaf}
use zk_evm.Mpt.Trie.Meaning.{Fixed, Hashless}
use zk_evm.Mpt.Hashing.{RlpItem, hash_trie}
use zk_evm.Mpt.Subsets.{
  TrackedNode, tracked, tracked_empty, tracked_hash, tracked_leaf, tracked_branch,
  tracked_extension, track, touch, set_tracked, ok, mark_nodes_that_are_needed, mark_all,
  create_trie_subset_intern, create_trie_subset,
}
use zk_evm.Mpt.Subsets.Hashes.{Tracks, create-Same}

track-Tracks : (n : Node) → Tracks n (track n)
unfolding track
track-Tracks empty = refl
track-Tracks (hash h) = refl
track-Tracks (branch c v) = (refl, λ i to. track-Tracks (c i))
track-Tracks (extension n c) = (refl, track-Tracks c)
track-Tracks (leaf n v) = refl

mark-Tracks :
    (n : Node) (t : TrackedNode) (len : ℕ) (k : List ℕ)
    → Fixed len n
    → Hashless n
    → Tracks n t
    → IsNibs k
    → length k ≡ len
    → len ≤ 64
    → (t' : TrackedNode) × (mark_nodes_that_are_needed t (nib k) ≡ ok t') × Tracks n t'
unfolding mark_nodes_that_are_needed
mark-Tracks empty (tracked tracked_empty info) len k f h u hk e fits = (_, refl, u)
mark-Tracks (hash x) (tracked tracked_hash info) len k f h u hk e fits = absurd h
mark-Tracks (branch c v) (tracked (tracked_branch d) info) zero k f h u hk e fits = absurd f
mark-Tracks (branch c v) (tracked (tracked_branch d) info) (suc len) [] f h u hk e fits =
    absurd (omega arith)
mark-Tracks (branch c v) (tracked (tracked_branch d) info) (suc len) (x ∷ k) f h (u, below) hk e
      fits =
    let (t', run, tracks) =
      mark-Tracks (c x) (d x) len k (f.1 x hk.0) (h x hk.0) (below x hk.0) hk.1 (omega arith)
        (omega arith) in
    (
      tracked (tracked_branch (set_tracked d x t')) (touch info),
      rw (is_empty-cons x k, pop_next_nibble_front-nib x k hk (omega arith), ltb-lt x 16 hk.0, run)
          refl,
      (
        u,
        λ j to. elim (Bool-cases (j == x)) [
          | inl here ↦ rw (here, (==_iff j x).0 here) tracks
          | inr other ↦ rw other (below j to)
        ],
      ),
    )
mark-Tracks (extension n child) (tracked (tracked_extension d) info) len []
      (l, rest, hl, en, pos, el, f) h (u, below) hk e fits =
    absurd (omega arith)
mark-Tracks (extension n child) (tracked (tracked_extension d) info) len (x ∷ k)
      (l, rest, hl, en, pos, el, f) h (u, below) hk e fits =
    elim (Bool-cases (agree (x ∷ k) l)) [
      | inl fit ↦
          let (t', run, tracks) =
            mark-Tracks child d rest (drop (length l) (x ∷ k)) f h below
              (All-drop _ (length l) (x ∷ k) hk) (omega (arith, length-drop (length l) (x ∷ k)))
              (omega arith) in
          (
            tracked (tracked_extension t') (touch info),
            rw
                (
                  is_empty-cons x k,
                  u,
                  en,
                  identical-nib (x ∷ k) l hk hl (omega arith) (omega arith),
                  fit,
                  pop_nibbles_front-nib (x ∷ k) hk (omega arith) (length l) (omega arith),
                  run,
                )
                refl,
            (u, tracks),
          )
      | inr part ↦ (
        tracked (tracked_extension d) (touch info),
        rw
            (
              is_empty-cons x k,
              u,
              en,
              identical-nib (x ∷ k) l hk hl (omega arith) (omega arith),
              part,
            )
            refl,
        (u, below),
      )
    ]
mark-Tracks (leaf n v) (tracked tracked_leaf info) len k f h u hk e fits = (_, refl, u)
mark-Tracks n t len k f h u hk e fits = absurd u

-- The keys of a list have a given length.
abbrev pub KeysOf : ℕ → List (List ℕ) → Type 0
KeysOf len ks = All (λ k. IsNibs k × (length k ≡ len)) ks

mark_all-Tracks :
    (n : Node) (t : TrackedNode) (len : ℕ) (ks : List (List ℕ))
    → Fixed len n
    → Hashless n
    → Tracks n t
    → KeysOf len ks
    → len ≤ 64
    → (t' : TrackedNode) × (mark_all t (map nib ks) ≡ ok t') × Tracks n t'
unfolding mark_all
mark_all-Tracks n t len [] f h u keys fits = (t, refl, u)
mark_all-Tracks n t len (k ∷ ks) f h u ((hk, e), keys) fits =
    let (t1, run, u1) = mark-Tracks n t len k f h u hk e fits in
    let (t2, run', u2) = mark_all-Tracks n t1 len ks f h u1 keys fits in (t2, rw run run', u2)

module _ (rlp_list : List RlpItem → Bytes) (null_rlp : Bytes) (keccak : Bytes → H256) (n : Node)
    (len : ℕ) (f : Fixed len n) (h : Hashless n) (fits : len ≤ 64) where
  abbrev root_of : Node → Option H256
  root_of s = hash_trie rlp_list null_rlp keccak s

  intern-root :
      (t : TrackedNode) (ks : List (List ℕ))
      → Tracks n t
      → KeysOf len ks
      → (s : Node) × (t' : TrackedNode) × (create_trie_subset_intern rlp_list null_rlp keccak t
            (map nib ks)
          ≡ ok (s, t'))
        × (root_of s ≡ root_of n)
        × Tracks n t'
  unfolding create_trie_subset_intern hash_trie
  intern-root t ks u keys =
      let (t', run, u') = mark_all-Tracks n t len ks f h u keys fits in
      let (s, made, same) = create-Same rlp_list null_rlp keccak n t' len f fits u' in
      (s, t', rw (run, made) refl, rw same refl, u')

  -- For a trie over keys of one length, of at most 64 nibbles, with no hash node, and a list of keys of
  -- that length: a subset is made without an error or a panic, and it has the hash of the trie,
  -- whatever RLP and keccak compute.
  pub hash_trie-create_trie_subset :
      (ks : List (List ℕ))
      → KeysOf len ks
      → (s : Node) × (create_trie_subset rlp_list null_rlp keccak n (map nib ks) ≡ ok s)
        × (hash_trie rlp_list null_rlp keccak s ≡ hash_trie rlp_list null_rlp keccak n)
  unfolding create_trie_subset
  hash_trie-create_trie_subset ks keys =
      let (s, t', run, same, u) = intern-root (track n) ks (track-Tracks n) keys in
      (s, rw run refl, same)
