-- ===== src/Mpt/Subsets/Resets.antt =====
-- Resetting the marks between two subsets.
use mathlib.Core.Path.{fun_ext}
use zk_evm.Prelude.{
  ℕ, ◌≡◌, refl, ap, sym, ◌∙◌, Bool, true, false, Bool-cases, inl, inr, List, [], ◌∷◌, All, ◌==◌,
  ==_iff, ltb, Option, some, none, if◌then◌else◌,
}
use zk_evm.Mpt.Nibbles.{
  Nibbles, is_empty, pop_next_nibble_front, pop_nibbles_front,
  nibbles_are_identical_up_to_smallest_count,
}
use zk_evm.Mpt.Node.{Bytes, H256, Node, empty, hash, branch, extension, leaf}
use zk_evm.Mpt.Hashing.{RlpItem}
use zk_evm.Mpt.Subsets.{
  TrackedNodeInfo, TrackedNode, tracked, tracked_empty, tracked_hash, tracked_leaf, tracked_branch,
  tracked_extension, track, touch, reset, set_tracked, reset_info, reset_tracked_trie_state,
  SubsetTrieResult, ok, hash_on_path, panic, ◌>>=◌, call, get_nibbles_expected,
  mark_nodes_that_are_needed, mark_all, create_partial_trie_subset_from_tracked_trie,
  create_trie_subset_intern, create_trie_subset, subsets_loop, create_trie_subsets,
}

-- All marks are taken away, the mark of the root too.
abbrev unmarked : TrackedNode → TrackedNode
unmarked t = reset_info (reset_tracked_trie_state t)

unmarked-track : (n : Node) → unmarked (track n) ≡ track n
unfolding track reset_tracked_trie_state
unmarked-track empty = refl
unmarked-track (hash h) = refl
unmarked-track (branch c v) =
    ap
      (λ (d : ℕ → TrackedNode).
        tracked (tracked_branch d) (record { underlying_node = branch c v; touched = false }))
      (fun_ext (λ i. unmarked-track (c i)))
unmarked-track (extension n c) =
    ap
      (λ d.
        tracked (tracked_extension d) (record { underlying_node = extension n c; touched = false }))
      (unmarked-track c)
unmarked-track (leaf n v) = refl

-- The nodes are the same, apart from their marks.
abbrev Keeps : TrackedNode → SubsetTrieResult TrackedNode → Type 0
Keeps t (ok t') = unmarked t' ≡ unmarked t
Keeps t hash_on_path = Unit
Keeps t panic = Unit

call-Keeps :
    {A : Type 0} (t : TrackedNode) (o : Option A) (f : A → SubsetTrieResult TrackedNode)
    → ((a : A) → Keeps t (f a))
    → Keeps t (call o >>= f)
call-Keeps t none f h = tt
call-Keeps t (some a) f h = h a

child-Keeps :
    (t child : TrackedNode) (r : SubsetTrieResult TrackedNode)
    (f : TrackedNode → SubsetTrieResult TrackedNode)
    → Keeps child r
    → ((c : TrackedNode) → unmarked c ≡ unmarked child → Keeps t (f c))
    → Keeps t (r >>= f)
child-Keeps t child (ok c) f k h = h c k
child-Keeps t child hash_on_path f k h = tt
child-Keeps t child panic f k h = tt

set_tracked-unmarked :
    (d : ℕ → TrackedNode) (n : ℕ) (c : TrackedNode)
    → unmarked c ≡ unmarked (d n)
    → (i : ℕ) → unmarked (set_tracked d n c i) ≡ unmarked (d i)
set_tracked-unmarked d n c h i = elim (Bool-cases (i == n)) [
  | inl here ↦ rw (here, (==_iff i n).0 here) h
  | inr other ↦ rw other refl
]

step_in-Keeps :
    (d : ℕ → TrackedNode) (info : TrackedNodeInfo)
    → ((i : ℕ) (k : Nibbles) → Keeps (d i) (mark_nodes_that_are_needed (d i) k))
    → (nib : ℕ) (rest : Nibbles)
    → Keeps (tracked (tracked_branch d) info) (
        (if ltb nib 16 then mark_nodes_that_are_needed (d nib) rest else panic) >>= λ child.
        ok (tracked (tracked_branch (set_tracked d nib child)) (touch info)))
unfolding mark_nodes_that_are_needed reset_tracked_trie_state
step_in-Keeps d info below nib rest = elim (Bool-cases (ltb nib 16)) [
  | inr out ↦ rw out tt
  | inl inside ↦ rw inside (
      child-Keeps (tracked (tracked_branch d) info) (d nib)
        (mark_nodes_that_are_needed (d nib) rest) _ (below nib rest)
        (λ c same.
          ap (λ (e : ℕ → TrackedNode). tracked (tracked_branch e) (reset info))
            (fun_ext (set_tracked-unmarked d nib c same))))
]

along-Keeps :
    (d : TrackedNode) (info : TrackedNodeInfo)
    → ((k : Nibbles) → Keeps d (mark_nodes_that_are_needed d k))
    → (k nibbles : Nibbles) (identical : Bool)
    → Keeps (tracked (tracked_extension d) info) (
        if identical
        then (call (pop_nibbles_front k nibbles.count) >>= λ (front, rest).
            mark_nodes_that_are_needed d rest >>= λ child'.
            ok (tracked (tracked_extension child') (touch info)))
        else ok (tracked (tracked_extension d) (touch info)))
unfolding mark_nodes_that_are_needed reset_tracked_trie_state
along-Keeps d info below k nibbles false = refl
along-Keeps d info below k nibbles true =
    call-Keeps (tracked (tracked_extension d) info) (pop_nibbles_front k nibbles.count) _
      (λ (front, rest).
        child-Keeps (tracked (tracked_extension d) info) d (mark_nodes_that_are_needed d rest) _
          (below rest) (λ c same. ap (λ e. tracked (tracked_extension e) (reset info)) same))

mark-Keeps : (t : TrackedNode) (k : Nibbles) → Keeps t (mark_nodes_that_are_needed t k)
unfolding mark_nodes_that_are_needed reset_tracked_trie_state
mark-Keeps (tracked tracked_empty info) k = refl
mark-Keeps (tracked tracked_hash info) k = elim (Bool-cases (is_empty k)) [
  | inl e ↦ rw e refl
  | inr n ↦ rw n tt
]
mark-Keeps (tracked (tracked_branch d) info) k = elim (Bool-cases (is_empty k)) [
  | inl e ↦ rw e refl
  | inr n ↦ rw n (
      call-Keeps (tracked (tracked_branch d) info) (pop_next_nibble_front k) _
        (λ (nib, rest). step_in-Keeps d info (λ i r. mark-Keeps (d i) r) nib rest))
]
mark-Keeps (tracked (tracked_extension d) info) k = elim (Bool-cases (is_empty k)) [
  | inl e ↦ rw e refl
  | inr n ↦ rw n (
      call-Keeps (tracked (tracked_extension d) info) (get_nibbles_expected info.underlying_node) _
        (λ nibbles.
          call-Keeps (tracked (tracked_extension d) info)
            (nibbles_are_identical_up_to_smallest_count k nibbles) _
            (λ identical. along-Keeps d info (λ r. mark-Keeps d r) k nibbles identical)))
]
mark-Keeps (tracked tracked_leaf info) k = refl

mark_all-Keeps : (t : TrackedNode) (ks : List Nibbles) → Keeps t (mark_all t ks)
unfolding mark_all
mark_all-Keeps t [] = refl
mark_all-Keeps t (k ∷ ks) =
    child-Keeps t t (mark_nodes_that_are_needed t k) _ (mark-Keeps t k)
      (λ c same. again c same (mark_all c ks) (mark_all-Keeps c ks))
  where
    again :
        (c : TrackedNode)
        → unmarked c ≡ unmarked t
        → (r : SubsetTrieResult TrackedNode) → Keeps c r
        → Keeps t r
    again c same (ok u) h = h ∙ same
    again c same hash_on_path h = tt
    again c same panic h = tt

-- The root's own mark does not matter for a key that is not empty.
mark-reset_info :
    (t : TrackedNode) (k : Nibbles)
    → is_empty k ≡ false
    → mark_nodes_that_are_needed (reset_info t) k ≡ mark_nodes_that_are_needed t k
unfolding mark_nodes_that_are_needed
mark-reset_info (tracked tracked_empty info) k e = refl
mark-reset_info (tracked tracked_hash info) k e = refl
mark-reset_info (tracked (tracked_branch d) info) k e = rw e refl
mark-reset_info (tracked (tracked_extension d) info) k e = rw e refl
mark-reset_info (tracked tracked_leaf info) k e = refl

-- The first of some keys is not empty.
abbrev pub StartsInside : List Nibbles → Type 0
StartsInside [] = ⊥
StartsInside (k ∷ ks) = is_empty k ≡ false

mark_all-reset_info :
    (t : TrackedNode) (ks : List Nibbles)
    → StartsInside ks
    → mark_all (reset_info t) ks ≡ mark_all t ks
unfolding mark_all
mark_all-reset_info t [] h = absurd h
mark_all-reset_info t (k ∷ ks) h = rw (mark-reset_info t k h) refl

-- One result for each element, up to the first failure.
unfoldable pub try_each {ℓ κ} :
    {A : Type ℓ} {B : Type κ} → (A → SubsetTrieResult B) → List A → SubsetTrieResult (List B)
try_each f [] = ok []
try_each f (a ∷ as') = do b ← f a; bs ← try_each f as'; ok (b ∷ bs)

module _ (rlp_list : List RlpItem → Bytes) (null_rlp : Bytes) (keccak : Bytes → H256)
    (n : Node) where
  abbrev made : TrackedNode → SubsetTrieResult (Node × TrackedNode)
  made t' =
      call (create_partial_trie_subset_from_tracked_trie rlp_list null_rlp keccak t') >>= λ res.
      ok (res, t')

  abbrev Agrees : List (List Nibbles) → TrackedNode → Type 0
  Agrees kss t =
      subsets_loop rlp_list null_rlp keccak t kss
      ≡ try_each (create_trie_subset rlp_list null_rlp keccak n) kss

  one_subset :
      (kss : List (List Nibbles)) (r : SubsetTrieResult TrackedNode)
      → ((t : TrackedNode) → reset_info t ≡ track n → Agrees kss t)
      → Keeps (track n) r
      → ((r >>= made) >>= λ (res, t').
          subsets_loop rlp_list null_rlp keccak (reset_tracked_trie_state t') kss >>= λ rest.
          ok (res ∷ rest))
        ≡ (((r >>= made) >>= λ (res, t'). ok res) >>= λ res.
            try_each (create_trie_subset rlp_list null_rlp keccak n) kss >>= λ rest.
            ok (res ∷ rest))
  one_subset kss hash_on_path more k = refl
  one_subset kss panic more k = refl
  one_subset kss (ok t') more k =
      let rest : Agrees kss (reset_tracked_trie_state t') =
        more (reset_tracked_trie_state t') (k ∙ unmarked-track n) in
      finish (create_partial_trie_subset_from_tracked_trie rlp_list null_rlp keccak t') rest
    where
      finish :
          (o : Option Node)
          → Agrees kss (reset_tracked_trie_state t')
          → (((call o >>= λ res. ok (res, t'))) >>= λ (res, t').
              subsets_loop rlp_list null_rlp keccak (reset_tracked_trie_state t') kss >>= λ rest.
              ok (res ∷ rest))
            ≡ (((call o >>= λ res. ok (res, t')) >>= λ (res, t'). ok res) >>= λ res.
                try_each (create_trie_subset rlp_list null_rlp keccak n) kss >>= λ rest.
                ok (res ∷ rest))
      finish none rest = refl
      finish (some res) rest = rw rest refl

  loop-try_each :
      (t : TrackedNode) (kss : List (List Nibbles))
      → reset_info t ≡ track n
      → All StartsInside kss
      → Agrees kss t
  unfolding subsets_loop try_each create_trie_subset create_trie_subset_intern
  loop-try_each t [] e h = refl
  loop-try_each t (ks ∷ kss) e (first, more) =
      let marks : mark_all t ks ≡ mark_all (track n) ks =
        sym (mark_all-reset_info t ks first) ∙ ap (λ u. mark_all u ks) e in
      rw marks (
        one_subset kss (mark_all (track n) ks) (λ u h. loop-try_each u kss h more)
          (mark_all-Keeps (track n) ks))

  -- For lists of keys, each of which starts with a key that is not empty: the subsets for all the
  -- lists are those that `create_trie_subset` makes for each list alone, with its error or panic
  -- where it has one, whatever RLP and keccak compute.
  pub create_trie_subsets-create_trie_subset :
      (kss : List (List Nibbles))
      → All StartsInside kss
      → create_trie_subsets rlp_list null_rlp keccak n kss
        ≡ try_each (create_trie_subset rlp_list null_rlp keccak n) kss
  unfolding create_trie_subsets track
  create_trie_subsets-create_trie_subset kss h = loop-try_each (track n) kss (reset_track n) h
    where
      reset_track : (m : Node) → reset_info (track m) ≡ track m
      reset_track empty = refl
      reset_track (hash x) = refl
      reset_track (branch c v) = refl
      reset_track (extension l c) = refl
      reset_track (leaf l v) = refl
