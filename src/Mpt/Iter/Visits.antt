-- ===== src/Mpt/Iter/Visits.antt =====
-- A visit of a node gives the items below it, in the order of a plain walk through the trie, and
-- leaves the stack and the key as they were.
use zk_evm.Prelude.{
  ℕ, zero, suc, ◌+◌, ◌-◌, ◌≤◌, ◌<◌, ◌≡◌, refl, ap, sym, ◌∙◌, arith, true, Option, none, some, List,
  [], ◌∷◌, ◌++◌, length, length-append, take, take-length, append-nil, append_assoc, take_all,
  length-take, All-take, All-append, Bool-cases, inl, inr, ==_iff, leb, ◌==◌, if◌then◌else◌,
}
use zk_evm.Mpt.Nibbles.{is_empty}
use zk_evm.Mpt.Nibbles.Value.{IsNibs, nib, digits-value}
use zk_evm.Mpt.Nibbles.Joins.{merge_nibbles-nib, merge_nibble-nib, push_nibble_back-nib}
use zk_evm.Mpt.Nibbles.Slices.{truncate_n_nibbles_back-nib}
use zk_evm.Mpt.Node.{
  Bytes, Node, empty, hash, branch, extension, leaf, node_type, val, hash_val, is_empty_bytes,
}
use zk_evm.Mpt.Iter.{
  IterStackEntry, extension_entry, branch_entry, PartialTrieIter, TrieItem,
  advance_iter_to_next_empty_leaf_or_hash_node, visit, sum_from, rounds,
}
use zk_evm.Mpt.Iter.Walk.{
  concat_from, own_items, walk, Walkable, Fits, at, found, Emits, rest, turn, found-append,
  Emits-append,
}

abbrev pub without_last : List ℕ → List ℕ
without_last k = take (length k - 1) k

without_last-append : (k : List ℕ) (x : ℕ) → without_last (k ++ (x ∷ [])) ≡ k
without_last-append [] x = refl
without_last-append (y ∷ k) x =
    ap (λ (n : ℕ). take n (y ∷ (k ++ (x ∷ [])))) count ∙ take-length (y ∷ k) (x ∷ [])
  where
    count : length (y ∷ (k ++ (x ∷ []))) - 1 ≡ length (y ∷ k)
    count = omega (arith, length-append k (x ∷ []))

-- What a visit of a node at a key promises, above any stack.
abbrev pub Visited : List ℕ → Node → Type 0
Visited k t =
    (stack : List IterStackEntry)
    → (self' : PartialTrieIter) × (item : Option TrieItem) × (n : ℕ) × (xs : List TrieItem)
      × (advance_iter_to_next_empty_leaf_or_hash_node (at (without_last k) stack) t (nib k)
          ≡ some (self', item))
      × (n ≤ rounds t)
      × Emits n self' xs (at (without_last k) stack)
      × (found item xs ≡ walk k t)

visit_leaf :
    (k l : List ℕ) (v : Bytes)
    → IsNibs k
    → IsNibs l
    → length k + length l ≤ 64
    → Visited k (leaf (nib l) v)
unfolding advance_iter_to_next_empty_leaf_or_hash_node
visit_leaf k l v hk hl fits stack = (
  at (without_last k) stack,
  some (nib (k ++ l), val v),
  0,
  [],
  rw (merge_nibbles-nib k l hk hl fits) refl,
  omega arith,
  rest,
  rw (digits-value l hl) refl,
)

-- What is left of a branch when the children below an index are done.
module _ (k : List ℕ) (c : ℕ → Node) (v : Bytes) (hk : IsNibs k) (short : length k < 64)
    (stack : List IterStackEntry) (below : (i : ℕ) → i < 16 → Visited (k ++ (i ∷ [])) (c i)) where
  abbrev entry : ℕ → IterStackEntry
  entry i = branch_entry (record { children = c; value = v; curr_nib = i })

  abbrev child_rounds : ℕ → ℕ
  child_rounds i = 1 + rounds (c i)

  abbrev child_walk : ℕ → List TrieItem
  child_walk i = walk (k ++ (i ∷ [])) (c i)

  found_own : found (if is_empty_bytes v then none else some (nib k, val v)) [] ≡ own_items k v
  found_own = own v
    where
      own :
          (v : Bytes)
          → found (if is_empty_bytes v then none else some (nib k, val v)) [] ≡ own_items k v
      own [] = refl
      own (b ∷ bs) = refl

  go_up :
      visit (at k stack) (entry 16)
      ≡ some (at (without_last k) stack, if is_empty_bytes v then none else some (nib k, val v))
  unfolding visit is_empty
  go_up = elim (Bool-cases (length k == 0)) [
    | inl at_root ↦ rw (at_root, take_none ((==_iff (length k) 0).0 at_root)) refl
    | inr deeper ↦ rw (deeper, truncate_n_nibbles_back-nib k hk (omega arith) 1) refl
  ]
    where
      take_none : length k ≡ 0 → without_last k ≡ k
      take_none e = take_all (length k - 1) k (omega arith)

  last_child : Emits 1 (at k (entry 16 ∷ stack)) (own_items k v) (at (without_last k) stack)
  last_child = rw (sym found_own) (turn go_up rest)

  visit_child :
      (i : ℕ)
      → 1 ≤ i
      → i < 16
      → (n : ℕ) × (n ≤ child_rounds i)
        × Emits n (at k (entry i ∷ stack)) (child_walk i) (at k (entry (i + 1) ∷ stack))
  unfolding visit
  visit_child i from to =
      let (self', item, n, xs, e, few, p, w) = below i to (entry (i + 1) ∷ stack) in
      let one : leb 1 i ≡ true = ground arith in
      let fifteen : leb i 15 ≡ true = ground arith in
      let step : visit (at k stack) (entry i) ≡ some (self', item) =
        rw (one, fifteen, merge_nibble-nib k i hk to short) (rw (without_last-append k i) at e) in
      (suc n, omega arith, rw (sym w) (turn {n = n} step (rw (without_last-append k i) at p)))

  children_left :
      (left i : ℕ)
      → left + i ≡ 16
      → 1 ≤ i
      → (n : ℕ) × (n ≤ sum_from left i child_rounds + 1)
        × Emits n
            (at k (entry i ∷ stack))
            (concat_from left i child_walk ++ own_items k v)
            (at (without_last k) stack)
  children_left zero i e from = (1, omega arith, rw (i_is i e) last_child)
    where
      i_is : (i : ℕ) → 0 + i ≡ 16 → i ≡ 16
      i_is i e = omega arith
  children_left (suc left) i e from =
      let (n, few, p) = visit_child i from (omega arith) in
      let (m, few', q) = children_left left (i + 1) (omega arith) (omega arith) in
      (
        n + m,
        omega arith,
        rw (append_assoc (child_walk i) (concat_from left (i + 1) child_walk) (own_items k v))
            (Emits-append p q),
      )

-- The first child is visited at once.
visit_branch :
    (k : List ℕ) (c : ℕ → Node) (v : Bytes)
    → IsNibs k
    → length k < 64
    → ((i : ℕ) → i < 16 → Visited (k ++ (i ∷ [])) (c i))
    → Visited k (branch c v)
unfolding advance_iter_to_next_empty_leaf_or_hash_node
visit_branch k c v hk short below stack =
    let first : List IterStackEntry = entry k c v hk short stack below 1 ∷ stack in
    let (self', item, n, xs, e, few, p, w) = below 0 (omega arith) first in
    let (m, few', q) = children_left k c v hk short stack below 15 1 refl (omega arith) in
    let others : List TrieItem =
      concat_from 15 1 (λ i. walk (k ++ (i ∷ [])) (c i)) ++ own_items k v in
    (
      self',
      item,
      n + m,
      xs ++ others,
      rw (push_nibble_back-nib k 0 hk (omega arith) short) (rw (without_last-append k 0) at e),
      omega arith,
      Emits-append (rw (without_last-append k 0) at p) q,
      found-append item xs others
          ∙ ap (λ t. t ++ others) w
          ∙ sym (append_assoc (walk (k ++ (0 ∷ [])) (c 0)) _ (own_items k v)),
    )

-- Going up through an extension takes its nibbles off the key again.
cut_twice :
    (k l : List ℕ)
    → take (length (without_last (k ++ l)) - length l) (without_last (k ++ l)) ≡ without_last k
cut_twice k l =
    ap (λ (m : ℕ). take m (without_last (k ++ l))) count
    ∙ take-take (length k - 1) (length (k ++ l) - 1) k (omega arith)
        (omega (arith, length-append k l))
  where
    count : length (without_last (k ++ l)) - length l ≡ length k - 1
    count = omega (arith, length-append k l, length-take (length (k ++ l) - 1) (k ++ l))

    take-take : (m n : ℕ) (k : List ℕ) → m ≤ length k → m ≤ n → take m (take n (k ++ l)) ≡ take m k
    take-take zero n k h g = refl
    take-take (suc m) n [] h g = absurd (omega arith)
    take-take (suc m) zero (x ∷ k) h g = absurd (omega arith)
    take-take (suc m) (suc n) (x ∷ k) h g =
        ap (λ t. x ∷ t) (take-take m n k (omega arith) (omega arith))

visit_extension :
    (k l : List ℕ) (child : Node)
    → IsNibs k
    → IsNibs l
    → length k + length l ≤ 64
    → Walkable child
    → Visited (k ++ l) child
    → Visited k (extension (nib l) child)
unfolding advance_iter_to_next_empty_leaf_or_hash_node visit node_type
visit_extension k l (hash h) hk hl fits walkable below stack = (
  at (without_last k) stack,
  some (nib (k ++ l), hash_val h),
  0,
  [],
  rw (merge_nibbles-nib k l hk hl fits) refl,
  omega arith,
  rest,
  rw (digits-value l hl) refl,
)
visit_extension k l (branch c v) hk hl fits walkable below stack =
    let (self', item, n, xs, e, few, p, w) = below (extension_entry (length l) ∷ stack) in
    (
      self',
      item,
      n + 1,
      xs,
      rw (merge_nibbles-nib k l hk hl fits) e,
      omega arith,
      rw (append-nil xs) at (Emits-append p (turn {n = 0} back rest)),
      rw (digits-value l hl) w,
    )
  where
    short : length (without_last (k ++ l)) ≤ 64
    short = omega (arith, length-append k l, length-take (length (k ++ l) - 1) (k ++ l))

    back :
        visit (at (without_last (k ++ l)) stack) (extension_entry (length l))
        ≡ some (at (without_last k) stack, none)
    back =
        rw
          (
            truncate_n_nibbles_back-nib (without_last (k ++ l))
                (All-take _ (length (k ++ l) - 1) (k ++ l) (All-append _ k l hk hl)) short
                (length l),
            cut_twice k l,
          )
          refl
visit_extension k l child hk hl fits walkable below stack = absurd walkable

pub Fits-Visited :
    (t : Node) (len : ℕ) (k : List ℕ) → Fits len t → IsNibs k → length k + len ≤ 64 → Visited k t
unfolding advance_iter_to_next_empty_leaf_or_hash_node
Fits-Visited empty len k f hk short stack =
    (at (without_last k) stack, none, 0, [], refl, omega arith, rest, refl)
Fits-Visited (hash h) len k f hk short stack =
    (at (without_last k) stack, some (nib k, hash_val h), 0, [], refl, omega arith, rest, refl)
Fits-Visited (branch c v) zero k f hk short stack = absurd f
Fits-Visited (branch c v) (suc len) k f hk short stack =
    visit_branch k c v hk (omega arith)
      (λ i hi.
        Fits-Visited (c i) len (k ++ (i ∷ [])) (f i hi) (All-append _ k (i ∷ []) hk (hi, tt))
          (omega (arith, length-append k (i ∷ []))))
      stack
Fits-Visited (extension n child) len k (l, left, hl, en, el, walkable, f) hk short stack = rw en (
    visit_extension k l child hk hl (omega arith) walkable
      (Fits-Visited child left (k ++ l) f (All-append _ k l hk hl)
        (omega (arith, length-append k l)))
      stack)
Fits-Visited (leaf n v) len k (l, hl, en, el) hk short stack =
    rw en (visit_leaf k l v hk hl (omega arith) stack)
