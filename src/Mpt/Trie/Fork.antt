-- ===== src/Mpt/Trie/Fork.antt =====
-- Where a new key parts from an existing node: the branch that insertion puts there.
use mathlib.Core.Path.{subst}
use zk_evm.Prelude.{
  ℕ, suc, ◌+◌, ◌≤◌, ◌<◌, ◌≡◌, ◌≢◌, refl, sym, ◌∙◌, arith, List, [], ◌∷◌, ◌++◌, length, Option, none,
  some, Bool, true, false, ◌==◌, if◌then◌else◌, length-append, append-nil, ltb-lt, ==_iff, ==-ne,
  Bool-cases, inl, inr, ◌⊎◌,
}
use zk_evm.Prelude.{All-append}
use zk_evm.Mpt.Keys.{
  strip, keys_eq, keys_eq-append, common_prefix-fork, common_prefix-append, drop-fork,
}
use zk_evm.Mpt.Nibbles.{split_at_idx}
use zk_evm.Mpt.Nibbles.Value.{IsNibs, nib}
use zk_evm.Mpt.Nibbles.Compare.{different_lengths-nib}
use zk_evm.Mpt.Nibbles.Access.{get_nibble-nib}
use zk_evm.Mpt.Nibbles.Cuts.{split_append, postfix_append}
use zk_evm.Mpt.Nibbles.Slices.{truncate_n_nibbles_front-nib}
use zk_evm.Mpt.Node.{
  Bytes, Node, empty, branch, extension, leaf, ok, val, set_child, new_branch_child_arr,
}
use zk_evm.Mpt.Trie.{
  InsertEntry, ExistingAndNewNodePreAndPost, get_pre_and_postfixes_for_existing_and_new_nodes,
  ins_entry_into_leaf_and_nibble, place_beside_existing, fill_branch, create_node_from_insert_val,
  check_if_existing_or_new_node_should_go_in_branch_value_field, both_branch_children,
  place_branch_and_potentially_ext_prefix,
}
use zk_evm.Mpt.Trie.Meaning.{
  lookup, lookup-leaf, lookup-extension, lookup-child, lookup-empty, Fixed, Hashless, at_end,
}

-- An extension in front of a node, unless its key is empty.
abbrev pub wrap : List ℕ → Node → Node
wrap p node = if length p == 0 then node else extension (nib p) node

pub wrap-Hashless : (p : List ℕ) (node : Node) → Hashless node → Hashless (wrap p node)
wrap-Hashless p node h = cases (length p == 0)
  where
    cases : (c : Bool) → Hashless (if c then node else extension (nib p) node)
    cases true = h
    cases false = h

pub lookup-wrap :
    (p : List ℕ) (node : Node) (q : List ℕ)
    → IsNibs p
    → lookup (wrap p node) q ≡ elim (strip p q) [ none ↦ none | some r ↦ lookup node r ]
lookup-wrap [] node q h = refl
lookup-wrap (x ∷ p) node q h =
    rw (==-ne (length (x ∷ p)) 0 (λ e. absurd (omega arith))) (lookup-extension (x ∷ p) h node q)

abbrev pub fork_info : List ℕ → List ℕ → List ℕ → ExistingAndNewNodePreAndPost
fork_info p xa yb = record {
  common_prefix = nib p;
  existing_postfix = nib xa;
  new_postfix = nib yb;
}

-- The branch with the two nodes below a fork.
abbrev pub fork_branch : ℕ → Node → ℕ → List ℕ → Bytes → Node
fork_branch x old y b v =
    branch (set_child (set_child new_branch_child_arr x old) y (leaf (nib b) v)) []

-- What is left of a key behind the prefix of a fork, as the old node answers it.
abbrev pub behind : ℕ → Node → List ℕ → Option Bytes
behind x old [] = none
behind x old (z ∷ r) = if z == x then lookup old r else none

pub at_end-keys_eq :
    (b r : List ℕ) (v : Bytes) → at_end (strip b r) v ≡ (if keys_eq r b then some v else none)
at_end-keys_eq [] [] v = refl
at_end-keys_eq [] (z ∷ r) v = refl
at_end-keys_eq (x ∷ b) [] v = refl
at_end-keys_eq (x ∷ b) (z ∷ r) v = ground (arith, at_end-keys_eq b r v)

lookup-fork_branch :
    (x : ℕ) (old : Node) (y : ℕ) (b : List ℕ) (v : Bytes)
    → IsNibs b
    → x ≢ y
    → (r : List ℕ)
    → lookup (fork_branch x old y b v) r ≡ (if keys_eq r (y ∷ b) then some v else behind x old r)
lookup-fork_branch x old y b v hb n [] = unfold lookup in refl
lookup-fork_branch x old y b v hb n (z ∷ r) =
    lookup-child (set_child (set_child new_branch_child_arr x old) y (leaf (nib b) v)) [] z r
    ∙ cases (Bool-cases (z == y)) (Bool-cases (z == x))
  where
    cases :
        ((z == y) ≡ true) ⊎ ((z == y) ≡ false)
        → ((z == x) ≡ true) ⊎ ((z == x) ≡ false)
        → lookup (if z == y then leaf (nib b) v else if z == x then old else empty) r
          ≡ (if keys_eq (z ∷ r) (y ∷ b) then some v else behind x old (z ∷ r))
    cases (inl at_y) other =
        rw (at_y, ==-ne z x (λ e. n (sym e ∙ (==_iff z y).0 at_y)), lookup-leaf b hb v r)
          (at_end-keys_eq b r v)
    cases (inr not_y) (inl at_x) = rw (not_y, at_x)
    cases (inr not_y) (inr not_x) = rw (not_y, not_x) (lookup-empty r)

check_if-both :
    (info : ExistingAndNewNodePreAndPost) (old : Node) (entry : InsertEntry)
    → (info.existing_postfix.count == 0) ≡ false
    → check_if_existing_or_new_node_should_go_in_branch_value_field info old entry
      ≡ place_beside_existing info old entry
unfolding check_if_existing_or_new_node_should_go_in_branch_value_field
check_if-both info (leaf n v) entry h = rw h
check_if-both info old entry h = refl

module _ (p : List ℕ) (x : ℕ) (a : List ℕ) (y : ℕ) (b : List ℕ) (hp : IsNibs p)
    (ha : IsNibs (x ∷ a)) (hb : IsNibs (y ∷ b)) (differ : x ≢ y) (fa : length p + length a < 64)
    (fb : length p + length b < 64) where
  pub fork_postfixes :
      get_pre_and_postfixes_for_existing_and_new_nodes (nib (p ++ (x ∷ a))) (nib (p ++ (y ∷ b)))
      ≡ ok (fork_info p (x ∷ a) (y ∷ b))
  unfolding get_pre_and_postfixes_for_existing_and_new_nodes
  fork_postfixes = rw (
    different_lengths-nib (p ++ (x ∷ a)) (p ++ (y ∷ b)) (All-append _ p (x ∷ a) hp ha)
        (All-append _ p (y ∷ b) hp hb) (omega (arith, length-append p (x ∷ a)))
        (omega (arith, length-append p (y ∷ b))),
    common_prefix-fork x y a b differ p,
    split_append p (x ∷ a) hp ha (omega arith) (length p) refl,
    postfix_append p (y ∷ b) hp hb (omega arith) (length p) refl,
  )

  module _ (old : Node) (v : Bytes) where
    new_entry : InsertEntry
    new_entry = record { nibbles = nib (p ++ (y ∷ b)); v = val v }

    new_leaf :
        ins_entry_into_leaf_and_nibble (fork_info p (x ∷ a) (y ∷ b)) new_entry
        ≡ ok (y, leaf (nib b) v)
    unfolding ins_entry_into_leaf_and_nibble new_entry create_node_from_insert_val
    new_leaf = rw (
      get_nibble-nib (y ∷ b) 0 hb (omega arith),
      truncate_n_nibbles_front-nib (p ++ (y ∷ b)) (All-append _ p (y ∷ b) hp hb)
          (omega (arith, length-append p (y ∷ b))) (length p + 1),
      drop-fork p y b,
    )

    beside :
        place_beside_existing (fork_info p (x ∷ a) (y ∷ b)) old new_entry
        ≡ ok (both_branch_children (x, old) (y, leaf (nib b) v))
    unfolding place_beside_existing
    beside = rw (
      ==-ne (length (y ∷ b)) 0 (λ e. absurd (omega arith)),
      get_nibble-nib (x ∷ a) 0 ha (omega arith),
      new_leaf,
    )

    placement :
        check_if_existing_or_new_node_should_go_in_branch_value_field
          (fork_info p (x ∷ a) (y ∷ b))
          old
          new_entry
        ≡ ok (both_branch_children (x, old) (y, leaf (nib b) v))
    placement = check_if-both (fork_info p (x ∷ a) (y ∷ b)) old new_entry nonempty ∙ beside
      where
        nonempty : (length (x ∷ a) == 0) ≡ false
        nonempty = ==-ne (length (x ∷ a)) 0 (λ e. absurd (omega arith))

    -- The branch that `place_branch_and_potentially_ext_prefix` makes at a fork.
    pub fork_place :
        place_branch_and_potentially_ext_prefix
          (fork_info p (x ∷ a) (y ∷ b))
          old
          (record { nibbles = nib (p ++ (y ∷ b)); v = val v })
        ≡ ok (wrap p (fork_branch x old y b v))
    unfolding place_branch_and_potentially_ext_prefix fill_branch new_entry
    fork_place = rw (placement, ltb-lt x 16 ha.0, ltb-lt y 16 hb.0)

-- What the branch at a fork means: the new value at the new key, and else what the old node means
-- behind its nibble.
pub lookup-fork :
    (p : List ℕ) (x : ℕ) (old : Node) (y : ℕ) (b : List ℕ) (v : Bytes)
    (before : List ℕ → Option Bytes)
    → IsNibs p
    → IsNibs b
    → x ≢ y
    → ((q : List ℕ) → before q ≡ elim (strip p q) [ none ↦ none | some r ↦ behind x old r ])
    → (q : List ℕ)
    → lookup (wrap p (fork_branch x old y b v)) q
      ≡ (if keys_eq q (p ++ (y ∷ b)) then some v else before q)
lookup-fork p x old y b v before hp hb n hq q =
    rw (lookup-wrap p (fork_branch x old y b v) q hp, keys_eq-append p (y ∷ b) q, hq q)
      (tail (strip p q))
  where
    tail :
        (o : Option (List ℕ))
        → elim o [ none ↦ none | some r ↦ lookup (fork_branch x old y b v) r ] ≡ (
            if elim o [ none ↦ false | some r ↦ keys_eq r (y ∷ b) ]
            then some v
            else elim o [ none ↦ none | some r ↦ behind x old r ])
    tail none = refl
    tail (some r) = lookup-fork_branch x old y b v hb n r

fork_child-Fixed :
    (x : ℕ) (old : Node) (y : ℕ) (b : List ℕ) (v : Bytes) (len : ℕ)
    → Fixed len old
    → IsNibs b
    → length b ≡ len
    → (i : ℕ) → Fixed len (set_child (set_child new_branch_child_arr x old) y (leaf (nib b) v) i)
fork_child-Fixed x old y b v len f hb e i = cases (i == y) (i == x)
  where
    cases : (c d : Bool) → Fixed len (if c then leaf (nib b) v else if d then old else empty)
    cases true d = (b, hb, refl, e)
    cases false true = f
    cases false false = tt

fork_branch-Fixed :
    (x : ℕ) (old : Node) (y : ℕ) (b : List ℕ) (v : Bytes) (rest : ℕ)
    → Fixed rest old
    → IsNibs b
    → length b ≡ rest
    → Fixed (suc rest) (fork_branch x old y b v)
fork_branch-Fixed x old y b v rest f hb e =
    (refl, λ i h. fork_child-Fixed x old y b v rest f hb e i)

-- The branch at a fork keeps the length of the keys.
pub fork-Fixed :
    (p : List ℕ) (x : ℕ) (old : Node) (y : ℕ) (b : List ℕ) (v : Bytes) (rest len : ℕ)
    → IsNibs p
    → IsNibs b
    → Fixed rest old
    → length b ≡ rest
    → len ≡ length p + suc rest
    → Fixed len (wrap p (fork_branch x old y b v))
fork-Fixed [] x old y b v rest len hp hb f e el =
    subst (λ n. Fixed n (fork_branch x old y b v)) same (fork_branch-Fixed x old y b v rest f hb e)
  where
    same : suc rest ≡ len
    same = omega arith
fork-Fixed (z ∷ p) x old y b v rest len hp hb f e el =
    rw (==-ne (length (z ∷ p)) 0 (λ h. absurd (omega arith)))
      (z ∷ p, suc rest, hp, refl, omega arith, el, fork_branch-Fixed x old y b v rest f hb e)

-- Where the existing key is a prefix of the new one, nothing of it is left.
pub within_postfixes :
    (l r : List ℕ)
    → IsNibs l
    → IsNibs r
    → length l + length r ≤ 64
    → get_pre_and_postfixes_for_existing_and_new_nodes (nib l) (nib (l ++ r))
      ≡ ok (fork_info l [] r)
unfolding get_pre_and_postfixes_for_existing_and_new_nodes
within_postfixes l r hl hr fits = rw (
  different_lengths-nib l (l ++ r) hl (All-append _ l r hl hr) (omega arith)
      (omega (arith, length-append l r)),
  common_prefix-append l r,
  whole,
  postfix_append l r hl hr fits (length l) refl,
)
  where
    whole : split_at_idx (nib l) (length l) ≡ some (nib l, nib [])
    whole = rw (append-nil l) at (split_append l [] hl tt (omega arith) (length l) refl)

pub fork-Hashless :
    (p : List ℕ) (x : ℕ) (old : Node) (y : ℕ) (b : List ℕ) (v : Bytes)
    → Hashless old
    → Hashless (wrap p (fork_branch x old y b v))
fork-Hashless p x old y b v h =
    wrap-Hashless p (fork_branch x old y b v) (λ i s. cases (i == y) (i == x))
  where
    cases : (c d : Bool) → Hashless (if c then leaf (nib b) v else if d then old else empty)
    cases true d = tt
    cases false true = h
    cases false false = tt
