-- ===== src/Mpt/Delete/Branches.antt =====
-- What is left of a branch when something was deleted below one of its children.
use zk_evm.Prelude.{
  ℕ, suc, ◌≤◌, ◌<◌, ◌≡◌, ◌≢◌, refl, sym, ◌∙◌, arith, Bool, true, false, List, [], ◌∷◌, Option, none,
  ◌==◌, leb, if◌then◌else◌, Bool-cases, inl, inr, ==_iff, ==-ne,
}
use zk_evm.Mpt.Nibbles.{Nibbles}
use zk_evm.Mpt.Nibbles.Value.{IsNibs, nib}
use zk_evm.Mpt.Nibbles.Access.{from_nibble-nib}
use zk_evm.Mpt.Trie.Compact.{NonEmpty, IsCompact}
use zk_evm.Mpt.Node.{
  node_is_empty, Bytes, Node, empty, hash, branch, extension, leaf, OnOrphanedHashNode,
  TrieOpResult, ok, ◌>>=◌, set_child,
}
use zk_evm.Mpt.Trie.Meaning.{lookup, lookup-extension, lookup-child, lookup-empty, Fixed, Hashless}
use zk_evm.Mpt.Delete.{
  count_non_empty, get_num_non_empty_children,
  get_other_non_empty_child_and_nibble_in_two_elem_branch, update_branch, try_collapse_if_extension,
}
use zk_evm.Mpt.Delete.Counting.{Found, find_other-some, TwoOthers, two_others, no_third}
use zk_evm.Mpt.Delete.Shape.{IsOpen, Settled, try_collapse-Settled}

-- The branch with `u` in place of the child at `x`, as a function of the key.
abbrev pub patched : (ℕ → Node) → ℕ → Node → List ℕ → Option Bytes
patched c x u [] = none
patched c x u (z ∷ q) = if z == x then lookup u q else lookup (c z) q

-- How the update of a branch ends.
abbrev pub Updated : ℕ → (ℕ → Node) → ℕ → Node → TrieOpResult Node → Type 0
Updated len c x u r =
    (t' : Node) × (r ≡ ok t')
    × Fixed len t'
    × Hashless t'
    × NonEmpty t'
    × IsOpen t'
    × ((q : List ℕ) → IsNibs q → lookup t' q ≡ patched c x u q)

empty_node : (t : Node) → node_is_empty t ≡ true → t ≡ empty
empty_node empty e = refl
empty_node (hash h) e = cc
empty_node (branch children value) e = cc
empty_node (extension n child) e = cc
empty_node (leaf n v) e = cc

either :
    (P : Node → Type 0) (b : Bool) (new old : Node) → P new → P old → P (if b then new else old)
either P true new old p q = p
either P false new old p q = q

module _ (c : ℕ → Node) (x : ℕ) (u : Node) (len : ℕ) (small : x < 16) (fits : len ≤ 64)
    (f : Fixed (suc len) (branch c [])) (h : Hashless (branch c []))
    (compact : (m : ℕ) → m < 16 → IsCompact (c m)) (ours : NonEmpty (c x)) (fu : Fixed len u)
    (hu : Hashless u) (ou : IsOpen u) where
  stays_lookup :
      (new : Node)
      → ((q : List ℕ) → lookup new q ≡ lookup u q)
      → (q : List ℕ) → lookup (branch (set_child c x new) []) q ≡ patched c x u q
  stays_lookup new same [] = unfold lookup in refl
  stays_lookup new same (z ∷ q) = lookup-child (set_child c x new) [] z q ∙ cases (z == x)
    where
      cases :
          (b : Bool)
          → lookup (if b then new else c z) q ≡ (if b then lookup u q else lookup (c z) q)
      cases true = same q
      cases false = refl

  -- Two children of the new branch that are not empty.
  abbrev Pair : Node → Type 0
  Pair new =
      (i : ℕ) × (j : ℕ) × (i < 16)
      × (j < 16)
      × (i ≢ j)
      × NonEmpty (set_child c x new i)
      × NonEmpty (set_child c x new j)

  stays_branch :
      (r : TrieOpResult Node)
      → Settled len u r
      → ((new : Node) → (NonEmpty u → NonEmpty new) → Pair new)
      → Updated (suc len) c x u (r >>= λ child. ok (branch (set_child c x child) []))
  stays_branch r (new, e, (fn, hn, same), there, cn) pair =
      let p : Pair new = pair new there in
      (
        branch (set_child c x new) [],
        rw e,
        (refl, λ i b. either (Fixed len) (i == x) new (c i) fn (f.1 i b)),
        (λ i b. either Hashless (i == x) new (c i) hn (h i b)),
        refl,
        (
          p.0,
          p.1,
          p.2,
          p.3,
          p.4,
          p.5,
          p.6,
          λ i b. either IsCompact (i == x) new (c i) cn (compact i b),
        ),
        λ q hq. stays_lookup new same q,
      )

  Pair-kept :
      NonEmpty u → IsCompact (branch c []) → (new : Node) → (NonEmpty u → NonEmpty new) → Pair new
  Pair-kept nu (i, j, hi, hj, ne, ni, nj, rest) new there = (
    i,
    j,
    hi,
    hj,
    ne,
    either NonEmpty (i == x) new (c i) (there nu) ni,
    either NonEmpty (j == x) new (c j) (there nu) nj,
  )

  Pair-others : TwoOthers 16 c x → (new : Node) → (NonEmpty u → NonEmpty new) → Pair new
  Pair-others (i, j, hi, hj, ne, nix, njx, ni, nj) new there =
      (i, j, hi, hj, ne, rw (==-ne i x nix) ni, rw (==-ne j x njx) nj)

  -- Another child, for the branch has two that are not empty.
  other_child : IsCompact (branch c []) → Found 16 0 x c
  other_child (i, j, hi, hj, ne, ni, nj, rest) = elim (Bool-cases (i == x)) [
    | inl same ↦
        find_other-some 16 0 j x c (omega arith) (omega arith)
          (λ q. ne ((==_iff i x).0 same ∙ sym q)) nj
    | inr differ ↦
        find_other-some 16 0 i x c (omega arith) (omega arith) (λ q. cc ((==_iff i x).1 q)) ni
  ]

  collapsed_lookup :
      (n : ℕ)
      → node_is_empty u ≡ true
      → count_non_empty 16 c ≤ 2
      → n < 16
      → n ≢ x
      → NonEmpty (c n)
      → (q : List ℕ) → IsNibs q
      → lookup (extension (nib (n ∷ [])) (c n)) q ≡ patched c x u q
  collapsed_lookup n gone few hn nx there [] hq = lookup-extension (n ∷ []) (hn, tt) (c n) []
  collapsed_lookup n gone few hn nx there (z ∷ q) hq =
      rw (lookup-extension (n ∷ []) (hn, tt) (c n) (z ∷ q)) (elim (Bool-cases (n == z)) [
        | inl same ↦ rw (same, sym ((==_iff n z).0 same), ==-ne n x nx)
        | inr differ ↦ rw differ (elim (Bool-cases (z == x)) [
          | inl at_x ↦ rw (at_x, empty_node u gone, lookup-empty q)
          | inr not_x ↦ rw (not_x, none_at not_x differ, lookup-empty q)
        ])
      ])
    where
      none_at : (z == x) ≡ false → (n == z) ≡ false → c z ≡ empty
      none_at a b = empty_node (c z) (
          no_third 16 c x small ours n z hn nx there few hq.0 (λ e. cc ((==_iff z x).1 e))
            (λ e. cc ((==_iff n z).1 (sym e))))

  collapses_branch :
      node_is_empty u ≡ true
      → count_non_empty 16 c ≤ 2
      → (found : Found 16 0 x c)
      → Updated (suc len) c x u (ok (extension (nib (found.0 ∷ [])) (c found.0)))
  collapses_branch gone few (n, e, hn, nx, there) = (
    extension (nib (n ∷ [])) (c n),
    refl,
    (n ∷ [], len, (hn, tt), refl, omega arith, omega arith, f.1 n hn),
    h n hn,
    refl,
    (there, compact n hn),
    λ q hq. collapsed_lookup n gone few hn nx there q hq,
  )

  -- The update of a branch leaves the changed child, or the other one behind its nibble.
  pub update_branch-Updated :
      IsCompact (branch c [])
      → (curr : Nibbles) (strategy : OnOrphanedHashNode)
      → Updated (suc len) c x u (update_branch c [] x u curr strategy)
  unfolding update_branch get_num_non_empty_children
      get_other_non_empty_child_and_nibble_in_two_elem_branch
  update_branch-Updated b curr strategy =
      let settled : Settled len u (try_collapse_if_extension u curr strategy) =
        try_collapse-Settled u len curr strategy fu hu ou fits in
      let found : Found 16 0 x c = other_child b in
      elim (Bool-cases (node_is_empty u)) [
        | inr there ↦ rw there (stays_branch _ settled (Pair-kept there b))
        | inl gone ↦ elim (Bool-cases (leb (count_non_empty 16 c) 2)) [
          | inl few ↦
              rw (gone, few, found.1, from_nibble-nib found.0 found.2)
                (collapses_branch gone (ground arith) found)
          | inr many ↦
              rw (gone, many)
                (stays_branch _ settled (Pair-others (two_others 16 c x small ours (ground arith))))
        ]
      ]
