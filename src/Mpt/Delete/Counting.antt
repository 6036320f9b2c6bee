-- ===== src/Mpt/Delete/Counting.antt =====
-- Counting the children of a branch that are not empty, and finding another one.
use zk_evm.Prelude.{
  ℕ, zero, suc, ◌+◌, ◌≤◌, ◌<◌, ◌≡◌, ◌≢◌, refl, sym, ap, ◌∙◌, arith, Bool, true, false, not, some,
  ◌==◌, ◌&&◌, ◌⊎◌, inl, inr, Bool-cases, ==_iff, ==-ne, ==-refl,
}
use zk_evm.Mpt.Trie.Compact.{NonEmpty}
use zk_evm.Mpt.Node.{node_is_empty, Node, empty, set_child}
use zk_evm.Mpt.Delete.{count_non_empty, find_other}

abbrev pub cleared : (ℕ → Node) → ℕ → ℕ → Node
cleared children i = set_child children i empty

count-cleared_above :
    (n i : ℕ) (c : ℕ → Node) → n ≤ i → count_non_empty n (cleared c i) ≡ count_non_empty n c
unfolding count_non_empty
count-cleared_above zero i c h = refl
count-cleared_above (suc n) i c h =
    rw (count-cleared_above n i c (omega arith), ==-ne n i (λ e. absurd (omega arith)))

-- Clearing a child that is not empty takes one off the count.
pub count-cleared :
    (n i : ℕ) (c : ℕ → Node)
    → i < n
    → NonEmpty (c i)
    → count_non_empty n c ≡ suc (count_non_empty n (cleared c i))
unfolding count_non_empty
count-cleared zero i c h e = absurd (omega arith)
count-cleared (suc n) i c h e = elim (Bool-cases (n == i)) [
  | inl here ↦ here_case ((==_iff n i).0 here)
  | inr there ↦ rw there (omega (arith, count-cleared n i c (omega (arith, other there)) e))
]
  where
    other : (n == i) ≡ false → n ≢ i
    other f q = cc ((==_iff n i).1 q)

    here_case : n ≡ i → count_non_empty (suc n) c ≡ suc (count_non_empty (suc n) (cleared c i))
    here_case q = rw (q, e, count-cleared_above i i c (omega arith), ==-refl i) (omega arith)

-- A count that is not 0 has a child to show.
pub count_pos :
    (n : ℕ) (c : ℕ → Node) → 0 < count_non_empty n c → (i : ℕ) × (i < n) × NonEmpty (c i)
unfolding count_non_empty
count_pos zero c h = absurd (omega arith)
count_pos (suc n) c h = elim (Bool-cases (node_is_empty (c n))) [
  | inl gone ↦ lift (count_pos n c (omega (arith, gone_count gone)))
  | inr there ↦ (n, omega arith, there)
]
  where
    gone_count : node_is_empty (c n) ≡ true → count_non_empty (suc n) c ≡ count_non_empty n c
    gone_count g = rw g (omega arith)

    lift : (i : ℕ) × (i < n) × NonEmpty (c i) → (i : ℕ) × (i < suc n) × NonEmpty (c i)
    lift (i, small, there) = (i, omega arith, there)

-- What the search from `i` on finds.
abbrev pub Found : ℕ → ℕ → ℕ → (ℕ → Node) → Type 0
Found left i our c =
    (n : ℕ) × (find_other left i c our ≡ some (n, c n))
    × (n < i + left)
    × (n ≢ our)
    × NonEmpty (c n)

skipped :
    (i our : ℕ) (c : ℕ → Node)
    → ((i == our) ≡ true) ⊎ (node_is_empty (c i) ≡ true)
    → (not (i == our) && not (node_is_empty (c i))) ≡ false
skipped i our c (inl ours) = rw ours
skipped i our c (inr gone) = rw gone (cases (i == our))
  where
    cases : (b : Bool) → (not b && false) ≡ false
    cases true = refl
    cases false = refl

Found-later :
    (left i our : ℕ) (c : ℕ → Node)
    → ((i == our) ≡ true) ⊎ (node_is_empty (c i) ≡ true)
    → Found left (i + 1) our c
    → Found (suc left) i our c
unfolding find_other
Found-later left i our c h (n, e, small, ne, there) =
    (n, rw (skipped i our c h) e, omega arith, ne, there)

-- The search finds a child that is not ours and not empty, if there is one.
pub find_other-some :
    (left i j our : ℕ) (c : ℕ → Node)
    → i ≤ j
    → j < i + left
    → j ≢ our
    → NonEmpty (c j)
    → Found left i our c
unfolding find_other
find_other-some zero i j our c h k ne e = absurd (omega arith)
find_other-some (suc left) i j our c h k ne e =
    let rest : i ≢ j → Found left (i + 1) our c =
      (λ d. find_other-some left (i + 1) j our c (omega (arith, d)) (omega arith) ne e) in
    elim (Bool-cases (i == our)) [
      | inl ours ↦
          Found-later left i our c (inl ours) (rest (λ q. ne (sym q ∙ (==_iff i our).0 ours)))
      | inr other ↦ elim (Bool-cases (node_is_empty (c i))) [
        | inl gone ↦
            Found-later left i our c (inr gone)
              (rest (λ q. cc (gone, ap (λ t. node_is_empty (c t)) q, e)))
        | inr there ↦ (i, rw (other, there), omega arith, (λ q. cc ((==_iff i our).1 q)), there)
      ]
    ]

-- A cleared child that is not empty is another one.
cleared-NonEmpty : (c : ℕ → Node) (i j : ℕ) → NonEmpty (cleared c i j) → (j ≢ i) × NonEmpty (c j)
cleared-NonEmpty c i j h = elim (Bool-cases (j == i)) [
  | inl same ↦ cc (rw same at h)
  | inr differ ↦ ((λ q. cc ((==_iff j i).1 q)), rw differ at h)
]

NonEmpty-cleared : (c : ℕ → Node) (i j : ℕ) → j ≢ i → NonEmpty (c j) → NonEmpty (cleared c i j)
NonEmpty-cleared c i j ne h = rw (==-ne j i ne) h

-- Two more children that are not empty, besides the one at `x`.
abbrev pub TwoOthers : ℕ → (ℕ → Node) → ℕ → Type 0
TwoOthers n c x =
    (i : ℕ) × (j : ℕ) × (i < n)
    × (j < n)
    × (i ≢ j)
    × (i ≢ x)
    × (j ≢ x)
    × NonEmpty (c i)
    × NonEmpty (c j)

module _ (n : ℕ) (c : ℕ → Node) (x : ℕ) (small : x < n) (ours : NonEmpty (c x)) where
  -- Of at most two children that are not empty there is no third.
  pub no_third :
      (i j : ℕ)
      → i < n
      → i ≢ x
      → NonEmpty (c i)
      → count_non_empty n c ≤ 2
      → j < n
      → j ≢ x
      → j ≢ i
      → node_is_empty (c j) ≡ true
  no_third i j hi nix there few hj njx nji = elim (Bool-cases (node_is_empty (c j))) [
    | inl gone ↦ gone
    | inr third ↦ absurd (
        omega (
          arith,
          count-cleared n x c small ours,
          count-cleared n i (cleared c x) hi (NonEmpty-cleared c x i nix there),
          count-cleared n j (cleared (cleared c x) i) hj
              (NonEmpty-cleared (cleared c x) i j nji (NonEmpty-cleared c x j njx third)),
        ))
  ]

  -- Of three children that are not empty there are two others.
  pub two_others : 2 < count_non_empty n c → TwoOthers n c x
  two_others many =
      first (count_pos n (cleared c x) (omega (arith, count-cleared n x c small ours)))
    where
      first : (i : ℕ) × (i < n) × NonEmpty (cleared c x i) → TwoOthers n c x
      first (i, hi, there) = second (cleared-NonEmpty c x i there) (
          count_pos n (cleared (cleared c x) i) (
            omega
              (arith, count-cleared n x c small ours, count-cleared n i (cleared c x) hi there)))
        where
          second :
              (i ≢ x) × NonEmpty (c i)
              → (j : ℕ) × (j < n) × NonEmpty (cleared (cleared c x) i j)
              → TwoOthers n c x
          second (nix, ni) (j, hj, other) = third (cleared-NonEmpty (cleared c x) i j other)
            where
              third : (j ≢ i) × NonEmpty (cleared c x j) → TwoOthers n c x
              third (nji, tj) =
                  let away : (j ≢ x) × NonEmpty (c j) = cleared-NonEmpty c x j tj in
                  (i, j, hi, hj, (λ q. nji (sym q)), nix, away.0, ni, away.1)
