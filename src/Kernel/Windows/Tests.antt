-- ===== src/Kernel/Windows/Tests.antt =====
-- A sliding window on a concrete list.
use zk_evm.Prelude.{ℕ, ◌+◌, ◌<◌, ◌≡◌, refl, ap, arith, Option, none, some, List, [], ◌∷◌, length}
use zk_evm.Kernel.Windows.{replace_windows}
use zk_evm.Kernel.Windows.Rewriting.{Rewrites, Normal, replace_windows-Ends}

-- Two numbers become their sum.
unfoldable sum_of_two : List ℕ → Option (List ℕ)
sum_of_two (x ∷ (y ∷ [])) = some ((x + y) ∷ [])
sum_of_two w = none

abbrev sums : List ℕ → Option (Option (List ℕ))
sums w = some (sum_of_two w)

sums_shorter : (w r : List ℕ) → sums w ≡ some (some r) → length r < length w
unfolding sum_of_two
sums_shorter (x ∷ (y ∷ [])) r h = omega (arith, ap length only)
  where
    only : r ≡ (x + y) ∷ []
    only = cc
sums_shorter w r h = cc

replace_windows-Ends_example :
    (result : List ℕ) × (replace_windows 2 sums (1 ∷ (2 ∷ (3 ∷ []))) ≡ some result)
    × Rewrites 2 sums (1 ∷ (2 ∷ (3 ∷ []))) result
    × Normal 2 sums result
replace_windows-Ends_example =
    replace_windows-Ends 2 sums (omega arith) (λ w h. (sum_of_two w, refl)) sums_shorter
      (1 ∷ (2 ∷ (3 ∷ [])))
