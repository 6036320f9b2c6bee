-- ===== src/Kernel/Windows/Panics.antt =====
-- `replace_windows` with a replacement that may panic, against the same replacement that leaves such
-- a window as it is.
use zk_evm.Prelude.{
  ℕ, zero, suc, ◌+◌, ◌-◌, ◌*◌, ◌≡◌, refl, arith, Option, none, some, ◌>>=◌, List, ◌++◌, length,
  take, drop, leb, Bool-cases, inl, inr, ◌⊎◌, length-take, length-drop, ◌≤◌,
}
use zk_evm.Kernel.Windows.{next_window, replace_loop, replace_windows}
use zk_evm.Kernel.Windows.Lists.{window, around}
use zk_evm.Kernel.Windows.Rewriting.{Rewrites, unchanged, replaced}

-- The replacement that is suggested, if the suggestion does not panic.
abbrev pub suggestion {ℓ} :
    {A : Type ℓ} → (List A → Option (Option (List A))) → List A → Option (List A)
suggestion f w = f w >>= λ found. found

abbrev pub calm {ℓ} :
    {A : Type ℓ} → (List A → Option (Option (List A))) → List A → Option (Option (List A))
calm f w = some (suggestion f w)

module _ {ℓ} {A : Type ℓ} (W : ℕ) (f : List A → Option (Option (List A))) where
  -- Somewhere on the way stands a window on which the replacement panics.
  abbrev pub PanicsFrom : List A → Type ℓ
  PanicsFrom vec =
      (mid : List A) × Rewrites W (calm f) vec mid
      × ((pre : List A) × (w : List A) × (post : List A) × (mid ≡ pre ++ (w ++ post))
          × (f w ≡ none))

  abbrev Calm : List A → Option (List A) → Option (List A) → Type ℓ
  Calm vec out out' = (out ≡ out') ⊎ ((out ≡ none) × PanicsFrom vec)

  loop-Calm :
      (fuel start : ℕ) (vec : List A)
      → Calm vec (replace_loop W f fuel start vec) (replace_loop W (calm f) fuel start vec)
  unfolding replace_loop next_window
  loop-Calm zero start vec = inl refl
  loop-Calm (suc fuel) start vec = elim (Bool-cases (leb (start + W) (length vec))) [
    | inr last ↦ rw last (inl refl)
    | inl room ↦
        let w : List A = window W start vec in
        rw room (
          elim (f w)
              as (λ o.
                f w ≡ o
                → Calm vec
                    (o >>= λ found.
                      replace_loop W f fuel (next_window W f start vec found).0
                        (next_window W f start vec found).1)
                    (replace_loop W (calm f) fuel
                      (next_window W (calm f) start vec (o >>= λ found. found)).0
                      (next_window W (calm f) start vec (o >>= λ found. found)).1)) [
                        | none ↦ λ e. inr (
                          refl,
                          (
                            vec,
                            unchanged,
                            (take start vec, w, drop (start + W) vec, around W start vec, e),
                          ),
                        )
                        | some none ↦ λ e. loop-Calm fuel (start + 1) vec
                        | some (some r) ↦ λ e.
                            elim (loop-Calm fuel (start - (W - 1))
                              (take start vec ++ (r ++ drop (start + W) vec))) [
                                | inl q ↦ inl q
                                | inr (q, (mid, steps, there)) ↦ inr (
                                  q,
                                  (
                                    mid,
                                    replaced (take start vec) w r (drop (start + W) vec)
                                        (around W start vec) (length-window (ground (arith, room)))
                                        (rw e refl) refl steps,
                                    there,
                                  ),
                                )
                              ]
                      ]
            refl)
  ]
    where
      length-window : start + W ≤ length vec → length (window W start vec) ≡ W
      length-window h = omega (arith, length-take W (drop start vec), length-drop start vec)

  pub replace_windows-Calm :
      (vec : List A) → Calm vec (replace_windows W f vec) (replace_windows W (calm f) vec)
  unfolding replace_windows
  replace_windows-Calm vec = loop-Calm (W * length vec + 1) 0 vec
