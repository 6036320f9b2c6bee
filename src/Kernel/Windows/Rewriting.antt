-- ===== src/Kernel/Windows/Rewriting.antt =====
-- What `replace_windows` does with a replacement that shortens each window it replaces: it ends,
-- by replacements only, and no window is left that it would replace.
use zk_evm.Prelude.{
  ℕ, zero, suc, ◌+◌, ◌-◌, ◌*◌, ◌≤◌, ◌<◌, ◌≡◌, refl, sym, ap, ◌∙◌, arith, Option, none, some, List,
  ◌++◌, length, take, drop, leb, false, Bool-cases, inl, inr, length-append, length-take,
  length-drop, take-append-drop, ◌==◌, ==_iff, ◌≢◌,
}
use zk_evm.Kernel.Windows.{next_window, replace_loop, replace_windows}
use zk_evm.Kernel.Windows.Lists.{window, window_front, around}

module _ {ℓ} {A : Type ℓ} (W : ℕ) (maybe_replace : List A → Option (Option (List A))) where
  -- One list becomes another by replacements of windows.
  pub data Rewrites : List A → List A → Type ℓ where
    unchanged : {vec : List A} → Rewrites vec vec
    replaced :
        {vec vec' result : List A} (pre window replacement post : List A)
        → vec ≡ pre ++ (window ++ post)
        → length window ≡ W
        → maybe_replace window ≡ some (some replacement)
        → vec' ≡ pre ++ (replacement ++ post)
        → Rewrites vec' result
        → Rewrites vec result

  -- No window before `start` would be replaced.
  abbrev pub NormalBefore : ℕ → List A → Type ℓ
  NormalBefore start vec =
      (i : ℕ) → i < start → i + W ≤ length vec → maybe_replace (window W i vec) ≡ some none

  abbrev pub Normal : List A → Type ℓ
  Normal vec = (i : ℕ) → i + W ≤ length vec → maybe_replace (window W i vec) ≡ some none

  module _ (pos : 0 < W)
      (total : (w : List A)
        → length w ≡ W
        → (found : Option (List A)) × (maybe_replace w ≡ some found))
      (shorter : (w r : List A) → maybe_replace w ≡ some (some r) → length r < length w) where
    -- How the loop ends from `vec` on.
    abbrev Ends : List A → Option (List A) → Type ℓ
    Ends vec out = (result : List A) × (out ≡ some result) × Rewrites vec result × Normal result

    all_before :
        (start : ℕ) (vec : List A) → length vec < start + W → NormalBefore start vec → Normal vec
    all_before start vec h normal i hi = normal i (omega arith) hi

    one_more :
        (start : ℕ) (vec : List A)
        → maybe_replace (window W start vec) ≡ some none
        → NormalBefore start vec
        → NormalBefore (start + 1) vec
    one_more start vec here normal i small hi = elim (Bool-cases (i == start)) [
      | inl same ↦ rw ((==_iff i start).0 same) here
      | inr differ ↦ normal i (omega (arith, other differ)) hi
    ]
      where
        other : (i == start) ≡ false → i ≢ start
        other d e = cc ((==_iff i start).1 e)

    length-front : (start : ℕ) (vec : List A) → start ≤ length vec → length (take start vec) ≡ start
    length-front start vec h = omega (arith, length-take start vec)

    -- The windows in front of a replacement are as they were.
    before_kept :
        (start : ℕ) (vec rest : List A)
        → start ≤ length vec
        → NormalBefore start vec
        → NormalBefore (start - (W - 1)) (take start vec ++ rest)
    before_kept start vec rest h normal i small hi =
        ap maybe_replace same ∙ normal i (omega arith) (omega arith)
      where
        fits : i + W ≤ length (take start vec)
        fits = omega (arith, length-front start vec h)

        same : window W i (take start vec ++ rest) ≡ window W i vec
        same =
            window_front W i (take start vec) rest fits
            ∙ sym (window_front W i (take start vec) (drop start vec) fits)
            ∙ ap (window W i) (take-append-drop start vec)

    length-window :
        (start : ℕ) (vec : List A) → start + W ≤ length vec → length (window W start vec) ≡ W
    length-window start vec h = omega (arith, length-take W (drop start vec), length-drop start vec)

    length-replaced :
        (start : ℕ) (vec r : List A)
        → start + W ≤ length vec
        → length r < W
        → length (take start vec ++ (r ++ drop (start + W) vec)) + 1 ≤ length vec
    length-replaced start vec r h small = omega (
      arith,
      length-append {ℓ} (take start vec) (r ++ drop (start + W) vec),
      length-append {ℓ} r (drop (start + W) vec),
      length-drop {ℓ} (start + W) vec,
      length-take {ℓ} start vec,
    )

    mul_step : (a b : ℕ) → a + 1 ≤ b → W * a + W ≤ W * b
    mul_step a b h = grind arith

    mul_ge : (a : ℕ) → a ≤ W * a
    mul_ge a = grind arith

    loop-Ends :
        (fuel start : ℕ) (vec : List A)
        → start ≤ length vec
        → W * length vec < fuel + start
        → NormalBefore start vec
        → Ends vec (replace_loop W maybe_replace fuel start vec)
    unfolding replace_loop next_window
    loop-Ends zero start vec h enough normal = absurd (omega (arith, mul_ge (length vec)))
    loop-Ends (suc fuel) start vec h enough normal =
        elim (Bool-cases (leb (start + W) (length vec))) [
          | inr last ↦
              rw last (vec, refl, unchanged, all_before start vec (ground (arith, last)) normal)
          | inl room ↦
              let fits : start + W ≤ length vec = ground (arith, room) in
              let w : List A = window W start vec in
              let (found, e) = total w (length-window start vec fits) in
              rw (room, e)
                (elim found
                    as (λ o.
                      maybe_replace w ≡ some o
                      → Ends vec (
                          replace_loop W maybe_replace fuel
                            (next_window W maybe_replace start vec o).0
                            (next_window W maybe_replace start vec o).1)) [
                              | none ↦ λ here.
                                  loop-Ends fuel (start + 1) vec (omega arith) (omega arith)
                                    (one_more start vec here normal)
                              | some r ↦ λ here.
                                  let len : length r < W =
                                    omega (arith, shorter w r here, length-window start vec fits) in
                                  let rest : List A = r ++ drop (start + W) vec in
                                  let short : length (take start vec ++ rest) + 1 ≤ length vec =
                                    length-replaced start vec r fits len in
                                  let (result, eq, steps, nf) =
                                    loop-Ends fuel (start - (W - 1)) (take start vec ++ rest)
                                      (omega (
                                        arith,
                                        length-append {ℓ} (take start vec) rest,
                                        length-front start vec h,
                                      ))
                                      (omega (
                                        arith,
                                        mul_step (length (take start vec ++ rest)) (length vec)
                                            short,
                                      ))
                                      (before_kept start vec rest h normal) in
                                  (
                                    result,
                                    eq,
                                    replaced (take start vec) w r (drop (start + W) vec)
                                        (around W start vec) (length-window start vec fits) here
                                        refl steps,
                                    nf,
                                  )
                            ]
                  e)
        ]

    -- A replacement that does not panic, and that only ever shortens a window, ends: the result comes
    -- from the list by replacements of windows, and none of its windows would be replaced.
    pub replace_windows-Ends :
        (vec : List A)
        → (result : List A) × (replace_windows W maybe_replace vec ≡ some result)
          × Rewrites vec result
          × Normal result
    unfolding replace_windows
    replace_windows-Ends vec =
        loop-Ends (W * length vec + 1) 0 vec (omega arith) (omega arith)
          (λ i h k. absurd (omega arith))
