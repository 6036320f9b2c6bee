-- ===== src/Kernel/Windows/Lists.antt =====
-- Windows of a list.
use zk_evm.Prelude.{
  ℕ, zero, suc, ◌+◌, ◌≤◌, ◌≡◌, refl, sym, ap, ◌∙◌, arith, List, [], ◌∷◌, ◌++◌, length, take, drop,
  length-drop, take-append-drop,
}

module _ {ℓ} {A : Type ℓ} where
  take_front : (n : ℕ) (a b : List A) → n ≤ length a → take n (a ++ b) ≡ take n a
  take_front zero a b h = refl
  take_front (suc n) [] b h = absurd (omega arith)
  take_front (suc n) (x ∷ a) b h = ap (λ t. x ∷ t) (take_front n a b (omega arith))

  drop_front : (n : ℕ) (a b : List A) → n ≤ length a → drop n (a ++ b) ≡ drop n a ++ b
  drop_front zero a b h = refl
  drop_front (suc n) [] b h = absurd (omega arith)
  drop_front (suc n) (x ∷ a) b h = drop_front n a b (omega arith)

  abbrev nothing : List A
  nothing = []

  drop_none : (n : ℕ) → drop n nothing ≡ nothing
  drop_none zero = refl
  drop_none (suc n) = refl

  drop-drop : (m n : ℕ) (a : List A) → drop m (drop n a) ≡ drop (n + m) a
  drop-drop m zero a = ap (λ (t : ℕ). drop t a) same
    where
      same : m ≡ 0 + m
      same = omega arith
  drop-drop m (suc n) [] = drop_none m ∙ sym (drop_none (suc n + m))
  drop-drop m (suc n) (x ∷ a) = drop-drop m n a ∙ ap (λ (t : ℕ). drop t (x ∷ a)) same
    where
      same : suc (n + m) ≡ suc n + m
      same = omega arith

  -- The window of `w` entries at `i`.
  abbrev pub window : ℕ → ℕ → List A → List A
  window w i vec = take w (drop i vec)

  pub window_front :
      (w i : ℕ) (a b : List A) → i + w ≤ length a → window w i (a ++ b) ≡ window w i a
  window_front w i a b h =
      ap (take w) (drop_front i a b (omega arith))
      ∙ take_front w (drop i a) b (omega (arith, length-drop i a))

  -- A window stands between what is in front of it and what is behind it.
  pub around : (w i : ℕ) (vec : List A) → vec ≡ take i vec ++ (window w i vec ++ drop (i + w) vec)
  around w i vec =
      sym (take-append-drop i vec)
      ∙ ap (λ t. take i vec ++ t)
          (sym (take-append-drop w (drop i vec))
            ∙ ap (λ t. take w (drop i vec) ++ t) (drop-drop w i vec))
