-- ===== src/Kernel/Operators/Modular.antt =====
-- The arithmetic modulo a number of evm_arithmetization/src/util.rs.
use native.Mathlib.Nat.{mod-lt, mod-add-mod}
use zk_evm.Prelude.{
  ℕ, zero, suc, ◌+◌, ◌-◌, ◌*◌, ◌%◌, ◌≤◌, ◌<◌, ◌≡◌, refl, ap, ◌∙◌, arith, Bool-cases, inl, inr,
  false, ltb, ◌==◌, ==-ne,
}
use zk_evm.Kernel.Operators.{addmod, mulmod, submod, submod_loop}

module _ (m : ℕ) (pos : 0 < m) where
  nonzero : (m == 0) ≡ false
  nonzero = ==-ne m 0 (λ e. absurd (omega arith))

  pub addmod-lt : (x y : ℕ) → addmod x y m < m
  unfolding addmod
  addmod-lt x y = rw nonzero (mod-lt (x + y) pos)

  pub mulmod-lt : (x y : ℕ) → mulmod x y m < m
  unfolding mulmod
  mulmod-lt x y = rw nonzero (mod-lt (x * y) pos)

  once_more : (x : ℕ) → (x + m) % m ≡ x % m
  once_more x = grind arith

  loop_lem :
      (fuel x y : ℕ)
      → y ≤ x + fuel
      → (y ≤ submod_loop fuel x y m) × (submod_loop fuel x y m % m ≡ x % m)
  unfolding submod_loop
  loop_lem zero x y h = (omega arith, refl)
  loop_lem (suc fuel) x y h = elim (Bool-cases (ltb x y)) [
    | inl less ↦
        let (enough, same) = loop_lem fuel (x + m) y (omega arith) in
        rw less (enough, same ∙ once_more x)
    | inr done ↦ rw done (ground (arith, done), refl)
  ]

  -- Subtraction modulo a number that is not 0 ends below the number, and adding the second operand
  -- back gives the first one, modulo the number.
  pub submod_lem : (x y : ℕ) → (submod x y m < m) × ((submod x y m + y) % m ≡ x % m)
  unfolding submod
  submod_lem x y =
      let (enough, same) = loop_lem y x y (omega arith) in
      rw nonzero (mod-lt (submod_loop y x y m - y) pos, back (submod_loop y x y m) enough ∙ same)
    where
      back : (r : ℕ) → y ≤ r → ((r - y) % m + y) % m ≡ r % m
      back r h = mod-add-mod (r - y) m y ∙ ap (λ (t : ℕ). t % m) (omega arith)
