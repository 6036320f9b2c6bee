-- ===== src/Prelude/BitOrder.antt =====
-- `&`, `|` and `^` on words: they commute, stay within the word, and 0 is neutral for the last two.
use Prim.Native.Nat.{
  ℕ, zero, suc, ◌+◌, ◌*◌, ◌/◌, ◌%◌, ◌^◌, ◌≤◌, ◌<◌, bit_and, bit_or, bit_xor, differ,
  bit_xor-bitwise,
}
use mathlib.Core.Path.{◌≡◌, refl, sym, ap, ◌∙◌}
use native.Mathlib.Nat.{pow-suc}
use native.Mathlib.Omega.{arith}
use zk_evm.Prelude.Bits.{bit_or_step, bit_and_step, lowest}

differ_digits : (a b : ℕ) → a < 2 → b < 2 → (differ a b ≤ 1) × (differ a b ≡ differ b a)
differ_digits zero zero h k = (omega arith, refl)
differ_digits zero (suc zero) h k = (omega arith, refl)
differ_digits zero (suc (suc b)) h k = absurd (omega arith)
differ_digits (suc zero) zero h k = (omega arith, refl)
differ_digits (suc zero) (suc zero) h k = (omega arith, refl)
differ_digits (suc zero) (suc (suc b)) h k = absurd (omega arith)
differ_digits (suc (suc a)) b h k = absurd (omega arith)

differ-bound : (x y : ℕ) → differ (x % 2) (y % 2) ≤ 1
differ-bound x y = (differ_digits (x % 2) (y % 2) (omega arith) (omega arith)).0

differ_comm : (x y : ℕ) → differ (x % 2) (y % 2) ≡ differ (y % 2) (x % 2)
differ_comm x y = (differ_digits (x % 2) (y % 2) (omega arith) (omega arith)).1

differ-zero : (y : ℕ) → differ 0 (y % 2) ≡ y % 2
differ-zero y = refl

pub bit_xor_step : (x y : ℕ) → bit_xor x y ≡ bit_xor (x / 2) (y / 2) * 2 + differ (x % 2) (y % 2)
bit_xor_step zero y =
    bit_xor-bitwise 0 y
    ∙ omega (arith, differ-zero y)
    ∙ ap (λ (t : ℕ). t * 2 + differ 0 (y % 2)) (sym (bit_xor-bitwise 0 (y / 2)))
bit_xor_step (suc x) y =
    bit_xor-bitwise (suc x) y
    ∙ lowest (λ rest. rest) differ x y
    ∙ ap (λ (t : ℕ). t * 2 + differ (suc x % 2) (y % 2)) (sym (bit_xor-bitwise (suc x / 2) (y / 2)))

-- What each operation does on words of `w` bits.
abbrev pub OrLaws : ℕ → ℕ → ℕ → Type 0
OrLaws w x y = (bit_or x y < 2 ^ w) × (bit_or x y ≡ bit_or y x) × (bit_or 0 y ≡ y)

abbrev pub AndLaws : ℕ → ℕ → ℕ → Type 0
AndLaws w x y = (bit_and x y < 2 ^ w) × (bit_and x y ≡ bit_and y x)

abbrev pub XorLaws : ℕ → ℕ → ℕ → Type 0
XorLaws w x y = (bit_xor x y < 2 ^ w) × (bit_xor x y ≡ bit_xor y x) × (bit_xor 0 y ≡ y)

module _ (w x y : ℕ) (hx : x < 2 ^ suc w) (hy : y < 2 ^ suc w) where
  half_x : x / 2 < 2 ^ w
  half_x = omega (arith, pow-suc 2 w)

  half_y : y / 2 < 2 ^ w
  half_y = omega (arith, pow-suc 2 w)

  or_laws : OrLaws w (x / 2) (y / 2) → OrLaws (suc w) x y
  or_laws (b, c, z) = (
    omega (arith, pow-suc 2 w, bit_or_step x y),
    omega (arith, bit_or_step x y, bit_or_step y x),
    omega (arith, bit_or_step 0 y),
  )

  and_laws : AndLaws w (x / 2) (y / 2) → AndLaws (suc w) x y
  and_laws (b, c) = (
    omega (arith, pow-suc 2 w, bit_and_step x y),
    omega (arith, bit_and_step x y, bit_and_step y x),
  )

  xor_laws : XorLaws w (x / 2) (y / 2) → XorLaws (suc w) x y
  xor_laws (b, c, z) = (
    omega (arith, pow-suc 2 w, bit_xor_step x y, differ-bound x y),
    omega (arith, bit_xor_step x y, bit_xor_step y x, differ_comm x y),
    omega (arith, bit_xor_step 0 y, differ-zero y),
  )

below_one : (x : ℕ) → x < 2 ^ 0 → x ≡ 0
below_one x h = omega arith

pub bit_or-OrLaws : (w x y : ℕ) → x < 2 ^ w → y < 2 ^ w → OrLaws w x y
bit_or-OrLaws zero x y hx hy = rw (below_one x hx, below_one y hy) (omega arith, refl, refl)
bit_or-OrLaws (suc w) x y hx hy =
    or_laws w x y hx hy (bit_or-OrLaws w (x / 2) (y / 2) (half_x w x y hx hy) (half_y w x y hx hy))

pub bit_and-AndLaws : (w x y : ℕ) → x < 2 ^ w → y < 2 ^ w → AndLaws w x y
bit_and-AndLaws zero x y hx hy = rw (below_one x hx, below_one y hy) (omega arith, refl)
bit_and-AndLaws (suc w) x y hx hy =
    and_laws w x y hx hy
      (bit_and-AndLaws w (x / 2) (y / 2) (half_x w x y hx hy) (half_y w x y hx hy))

pub bit_xor-XorLaws : (w x y : ℕ) → x < 2 ^ w → y < 2 ^ w → XorLaws w x y
bit_xor-XorLaws zero x y hx hy = rw (below_one x hx, below_one y hy) (omega arith, refl, refl)
bit_xor-XorLaws (suc w) x y hx hy =
    xor_laws w x y hx hy
      (bit_xor-XorLaws w (x / 2) (y / 2) (half_x w x y hx hy) (half_y w x y hx hy))
