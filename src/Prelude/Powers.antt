-- ===== src/Prelude/Powers.antt =====
-- Powers of two and of sixteen, and division by a variable power.
use Prim.Native.Nat.{ℕ, zero, suc, ◌+◌, ◌*◌, ◌/◌, ◌%◌, ◌^◌, ◌≤◌, ◌<◌}
use mathlib.Core.Path.{◌≡◌, refl, sym, ap, ◌∙◌}
use native.Mathlib.Nat.{pow-zero, pow-suc, one-le-pow, pow-le-pow_right, mod-lt, div-add-mod'}
use native.Mathlib.Omega.{arith}

pub pow-add : (b m n : ℕ) → b ^ (m + n) ≡ b ^ m * b ^ n
pow-add b zero n =
    ap (λ (t : ℕ). b ^ t) same ∙ omega (arith, pow-zero b, ap (λ (t : ℕ). t * b ^ n) (pow-zero b))
  where
    same : 0 + n ≡ n
    same = omega arith
pow-add b (suc m) n =
    ap (λ (t : ℕ). b ^ t) step
    ∙ omega (
      arith,
      pow-suc b (m + n),
      ap (λ (t : ℕ). t * b ^ n) (pow-suc b m),
      ap (λ (t : ℕ). t * b) (pow-add b m n),
    )
  where
    step : suc m + n ≡ suc (m + n)
    step = omega arith

pub pow_pos : (b n : ℕ) → 0 < b → 0 < b ^ n
pow_pos b n h = one-le-pow n b h

pub two_pow_four : (n : ℕ) → 2 ^ (4 * n) ≡ 16 ^ n
two_pow_four zero = refl
two_pow_four (suc n) =
    ap (λ (t : ℕ). 2 ^ t) step
    ∙ omega (
      arith,
      pow-suc 2 (suc (suc (suc (4 * n)))),
      pow-suc 2 (suc (suc (4 * n))),
      pow-suc 2 (suc (4 * n)),
      pow-suc 2 (4 * n),
      pow-suc 16 n,
      two_pow_four n,
    )
  where
    step : 4 * suc n ≡ suc (suc (suc (suc (4 * n))))
    step = omega arith

pub two_pow_four' : (n : ℕ) → 2 ^ (n * 4) ≡ 16 ^ n
two_pow_four' n = ap (λ (t : ℕ). 2 ^ t) step ∙ two_pow_four n
  where
    step : n * 4 ≡ 4 * n
    step = omega arith

pub pow_mono : (b m n : ℕ) → 0 < b → m ≤ n → b ^ m ≤ b ^ n
pow_mono b m n h le = pow-le-pow_right h le

pub div-mul-add : (q m r : ℕ) → r < m → (q * m + r) / m ≡ q
div-mul-add q m r h = grind arith

pub mod-mul-add : (q m r : ℕ) → r < m → (q * m + r) % m ≡ r
mod-mul-add q m r h = grind arith

-- A remainder in two steps.
pub mod-mul : (x p b : ℕ) → 0 < p → 0 < b → x % (p * b) ≡ x / p % b * p + x % p
mod-mul x p b pos more =
    ap (λ (t : ℕ). t % (p * b)) (parts (x / p) (x % p) (div-add-mod' x p))
    ∙ mod-mul-add (x / p / b) (p * b) (x / p % b * p + x % p) small
  where
    regroup : (h c p r : ℕ) → (h * b + c) * p + r ≡ h * (p * b) + (c * p + r)
    regroup h c p r = grind arith

    parts : (q r : ℕ) → q * p + r ≡ x → x ≡ q / b * (p * b) + (q % b * p + r)
    parts q r e =
        sym e ∙ ap (λ (t : ℕ). t * p + r) (sym (div-add-mod' q b)) ∙ regroup (q / b) (q % b) p r

    room : (c r : ℕ) → c + 1 ≤ b → r < p → c * p + r < p * b
    room c r h k = grind (arith, mul_mono-right c)
      where
        mul_mono-right : (c : ℕ) → c + 1 ≤ b → (c + 1) * p ≤ b * p
        mul_mono-right c h = grind arith

    small : x / p % b * p + x % p < p * b
    small = room (x / p % b) (x % p) (omega (arith, mod-lt (x / p) more)) (mod-lt x pos)
