-- ===== src/Prelude/Bits.antt =====
-- `&`, `|` and `!` as arithmetic: masks of low bits, disjoint fields, shifted masks, complements.
use Prim.Native.Nat.{
  ℕ, zero, suc, ◌+◌, ◌-◌, ◌*◌, ◌/◌, ◌%◌, ◌^◌, ◌≤◌, ◌<◌, min, max, bit_and, bit_or, digits, bitwise,
  bit_and-bitwise, bit_or-bitwise,
}
use mathlib.Core.Path.{◌≡◌, refl, sym, ap, ◌∙◌}
use native.Mathlib.Nat.{pow-suc, le_refl, mul-one, div-one, div-div-eq-div-mul, zero-add, suc-add}
use native.Mathlib.Omega.{arith}
use zk_evm.Prelude.Powers.{pow_pos}

-- A bitwise operation runs over the binary digits with as many rounds as its left operand counts.
-- Once the rounds cover the operand, one more changes nothing.
module _ (stop : ℕ → ℕ) (pair : ℕ → ℕ → ℕ) where
  one_more :
      (rounds x y : ℕ)
      → x ≤ rounds
      → digits stop pair (suc rounds) x y ≡ digits stop pair rounds x y
  one_more zero zero y enough = refl
  one_more zero (suc x) y enough = absurd (omega arith)
  one_more (suc rounds) zero y enough = refl
  one_more (suc rounds) (suc x) y enough =
      ap (λ (t : ℕ). t * 2 + pair (suc x % 2) (y % 2))
        (one_more rounds (suc x / 2) (y / 2) (omega arith))

  surplus :
      (extra rounds x y : ℕ)
      → x ≤ rounds
      → digits stop pair (extra + rounds) x y ≡ digits stop pair rounds x y
  surplus zero rounds x y enough = ap (λ (t : ℕ). digits stop pair t x y) (zero-add rounds)
  surplus (suc extra) rounds x y enough =
      ap (λ (t : ℕ). digits stop pair t x y) (suc-add extra rounds)
      ∙ one_more (extra + rounds) x y (omega arith)
      ∙ surplus extra rounds x y enough

  -- The lowest digit, and the rest.
  pub lowest :
      (x y : ℕ)
      → bitwise stop pair (suc x) y
        ≡ bitwise stop pair (suc x / 2) (y / 2) * 2 + pair (suc x % 2) (y % 2)
  lowest x y =
      ap (λ (t : ℕ). t * 2 + pair (suc x % 2) (y % 2))
        (ap (λ (t : ℕ). digits stop pair t (suc x / 2) (y / 2)) all_rounds
          ∙ surplus (x - suc x / 2) (suc x / 2) (suc x / 2) (y / 2) (le_refl _))
    where
      all_rounds : x ≡ x - suc x / 2 + suc x / 2
      all_rounds = omega arith

pub bit_or_step : (x y : ℕ) → bit_or x y ≡ bit_or (x / 2) (y / 2) * 2 + max (x % 2) (y % 2)
bit_or_step zero y = omega (arith, bit_or-bitwise 0 y, bit_or-bitwise 0 (y / 2))
bit_or_step (suc x) y =
    bit_or-bitwise (suc x) y
    ∙ lowest (λ rest. rest) max x y
    ∙ ap (λ (t : ℕ). t * 2 + max (suc x % 2) (y % 2)) (sym (bit_or-bitwise (suc x / 2) (y / 2)))

pub bit_and_step : (x y : ℕ) → bit_and x y ≡ bit_and (x / 2) (y / 2) * 2 + min (x % 2) (y % 2)
bit_and_step zero y = omega (arith, bit_and-bitwise 0 y, bit_and-bitwise 0 (y / 2))
bit_and_step (suc x) y =
    bit_and-bitwise (suc x) y
    ∙ lowest (λ rest. 0) min x y
    ∙ ap (λ (t : ℕ). t * 2 + min (suc x % 2) (y % 2)) (sym (bit_and-bitwise (suc x / 2) (y / 2)))

-- Nothing on the right, at any width: `or` keeps the number and `and` clears it.
nothing_right : (w x : ℕ) → x < 2 ^ w → (bit_or x 0 ≡ x) × (bit_and x 0 ≡ 0)
nothing_right w zero small = (refl, refl)
nothing_right zero (suc x) small = absurd (omega arith)
nothing_right (suc w) (suc x) small =
    let (or, and) = nothing_right w (suc x / 2) (omega (arith, pow-suc 2 w)) in
    (omega (arith, or, bit_or_step (suc x) 0), omega (arith, and, bit_and_step (suc x) 0))

below_pow : (x : ℕ) → x < 2 ^ x
below_pow zero = omega arith
below_pow (suc x) = omega (arith, pow-suc 2 x, below_pow x)

pub bit_and-zero : (x : ℕ) → bit_and x 0 ≡ 0
bit_and-zero x = (nothing_right x x (below_pow x)).1

pub bit_or-zero : (x : ℕ) → bit_or x 0 ≡ x
bit_or-zero x = (nothing_right x x (below_pow x)).0

mul-two-pow-suc : (high w : ℕ) → high * 2 ^ suc w ≡ 2 * (high * 2 ^ w)
mul-two-pow-suc high w = omega (arith, ap (λ (t : ℕ). high * t) (pow-suc 2 w))

-- `(high << w) | low` is a sum when `low` fits into `w` bits.
pub bit_or_fields : (w high low : ℕ) → low < 2 ^ w → bit_or (high * 2 ^ w) low ≡ high * 2 ^ w + low
bit_or_fields zero high low small = ground (arith, bit_or-zero high)
bit_or_fields (suc w) high low small =
    let rest : bit_or (high * 2 ^ w) (low / 2) ≡ high * 2 ^ w + low / 2 =
      bit_or_fields w high (low / 2) (omega (arith, pow-suc 2 w)) in
    ground (arith, rest, mul-two-pow-suc high w, bit_or_step (high * 2 ^ suc w) low)

bit_or_comm_fuel : (n a b : ℕ) → a + b ≤ n → bit_or a b ≡ bit_or b a
bit_or_comm_fuel n zero zero h = refl
bit_or_comm_fuel zero zero (suc b) h = absurd (omega arith)
bit_or_comm_fuel zero (suc a) b h = absurd (omega arith)
bit_or_comm_fuel (suc n) zero (suc b) h = omega (
  arith,
  bit_or_step 0 (suc b),
  bit_or_step (suc b) 0,
  bit_or_comm_fuel n 0 (suc b / 2) (omega arith),
)
bit_or_comm_fuel (suc n) (suc a) b h = omega (
  arith,
  bit_or_step (suc a) b,
  bit_or_step b (suc a),
  bit_or_comm_fuel n (suc a / 2) (b / 2) (omega arith),
)

-- The same with the operands the other way round.
pub bit_or_fields' : (k q r : ℕ) → r < 2 ^ k → bit_or r (q * 2 ^ k) ≡ q * 2 ^ k + r
bit_or_fields' k q r fits =
    bit_or_comm_fuel (r + q * 2 ^ k) r (q * 2 ^ k) (le_refl _) ∙ bit_or_fields k q r fits

-- `x & ((1 << w) - 1)` is the remainder.
low_field : (w high low : ℕ) → low < 2 ^ w → bit_and (high * 2 ^ w + low) (2 ^ w - 1) ≡ low
low_field zero high low small = bit_and-zero (high * 1 + low) ∙ omega arith
low_field (suc w) high low small =
    let rest : bit_and (high * 2 ^ w + low / 2) (2 ^ w - 1) ≡ low / 2 =
      low_field w high (low / 2) (omega (arith, pow-suc 2 w)) in
    ground (
      arith,
      rest,
      pow_pos 2 w (omega arith),
      pow-suc 2 w,
      mul-two-pow-suc high w,
      bit_and_step (high * 2 ^ suc w + low) (2 ^ suc w - 1),
    )

pub bit_and_mask : (w x : ℕ) → bit_and x (2 ^ w - 1) ≡ x % 2 ^ w
bit_and_mask w x = ground (arith, low_field w (x / 2 ^ w) (x % 2 ^ w), pow_pos 2 w (omega arith))

div-two-pow-suc : (s a : ℕ) → a / 2 ^ suc s ≡ a / 2 / 2 ^ s
div-two-pow-suc s a = ap (λ (t : ℕ). a / t) step ∙ sym (div-div-eq-div-mul a 2 (2 ^ s))
  where
    step : 2 ^ suc s ≡ 2 * 2 ^ s
    step = omega (arith, pow-suc 2 s)

-- `x & (m << s)`, field by field: the low bits vanish and the high bits meet `m`.
pub bit_and_shifted : (s a m : ℕ) → bit_and a (m * 2 ^ s) ≡ bit_and (a / 2 ^ s) m * 2 ^ s
bit_and_shifted zero a m = simp (mul-one, div-one)
bit_and_shifted (suc s) a m = ground (
  arith,
  bit_and_step a (m * 2 ^ suc s),
  mul-two-pow-suc m s,
  mul-two-pow-suc (bit_and (a / 2 ^ suc s) m) s,
  div-two-pow-suc s a,
  bit_and_shifted s (a / 2) m,
)

zero-bit_and : (b : ℕ) → bit_and 0 b ≡ 0
zero-bit_and b = bit_and-bitwise 0 b

-- `x & !m`, within `w` bits.
pub bit_and_complement :
    (w x m : ℕ) → x < 2 ^ w → m < 2 ^ w → bit_and x (2 ^ w - 1 - m) + bit_and x m ≡ x
bit_and_complement zero zero m hx hm = simp zero-bit_and
bit_and_complement zero (suc x) m hx hm = absurd (omega arith)
bit_and_complement (suc w) x m hx hm = ground (
  arith,
  pow-suc 2 w,
  pow_pos 2 w (omega arith),
  bit_and_step x (2 ^ suc w - 1 - m),
  bit_and_step x m,
  bit_and_complement w (x / 2) (m / 2) (omega (arith, pow-suc 2 w)) (omega (arith, pow-suc 2 w)),
)
