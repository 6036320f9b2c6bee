-- ===== src/Smt/Bits/Sequences.antt =====
-- Sequences of bits as lists, the last bit first.
use native.Mathlib.Nat.{pow-suc, div-div-eq-div-mul}
use zk_evm.Prelude.{
  ℕ, zero, suc, ◌+◌, ◌-◌, ◌*◌, ◌/◌, ◌%◌, ◌^◌, ◌≤◌, ◌<◌, ◌≡◌, refl, ap, sym, ◌∙◌, arith, bit_and,
  Bool, true, false, not, Option, some, List, [], ◌∷◌, length, get_elem?, min, ltb, ◌==◌, ==_iff,
  ==-ne,
}
use zk_evm.Prelude.Bits.{bit_and_step, bit_and-zero}
use zk_evm.Prelude.Powers.{pow_pos, pow_mono}
use zk_evm.Kernel.U256.{modulus, shl, shr}
use zk_evm.Smt.Bits.{Bits, from_bit, pop_next_bit, get_bit, push_bit}

abbrev pub num : List Bool → ℕ
num [] = 0
num (b ∷ r) = num r * 2 + from_bit b

-- The sequence with these bits.
abbrev pub seq : List Bool → Bits
seq r = record { count = length r; packed = num r }

pub from_bit-bound : (b : Bool) → from_bit b ≤ 1
from_bit-bound true = omega arith
from_bit-bound false = omega arith

pub num-bound : (r : List Bool) → num r < 2 ^ length r
num-bound [] = omega arith
num-bound (b ∷ r) = omega (arith, num-bound r, from_bit-bound b, pow-suc 2 (length r))

pub push_bit-seq :
    (r : List Bool) (b : Bool) → length r < 256 → push_bit (seq r) b ≡ some (seq (b ∷ r))
unfolding push_bit
push_bit-seq r b short =
    let small : num (b ∷ r) < modulus =
      omega
        (arith, num-bound (b ∷ r), pow_mono 2 (length (b ∷ r)) 256 (omega arith) (omega arith)) in
    let doubled : ltb (num r * 2) modulus ≡ true = ground (arith, small) in
    let fits : ltb (num r * 2 + from_bit b) modulus ≡ true = ground (arith, small) in
    rw (doubled, fits) same
  where
    same :
        some (record { count = length r + 1; packed = num r * 2 + from_bit b }) ≡ some (seq (b ∷ r))
    same =
        ap (λ (c : ℕ). some (record { count = c; packed = num r * 2 + from_bit b })) (omega arith)

pub bit_and-one : (x : ℕ) → bit_and x 1 ≡ x % 2
bit_and-one x = omega (arith, bit_and_step x 1, bit_and-zero (x / 2))

pub bit_and-power : (j x : ℕ) → bit_and x (2 ^ j) ≡ x / 2 ^ j % 2 * 2 ^ j
bit_and-power zero x = bit_and-one x ∙ omega arith
bit_and-power (suc j) x =
    let halves : 2 ^ suc j / 2 ≡ 2 ^ j = omega (arith, pow-suc 2 j) in
    let even : 2 ^ suc j % 2 ≡ 0 = omega (arith, pow-suc 2 j) in
    let further : x / 2 / 2 ^ j ≡ x / 2 ^ suc j =
      div-div-eq-div-mul x 2 (2 ^ j) ∙ ap (λ (d : ℕ). x / d) (omega (arith, pow-suc 2 j)) in
    bit_and_step x (2 ^ suc j)
    ∙ rw (halves, even, bit_and-power j (x / 2), further)
        (double (x / 2 ^ suc j % 2) (2 ^ j)
          ∙ ap (λ (d : ℕ). x / 2 ^ suc j % 2 * d) (omega (arith, pow-suc 2 j)))
  where
    double : (q p : ℕ) → q * p * 2 + min (x % 2) 0 ≡ q * (p * 2)
    double q p = grind arith

pub pop_next_bit-seq : (b : Bool) (r : List Bool) → pop_next_bit (seq (b ∷ r)) ≡ some (b, seq r)
unfolding pop_next_bit shr
pop_next_bit-seq b r =
    let odd : bit_and (num (b ∷ r)) 1 ≡ from_bit b = bit_and-one (num (b ∷ r)) ∙ last b in
    let half : num (b ∷ r) / 2 ≡ num r = omega (arith, from_bit-bound b) in
    let some_left : (length (b ∷ r) == 0) ≡ false =
      ==-ne (length (b ∷ r)) 0 (λ e. absurd (omega arith)) in
    rw (some_left, odd, half) (value_of b)
  where
    pair : Bool → ℕ → Option (Bool × Bits)
    pair b c = some (b, record { count = c; packed = num r })

    last : (b : Bool) → num (b ∷ r) % 2 ≡ from_bit b
    last true = omega arith
    last false = omega arith

    value_of : (b : Bool) → pair (not (from_bit b == 0)) (length (b ∷ r) - 1) ≡ pair b (length r)
    value_of true = ap (λ (c : ℕ). pair true c) (omega arith)
    value_of false = ap (λ (c : ℕ). pair false c) (omega arith)

-- The bit of a sequence at an index from its front.
num-get :
    (r : List Bool) (j : ℕ) (b : Bool) → get_elem? r j ≡ some b → num r / 2 ^ j % 2 ≡ from_bit b
num-get [] j b h = cc
num-get (x ∷ r) zero b h = here b (only h)
  where
    only : some x ≡ some b → x ≡ b
    only e = cc

    here : (b : Bool) → x ≡ b → (num r * 2 + from_bit x) / 1 % 2 ≡ from_bit b
    here b e = omega (arith, from_bit-bound b, ap from_bit e)
num-get (x ∷ r) (suc j) b h =
    let half : num (x ∷ r) / 2 ≡ num r = omega (arith, from_bit-bound x) in
    let further : num (x ∷ r) / 2 / 2 ^ j ≡ num (x ∷ r) / 2 ^ suc j =
      div-div-eq-div-mul (num (x ∷ r)) 2 (2 ^ j)
      ∙ ap (λ (d : ℕ). num (x ∷ r) / d) (omega (arith, pow-suc 2 j)) in
    ap (λ (n : ℕ). n % 2) (sym further ∙ ap (λ (n : ℕ). n / 2 ^ j) half) ∙ num-get r j b h

power_small : (j : ℕ) → j < 256 → 2 ^ j < modulus
power_small j h = omega (
  arith,
  pow_mono 2 (suc j) 256 (omega arith) (omega arith),
  pow-suc 2 j,
  pow_pos 2 j (omega arith),
)

pub get_bit-seq :
    (r : List Bool) (i : ℕ) (b : Bool)
    → length r ≤ 256
    → i < length r
    → get_elem? r (length r - 1 - i) ≡ some b
    → get_bit (seq r) i ≡ some b
unfolding get_bit shl
get_bit-seq r i b short within h =
    let j : ℕ = length r - 1 - i in
    let small : 1 * 2 ^ j % modulus ≡ 2 ^ j = omega (arith, power_small j (omega arith)) in
    let inside : ltb i (length r) ≡ true = ground (arith, within) in
    rw (inside, small, bit_and-power j (num r), num-get r j b h)
      (value_of b (2 ^ j) (pow_pos 2 j (omega arith)))
  where
    value_of : (b : Bool) (p : ℕ) → 0 < p → some (not (from_bit b * p == 0)) ≡ some b
    value_of true p pos = rw (==-ne (1 * p) 0 (λ e. absurd (omega arith))) refl
    value_of false p pos = rw ((==_iff (0 * p) 0).1 (omega arith)) refl
