-- ===== src/Arithmetic/Addcy/Digits.antt =====
-- One digit of an addition in the field, as numbers, for the proofs.
use native.Mathlib.Nat.{mul-le-mul, mul-pos, mul_comm, mul-add, add-mul, pow-suc, mul_assoc}
use zk_evm.Prelude.{
  ℕ, zero, suc, ◌+◌, ◌-◌, ◌*◌, ◌%◌, ◌^◌, ◌≤◌, ◌<◌, ◌≡◌, refl, ap, sym, ◌∙◌, arith, ◌⊎◌, inl, inr,
  leb, Bool-cases,
}
use zk_evm.Arithmetic.Fields.{order}

-- A small product of positive numbers is not 0 in the field.
small_product : (a b : ℕ) → 0 < a → 0 < b → a < 131072 → b ≤ 131072 → (a * b) % order ≡ 0 → ⊥
small_product a b ha hb la lb e =
    let pos : 0 < a * b = mul-pos ha hb in
    let bound : a * b ≤ 131072 * 131072 =
      mul-le-mul {n₁ = a} {m₁ = b} {n₂ = 131072} {m₂ = 131072} (omega arith) lb in
    omega arith

negate : (a b k : ℕ) → a % order ≡ 0 → a + b ≡ k * order → b % order ≡ 0
negate a b k e s = omega arith

pub le_or_lt : (a b : ℕ) → (a ≤ b) ⊎ (b < a)
le_or_lt a b = elim (Bool-cases (leb a b)) [
  | inl h ↦ inl (ground (arith, h))
  | inr h ↦ inr (ground (arith, h))
]

split_left : (a b m : ℕ) → a + b ≡ order → a * m + b * m ≡ m * order
split_left a b m e = sym (add-mul a b m) ∙ ap (λ (t : ℕ). t * m) e ∙ mul_comm order m

split_right : (m a b : ℕ) → a + b ≡ order → m * a + m * b ≡ m * order
split_right m a b e = sym (mul-add m a b) ∙ ap (λ (t : ℕ). m * t) e

-- If a digit `t` or `2 ^ 16 - t` is 0, then the digits of the sum are that of the result and a carry.
digit_sum :
    (c x y z t : ℕ)
    → c ≤ 1
    → x < 65536
    → y < 65536
    → z < 65536
    → t ≡ (c + x + y + (order - z)) % order
    → (t * ((65536 + (order - t)) % order)) % order ≡ 0
    → ((t ≡ 0) × (c + x + y ≡ z)) ⊎ ((t ≡ 65536) × (c + x + y ≡ z + 65536))
digit_sum c x y z t hc hx hy hz et e = elim (le_or_lt z (c + x + y)) [
  | inl le ↦ at_least (c + x + y - z) t (omega arith) (omega arith) (omega arith) e
  | inr less ↦ absurd (below (z - (c + x + y)) t (omega arith) (omega arith) (omega arith) e)
]
  where
    at_least :
        (d t : ℕ)
        → d ≤ 131071
        → t ≡ d
        → c + x + y ≡ z + d
        → (t * ((65536 + (order - t)) % order)) % order ≡ 0
        → ((t ≡ 0) × (c + x + y ≡ z)) ⊎ ((t ≡ 65536) × (c + x + y ≡ z + 65536))
    at_least d t hd e le h = elim (le_or_lt d 0) [
      | inl none_left ↦ inl (omega arith, omega arith)
      | inr pos ↦ elim (le_or_lt d 65536) [
        | inl low ↦ elim (le_or_lt 65536 d) [
          | inl full ↦ inr (omega arith, omega arith)
          | inr part ↦
              let turn : (65536 + (order - t)) % order ≡ 65536 - d = omega arith in
              let product : (d * (65536 - d)) % order ≡ 0 = rw (turn, e) at h in
              absurd
                (small_product d (65536 - d) pos (omega arith) (omega arith) (omega arith) product)
        ]
        | inr high ↦
            let turn : (65536 + (order - t)) % order ≡ order - (d - 65536) = omega arith in
            let product : (d * (order - (d - 65536))) % order ≡ 0 = rw (turn, e) at h in
            let sum : d * (order - (d - 65536)) + d * (d - 65536) ≡ d * order =
              split_right d (order - (d - 65536)) (d - 65536) (omega arith) in
            absurd (
              small_product d (d - 65536) pos (omega arith) (omega arith) (omega arith)
                (negate (d * (order - (d - 65536))) (d * (d - 65536)) d product sum))
      ]
    ]

    below :
        (d t : ℕ)
        → 0 < d
        → d < 65536
        → t ≡ order - d
        → (t * ((65536 + (order - t)) % order)) % order ≡ 0
        → ⊥
    below d t pos hd et h =
        let turn : (65536 + (order - t)) % order ≡ 65536 + d = omega arith in
        let product : (t * (65536 + d)) % order ≡ 0 = rw turn at h in
        let sum : t * (65536 + d) + d * (65536 + d) ≡ (65536 + d) * order =
          split_left t d (65536 + d) (omega arith) in
        small_product d (65536 + d) pos (omega arith) (omega arith) (omega arith)
          (negate (t * (65536 + d)) (d * (65536 + d)) (65536 + d) product sum)

pub digit_carry :
    (c x y z t : ℕ)
    → c ≤ 1
    → x < 65536
    → y < 65536
    → z < 65536
    → t ≡ (c + x + y + (order - z)) % order
    → (t * ((65536 + (order - t)) % order)) % order ≡ 0
    → (k : ℕ) × (k ≤ 1) × (t ≡ k * 65536) × (c + x + y ≡ z + k * 65536)
digit_carry c x y z t hc hx hy hz et e = elim (digit_sum c x y z t hc hx hy hz et e) [
  | inl (zero_digit, sum) ↦ (0, omega arith, omega arith, omega arith)
  | inr (full_digit, sum) ↦ (1, omega arith, omega arith, omega arith)
]

-- A carry from above one limb more.
pub carry_up : (k n : ℕ) → k * 65536 ^ suc n ≡ 65536 * (k * 65536 ^ n)
carry_up k n =
    ap (λ (t : ℕ). k * t) (pow-suc 65536 n)
    ∙ sym (mul_assoc k (65536 ^ n) 65536)
    ∙ mul_comm (k * 65536 ^ n) 65536

-- The number that limbs of 16 bits write, from the limb `i` on.
unfoldable pub word_from : ℕ → ℕ → (ℕ → ℕ) → ℕ
word_from zero i limbs = 0
word_from (suc left) i limbs = limbs i + 65536 * word_from left (i + 1) limbs

pub word_from-lt :
    (left i : ℕ) (limbs : ℕ → ℕ)
    → ((j : ℕ) → j < i + left → limbs j < 65536)
    → word_from left i limbs < 65536 ^ left
unfolding word_from
word_from-lt zero i limbs h = omega arith
word_from-lt (suc left) i limbs h = omega (
  arith,
  pow-suc 65536 left,
  h i (omega arith),
  word_from-lt left (i + 1) limbs (λ j to. h j (omega arith)),
)

word_from-zeros :
    (left i : ℕ) (limbs : ℕ → ℕ)
    → ((j : ℕ) → i ≤ j → j < i + left → limbs j ≡ 0)
    → word_from left i limbs ≡ 0
unfolding word_from
word_from-zeros zero i limbs h = refl
word_from-zeros (suc left) i limbs h = omega (
  arith,
  h i (omega arith) (omega arith),
  word_from-zeros left (i + 1) limbs (λ j from to. h j (omega arith) (omega arith)),
)

-- A word with only its lowest limb.
pub word_from-low :
    (limbs : ℕ → ℕ) → ((j : ℕ) → 1 ≤ j → j < 16 → limbs j ≡ 0) → word_from 16 0 limbs ≡ limbs 0
unfolding word_from
word_from-low limbs h =
    omega (arith, word_from-zeros 15 1 limbs (λ j from to. h j from (omega arith)))
