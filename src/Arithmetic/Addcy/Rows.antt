-- ===== src/Arithmetic/Addcy/Rows.antt =====
-- The registers of a row that is written word by word, for the proofs.
use zk_evm.Prelude.{
  ℕ, zero, suc, ◌+◌, ◌-◌, ◌*◌, ◌/◌, ◌%◌, ◌^◌, ◌≤◌, ◌<◌, ◌≡◌, refl, ◌∙◌, arith, ◌⊎◌, inl, inr, true,
  false, leb, ltb,
}
use zk_evm.Kernel.U256.{modulus}
use zk_evm.Arithmetic.Fields.{Field, IsGoldilocks}
use zk_evm.Arithmetic.Columns.{Row, u256_to_array}
use zk_evm.Arithmetic.Addcy.{set_word}
use zk_evm.Arithmetic.Addcy.Digits.{word_from, le_or_lt}
use zk_evm.Arithmetic.Addcy.Sums.{limbs_of, IsRangeChecked}

-- A limb as a number.
abbrev pub limb : ℕ → ℕ → ℕ
limb x i = x / 2 ^ (64 * (i / 4)) % 2 ^ 64 / 2 ^ (16 * (i % 4)) % 2 ^ 16

pub word_from-same :
    (left i : ℕ) (a b : ℕ → ℕ)
    → ((j : ℕ) → j < i + left → a j ≡ b j)
    → word_from left i a ≡ word_from left i b
unfolding word_from
word_from-same zero i a b h = refl
word_from-same (suc left) i a b h =
    rw (h i (omega arith), word_from-same left (i + 1) a b (λ j to. h j (omega arith))) refl

-- Four limbs from `i` on.
abbrev quarter : (ℕ → ℕ) → ℕ → ℕ
quarter l i = l i + 65536 * l (i + 1) + 2 ^ 32 * l (i + 2) + 2 ^ 48 * l (i + 3)

word_from-quarter :
    (l : ℕ → ℕ)
    → word_from 16 0 l
      ≡ quarter l 0 + 2 ^ 64 * quarter l 4 + 2 ^ 128 * quarter l 8 + 2 ^ 192 * quarter l 12
unfolding word_from
word_from-quarter l = omega arith

four_limbs :
    (p : ℕ)
    → p < 2 ^ 64
    → p / 2 ^ 0 % 2 ^ 16
        + 65536 * (p / 2 ^ 16 % 2 ^ 16)
        + 2 ^ 32 * (p / 2 ^ 32 % 2 ^ 16)
        + 2 ^ 48 * (p / 2 ^ 48 % 2 ^ 16)
      ≡ p
four_limbs p h = omega arith

four_parts :
    (x : ℕ)
    → x < modulus
    → x / 2 ^ 0 % 2 ^ 64
        + 2 ^ 64 * (x / 2 ^ 64 % 2 ^ 64)
        + 2 ^ 128 * (x / 2 ^ 128 % 2 ^ 64)
        + 2 ^ 192 * (x / 2 ^ 192 % 2 ^ 64)
      ≡ x
four_parts x h = omega arith

word_from-limb : (x : ℕ) → x < modulus → word_from 16 0 (limb x) ≡ x
word_from-limb x h =
    let e0 : quarter (limb x) 0 ≡ x / 2 ^ 0 % 2 ^ 64 =
      four_limbs (x / 2 ^ 0 % 2 ^ 64) (omega arith) in
    let e1 : quarter (limb x) 4 ≡ x / 2 ^ 64 % 2 ^ 64 =
      four_limbs (x / 2 ^ 64 % 2 ^ 64) (omega arith) in
    let e2 : quarter (limb x) 8 ≡ x / 2 ^ 128 % 2 ^ 64 =
      four_limbs (x / 2 ^ 128 % 2 ^ 64) (omega arith) in
    let e3 : quarter (limb x) 12 ≡ x / 2 ^ 192 % 2 ^ 64 =
      four_limbs (x / 2 ^ 192 % 2 ^ 64) (omega arith) in
    word_from-quarter (limb x) ∙ rw (e0, e1, e2, e3) (four_parts x h)

zero_limbs :
    (left i : ℕ) (l : ℕ → ℕ) → word_from left i l ≡ 0 → (j : ℕ) → i ≤ j → j < i + left → l j ≡ 0
unfolding word_from
zero_limbs zero i l e j from to = absurd (omega arith)
zero_limbs (suc left) i l e j from to = elim (le_or_lt j i) [
  | inl here ↦ let same : j ≡ i = omega arith in rw same (omega arith)
  | inr later ↦ zero_limbs left (i + 1) l (omega arith) j (omega arith) (omega arith)
]

-- The limbs above the lowest one of a word that is at most 1.
pub bit_limbs :
    (l : ℕ → ℕ) (k : ℕ)
    → word_from 16 0 l ≡ k
    → k ≤ 1
    → (l 0 ≡ k) × ((j : ℕ) → 1 ≤ j → j < 16 → l j ≡ 0)
unfolding word_from
bit_limbs l k e h = (omega arith, λ j from to. zero_limbs 15 1 l (omega arith) j from (omega arith))

module _ (F : Field) (G : IsGoldilocks F) where
  array-limb : (x i : ℕ) → limbs_of F (u256_to_array F x) i ≡ limb x i
  array-limb x i = G.of_from (limb x i) (omega arith)

  pub array-IsRangeChecked : (x : ℕ) → IsRangeChecked F (u256_to_array F x)
  array-IsRangeChecked x i h = rw (array-limb x i) (omega arith)

  pub array-word : (x : ℕ) → x < modulus → word_from 16 0 (limbs_of F (u256_to_array F x)) ≡ x
  array-word x h = word_from-same 16 0 _ (limb x) (λ j to. array-limb x j) ∙ word_from-limb x h

module _ (F : Field) (lv : Row F) (start x : ℕ) where
  pub set_word-here : (i : ℕ) → i < 16 → set_word F lv start x (start + i) ≡ u256_to_array F x i
  set_word-here i h =
      let first : leb start (start + i) ≡ true = ground arith in
      let last : ltb (start + i) (start + 16) ≡ true = ground (arith, h) in
      let place : start + i - start ≡ i = omega arith in rw (first, last, place) refl

  pub set_word-other : (j : ℕ) → (j < start) ⊎ (start + 16 ≤ j) → set_word F lv start x j ≡ lv j
  set_word-other j (inl h) = let first : leb start j ≡ false = ground (arith, h) in rw first refl
  set_word-other j (inr h) =
      let first : leb start j ≡ true = ground (arith, h) in
      let last : ltb j (start + 16) ≡ false = ground (arith, h) in rw (first, last) refl
