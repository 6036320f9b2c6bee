-- ===== src/Mpt/Nibbles/Fields.antt =====
-- Masks and shifts on a packed word, as cuts of the list of its nibbles.
use native.Mathlib.Nat.{mul-lt-mul_of_pos_right}
use zk_evm.Prelude.{
  ℕ, ◌+◌, ◌-◌, ◌*◌, ◌/◌, ◌%◌, ◌^◌, ◌≤◌, ◌<◌, ◌≡◌, sym, ap, ◌∙◌, arith, List, length, bit_and,
  bit_or, some, checked_sub, checked_sub-le,
}
use zk_evm.Prelude.Powers.{pow-add, pow_pos, pow_mono, two_pow_four, two_pow_four'}
use zk_evm.Prelude.Bits.{
  bit_and_mask, bit_and_shifted, bit_and_complement, bit_or_fields, bit_or_fields',
}
use zk_evm.Mpt.Intern.{shl, shr, bit_not, create_mask_of_1s}
use zk_evm.Mpt.Nibbles.Value.{IsNibs, value, value-lt}

mod-small : (a m : ℕ) → a < m → a % m ≡ a
mod-small a m h = grind arith

-- A shift to the left by whole nibbles that stays within the word.
pub shl-eq : (x m s : ℕ) → x < 16 ^ m → m + s ≤ 80 → shl x (s * 4) ≡ x * 16 ^ s
shl-eq x m s hx h =
    ap (λ (t : ℕ). x * t % 2 ^ 320) (two_pow_four' s) ∙ mod-small (x * 16 ^ s) (2 ^ 320) bound
  where
    product : x * 16 ^ s < 16 ^ m * 16 ^ s
    product = mul-lt-mul_of_pos_right hx (pow_pos 16 s (omega arith))

    bound : x * 16 ^ s < 2 ^ 320
    bound = omega (arith, product, pow-add 16 m s, pow_mono 16 (m + s) 80 (omega arith) h)

pub create_mask-eq : (k : ℕ) → k ≤ 79 → create_mask_of_1s (k * 4) ≡ some (16 ^ k - 1)
unfolding create_mask_of_1s
create_mask-eq k h =
    ap (λ (t : ℕ). checked_sub t 1) (shl-eq 1 1 k (omega arith) (omega arith) ∙ omega arith)
    ∙ checked_sub-le (16 ^ k) 1 (pow_pos 16 k (omega arith))

pub shr-eq : (x s : ℕ) → shr x (s * 4) ≡ x / 16 ^ s
shr-eq x s = ap (λ (t : ℕ). x / t) (two_pow_four' s)

pub mask_low : (a k : ℕ) → bit_and a (16 ^ k - 1) ≡ a % 16 ^ k
mask_low a k =
    ap (λ (t : ℕ). bit_and a (t - 1)) (sym (two_pow_four k))
    ∙ bit_and_mask (4 * k) a
    ∙ ap (λ (t : ℕ). a % t) (two_pow_four k)

pub mask_mid : (a m s : ℕ) → bit_and a (m * 16 ^ s) ≡ bit_and (a / 16 ^ s) m * 16 ^ s
mask_mid a m s =
    ap (λ (t : ℕ). bit_and a (m * t)) (sym (two_pow_four s))
    ∙ bit_and_shifted (4 * s) a m
    ∙ ap (λ (t : ℕ). bit_and (a / t) m * t) (two_pow_four s)

pub mask_not : (a m : ℕ) → a < 2 ^ 320 → m < 2 ^ 320 → bit_and a (bit_not m) + bit_and a m ≡ a
mask_not a m ha hm = bit_and_complement 320 a m ha hm

pub or_low : (q r k : ℕ) → r < 16 ^ k → bit_or (q * 16 ^ k) r ≡ q * 16 ^ k + r
or_low q r k h =
    ap (λ (t : ℕ). bit_or (q * t) r) (sym (two_pow_four k))
    ∙ bit_or_fields (4 * k) q r (omega (arith, two_pow_four k))
    ∙ ap (λ (t : ℕ). q * t + r) (two_pow_four k)

pub or_high : (q r k : ℕ) → r < 16 ^ k → bit_or r (q * 16 ^ k) ≡ q * 16 ^ k + r
or_high q r k h =
    ap (λ (t : ℕ). bit_or r (q * t)) (sym (two_pow_four k))
    ∙ bit_or_fields' (4 * k) q r (omega (arith, two_pow_four k))
    ∙ ap (λ (t : ℕ). q * t + r) (two_pow_four k)

pub value-lt_word : (l : List ℕ) → IsNibs l → length l ≤ 80 → value l < 2 ^ 320
value-lt_word l h s = omega (arith, value-lt l h, pow_mono 16 (length l) 80 (omega arith) s)
