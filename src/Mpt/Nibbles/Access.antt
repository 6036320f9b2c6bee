-- ===== src/Mpt/Nibbles/Access.antt =====
-- Reading single nibbles: `get_nibble` and the methods that pop one nibble.
use native.Mathlib.Nat.{pow-suc, div-div-eq-div-mul, add-zero, zero-add}
use zk_evm.Prelude.{
  ℕ, zero, suc, ◌+◌, ◌*◌, ◌/◌, ◌%◌, ◌^◌, ◌≤◌, ◌<◌, ◌≡◌, refl, ap, ◌∙◌, arith, List, [], ◌∷◌, ◌++◌,
  length, some, none, length-append, append_assoc, bit_and, get_elem?, true, false,
}
use zk_evm.Prelude.Powers.{div-mul-add}
use zk_evm.Prelude.Bits.{bit_and_mask, bit_and_shifted}
use zk_evm.Mpt.Intern.{shr, is_even}
use zk_evm.Mpt.Nibbles.{
  from_nibble, Nibbles, is_empty, get_nibble, pop_next_nibble_front, pop_next_nibble_back,
}
use zk_evm.Mpt.Nibbles.Cuts.{back_append}
use zk_evm.Mpt.Nibbles.Slices.{truncate_n_nibbles_front-nib}
use zk_evm.Mpt.Nibbles.Value.{IsNibs, value, nib, value-lt, value-append}

-- A nibble of a byte, by the parity of its position.
low_half : (b : ℕ) → bit_and b 0b00001111 ≡ b % 16
low_half b = bit_and_mask 4 b

high_half : (b : ℕ) → b < 256 → shr (bit_and b 0b11110000) 4 ≡ b / 16
high_half b h = omega (arith, bit_and_shifted 4 b 15, bit_and_mask 4 (b / 16))

pow256 : (j : ℕ) → 256 ^ j ≡ 16 ^ (2 * j)
pow256 zero = refl
pow256 (suc j) =
    omega (arith, pow-suc 256 j, pow256 j, pow-suc 16 (2 * j), pow-suc 16 (suc (2 * j)))
    ∙ ap (λ (t : ℕ). 16 ^ t) step
  where
    step : suc (suc (2 * j)) ≡ 2 * suc j
    step = omega arith

double : (k : ℕ) → is_even k ≡ true → 2 * (k / 2) ≡ k
unfolding is_even
double k h = ground (arith, bit_and_mask 1 k)

double_and_one : (k : ℕ) → is_even k ≡ false → suc (2 * (k / 2)) ≡ k
unfolding is_even
double_and_one k h = ground (arith, bit_and_mask 1 k)

-- The byte that holds nibble `k` from the low end, and the half of it that is nibble `k`.
abbrev byte_of : ℕ → ℕ → ℕ
byte_of p k = p / 256 ^ (k / 2) % 256

even_half : (p k : ℕ) → is_even k ≡ true → bit_and (byte_of p k) 0b00001111 ≡ p / 16 ^ k % 16
even_half p k h =
    low_half (byte_of p k)
    ∙ omega arith
    ∙ ap (λ (t : ℕ). p / t % 16) (pow256 (k / 2) ∙ ap (λ (t : ℕ). 16 ^ t) (double k h))

odd_half :
    (p k : ℕ) → is_even k ≡ false → shr (bit_and (byte_of p k) 0b11110000) 4 ≡ p / 16 ^ k % 16
odd_half p k h =
    high_half (byte_of p k) (omega arith)
    ∙ digit_above (p / 256 ^ (k / 2))
    ∙ ap (λ (t : ℕ). t % 16) (div-div-eq-div-mul p (256 ^ (k / 2)) 16)
    ∙ ap (λ (t : ℕ). p / t % 16) power
  where
    digit_above : (a : ℕ) → a % 256 / 16 ≡ a / 16 % 16
    digit_above a = omega arith

    power : 256 ^ (k / 2) * 16 ≡ 16 ^ k
    power =
        omega (arith, pow256 (k / 2), pow-suc 16 (2 * (k / 2)))
        ∙ ap (λ (t : ℕ). 16 ^ t) (double_and_one k h)

-- Below the top of the word `get_nibble` reads the base-16 digit that its index names.
pub get_nibble-digit :
    (n : Nibbles) (idx k : ℕ)
    → n.count ≡ idx + suc k
    → k < 80
    → get_nibble n idx ≡ some (n.packed / 16 ^ k % 16)
unfolding get_nibble
get_nibble-digit n idx k e h = ground (arith, even_half n.packed k, odd_half n.packed k)

-- Past the end of the key `get_nibble` panics.
pub get_nibble_out_of_range : (n : Nibbles) (idx : ℕ) → n.count ≤ idx → get_nibble n idx ≡ none
unfolding get_nibble
get_nibble_out_of_range n idx h = ground arith

pub value_digit :
    (xs : List ℕ) (x : ℕ) (ys : List ℕ)
    → IsNibs (x ∷ ys)
    → value (xs ++ (x ∷ ys)) / 16 ^ length ys % 16 ≡ x
value_digit xs x ys h = ap (λ (t : ℕ). t % 16) quotient ∙ omega arith
  where
    regroup : value (xs ++ (x ∷ ys)) ≡ (value xs * 16 + x) * 16 ^ length ys + value ys
    regroup =
        omega
          (arith, value-append xs (x ∷ ys), ap (λ (t : ℕ). value xs * t) (pow-suc 16 (length ys)))

    quotient : value (xs ++ (x ∷ ys)) / 16 ^ length ys ≡ value xs * 16 + x
    quotient =
        ap (λ (t : ℕ). t / 16 ^ length ys) regroup
        ∙ div-mul-add (value xs * 16 + x) (16 ^ length ys) (value ys) (value-lt ys h.1)

pub get_nibble-append :
    (xs : List ℕ) (x : ℕ) (ys : List ℕ)
    → IsNibs (x ∷ ys)
    → length xs + length ys < 64
    → get_nibble (nib (xs ++ (x ∷ ys))) (length xs) ≡ some x
get_nibble-append xs x ys h fits =
    get_nibble-digit (nib (xs ++ (x ∷ ys))) (length xs) (length ys)
      (omega (arith, length-append xs (x ∷ ys))) (omega arith)
    ∙ ap some (value_digit xs x ys h)

-- With the nibbles already passed in front.
get_nibble-behind :
    (xs ys : List ℕ) (i : ℕ)
    → IsNibs ys
    → length xs + length ys ≤ 64
    → get_nibble (nib (xs ++ ys)) (length xs + i) ≡ get_elem? ys i
get_nibble-behind xs [] i h fits =
    get_nibble_out_of_range (nib (xs ++ [])) (length xs + i) (omega (arith, length-append xs []))
get_nibble-behind xs (y ∷ ys) zero h fits =
    ap (λ (t : ℕ). get_nibble (nib (xs ++ (y ∷ ys))) t) (add-zero (length xs))
    ∙ get_nibble-append xs y ys h (omega arith)
get_nibble-behind xs (y ∷ ys) (suc i) h fits =
    rw (append_assoc xs (y ∷ []) ys, shift) at
      (get_nibble-behind (xs ++ (y ∷ [])) ys i h.1 (omega (arith, length-append xs (y ∷ []))))
  where
    shift : length (xs ++ (y ∷ [])) + i ≡ length xs + suc i
    shift = omega (arith, length-append xs (y ∷ []))

-- Reading a nibble of a key of at most 64 nibbles gives the list entry at that index, and panics
-- exactly past the end.
pub get_nibble-nib :
    (l : List ℕ) (i : ℕ) → IsNibs l → length l ≤ 64 → get_nibble (nib l) i ≡ get_elem? l i
get_nibble-nib l i h fits = rw (zero-add i) at (get_nibble-behind [] l i h (omega arith))

module _ (x : ℕ) (l : List ℕ) (h : IsNibs (x ∷ l)) (fits : length l < 64) where
  -- Popping at the front takes the first nibble.
  pub pop_next_nibble_front-nib : pop_next_nibble_front (nib (x ∷ l)) ≡ some (x, nib l)
  unfolding pop_next_nibble_front
  pop_next_nibble_front-nib = ground (
    arith,
    get_nibble-nib (x ∷ l) 0 h (omega arith),
    truncate_n_nibbles_front-nib (x ∷ l) h (omega arith) 1,
  )

module _ (l : List ℕ) (x : ℕ) (h : IsNibs l) (small : x < 16) (fits : length l < 64) where
  -- Popping at the back takes the last nibble.
  pub pop_next_nibble_back-nib : pop_next_nibble_back (nib (l ++ (x ∷ []))) ≡ some (x, nib l)
  unfolding pop_next_nibble_back
  pop_next_nibble_back-nib = ground (
    arith,
    length-append l (x ∷ []),
    get_nibble-append l x [] (small, tt) (omega arith),
    back_append l (x ∷ []) h (small, tt) (omega arith) 1,
  )

pub is_empty-cons : (x : ℕ) (l : List ℕ) → is_empty (nib (x ∷ l)) ≡ false
unfolding is_empty
is_empty-cons x l = ground arith

pub from_nibble-nib : (n : ℕ) → n < 16 → from_nibble n ≡ some (nib (n ∷ []))
unfolding from_nibble
from_nibble-nib n small = ground arith
