-- ===== src/Mpt/Nibbles/Value.antt =====
-- A packed key and the list of its nibbles: `nib l` packs the list `l`, the first nibble highest.
use native.Mathlib.Nat.{pow-suc, div-add-mod', mod-lt, div-lt_iff_lt-mul}
use zk_evm.Prelude.{
  ℕ, zero, suc, ◌+◌, ◌*◌, ◌/◌, ◌%◌, ◌^◌, ◌≤◌, ◌<◌, ◌≡◌, refl, ap, ap₂, ◌∙◌, arith, List, [], ◌∷◌,
  ◌++◌, length, All, length-append,
}
use zk_evm.Prelude.Powers.{pow-add, pow_pos, div-mul-add, mod-mul-add}
use zk_evm.Mpt.Nibbles.{Nibbles}

abbrev pub IsNibs : List ℕ → Type 0
IsNibs = All (λ x. x < 16)

-- The number that the nibbles write in base 16.
abbrev pub value : List ℕ → ℕ
value [] = 0
value (x ∷ xs) = x * 16 ^ length xs + value xs

abbrev pub nib : List ℕ → Nibbles
nib l = record { count = length l; packed = value l }

-- At most 64 nibbles, and nothing beyond them in the packed word.
pub record IsValid (n : Nibbles) : Type 0 where
  pub short : n.count ≤ 64
  pub fits : n.packed < 16 ^ n.count

pub value-lt : (l : List ℕ) → IsNibs l → value l < 16 ^ length l
value-lt [] h = omega arith
value-lt (x ∷ xs) h =
    omega (arith, value-lt xs h.1, pow-suc 16 (length xs), mul_step x (length xs) h.0)
  where
    mul_step : (x n : ℕ) → x < 16 → x * 16 ^ n + 16 ^ n ≤ 16 ^ n * 16
    mul_step x n h = grind arith

pub value-append : (xs ys : List ℕ) → value (xs ++ ys) ≡ value xs * 16 ^ length ys + value ys
value-append [] ys = omega arith
value-append (x ∷ xs) ys = omega (
  arith,
  value-append xs ys,
  ap (λ (t : ℕ). x * 16 ^ t) (length-append xs ys),
  ap (λ (t : ℕ). x * t) (pow-add 16 (length xs) (length ys)),
)

pub value-div : (xs ys : List ℕ) → IsNibs ys → value (xs ++ ys) / 16 ^ length ys ≡ value xs
value-div xs ys h =
    ap (λ (t : ℕ). t / 16 ^ length ys) (value-append xs ys)
    ∙ div-mul-add (value xs) (16 ^ length ys) (value ys) (value-lt ys h)

pub value-mod : (xs ys : List ℕ) → IsNibs ys → value (xs ++ ys) % 16 ^ length ys ≡ value ys
value-mod xs ys h =
    ap (λ (t : ℕ). t % 16 ^ length ys) (value-append xs ys)
    ∙ mod-mul-add (value xs) (16 ^ length ys) (value ys) (value-lt ys h)

-- The nibbles of a packed word, the highest of `count` first.
unfoldable pub digits : ℕ → ℕ → List ℕ
digits zero packed = []
digits (suc count) packed = packed / 16 ^ count ∷ digits count (packed % 16 ^ count)

pub length-digits : (count packed : ℕ) → length (digits count packed) ≡ count
unfolding digits
length-digits zero p = refl
length-digits (suc c) p = ap suc (length-digits c (p % 16 ^ c))

pub digits-IsNibs : (c p : ℕ) → p < 16 ^ c → IsNibs (digits c p)
unfolding digits
digits-IsNibs zero p h = tt
digits-IsNibs (suc c) p h = (
  (div-lt_iff_lt-mul (pow_pos 16 c (omega arith))).1 (omega (arith, pow-suc 16 c)),
  digits-IsNibs c (p % 16 ^ c) (mod-lt p (pow_pos 16 c (omega arith))),
)

pub value-digits : (c p : ℕ) → p < 16 ^ c → value (digits c p) ≡ p
unfolding digits
value-digits zero p h = omega arith
value-digits (suc c) p h = omega (
  arith,
  ap (λ (t : ℕ). p / 16 ^ c * 16 ^ t) (length-digits c (p % 16 ^ c)),
  value-digits c (p % 16 ^ c) (mod-lt p (pow_pos 16 c (omega arith))),
  div-add-mod' p (16 ^ c),
)

-- Every valid key is the packing of its digits.
pub nib-digits : (n : Nibbles) → IsValid n → nib (digits n.count n.packed) ≡ n
nib-digits n v = λ i. record {
  count = length-digits n.count n.packed i;
  packed = value-digits n.count n.packed v.fits i;
}

pub nib-IsValid : (l : List ℕ) → IsNibs l → length l ≤ 64 → IsValid (nib l)
nib-IsValid l h s = record { short = s; fits = value-lt l h }

-- The digits of a packing are the nibbles packed.
pub digits-value : (l : List ℕ) → IsNibs l → digits (length l) (value l) ≡ l
unfolding digits
digits-value [] h = refl
digits-value (x ∷ xs) h =
    ap₂ ◌∷◌ top (ap (λ (t : ℕ). digits (length xs) t) low ∙ digits-value xs h.1)
  where
    top : (x * 16 ^ length xs + value xs) / 16 ^ length xs ≡ x
    top = div-mul-add x (16 ^ length xs) (value xs) (value-lt xs h.1)

    low : (x * 16 ^ length xs + value xs) % 16 ^ length xs ≡ value xs
    low = mod-mul-add x (16 ^ length xs) (value xs) (value-lt xs h.1)
