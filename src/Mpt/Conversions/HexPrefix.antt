-- ===== src/Mpt/Conversions/HexPrefix.antt =====
-- The hex-prefix encoding of a key that is no leaf's, and reading it back.
use native.Mathlib.Nat.{pow-suc, mod-lt, div-add-mod', div-lt_iff_lt-mul}
use mathlib.Core.Path.{subst}
use zk_evm.Prelude.{
  Option, ◌>>=◌, Bool, ℕ, zero, suc, ◌+◌, ◌-◌, ◌*◌, ◌/◌, ◌%◌, ◌^◌, ◌≤◌, ◌<◌, ◌≡◌, refl, ap, ap₂,
  ◌∙◌, sym, arith, List, ◌∷◌, length, drop, take_all, append-nil, bit_and, bit_or, some, ◌⊎◌, inl,
  inr, true, false, Bool-cases, ◌==◌, checked_sub-le, ltb-le,
}
use zk_evm.Prelude.Powers.{pow_pos, pow-add, mod-mul-add}
use zk_evm.Prelude.Bits.{bit_or_fields', bit_or-zero, bit_and_shifted, bit_and_mask}
use zk_evm.Mpt.Intern.{is_even, to_big_endian, from_big_endian}
use zk_evm.Mpt.Nibbles.{Nibbles}
use zk_evm.Mpt.Nibbles.Value.{IsValid}
use zk_evm.Mpt.Conversions.{to_hex_prefix_encoding, from_hex_prefix_encoding, flag_meaning}
use zk_evm.Mpt.Conversions.Bytes.{drop-to_big_endian}

length-to_big_endian : (n x : ℕ) → length (to_big_endian n x) ≡ n
unfolding to_big_endian
length-to_big_endian zero x = refl
length-to_big_endian (suc n) x = ap suc (length-to_big_endian n x)

one_more : (n x : ℕ) → x % 256 ^ suc n ≡ x / 256 ^ n % 256 * 256 ^ n + x % 256 ^ n
one_more n x =
    ap (λ (t : ℕ). x % t) (pow-suc 256 n)
    ∙ ap (λ (t : ℕ). t % (256 ^ n * 256))
        (parts (x / 256 ^ n) (256 ^ n) (x % 256 ^ n) x (div-add-mod' x (256 ^ n)))
    ∙ mod-mul-add (x / 256 ^ n / 256) (256 ^ n * 256) _ (
        room (x / 256 ^ n % 256) (256 ^ n) (x % 256 ^ n) (omega arith)
          (mod-lt x (pow_pos 256 n (omega arith))))
  where
    split_byte :
        (q p r : ℕ) → (q / 256 * 256 + q % 256) * p + r ≡ q / 256 * (p * 256) + (q % 256 * p + r)
    split_byte q p r = grind arith

    byte_parts : (q : ℕ) → q / 256 * 256 + q % 256 ≡ q
    byte_parts q = omega arith

    parts : (q p r x : ℕ) → q * p + r ≡ x → x ≡ q / 256 * (p * 256) + (q % 256 * p + r)
    parts q p r x e = sym e ∙ ap (λ (t : ℕ). t * p + r) (sym (byte_parts q)) ∙ split_byte q p r

    room : (b p r : ℕ) → b < 256 → r < p → b * p + r < p * 256
    room b p r h k = grind arith

-- Writing bytes and reading them behind an accumulator.
from_big_endian-to_big_endian :
    (n acc x : ℕ) → from_big_endian acc (to_big_endian n x) ≡ acc * 256 ^ n + x % 256 ^ n
unfolding from_big_endian to_big_endian
from_big_endian-to_big_endian zero acc x = omega arith
from_big_endian-to_big_endian (suc n) acc x =
    from_big_endian-to_big_endian n (acc * 256 + x / 256 ^ n % 256) x ∙ step
  where
    place : (p b r : ℕ) → (acc * 256 + b) * p + r ≡ acc * (p * 256) + (b * p + r)
    place p b r = grind arith

    step :
        (acc * 256 + x / 256 ^ n % 256) * 256 ^ n + x % 256 ^ n
        ≡ acc * 256 ^ suc n + x % 256 ^ suc n
    step =
        place (256 ^ n) (x / 256 ^ n % 256) (x % 256 ^ n)
        ∙ ap₂ (λ (s : ℕ) (t : ℕ). acc * s + t) (sym (pow-suc 256 n)) (sym (one_more n x))

odd_flag :
    (d : ℕ)
    → d < 16
    → (bit_or d 16 ≡ d + 16)
      × (bit_and (d + 16) 0b11110000 / 16 ≡ 1)
      × (bit_and (d + 16) 0b1111 ≡ d)
odd_flag d h = (
  bit_or_fields' 4 1 d h ∙ omega arith,
  omega (arith, bit_and_shifted 4 (d + 16) 15, ap (λ (t : ℕ). bit_and t 15) one),
  bit_and_mask 4 (d + 16) ∙ omega arith,
)
  where
    one : (d + 16) / 16 ≡ 1
    one = omega arith

decode_even :
    (rest : List ℕ)
    → length rest ≤ 32
    → from_hex_prefix_encoding (0 ∷ rest)
      ≡ some (inr (record { count = length rest * 2; packed = from_big_endian 0 rest }))
unfolding from_hex_prefix_encoding flag_meaning
decode_even rest h = rw (
  ltb-le 33 (length (0 ∷ rest)) (omega arith),
  no_more (length rest * 2),
  low_bit (length rest),
  take_all 32 rest h,
  append-nil rest,
  half (length rest),
  take_all (length rest) rest (omega arith),
  none_left (length rest),
  append-nil rest,
)
  where
    no_more : (n : ℕ) → n + 0 ≡ n
    no_more n = omega arith

    low_bit : (n : ℕ) → bit_and (n * 2) 1 ≡ 0
    low_bit n = bit_and_mask 1 (n * 2) ∙ omega arith

    half : (n : ℕ) → (n * 2 + 1) / 2 ≡ n
    half n = omega arith

    none_left : (n : ℕ) → n - n ≡ 0
    none_left n = omega arith

decode_odd :
    (d : ℕ) (rest : List ℕ)
    → d < 16
    → length rest ≤ 32
    → from_hex_prefix_encoding ((d + 16) ∷ rest)
      ≡ some (inr (record { count = length rest * 2 + 1; packed = from_big_endian 0 (d ∷ rest) }))
unfolding from_hex_prefix_encoding flag_meaning
decode_odd d rest hd h = rw (
  (odd_flag d hd).1,
  ltb-le 33 (length (0 ∷ rest)) (omega arith),
  low_bit (length rest),
  (odd_flag d hd).2,
  take_all 32 rest h,
  append-nil rest,
  half (length rest),
  take_all (length rest) rest (omega arith),
  none_left (suc (length rest)),
  append-nil rest,
)
  where
    low_bit : (n : ℕ) → bit_and (n * 2 + 1) 1 ≡ 1
    low_bit n = bit_and_mask 1 (n * 2 + 1) ∙ omega arith

    half : (n : ℕ) → (n * 2 + 1 + 1) / 2 ≡ suc n
    half n = omega arith

    none_left : (n : ℕ) → n - n ≡ 0
    none_left n = omega arith

bytes_of_encoding :
    (k p : ℕ) → k ≤ 32 → drop (41 - suc k) (0 ∷ to_big_endian 40 p) ≡ to_big_endian (suc k) p
bytes_of_encoding k p h =
    ap (λ (t : ℕ). drop t (0 ∷ to_big_endian 40 p)) one_off
    ∙ drop-to_big_endian 40 (suc k) p (omega arith)
  where
    one_off : 41 - suc k ≡ suc (40 - suc k)
    one_off = omega arith

is_even-double : (k : ℕ) → is_even (k * 2) ≡ true
unfolding is_even
is_even-double k = rw (bit_and_mask 1 (k * 2) ∙ even k)
  where
    even : (k : ℕ) → k * 2 % 2 ^ 1 ≡ 0
    even k = omega arith

is_even-double_and_one : (k : ℕ) → is_even (k * 2 + 1) ≡ false
unfolding is_even
is_even-double_and_one k = rw (bit_and_mask 1 (k * 2 + 1) ∙ odd k)
  where
    odd : (k : ℕ) → (k * 2 + 1) % 2 ^ 1 ≡ 1
    odd k = omega arith

encode_even :
    (k p : ℕ)
    → k ≤ 32
    → p < 256 ^ k
    → to_hex_prefix_encoding (record { count = k * 2; packed = p }) false
      ≡ some (0 ∷ to_big_endian k p)
unfolding to_hex_prefix_encoding to_big_endian
encode_even k p h small =
    rw (half k, checked_sub-le 41 (suc k) (omega arith), is_even-double k, bytes_of_encoding k p h)
      (ap (λ (t : ℕ). some (t ∷ to_big_endian k p)) (bit_or-zero (p / 256 ^ k % 256) ∙ top))
  where
    top : p / 256 ^ k % 256 ≡ 0
    top =
        omega
          (arith, (div-lt_iff_lt-mul (pow_pos 256 k (omega arith))).1 (one_times (256 ^ k) small))
      where
        one_times : (m : ℕ) → p < m → p < 1 * m
        one_times m h = omega arith

    half : (k : ℕ) → (k * 2 + 1 + 1) / 2 ≡ suc k
    half k = omega arith

encode_odd :
    (k p : ℕ)
    → k ≤ 31
    → p / 256 ^ k < 16
    → to_hex_prefix_encoding (record { count = k * 2 + 1; packed = p }) false
      ≡ some ((p / 256 ^ k + 16) ∷ to_big_endian k p)
unfolding to_hex_prefix_encoding to_big_endian
encode_odd k p h small =
    rw
      (
        half k,
        checked_sub-le 41 (suc k) (omega arith),
        is_even-double_and_one k,
        bytes_of_encoding k p (omega arith),
      )
      (ap (λ (t : ℕ). some (t ∷ to_big_endian k p))
        (ap (λ (t : ℕ). bit_or t 16) top ∙ (odd_flag (p / 256 ^ k) small).0))
  where
    top : p / 256 ^ k % 256 ≡ p / 256 ^ k
    top = omega (arith, small)

    half : (k : ℕ) → (k * 2 + 1 + 1 + 1) / 2 ≡ suc k
    half k = omega arith

pow-double : (k : ℕ) → 16 ^ (k * 2) ≡ 256 ^ k
pow-double zero = refl
pow-double (suc k) =
    ap (λ (t : ℕ). 16 ^ t) two_more
    ∙ pow-add 16 (k * 2) 2
    ∙ ap (λ (t : ℕ). t * 256) (pow-double k)
    ∙ sym (pow-suc 256 k)
  where
    two_more : suc k * 2 ≡ k * 2 + 2
    two_more = omega arith

-- That an encoding of the key reads as the key.
abbrev pub RoundTrips : Nibbles → Type 0
RoundTrips n =
    (bytes : List ℕ) × (to_hex_prefix_encoding n false ≡ some bytes)
    × (from_hex_prefix_encoding bytes ≡ some (inr n))

round_even : (k p : ℕ) → k ≤ 32 → p < 256 ^ k → RoundTrips (record { count = k * 2; packed = p })
round_even k p h small = (
  0 ∷ to_big_endian k p,
  encode_even k p h small,
  decode_even (to_big_endian k p) (omega (arith, length-to_big_endian k p))
      ∙ ap₂ (λ (c : ℕ) (q : ℕ). some (inr (record { count = c * 2; packed = q })))
          (length-to_big_endian k p) (from_big_endian-to_big_endian k 0 p ∙ low),
)
  where
    low : 0 * 256 ^ k + p % 256 ^ k ≡ p
    low = omega (arith, mod-mul-add 0 (256 ^ k) p small, nothing (256 ^ k))
      where
        nothing : (m : ℕ) → (0 * m + p) % m ≡ p % m
        nothing m = ap (λ (t : ℕ). t % m) (omega arith)

first_byte : (b : ℕ) (bs : List ℕ) → from_big_endian 0 (b ∷ bs) ≡ from_big_endian (0 * 256 + b) bs
unfolding from_big_endian
first_byte b bs = refl

round_odd :
    (k p : ℕ) → k ≤ 31 → p / 256 ^ k < 16 → RoundTrips (record { count = k * 2 + 1; packed = p })
round_odd k p h small = (
  (p / 256 ^ k + 16) ∷ to_big_endian k p,
  encode_odd k p h small,
  decode_odd (p / 256 ^ k) (to_big_endian k p) small (omega (arith, length-to_big_endian k p))
      ∙ ap₂ (λ (c : ℕ) (q : ℕ). some (inr (record { count = c * 2 + 1; packed = q })))
          (length-to_big_endian k p) whole,
)
  where
    whole : from_big_endian 0 (p / 256 ^ k ∷ to_big_endian k p) ≡ p
    whole =
        first_byte (p / 256 ^ k) (to_big_endian k p)
        ∙ from_big_endian-to_big_endian k (0 * 256 + p / 256 ^ k) p
        ∙ omega (arith, div-add-mod' p (256 ^ k))

-- A key of at most 64 nibbles, with nothing beyond them, has a hex-prefix encoding as a key that is
-- no leaf's, and that encoding reads as the same key, leading zeros included.
pub from_hex_prefix_encoding-to_hex_prefix_encoding : (n : Nibbles) → IsValid n → RoundTrips n
from_hex_prefix_encoding-to_hex_prefix_encoding n v = elim (parity n.count) [
  | inl even ↦ at_count _ even (
      round_even (n.count / 2) n.packed (omega (arith, v.short))
        (omega (arith, v.fits, ap (λ (t : ℕ). 16 ^ t) even, pow-double (n.count / 2))))
  | inr odd ↦ at_count _ odd (
      round_odd (n.count / 2) n.packed (omega (arith, v.short, odd)) (
        (div-lt_iff_lt-mul (pow_pos 256 (n.count / 2) (omega arith))).1 (
          omega (
            arith,
            v.fits,
            ap (λ (t : ℕ). 16 ^ t) odd,
            pow-add 16 (n.count / 2 * 2) 1,
            pow-double (n.count / 2),
          ))))
]
  where
    parity : (c : ℕ) → (c ≡ c / 2 * 2) ⊎ (c ≡ c / 2 * 2 + 1)
    parity c = elim (Bool-cases (c % 2 == 0)) [
      | inl even ↦ inl (ground arith)
      | inr odd ↦ inr (ground arith)
    ]

    at_count :
        (c : ℕ) → n.count ≡ c → RoundTrips (record { count = c; packed = n.packed }) → RoundTrips n
    at_count c e r =
        subst (λ (t : ℕ). RoundTrips (record { count = t; packed = n.packed })) (sym e) r

-- Every key of at most 64 nibbles has an encoding.
pub to_hex_prefix_encoding-some :
    (n : Nibbles) (is_leaf : Bool)
    → n.count ≤ 64
    → (bytes : List ℕ) × (to_hex_prefix_encoding n is_leaf ≡ some bytes)
unfolding to_hex_prefix_encoding
to_hex_prefix_encoding-some n is_leaf h =
    finish _ (checked_sub-le 41 ((n.count + 1 + 1) / 2) (omega arith))
  where
    finish :
        {o : Option ℕ} {a : ℕ} (f : ℕ → List ℕ)
        → o ≡ some a
        → (bytes : List ℕ) × ((o >>= λ x. some (f x)) ≡ some bytes)
    finish {a} f e = (f a, rw e refl)
