-- ===== src/Mpt/Conversions/Bytes.antt =====
-- Round trips between bytes and keys.
use native.Mathlib.Nat.{pow-suc}
use zk_evm.Prelude.{
  ℕ, zero, suc, ◌+◌, ◌-◌, ◌*◌, ◌/◌, ◌%◌, ◌^◌, ◌≤◌, ◌<◌, ◌≡◌, refl, ap, ap₂, ◌∙◌, arith, List, [],
  ◌∷◌, length, drop, All, some, ◌⊎◌, inl, inr, ltb, leb, Bool-cases, checked_sub-le,
}
use zk_evm.Prelude.Powers.{div-mul-add, mod-mul-add}
use zk_evm.Mpt.Intern.{to_big_endian, from_big_endian}
use zk_evm.Mpt.Nibbles.{Nibbles}
use zk_evm.Mpt.Conversions.{
  from_bytes_be, bytes_be, min_bytes, BytesToNibblesError, zero_sized_key, too_many_bytes,
}

abbrev pub AreBytes : List ℕ → Type 0
AreBytes = All (λ b. b < 256)

-- The bytes behind an accumulator fill its low places.
from_big_endian-low :
    (acc : ℕ) (bs : List ℕ)
    → AreBytes bs
    → (r : ℕ) × (from_big_endian acc bs ≡ acc * 256 ^ length bs + r) × (r < 256 ^ length bs)
unfolding from_big_endian
from_big_endian-low acc [] h = (0, omega arith, omega arith)
from_big_endian-low acc (b ∷ bs) h =
    let (r, e, small) = from_big_endian-low (acc * 256 + b) bs h.1 in
    (
      b * 256 ^ length bs + r,
      e
          ∙ omega (
            arith,
            place acc b (256 ^ length bs),
            pow-suc 256 (length bs),
            mul_assoc' acc (256 ^ length bs),
          ),
      omega (arith, pow-suc 256 (length bs), room b (256 ^ length bs) h.0),
    )
  where
    place : (a b p : ℕ) → (a * 256 + b) * p ≡ a * (p * 256) + b * p
    place a b p = grind arith

    mul_assoc' : (a p : ℕ) → a * 256 ^ suc (length bs) ≡ a * (256 ^ length bs * 256)
    mul_assoc' a p = ap (λ (t : ℕ). a * t) (pow-suc 256 (length bs))

    room : (b p : ℕ) → b < 256 → b * p + p ≤ p * 256
    room b p h = grind arith

-- Reading bytes and writing as many of them gives the bytes back.
to_big_endian-from_big_endian :
    (acc : ℕ) (bs : List ℕ) → AreBytes bs → to_big_endian (length bs) (from_big_endian acc bs) ≡ bs
unfolding from_big_endian to_big_endian
to_big_endian-from_big_endian acc [] h = refl
to_big_endian-from_big_endian acc (b ∷ bs) h =
    ap₂ ◌∷◌ top (to_big_endian-from_big_endian (acc * 256 + b) bs h.1)
  where
    top : from_big_endian (acc * 256 + b) bs / 256 ^ length bs % 256 ≡ b
    top =
        let (r, e, small) = from_big_endian-low (acc * 256 + b) bs h.1 in
        rw (e, div-mul-add (acc * 256 + b) (256 ^ length bs) r small) (mod-mul-add acc 256 b h.0)

pub drop-to_big_endian : (m n x : ℕ) → n ≤ m → drop (m - n) (to_big_endian m x) ≡ to_big_endian n x
unfolding to_big_endian
drop-to_big_endian zero n x h = rw (none_left n h)
  where
    none_left : (n : ℕ) → n ≤ 0 → n ≡ 0
    none_left n h = omega arith
drop-to_big_endian (suc m) n x h = elim (Bool-cases (leb n m)) [
  | inl within ↦
      rw (later (ground (arith, within))) (drop-to_big_endian m n x (ground (arith, within)))
  | inr whole ↦ rw (all (ground (arith, whole)), monus_self m)
]
  where
    later : n ≤ m → suc m - n ≡ suc (m - n)
    later k = omega arith

    all : m < n → n ≡ suc m
    all k = omega arith

    monus_self : (m : ℕ) → suc m - suc m ≡ 0
    monus_self m = omega arith

-- How `from_bytes_be` and `bytes_be` after it end, by the number of bytes.
abbrev pub BytesOutcome : List ℕ → BytesToNibblesError ⊎ Nibbles → Type 0
BytesOutcome bs (inl zero_sized_key) = length bs ≡ 0
BytesOutcome bs (inl (too_many_bytes n)) = (n ≡ length bs) × (33 < length bs)
BytesOutcome bs (inr n) =
    (0 < length bs)
    × (length bs ≤ 33)
    × (n.count ≡ length bs * 2)
    × (n.packed < 256 ^ length bs)
    × (bytes_be n ≡ some bs)

read_back :
    (bs : List ℕ)
    → AreBytes bs
    → length bs ≤ 33
    → bytes_be (record { count = length bs * 2; packed = from_big_endian 0 bs }) ≡ some bs
unfolding bytes_be
read_back bs h fits = rw (
  half (length bs),
  checked_sub-le 40 (length bs) (omega arith),
  drop-to_big_endian 40 (length bs) (from_big_endian 0 bs) (omega arith),
  to_big_endian-from_big_endian 0 bs h,
)
  where
    half : (n : ℕ) → (n * 2 + 1) / 2 ≡ n
    half n = omega arith

-- Reading a key from big-endian bytes: an error exactly for no bytes and for more than 33, which
-- names their number; else a key of two nibbles for each byte with nothing beyond them, and writing
-- it gives the same bytes back.
pub from_bytes_be-BytesOutcome : (bs : List ℕ) → AreBytes bs → BytesOutcome bs (from_bytes_be bs)
unfolding from_bytes_be zk_evm.Mpt.Conversions.from_bytes
from_bytes_be-BytesOutcome [] h = refl
from_bytes_be-BytesOutcome (b ∷ bs) h = elim (Bool-cases (ltb 33 (length (b ∷ bs)))) [
  | inl long ↦ rw long (refl, ground (arith, long))
  | inr short ↦
      rw short (
        omega arith,
        ground (arith, short),
        refl,
        low,
        read_back (b ∷ bs) h (ground (arith, short)),
      )
]
  where
    low : from_big_endian 0 (b ∷ bs) < 256 ^ length (b ∷ bs)
    low = let (r, e, small) = from_big_endian-low 0 (b ∷ bs) h in rw e (omega arith)
