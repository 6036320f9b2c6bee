-- ===== src/Mpt/Conversions.antt =====
-- mpt_trie/src/nibbles.rs: keys from bytes, hashes and integers and back, and the hex-prefix
-- encoding. An error is `inl`; the outer `none` is a panic.
pub mod Bytes
pub mod HexPrefix
mod Tests
use zk_evm.Prelude.{
  ℕ, zero, suc, ◌+◌, ◌-◌, ◌*◌, ◌/◌, ◌%◌, ◌^◌, bit_and, bit_or, Bool, true, false, Option, none,
  some, ltb, ◌==◌, not, if◌then◌else◌, checked_sub, ◌>>=◌, List, [], ◌∷◌, ◌++◌, length, take, drop,
  ◌⊎◌, inl, inr,
}
use zk_evm.Mpt.Intern.{shl, is_even, bits, to_big_endian, from_big_endian, from_little_endian}
use zk_evm.Mpt.Nibbles.{Nibbles}
use zk_evm.Mpt.Node.{H256}

pub data BytesToNibblesError : Type 0 where
  zero_sized_key : BytesToNibblesError
  too_many_bytes : ℕ → BytesToNibblesError

from_bytes : List ℕ → (List ℕ → ℕ) → BytesToNibblesError ⊎ Nibbles
from_bytes [] conv_f = inl zero_sized_key
from_bytes (b ∷ bs) conv_f =
    if ltb 33 (length (b ∷ bs))
    then inl (too_many_bytes (length (b ∷ bs)))
    else inr (record { count = length (b ∷ bs) * 2; packed = conv_f (b ∷ bs) })

pub from_bytes_be : List ℕ → BytesToNibblesError ⊎ Nibbles
unfolding from_bytes
from_bytes_be bytes = from_bytes bytes (from_big_endian 0)

pub from_bytes_le : List ℕ → BytesToNibblesError ⊎ Nibbles
unfolding from_bytes
from_bytes_le bytes = from_bytes bytes from_little_endian

abbrev pub min_bytes : Nibbles → ℕ
min_bytes self = (self.count + 1) / 2

pub bytes_be : Nibbles → Option (List ℕ)
bytes_be self = do
  start ← checked_sub 40 (min_bytes self)
  some (drop start (to_big_endian 40 self.packed))

-- The conversion of an unsigned integer: its nibbles without leading zeros.
pub to_nibbles : ℕ → Nibbles
to_nibbles v = record { count = (bits v + 3) / 4; packed = v }

pub get_num_nibbles_in_key : ℕ → ℕ
get_num_nibbles_in_key k = (bits k + 3) / 4

-- `from_h256_be` and `from_h256_le`, on the 32 bytes that write the hash.
pub from_h256_be : H256 → Nibbles
from_h256_be v = record { count = 64; packed = from_big_endian 0 (to_big_endian 32 v) }

pub from_h256_le : H256 → Nibbles
from_h256_le v = record { count = 64; packed = from_little_endian (to_big_endian 32 v) }

pub data NibblesToTypeError : Type 0 where
  overflow : ℕ → NibblesToTypeError

-- The conversion to a 256-bit integer, an error when the fifth word is not 0.
pub try_into_u256 : Nibbles → NibblesToTypeError ⊎ ℕ
try_into_u256 value =
    if not (value.packed / 2 ^ 256 % 2 ^ 64 == 0)
    then inl (overflow value.packed)
    else inr (value.packed % 2 ^ 256)

-- Zeros in front, as many as are told.
abbrev pad_front : ℕ → List ℕ → List ℕ
pad_front zero bytes = bytes
pad_front (suc n) bytes = pad_front n (0 ∷ bytes)

-- `H256::from_slice` panics unless there are 32 bytes.
pub into_h256 : Nibbles → Option H256
into_h256 val = do
  nib_bytes ← bytes_be val
  let padded = pad_front (32 - length nib_bytes) nib_bytes
  if length padded == 32 then some (from_big_endian 0 padded) else none

-- `bytes[0] |= flags`.
abbrev set_flags : ℕ → List ℕ → List ℕ
set_flags flags [] = []
set_flags flags (b ∷ bs) = bit_or b flags ∷ bs

pub to_hex_prefix_encoding : Nibbles → Bool → Option (List ℕ)
to_hex_prefix_encoding self is_leaf = do
  let num_nibbles = self.count + 1
  let num_bytes = (num_nibbles + 1) / 2
  flag_byte_idx ← checked_sub 41 num_bytes
  let odd_bit = if is_even self.count then 0 else 1
  let term_bit = if is_leaf then 1 else 0
  let flags = bit_or odd_bit (shl term_bit 1) * 16 % 256
  some (set_flags flags (drop flag_byte_idx (0 ∷ to_big_endian 40 self.packed)))

pub data FromHexPrefixError : Type 0 where
  invalid_flags : ℕ → FromHexPrefixError
  too_long : List ℕ → ℕ → FromHexPrefixError

-- By the flag bits: whether it is a leaf, and the nibbles to add to twice the bytes less two.
flag_meaning : ℕ → Option (Bool × ℕ)
flag_meaning flag_bits =
    if flag_bits == 0b00
    then some (false, 0)
    else if flag_bits == 0b01
    then some (false, 1)
    else if flag_bits == 0b10
    then some (true, 2)
    else if flag_bits == 0b11
    then some (true, 3)
    else none

-- The count and the bytes written for one meaning of the flags.
abbrev decoded : ℕ → List ℕ → Option (Bool × ℕ) → FromHexPrefixError ⊎ Nibbles
decoded first rest none = inl (invalid_flags (bit_and first 0b11110000 / 16))
decoded first rest (some (is_leaf, added)) =
    let count = length rest * 2 + added in
    let odd_nib = if bit_and count 1 == 1 then bit_and first 0b1111 ∷ [] else [] in
    let term = if is_leaf then 16 ∷ [] else [] in
    let nibbles_raw = odd_nib ++ (take 32 rest ++ term) in
    let tot_bytes = (count + 1) / 2 in
    inr (record {
      count = count;
      packed =
          from_big_endian 0
            (take tot_bytes nibbles_raw ++ pad_front (tot_bytes - length nibbles_raw) []);
    })

pub from_hex_prefix_encoding : List ℕ → Option (FromHexPrefixError ⊎ Nibbles)
unfolding flag_meaning
from_hex_prefix_encoding [] = none
from_hex_prefix_encoding (first ∷ rest) = some (
    if ltb 33 (length (first ∷ rest))
    then inl (too_long (first ∷ rest) (length (first ∷ rest)))
    else decoded first rest (flag_meaning (bit_and first 0b11110000 / 16)))
