-- ===== src/Mpt/Intern.antt =====
-- `NibblesIntern` (mpt_trie/src/nibbles.rs): the 320-bit unsigned integer that
-- `construct_uint!` declares with five 64-bit words, as a number with the cut at 320 bits
-- written out. `<<` drops what leaves the word, `-` panics below 0, `byte` panics past the word.
-- Also `create_mask_of_1s` and `is_even` of mpt_trie/src/utils.rs.
use zk_evm.Prelude.{
  ℕ, zero, suc, ◌+◌, ◌-◌, ◌*◌, ◌/◌, ◌%◌, ◌^◌, bit_and, Bool, Option, none, some, ltb, ◌==◌,
  if◌then◌else◌, checked_sub, List, [], ◌∷◌,
}

abbrev pub intern_bits : ℕ
intern_bits = 320

abbrev pub shl : ℕ → ℕ → ℕ
shl x s = x * 2 ^ s % 2 ^ intern_bits

abbrev pub shr : ℕ → ℕ → ℕ
shr x s = x / 2 ^ s

abbrev pub bit_not : ℕ → ℕ
bit_not x = 2 ^ intern_bits - 1 - x

abbrev pub byte : ℕ → ℕ → Option ℕ
byte x i = if ltb i 40 then some (x / 256 ^ i % 256) else none

unfoldable pub is_even : ℕ → Bool
is_even num = bit_and num 1 == 0

unfoldable pub create_mask_of_1s : ℕ → Option ℕ
create_mask_of_1s amt = checked_sub (shl 1 amt) 1

-- `bits`: the position of the highest bit that is set, counted from 1; 0 for 0.
unfoldable pub bits_loop : ℕ → ℕ → ℕ
bits_loop zero x = 0
bits_loop (suc fuel) x = let rest = bits_loop fuel (x / 2) in if x == 0 then 0 else suc rest

unfoldable pub bits : ℕ → ℕ
unfolding bits_loop
bits x = bits_loop intern_bits x

-- The `n` lowest bytes, the highest first: `to_big_endian` into `n` bytes.
unfoldable pub to_big_endian : ℕ → ℕ → List ℕ
to_big_endian zero x = []
to_big_endian (suc n) x = x / 256 ^ n % 256 ∷ to_big_endian n x

-- `from_big_endian` on at most 40 bytes, from the value of the bytes read so far.
unfoldable pub from_big_endian : ℕ → List ℕ → ℕ
from_big_endian acc [] = acc
from_big_endian acc (b ∷ bs) = from_big_endian (acc * 256 + b) bs

unfoldable pub from_little_endian : List ℕ → ℕ
from_little_endian [] = 0
from_little_endian (b ∷ bs) = b + 256 * from_little_endian bs
