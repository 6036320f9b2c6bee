-- ===== src/Kernel/U256.antt =====
-- The 256-bit unsigned integer that the repository takes from the crate ethereum_types, as a number
-- below 2 ^ 256 with the cut written out, by its operations that the assembler and the operators
-- call. `byte` counts from the lowest byte, as evm_arithmetization/src/cpu/kernel/utils.rs says.
-- A shift by a word casts the amount by `as_usize`, which panics where the word does not fit into 64
-- bits, as evm_arithmetization/src/util.rs says of it where it avoids that cast; `shl` and
-- `shr` take an amount that fits. `none` is a panic.
-- Also `u256_from_bool` and `u256_to_trimmed_be_bytes` of evm_arithmetization/src/cpu/kernel/utils.rs.
use zk_evm.Prelude.{
  ℕ, zero, suc, ◌+◌, ◌-◌, ◌*◌, ◌/◌, ◌%◌, ◌^◌, Bool, Option, none, some, ◌>>=◌, List, [], ◌∷◌, ◌==◌,
  ltb, if◌then◌else◌,
}
use zk_evm.Mpt.Intern.{bits}

abbrev pub modulus : ℕ
modulus = 2 ^ 256

unfoldable pub overflowing_add : ℕ → ℕ → ℕ
overflowing_add x y = (x + y) % modulus

unfoldable pub overflowing_sub : ℕ → ℕ → ℕ
overflowing_sub x y = (x + modulus - y) % modulus

unfoldable pub overflowing_mul : ℕ → ℕ → ℕ
overflowing_mul x y = x * y % modulus

unfoldable pub overflowing_pow : ℕ → ℕ → ℕ
overflowing_pow x y = x ^ y % modulus

unfoldable pub checked_div : ℕ → ℕ → Option ℕ
checked_div x y = if y == 0 then none else some (x / y)

unfoldable pub checked_rem : ℕ → ℕ → Option ℕ
checked_rem x y = if y == 0 then none else some (x % y)

unfoldable pub shl : ℕ → ℕ → ℕ
shl x shift = x * 2 ^ shift % modulus

unfoldable pub shr : ℕ → ℕ → ℕ
shr x shift = x / 2 ^ shift

unfoldable pub as_usize : ℕ → Option ℕ
as_usize x = if ltb x (2 ^ 64) then some x else none

abbrev pub shl_by_word : ℕ → ℕ → Option ℕ
shl_by_word x word = as_usize word >>= λ shift. some (shl x shift)

abbrev pub shr_by_word : ℕ → ℕ → Option ℕ
shr_by_word x word = as_usize word >>= λ shift. some (shr x shift)

unfoldable pub byte : ℕ → ℕ → ℕ
byte x index = x / 256 ^ index % 256

unfoldable pub bit_not : ℕ → ℕ
bit_not x = modulus - 1 - x

abbrev pub u256_from_bool : Bool → ℕ
u256_from_bool b = if b then 1 else 0

-- The bytes at the indices below a number, the highest first.
unfoldable pub bytes_below : ℕ → ℕ → List ℕ
bytes_below zero u256 = []
bytes_below (suc i) u256 = byte u256 i ∷ bytes_below i u256

unfoldable pub u256_to_trimmed_be_bytes : ℕ → List ℕ
u256_to_trimmed_be_bytes u256 = bytes_below ((bits u256 + 7) / 8) u256
