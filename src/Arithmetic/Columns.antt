-- ===== src/Arithmetic/Columns.antt =====
-- The columns of the arithmetic table, evm_arithmetization/src/arithmetic/columns.rs, and
-- `u256_to_array` of evm_arithmetization/src/arithmetic/utils.rs. A register is given by its first
-- column; a row is a function of the column.
use zk_evm.Prelude.{ℕ, ◌+◌, ◌-◌, ◌*◌, ◌/◌, ◌%◌, ◌^◌, leb, ltb, ◌&&◌, ◌==◌, if◌then◌else◌}
use zk_evm.Arithmetic.Fields.{Field}

abbrev pub limb_bits : ℕ
limb_bits = 16

abbrev pub n_limbs : ℕ
n_limbs = 256 / limb_bits

abbrev pub is_add : ℕ
is_add = 0

abbrev pub is_mul : ℕ
is_mul = is_add + 1

abbrev pub is_sub : ℕ
is_sub = is_mul + 1

abbrev pub is_div : ℕ
is_div = is_sub + 1

abbrev pub is_mod : ℕ
is_mod = is_div + 1

abbrev pub is_addmod : ℕ
is_addmod = is_mod + 1

abbrev pub is_mulmod : ℕ
is_mulmod = is_addmod + 1

abbrev pub is_addfp254 : ℕ
is_addfp254 = is_mulmod + 1

abbrev pub is_mulfp254 : ℕ
is_mulfp254 = is_addfp254 + 1

abbrev pub is_subfp254 : ℕ
is_subfp254 = is_mulfp254 + 1

abbrev pub is_submod : ℕ
is_submod = is_subfp254 + 1

abbrev pub is_lt : ℕ
is_lt = is_submod + 1

abbrev pub is_gt : ℕ
is_gt = is_lt + 1

abbrev pub is_byte : ℕ
is_byte = is_gt + 1

abbrev pub is_shl : ℕ
is_shl = is_byte + 1

abbrev pub is_shr : ℕ
is_shr = is_shl + 1

abbrev pub is_range_check : ℕ
is_range_check = is_shr + 1

abbrev pub opcode_col : ℕ
opcode_col = is_range_check + 1

abbrev pub start_shared_cols : ℕ
start_shared_cols = opcode_col + 1

abbrev pub input_register_0 : ℕ
input_register_0 = start_shared_cols

abbrev pub input_register_1 : ℕ
input_register_1 = input_register_0 + n_limbs

abbrev pub input_register_2 : ℕ
input_register_2 = input_register_1 + n_limbs

abbrev pub output_register : ℕ
output_register = input_register_2 + n_limbs

abbrev pub aux_input_register_0 : ℕ
aux_input_register_0 = output_register + n_limbs

module _ (F : Field) where
  abbrev pub Row : Type 0
  Row = ℕ → F.Elem

  -- The limbs of a register.
  abbrev pub register : Row → ℕ → ℕ → F.Elem
  register lv start i = lv (start + i)

  abbrev pub set_column : Row → ℕ → F.Elem → Row
  set_column lv column x j = if j == column then x else lv j

  abbrev pub set_register : Row → ℕ → (ℕ → F.Elem) → Row
  set_register lv start limbs j =
      if leb start j && ltb j (start + n_limbs) then limbs (j - start) else lv j

  -- `out[i]`, where a shift is a division.
  abbrev pub u64_to_array : ℕ → ℕ → F.Elem
  u64_to_array x i = F.from_canonical_u64 (x / 2 ^ (16 * i) % 2 ^ 16)

  -- `x.0[i]` is the word of 64 bits at `i`.
  abbrev pub u256_to_array : ℕ → ℕ → F.Elem
  u256_to_array x i = u64_to_array (x / 2 ^ (64 * (i / 4)) % 2 ^ 64) (i % 4)
