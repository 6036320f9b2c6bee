-- ===== src/Generation/Errors.antt =====
-- evm_arithmetization/src/witness/errors.rs, the results that carry these errors, and the checked
-- conversions of evm_arithmetization/src/util.rs.
use zk_evm.Prelude.{ℕ, ◌^◌, Option, none, some, ltb, if◌then◌else◌}

pub data MemoryError : Type 0 where
  context_too_large segment_too_large virt_too_large : ℕ → MemoryError

-- The text of a failed KZG evaluation is left out.
pub data ProverInputError : Type 0 where
  out_of_mpt_data out_of_rlp_data out_of_withdrawal_data out_of_ger_data : ProverInputError
  code_hash_not_found invalid_mpt_input invalid_input invalid_function : ProverInputError
  num_bits_error invalid_jump_destination invalid_jumpdest_simulation : ProverInputError
  kzg_eval_failure unimplemented : ProverInputError

pub data ProgramError : Type 0 where
  out_of_gas invalid_opcode stack_underflow invalid_rlp : ProgramError
  invalid_jump_destination invalid_jumpi_destination stack_overflow kernel_panic : ProgramError
  memory_error : MemoryError → ProgramError
  gas_limit_error interpreter_error integer_too_large : ProgramError
  prover_input_error : ProverInputError → ProgramError
  unknown_contract_code : ProgramError

-- `panic` is a panic of the source.
pub data ProgramResult {ℓ} (A : Type ℓ) : Type ℓ where
  ok : A → ProgramResult A
  err : ProgramError → ProgramResult A
  panic : ProgramResult A

infixl 5 ◌>>=◌ ◌>>◌
abbrev pub ◌>>=◌ {ℓ κ} :
    {A : Type ℓ} {B : Type κ} → ProgramResult A → (A → ProgramResult B) → ProgramResult B
ok a >>= f = f a
err e >>= f = err e
panic >>= f = panic

abbrev pub ◌>>◌ {ℓ} : {B : Type ℓ} → ProgramResult (Unit {0}) → ProgramResult B → ProgramResult B
m >> k = m >>= λ _. k

-- A call that may panic.
abbrev pub call {ℓ} : {A : Type ℓ} → Option A → ProgramResult A
call none = panic
call (some a) = ok a

-- A number that has to fit in `w` bits.
abbrev pub fit : ℕ → ℕ → ProgramResult ℕ
fit w n = if ltb n (2 ^ w) then ok n else err integer_too_large

abbrev pub u256_to_usize : ℕ → ProgramResult ℕ
u256_to_usize n = fit 64 n

abbrev pub u256_to_u8 : ℕ → ProgramResult ℕ
u256_to_u8 n = fit 8 n
