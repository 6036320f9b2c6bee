-- ===== src/Kernel/Machine/Words.antt =====
-- The operations of the machine keep words words.
use zk_evm.Prelude.{ℕ, ◌*◌, ◌^◌, ◌<◌, arith, Bool, true, false, List, All, ltb}
use zk_evm.Prelude.BitOrder.{bit_or-OrLaws, bit_and-AndLaws, bit_xor-XorLaws}
use native.Mathlib.Nat.{mod-lt, mod-le, div-le_self}
use zk_evm.Kernel.Operators.Modular.{addmod-lt, mulmod-lt, submod_lem}
use zk_evm.Kernel.U256.{
  modulus, overflowing_add, overflowing_sub, overflowing_mul, shl, shr, byte, u256_from_bool,
}
use zk_evm.Kernel.Operators.{
  BinaryOperator, add, mul, sub, div, mod_, lt, gt, add_fp254, mul_fp254, sub_fp254, byte_, shl_,
  shr_, bn_base, binary_result, LogicOp, and, or, xor, logic_result,
}

abbrev pub Words : List ℕ → Type 0
Words = All (λ x. x < modulus)

pub bool_word : (b : Bool) → u256_from_bool b < modulus
bool_word true = omega arith
bool_word false = omega arith

pub binary_result-word :
    (o : BinaryOperator) (a b : ℕ) → a < modulus → b < modulus → binary_result o a b < modulus
unfolding binary_result overflowing_add overflowing_sub overflowing_mul shl shr byte
binary_result-word add a b ha hb = omega arith
binary_result-word mul a b ha hb = mod-lt (a * b) (omega arith)
binary_result-word sub a b ha hb = omega arith
binary_result-word div a b ha hb = ground (arith, div-le_self a b)
binary_result-word mod_ a b ha hb = ground (arith, mod-le a b)
binary_result-word lt a b ha hb = bool_word (ltb a b)
binary_result-word gt a b ha hb = bool_word (ltb b a)
binary_result-word add_fp254 a b ha hb = omega (arith, addmod-lt bn_base (omega arith) a b)
binary_result-word mul_fp254 a b ha hb = omega (arith, mulmod-lt bn_base (omega arith) a b)
binary_result-word sub_fp254 a b ha hb = omega (arith, (submod_lem bn_base (omega arith) a b).0)
binary_result-word byte_ a b ha hb = ground arith
binary_result-word shl_ a b ha hb = ground arith
binary_result-word shr_ a b ha hb = ground (arith, div-le_self b (2 ^ a))

pub logic_result-word :
    (o : LogicOp) (a b : ℕ) → a < modulus → b < modulus → logic_result o a b < modulus
unfolding logic_result
logic_result-word and a b ha hb = (bit_and-AndLaws 256 a b ha hb).0
logic_result-word or a b ha hb = (bit_or-OrLaws 256 a b ha hb).0
logic_result-word xor a b ha hb = (bit_xor-XorLaws 256 a b ha hb).0
