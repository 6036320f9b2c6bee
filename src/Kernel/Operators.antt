-- ===== src/Kernel/Operators.antt =====
-- The operators that the witness generator computes: `BinaryOperator` and `TernaryOperator` of
-- evm_arithmetization/src/arithmetic/mod.rs, `Op` of evm_arithmetization/src/logic.rs, and the
-- arithmetic modulo a number of evm_arithmetization/src/util.rs.
pub mod Modular
pub mod Tests
use zk_evm.Prelude.{
  ℕ, zero, suc, ◌+◌, ◌-◌, ◌*◌, ◌/◌, ◌%◌, ◌^◌, bit_and, bit_or, bit_xor, Bool, ltb, leb, ◌==◌,
  if◌then◌else◌,
}
use zk_evm.Kernel.U256.{
  overflowing_add, overflowing_sub, overflowing_mul, shl, shr, byte, u256_from_bool,
}

abbrev pub bn_base : ℕ
bn_base =
    0x3c208c16d87cfd47
    + 0x97816a916871ca8d * 2 ^ 64
    + 0xb85045b68181585d * 2 ^ 128
    + 0x30644e72e131a029 * 2 ^ 192

pub addmod : ℕ → ℕ → ℕ → ℕ
addmod x y m = if m == 0 then m else (x + y) % m

pub mulmod : ℕ → ℕ → ℕ → ℕ
mulmod x y m = if m == 0 then m else x * y % m

-- `while x < y { x += m }`
submod_loop : ℕ → ℕ → ℕ → ℕ → ℕ
submod_loop zero x y m = x
submod_loop (suc fuel) x y m =
    let rest = submod_loop fuel (x + m) y m in if ltb x y then rest else x

-- Each round adds at least 1, so `y` rounds are enough.
pub submod : ℕ → ℕ → ℕ → ℕ
unfolding submod_loop
submod x y m = if m == 0 then m else (submod_loop y x y m - y) % m

pub data BinaryOperator : Type 0 where
  add mul sub div mod_ lt gt add_fp254 mul_fp254 sub_fp254 byte_ shl_ shr_ : BinaryOperator

unfoldable pub binary_result : BinaryOperator → ℕ → ℕ → ℕ
unfolding addmod mulmod submod
binary_result add input0 input1 = overflowing_add input0 input1
binary_result mul input0 input1 = overflowing_mul input0 input1
binary_result shl_ input0 input1 = if ltb input0 256 then shl input1 input0 else 0
binary_result sub input0 input1 = overflowing_sub input0 input1
binary_result div input0 input1 = if input1 == 0 then 0 else input0 / input1
binary_result shr_ input0 input1 = if ltb input0 256 then shr input1 input0 else 0
binary_result mod_ input0 input1 = if input1 == 0 then 0 else input0 % input1
binary_result lt input0 input1 = u256_from_bool (ltb input0 input1)
binary_result gt input0 input1 = u256_from_bool (ltb input1 input0)
binary_result add_fp254 input0 input1 = addmod input0 input1 bn_base
binary_result mul_fp254 input0 input1 = mulmod input0 input1 bn_base
binary_result sub_fp254 input0 input1 = submod input0 input1 bn_base
binary_result byte_ input0 input1 = if leb 32 input0 then 0 else byte input1 (31 - input0)

pub data TernaryOperator : Type 0 where
  add_mod mul_mod sub_mod : TernaryOperator

pub ternary_result : TernaryOperator → ℕ → ℕ → ℕ → ℕ
unfolding addmod mulmod submod
ternary_result add_mod input0 input1 input2 = addmod input0 input1 input2
ternary_result mul_mod input0 input1 input2 = mulmod input0 input1 input2
ternary_result sub_mod input0 input1 input2 = submod input0 input1 input2

pub data LogicOp : Type 0 where
  and or xor : LogicOp

unfoldable pub logic_result : LogicOp → ℕ → ℕ → ℕ
logic_result and a b = bit_and a b
logic_result or a b = bit_or a b
logic_result xor a b = bit_xor a b
