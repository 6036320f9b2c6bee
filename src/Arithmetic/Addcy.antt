-- ===== src/Arithmetic/Addcy.antt =====
-- ADD, SUB, LT and GT, evm_arithmetization/src/arithmetic/addcy.rs. The constraints that a function
-- yields to its consumer are returned in order. `none` is a panic.
pub mod Digits
pub mod Sums
pub mod Soundness
pub mod Completeness
pub mod Rows
pub mod Registers
pub mod Generated
use zk_evm.Prelude.{
  ℕ, zero, suc, ◌+◌, ◌-◌, Bool, true, false, Option, none, some, List, [], ◌∷◌, ◌++◌, ltb, not,
  ◌==◌, if◌then◌else◌,
}
use zk_evm.Kernel.U256.{overflowing_add, overflowing_sub, u256_from_bool, modulus}
use zk_evm.Kernel.Operators.{
  BinaryOperator, add, mul, sub, div, mod_, lt, gt, add_fp254, mul_fp254, sub_fp254, byte_, shl_,
  shr_,
}
use zk_evm.Arithmetic.Fields.{Field}
use zk_evm.Arithmetic.Columns.{
  n_limbs, is_add, is_mul, is_sub, is_div, is_mod, is_lt, is_gt, is_addfp254, is_mulfp254,
  is_subfp254, is_byte, is_shl, is_shr, input_register_0, input_register_1, input_register_2,
  output_register, aux_input_register_0, Row, register, set_column, set_register, u256_to_array,
}

-- The carry of `overflowing_add` and the borrow of `overflowing_sub`.
abbrev pub add_overflows : ℕ → ℕ → Bool
add_overflows x y = not (ltb (x + y) modulus)

abbrev pub sub_overflows : ℕ → ℕ → Bool
sub_overflows x y = ltb x y

abbrev pub goldilocks_inverse_65536 : ℕ
goldilocks_inverse_65536 = 18446462594437939201

-- `BinaryOperator::row_filter`.
unfoldable pub row_filter : BinaryOperator → ℕ
row_filter add = is_add
row_filter mul = is_mul
row_filter sub = is_sub
row_filter div = is_div
row_filter mod_ = is_mod
row_filter lt = is_lt
row_filter gt = is_gt
row_filter add_fp254 = is_addfp254
row_filter mul_fp254 = is_mulfp254
row_filter sub_fp254 = is_subfp254
row_filter byte_ = is_byte
row_filter shl_ = is_shl
row_filter shr_ = is_shr

module _ (F : Field) where
  abbrev pub set_word : Row F → ℕ → ℕ → Row F
  set_word lv start x = set_register F lv start (u256_to_array F x)

  abbrev pub set_inputs : Row F → ℕ → ℕ → Row F
  set_inputs lv left_in right_in =
      set_word (set_word (set_word lv input_register_0 left_in) input_register_1 right_in)
        input_register_2 0

  -- The output register and the auxiliary one.
  abbrev pub set_outputs : Row F → ℕ → ℕ → Row F
  set_outputs lv aux out = set_word (set_word lv aux_input_register_0 aux) output_register out

  unfoldable pub generate : Row F → ℕ → ℕ → ℕ → Option (Row F)
  generate lv filter left_in right_in =
      let row = set_inputs lv left_in right_in in
      if filter == is_add
      then some (
          set_outputs row (u256_from_bool (add_overflows left_in right_in))
            (overflowing_add left_in right_in))
      else if filter == is_sub
      then some (
          set_outputs row (u256_from_bool (sub_overflows left_in right_in))
            (overflowing_sub left_in right_in))
      else if filter == is_lt
      then some (
          set_outputs row (overflowing_sub left_in right_in)
            (u256_from_bool (sub_overflows left_in right_in)))
      else if filter == is_gt
      then some (
          set_outputs row (overflowing_sub right_in left_in)
            (u256_from_bool (sub_overflows right_in left_in)))
      else none

  pub data Constraint : Type 0 where
    constraint constraint_transition : F.Elem → Constraint

  abbrev pub yield_if : Bool → F.Elem → Constraint
  yield_if is_two_row_op c = if is_two_row_op then constraint_transition c else constraint c

  module _ (filter : F.Elem) (is_two_row_op : Bool) where
    abbrev pub digit_difference : F.Elem → F.Elem → F.Elem → F.Elem → F.Elem
    digit_difference cy xi yi zi = F.sub (F.add (F.add cy xi) yi) zi

    abbrev pub digit_constraint : F.Elem → Constraint
    digit_constraint t =
        yield_if is_two_row_op (F.mul (F.mul filter t) (F.sub (F.from_canonical_u64 65536) t))

    -- The loop over the limbs from `i` on: the constraints, and the last carry.
    unfoldable pub digits_loop :
        ℕ → ℕ → F.Elem → (ℕ → F.Elem) → (ℕ → F.Elem) → (ℕ → F.Elem) → List Constraint × F.Elem
    digits_loop zero i cy x y z = ([], cy)
    digits_loop (suc left) i cy x y z =
        let t = digit_difference cy (x i) (y i) (z i) in
        let (rest, last) =
          digits_loop left (i + 1) (F.mul t (F.from_canonical_u64 goldilocks_inverse_65536)) x y
            z in
        (digit_constraint t ∷ rest, last)

    -- The limbs of the given carry from `i` on are 0.
    unfoldable pub high_carries : ℕ → ℕ → (ℕ → F.Elem) → List Constraint
    high_carries zero i given_cy = []
    high_carries (suc left) i given_cy =
        yield_if is_two_row_op (F.mul filter (given_cy i)) ∷ high_carries left (i + 1) given_cy

    abbrev pub carry_is_bit : (ℕ → F.Elem) → List Constraint
    carry_is_bit given_cy =
        if is_two_row_op
        then []
        else constraint (F.mul (F.mul filter (given_cy 0)) (F.sub (given_cy 0) F.ones)) ∷ []

    unfoldable pub eval_packed_generic_addcy :
        (ℕ → F.Elem) → (ℕ → F.Elem) → (ℕ → F.Elem) → (ℕ → F.Elem) → List Constraint
    eval_packed_generic_addcy x y z given_cy =
        let (digits, cy) = digits_loop n_limbs 0 F.zeros x y z in
        digits
        ++ (carry_is_bit given_cy
            ++ (yield_if is_two_row_op (F.mul filter (F.sub cy (given_cy 0)))
                ∷ high_carries (n_limbs - 1) 1 given_cy))

  unfoldable pub eval_packed_generic : Row F → List Constraint
  eval_packed_generic lv =
      let in0 = register F lv input_register_0 in
      let in1 = register F lv input_register_1 in
      let out = register F lv output_register in
      let aux = register F lv aux_input_register_0 in
      eval_packed_generic_addcy (lv is_add) false in0 in1 out aux
      ++ (eval_packed_generic_addcy (lv is_sub) false in1 out in0 aux
          ++ (eval_packed_generic_addcy (lv is_lt) false in1 aux in0 out
              ++ eval_packed_generic_addcy (lv is_gt) false in0 aux in1 out))

  -- The arm of `binary_op_to_rows` for the four operators, on any operator.
  unfoldable pub addcy_row : BinaryOperator → ℕ → ℕ → Option (Row F)
  addcy_row op input0 input1 =
      generate (set_column F (λ j. F.zeros) (row_filter op) F.ones) (row_filter op) input0 input1
