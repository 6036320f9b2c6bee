-- ===== src/Arithmetic/Addcy/Soundness.antt =====
-- A row that meets the constraints holds the results of the operators.
use zk_evm.Prelude.{
  ℕ, ◌+◌, ◌*◌, ◌^◌, ◌≤◌, ◌<◌, ◌≡◌, ◌∙◌, arith, false, ltb, List, All, All-append_front,
  All-append_back,
}
use zk_evm.Kernel.U256.{modulus, overflowing_add, overflowing_sub, u256_from_bool}
use zk_evm.Kernel.Operators.{BinaryOperator, add, sub, lt, gt, binary_result}
use zk_evm.Arithmetic.Columns.{
  is_add, is_sub, is_lt, is_gt, input_register_0, input_register_1, output_register,
  aux_input_register_0, Row, register,
}
use zk_evm.Arithmetic.Fields.{Field, IsGoldilocks}
use zk_evm.Arithmetic.Addcy.{Constraint, eval_packed_generic_addcy, eval_packed_generic, row_filter}
use zk_evm.Arithmetic.Addcy.Digits.{word_from, word_from-lt, word_from-low}
use zk_evm.Arithmetic.Addcy.Sums.{Vanishes, limbs_of, IsRangeChecked, word, IsCheckedRow, addcy-sum}

-- The operators that this file of the source computes.
abbrev pub IsAddcy : BinaryOperator → Type 0
IsAddcy add = Unit
IsAddcy sub = Unit
IsAddcy lt = Unit
IsAddcy gt = Unit
IsAddcy op = ⊥

module _ (F : Field) (G : IsGoldilocks F) where
  pub word-lt : (x : ℕ → F.Elem) → IsRangeChecked F x → word_from 16 0 (limbs_of F x) < modulus
  word-lt x h = word_from-lt 16 0 (limbs_of F x) (λ j to. h j (omega arith))

  abbrev addcy_add : Row F → List (Constraint F)
  addcy_add lv =
      eval_packed_generic_addcy F (lv is_add) false (register F lv input_register_0)
        (register F lv input_register_1) (register F lv output_register)
        (register F lv aux_input_register_0)

  abbrev addcy_sub : Row F → List (Constraint F)
  addcy_sub lv =
      eval_packed_generic_addcy F (lv is_sub) false (register F lv input_register_1)
        (register F lv output_register) (register F lv input_register_0)
        (register F lv aux_input_register_0)

  abbrev addcy_lt : Row F → List (Constraint F)
  addcy_lt lv =
      eval_packed_generic_addcy F (lv is_lt) false (register F lv input_register_1)
        (register F lv aux_input_register_0) (register F lv input_register_0)
        (register F lv output_register)

  abbrev addcy_gt : Row F → List (Constraint F)
  addcy_gt lv =
      eval_packed_generic_addcy F (lv is_gt) false (register F lv input_register_0)
        (register F lv aux_input_register_0) (register F lv input_register_1)
        (register F lv output_register)

  each_filter :
      (lv : Row F)
      → All (Vanishes F) (eval_packed_generic F lv)
      → All (Vanishes F) (addcy_add lv)
        × All (Vanishes F) (addcy_sub lv)
        × All (Vanishes F) (addcy_lt lv)
        × All (Vanishes F) (addcy_gt lv)
  unfolding eval_packed_generic
  each_filter lv v =
      let v1 = All-append_back (Vanishes F) (addcy_add lv) _ v in
      let v2 = All-append_back (Vanishes F) (addcy_sub lv) _ v1 in
      (
        All-append_front (Vanishes F) (addcy_add lv) _ v,
        All-append_front (Vanishes F) (addcy_sub lv) _ v1,
        All-append_front (Vanishes F) (addcy_lt lv) _ v2,
        All-append_back (Vanishes F) (addcy_lt lv) _ v2,
      )

  -- The borrow of a subtraction is the comparison.
  borrow-bit :
      (a b d k : ℕ)
      → k ≤ 1
      → d < modulus
      → b + d ≡ a + k * 65536 ^ 16
      → k ≡ u256_from_bool (ltb a b)
  borrow-bit a b d k hk hd e = ground (arith, hk, hd, e)

  -- The row of an ADD, SUB, LT or GT, whose registers are range-checked and whose filter is 1: if all
  -- constraints are met, then the output register holds the result of the operator on the words in
  -- the input registers.
  pub eval_packed_generic-binary_result :
      (lv : Row F) (op : BinaryOperator)
      → IsAddcy op
      → F.to_canonical_u64 (lv (row_filter op)) ≡ 1
      → IsCheckedRow F lv
      → All (Vanishes F) (eval_packed_generic F lv)
      → word F lv output_register
        ≡ binary_result op (word F lv input_register_0) (word F lv input_register_1)
  unfolding row_filter binary_result overflowing_add overflowing_sub
  eval_packed_generic-binary_result lv add a on (h0, h1, ho, ha) v =
      let (bit, high, total) =
        addcy-sum F G (lv is_add) on (register F lv input_register_0)
          (register F lv input_register_1) (register F lv output_register) h0 h1 ho
          (register F lv aux_input_register_0) (each_filter lv v).0 in
      omega (arith, word-lt (register F lv output_register) ho)
  eval_packed_generic-binary_result lv sub a on (h0, h1, ho, ha) v =
      let (bit, high, total) =
        addcy-sum F G (lv is_sub) on (register F lv input_register_1)
          (register F lv output_register) (register F lv input_register_0) h1 ho h0
          (register F lv aux_input_register_0) (each_filter lv v).1 in
      omega (
        arith,
        word-lt (register F lv output_register) ho,
        word-lt (register F lv input_register_1) h1,
        word-lt (register F lv input_register_0) h0,
      )
  eval_packed_generic-binary_result lv lt a on (h0, h1, ho, ha) v =
      let (bit, high, total) =
        addcy-sum F G (lv is_lt) on (register F lv input_register_1)
          (register F lv aux_input_register_0) (register F lv input_register_0) h1 ha h0
          (register F lv output_register) (each_filter lv v).2 in
      word_from-low (limbs_of F (register F lv output_register)) high
      ∙ borrow-bit (word F lv input_register_0) (word F lv input_register_1)
          (word F lv aux_input_register_0) _ bit (word-lt (register F lv aux_input_register_0) ha)
          total
  eval_packed_generic-binary_result lv gt a on (h0, h1, ho, ha) v =
      let (bit, high, total) =
        addcy-sum F G (lv is_gt) on (register F lv input_register_0)
          (register F lv aux_input_register_0) (register F lv input_register_1) h0 ha h1
          (register F lv output_register) (each_filter lv v).3 in
      word_from-low (limbs_of F (register F lv output_register)) high
      ∙ borrow-bit (word F lv input_register_1) (word F lv input_register_0)
          (word F lv aux_input_register_0) _ bit (word-lt (register F lv aux_input_register_0) ha)
          total
  eval_packed_generic-binary_result lv op a on h v = absurd a
