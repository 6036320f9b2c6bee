-- ===== src/Arithmetic/Addcy/Generated.antt =====
-- `generate` writes a row that meets the constraints.
use zk_evm.Prelude.{ℕ, ◌+◌, ◌*◌, ◌^◌, ◌<◌, ◌≡◌, refl, arith, false, some, All, All-append}
use zk_evm.Kernel.U256.{modulus, overflowing_add, overflowing_sub, u256_from_bool}
use zk_evm.Kernel.Operators.{BinaryOperator, add, sub, lt, gt}
use zk_evm.Arithmetic.Fields.{Field, IsGoldilocks}
use zk_evm.Arithmetic.Columns.{
  is_add, is_sub, is_lt, is_gt, input_register_0, input_register_1, output_register,
  aux_input_register_0, Row, register,
}
use zk_evm.Arithmetic.Addcy.{
  add_overflows, sub_overflows, generate, eval_packed_generic_addcy, eval_packed_generic,
  row_filter, addcy_row,
}
use zk_evm.Arithmetic.Addcy.Sums.{Vanishes, word, IsCheckedRow}
use zk_evm.Arithmetic.Addcy.Soundness.{IsAddcy}
use zk_evm.Arithmetic.Addcy.Completeness.{addcy-off, addcy-Vanishes}
use zk_evm.Arithmetic.Addcy.Registers.{
  bit_le, bit_lt, whole, whole-out, whole-aux, written-bit, one_flag, row-checked, row-words,
}

add_lt : (a b : ℕ) → overflowing_add a b < modulus
unfolding overflowing_add
add_lt a b = omega arith

sub_lt : (a b : ℕ) → overflowing_sub a b < modulus
unfolding overflowing_sub
sub_lt a b = omega arith

add-carry :
    (a b : ℕ)
    → a < modulus
    → b < modulus
    → a + b ≡ overflowing_add a b + u256_from_bool (add_overflows a b) * 65536 ^ 16
unfolding overflowing_add
add-carry a b ha hb = ground (arith, ha, hb)

sub-carry :
    (a b : ℕ)
    → a < modulus
    → b < modulus
    → b + overflowing_sub a b ≡ a + u256_from_bool (sub_overflows a b) * 65536 ^ 16
unfolding overflowing_sub
sub-carry a b ha hb = ground (arith, ha, hb)

module _ (F : Field) (G : IsGoldilocks F) where
  -- The four sets of constraints on a row.
  All-Vanishes :
      (lv : Row F)
      → (let in0 = register F lv input_register_0 in
          let in1 = register F lv input_register_1 in
          let out = register F lv output_register in
          let aux = register F lv aux_input_register_0 in
          All (Vanishes F) (eval_packed_generic_addcy F (lv is_add) false in0 in1 out aux)
          → All (Vanishes F) (eval_packed_generic_addcy F (lv is_sub) false in1 out in0 aux)
          → All (Vanishes F) (eval_packed_generic_addcy F (lv is_lt) false in1 aux in0 out)
          → All (Vanishes F) (eval_packed_generic_addcy F (lv is_gt) false in0 aux in1 out)
          → All (Vanishes F) (eval_packed_generic F lv))
  unfolding eval_packed_generic
  All-Vanishes lv v0 v1 v2 v3 =
      All-append (Vanishes F) _ _ v0
        (All-append (Vanishes F) _ _ v1 (All-append (Vanishes F) _ _ v2 v3))

  -- What is said of a generated row.
  abbrev pub Proves : ℕ → ℕ → Row F → Type 0
  Proves a b lv =
      (word F lv input_register_0 ≡ a)
      × (word F lv input_register_1 ≡ b)
      × IsCheckedRow F lv
      × All (Vanishes F) (eval_packed_generic F lv)

  add-Proves :
      (a b : ℕ)
      → a < modulus
      → b < modulus
      → (lv : Row F) × (addcy_row F add a b ≡ some lv) × Proves a b lv
  unfolding addcy_row row_filter generate
  add-Proves a b ha hb =
      let k = add_overflows a b in
      let aux = u256_from_bool k in
      let out = overflowing_add a b in
      let lv = whole F (one_flag F G is_add) a b aux out in
      let words = row-words F G is_add a b aux out ha hb (bit_lt k) (add_lt a b) in
      let (h0, h1, ho, hx) = row-checked F G is_add a b aux out ha hb (bit_lt k) (add_lt a b) in
      let (low, high) =
        written-bit F G lv aux_input_register_0 k (whole-aux F (one_flag F G is_add) a b aux out) in
      (
        lv,
        refl,
        (
          words.0,
          words.1,
          (h0, h1, ho, hx),
          All-Vanishes lv
              (addcy-Vanishes F G (lv is_add) G.of_ones (register F lv input_register_0)
                (register F lv input_register_1) (register F lv output_register) h0 h1 ho
                (register F lv aux_input_register_0) (rw low (bit_le k)) high
                (rw (low, words.0, words.1, words.2) (add-carry a b ha hb)))
              (addcy-off F G (lv is_sub) G.of_zeros _ _ _ _)
              (addcy-off F G (lv is_lt) G.of_zeros _ _ _ _)
              (addcy-off F G (lv is_gt) G.of_zeros _ _ _ _),
        ),
      )

  sub-Proves :
      (a b : ℕ)
      → a < modulus
      → b < modulus
      → (lv : Row F) × (addcy_row F sub a b ≡ some lv) × Proves a b lv
  unfolding addcy_row row_filter generate
  sub-Proves a b ha hb =
      let k = sub_overflows a b in
      let aux = u256_from_bool k in
      let out = overflowing_sub a b in
      let lv = whole F (one_flag F G is_sub) a b aux out in
      let words = row-words F G is_sub a b aux out ha hb (bit_lt k) (sub_lt a b) in
      let (h0, h1, ho, hx) = row-checked F G is_sub a b aux out ha hb (bit_lt k) (sub_lt a b) in
      let (low, high) =
        written-bit F G lv aux_input_register_0 k (whole-aux F (one_flag F G is_sub) a b aux out) in
      (
        lv,
        refl,
        (
          words.0,
          words.1,
          (h0, h1, ho, hx),
          All-Vanishes lv (addcy-off F G (lv is_add) G.of_zeros _ _ _ _)
              (addcy-Vanishes F G (lv is_sub) G.of_ones (register F lv input_register_1)
                (register F lv output_register) (register F lv input_register_0) h1 ho h0
                (register F lv aux_input_register_0) (rw low (bit_le k)) high
                (rw (low, words.1, words.2, words.0) (sub-carry a b ha hb)))
              (addcy-off F G (lv is_lt) G.of_zeros _ _ _ _)
              (addcy-off F G (lv is_gt) G.of_zeros _ _ _ _),
        ),
      )

  lt-Proves :
      (a b : ℕ)
      → a < modulus
      → b < modulus
      → (lv : Row F) × (addcy_row F lt a b ≡ some lv) × Proves a b lv
  unfolding addcy_row row_filter generate
  lt-Proves a b ha hb =
      let k = sub_overflows a b in
      let aux = overflowing_sub a b in
      let out = u256_from_bool k in
      let lv = whole F (one_flag F G is_lt) a b aux out in
      let words = row-words F G is_lt a b aux out ha hb (sub_lt a b) (bit_lt k) in
      let (h0, h1, ho, hx) = row-checked F G is_lt a b aux out ha hb (sub_lt a b) (bit_lt k) in
      let (low, high) =
        written-bit F G lv output_register k (whole-out F (one_flag F G is_lt) a b aux out) in
      (
        lv,
        refl,
        (
          words.0,
          words.1,
          (h0, h1, ho, hx),
          All-Vanishes lv (addcy-off F G (lv is_add) G.of_zeros _ _ _ _)
              (addcy-off F G (lv is_sub) G.of_zeros _ _ _ _)
              (addcy-Vanishes F G (lv is_lt) G.of_ones (register F lv input_register_1)
                (register F lv aux_input_register_0) (register F lv input_register_0) h1 hx h0
                (register F lv output_register) (rw low (bit_le k)) high
                (rw (low, words.1, words.3, words.0) (sub-carry a b ha hb)))
              (addcy-off F G (lv is_gt) G.of_zeros _ _ _ _),
        ),
      )

  gt-Proves :
      (a b : ℕ)
      → a < modulus
      → b < modulus
      → (lv : Row F) × (addcy_row F gt a b ≡ some lv) × Proves a b lv
  unfolding addcy_row row_filter generate
  gt-Proves a b ha hb =
      let k = sub_overflows b a in
      let aux = overflowing_sub b a in
      let out = u256_from_bool k in
      let lv = whole F (one_flag F G is_gt) a b aux out in
      let words = row-words F G is_gt a b aux out ha hb (sub_lt b a) (bit_lt k) in
      let (h0, h1, ho, hx) = row-checked F G is_gt a b aux out ha hb (sub_lt b a) (bit_lt k) in
      let (low, high) =
        written-bit F G lv output_register k (whole-out F (one_flag F G is_gt) a b aux out) in
      (
        lv,
        refl,
        (
          words.0,
          words.1,
          (h0, h1, ho, hx),
          All-Vanishes lv (addcy-off F G (lv is_add) G.of_zeros _ _ _ _)
              (addcy-off F G (lv is_sub) G.of_zeros _ _ _ _)
              (addcy-off F G (lv is_lt) G.of_zeros _ _ _ _)
              (addcy-Vanishes F G (lv is_gt) G.of_ones (register F lv input_register_0)
                (register F lv aux_input_register_0) (register F lv input_register_1) h0 hx h1
                (register F lv output_register) (rw low (bit_le k)) high
                (rw (low, words.0, words.3, words.1) (sub-carry b a hb ha))),
        ),
      )

  -- For ADD, SUB, LT and GT on two words a row is generated that holds the words in its input
  -- registers, has limbs of 16 bits in all its registers, and meets all the constraints.
  pub addcy_row-Proves :
      (op : BinaryOperator) (a b : ℕ)
      → IsAddcy op
      → a < modulus
      → b < modulus
      → (lv : Row F) × (addcy_row F op a b ≡ some lv) × Proves a b lv
  addcy_row-Proves add a b h ha hb = add-Proves a b ha hb
  addcy_row-Proves sub a b h ha hb = sub-Proves a b ha hb
  addcy_row-Proves lt a b h ha hb = lt-Proves a b ha hb
  addcy_row-Proves gt a b h ha hb = gt-Proves a b ha hb
  addcy_row-Proves op a b h ha hb = absurd h
