-- ===== src/Arithmetic/Addcy/Registers.antt =====
-- The registers of the row that `generate` writes, for the proofs.
use zk_evm.Prelude.{ℕ, ◌+◌, ◌≤◌, ◌<◌, ◌≡◌, ap, ◌∙◌, arith, inl, inr, false, true, Bool}
use zk_evm.Kernel.U256.{modulus, u256_from_bool}
use zk_evm.Arithmetic.Fields.{Field, IsGoldilocks}
use zk_evm.Arithmetic.Columns.{
  input_register_0, input_register_1, input_register_2, output_register, aux_input_register_0, Row,
  register, u256_to_array, set_column,
}
use zk_evm.Arithmetic.Addcy.{set_word, set_inputs, set_outputs}
use zk_evm.Arithmetic.Addcy.Sums.{limbs_of, IsRangeChecked, word, IsCheckedRow}
use zk_evm.Arithmetic.Addcy.Rows.{
  word_from-same, bit_limbs, array-IsRangeChecked, array-word, set_word-here, set_word-other,
}

pub bit_lt : (b : Bool) → u256_from_bool b < modulus
bit_lt true = omega arith
bit_lt false = omega arith

pub bit_le : (b : Bool) → u256_from_bool b ≤ 1
bit_le true = omega arith
bit_le false = omega arith

module _ (F : Field) (flags : Row F) (a b aux out : ℕ) where
  abbrev pub whole : Row F
  whole = set_outputs F (set_inputs F flags a b) aux out

  abbrev in0_row : Row F
  in0_row = set_word F flags input_register_0 a

  abbrev in1_row : Row F
  in1_row = set_word F in0_row input_register_1 b

  abbrev in2_row : Row F
  in2_row = set_word F in1_row input_register_2 0

  abbrev aux_row : Row F
  aux_row = set_word F in2_row aux_input_register_0 aux

  pub whole-out : (i : ℕ) → i < 16 → whole (output_register + i) ≡ u256_to_array F out i
  whole-out i h = set_word-here F aux_row output_register out i h

  pub whole-aux : (i : ℕ) → i < 16 → whole (aux_input_register_0 + i) ≡ u256_to_array F aux i
  whole-aux i h =
      set_word-other F aux_row output_register out (aux_input_register_0 + i) (inr (omega arith))
      ∙ set_word-here F in2_row aux_input_register_0 aux i h

  whole-in1 : (i : ℕ) → i < 16 → whole (input_register_1 + i) ≡ u256_to_array F b i
  whole-in1 i h =
      set_word-other F aux_row output_register out (input_register_1 + i) (inl (omega arith))
      ∙ (set_word-other F in2_row aux_input_register_0 aux (input_register_1 + i)
            (inl (omega arith))
          ∙ (set_word-other F in1_row input_register_2 0 (input_register_1 + i) (inl (omega arith))
              ∙ set_word-here F in0_row input_register_1 b i h))

  whole-in0 : (i : ℕ) → i < 16 → whole (input_register_0 + i) ≡ u256_to_array F a i
  whole-in0 i h =
      set_word-other F aux_row output_register out (input_register_0 + i) (inl (omega arith))
      ∙ (set_word-other F in2_row aux_input_register_0 aux (input_register_0 + i)
            (inl (omega arith))
          ∙ (set_word-other F in1_row input_register_2 0 (input_register_0 + i) (inl (omega arith))
              ∙ (set_word-other F in0_row input_register_1 b (input_register_0 + i)
                    (inl (omega arith))
                  ∙ set_word-here F flags input_register_0 a i h)))

module _ (F : Field) (G : IsGoldilocks F) where
  -- A register that holds the limbs of a word.
  written-checked :
      (row : Row F) (start x : ℕ)
      → ((i : ℕ) → i < 16 → row (start + i) ≡ u256_to_array F x i)
      → IsRangeChecked F (register F row start)
  written-checked row start x h i to = rw (limbs_of, h i to) (array-IsRangeChecked F G x i to)

  written-word :
      (row : Row F) (start x : ℕ)
      → x < modulus
      → ((i : ℕ) → i < 16 → row (start + i) ≡ u256_to_array F x i)
      → word F row start ≡ x
  written-word row start x small h =
      word_from-same 16 0 _ _ (λ j to. ap F.to_canonical_u64 (h j (omega arith)))
      ∙ array-word F G x small

  -- A register that holds a bit.
  pub written-bit :
      (row : Row F) (start : ℕ) (c : Bool)
      → ((i : ℕ) → i < 16 → row (start + i) ≡ u256_to_array F (u256_from_bool c) i)
      → (limbs_of F (register F row start) 0 ≡ u256_from_bool c)
        × ((j : ℕ) → 1 ≤ j → j < 16 → limbs_of F (register F row start) j ≡ 0)
  written-bit row start c h =
      bit_limbs (limbs_of F (register F row start)) (u256_from_bool c)
        (written-word row start (u256_from_bool c) (omega (arith, bit_le c)) h) (bit_le c)

  abbrev pub one_flag : ℕ → Row F
  one_flag filter = set_column F (λ j. F.zeros) filter F.ones

  module _ (filter a b aux out : ℕ) (ha : a < modulus) (hb : b < modulus) (haux : aux < modulus)
      (hout : out < modulus) where
    abbrev row : Row F
    row = whole F (one_flag filter) a b aux out

    pub row-checked : IsCheckedRow F row
    row-checked = (
      written-checked row input_register_0 a (whole-in0 F (one_flag filter) a b aux out),
      written-checked row input_register_1 b (whole-in1 F (one_flag filter) a b aux out),
      written-checked row output_register out (whole-out F (one_flag filter) a b aux out),
      written-checked row aux_input_register_0 aux (whole-aux F (one_flag filter) a b aux out),
    )

    pub row-words :
        (word F row input_register_0 ≡ a)
        × (word F row input_register_1 ≡ b)
        × (word F row output_register ≡ out)
        × (word F row aux_input_register_0 ≡ aux)
    row-words = (
      written-word row input_register_0 a ha (whole-in0 F (one_flag filter) a b aux out),
      written-word row input_register_1 b hb (whole-in1 F (one_flag filter) a b aux out),
      written-word row output_register out hout (whole-out F (one_flag filter) a b aux out),
      written-word row aux_input_register_0 aux haux (whole-aux F (one_flag filter) a b aux out),
    )
