-- ===== src/Arithmetic/Tests.antt =====
-- The numbers modulo 2 ^ 64 - 2 ^ 32 + 1 as a field, and concrete rows over them.
use native.Mathlib.Nat.{div-add-mod', add-mul, mul_comm, mul_right_comm, mul-add-mod_self_right}
use zk_evm.Prelude.{ℕ, ◌+◌, ◌-◌, ◌*◌, ◌/◌, ◌%◌, ◌≡◌, refl, ap, sym, ◌∙◌, arith, Option, none, some}
use zk_evm.Kernel.Operators.{sub, binary_result}
use zk_evm.Arithmetic.Fields.{Field, IsGoldilocks, order}
use zk_evm.Arithmetic.Columns.{Row, input_register_0, input_register_1, output_register}
use zk_evm.Arithmetic.Addcy.{addcy_row, generate, row_filter}
use zk_evm.Arithmetic.Addcy.Sums.{word}
use zk_evm.Arithmetic.Addcy.Soundness.{eval_packed_generic-binary_result}
use zk_evm.Arithmetic.Addcy.Generated.{Proves, addcy_row-Proves}

abbrev residues : Field
residues = record {
  Elem = ℕ;
  zeros = 0;
  ones = 1;
  add = λ a b. (a + b) % order;
  sub = λ a b. (a + (order - b % order)) % order;
  mul = λ a b. (a * b) % order;
  from_canonical_u64 = λ n. n;
  to_canonical_u64 = λ a. a % order;
}

twice : (n : ℕ) → n % order % order ≡ n % order
twice n = omega arith

left_mod : (a b : ℕ) → a * b % order ≡ a % order * b % order
left_mod a b =
    ap (λ (t : ℕ). t * b % order) (sym (div-add-mod' a order))
    ∙ (ap (λ (t : ℕ). t % order) (add-mul (a / order * order) (a % order) b)
        ∙ (ap (λ (t : ℕ). (t + a % order * b) % order) (mul_right_comm (a / order) order b)
            ∙ mul-add-mod_self_right (a / order * b) order (a % order * b)))

product_mod : (a b : ℕ) → a * b % order ≡ a % order * (b % order) % order
product_mod a b =
    left_mod a b
    ∙ (ap (λ (t : ℕ). t % order) (mul_comm (a % order) b)
        ∙ (left_mod b (a % order) ∙ ap (λ (t : ℕ). t % order) (mul_comm (b % order) (a % order))))

residues-IsGoldilocks : IsGoldilocks residues
residues-IsGoldilocks = record {
  canonical_lt = λ a. omega arith;
  of_zeros = refl;
  of_ones = refl;
  of_from = λ n h. omega arith;
  of_add = λ a b. omega arith;
  of_sub = λ a b. omega arith;
  of_mul = λ a b. twice (a * b) ∙ product_mod a b;
}

addcy_row-Proves_example :
    (lv : Row residues) × (addcy_row residues sub 3 5 ≡ some lv)
    × Proves residues residues-IsGoldilocks 3 5 lv
addcy_row-Proves_example =
    addcy_row-Proves residues residues-IsGoldilocks sub 3 5 tt (omega arith) (omega arith)

abbrev or_zeros : Option (Row residues) → Row residues
or_zeros none = λ j. 0
or_zeros (some lv) = lv

abbrev sub_row : Row residues
unfolding addcy_row
sub_row = or_zeros (addcy_row residues sub 3 5)

-- The row is the one that is generated.
sub_row-Proves : Proves residues residues-IsGoldilocks 3 5 sub_row
unfolding addcy_row
sub_row-Proves =
    let (lv, e, p) = addcy_row-Proves_example in
    let same : lv ≡ sub_row = sym (ap or_zeros e) in rw same at p

eval_packed_generic-binary_result_example :
    word residues sub_row output_register
    ≡ binary_result sub
        (word residues sub_row input_register_0)
        (word residues sub_row input_register_1)
unfolding addcy_row generate row_filter
eval_packed_generic-binary_result_example =
    eval_packed_generic-binary_result residues residues-IsGoldilocks sub_row sub tt refl
      sub_row-Proves.2 sub_row-Proves.3
