-- ===== src/Kernel/Optimizer/Bytes.antt =====
-- BYTE with two constants in the optimizer, against what the witness generator computes.
use zk_evm.Prelude.{
  ℕ, ◌-◌, ◌≡◌, refl, arith, true, false, Bool-cases, inl, inr, some, ltb, leb, if◌then◌else◌,
}
use zk_evm.Kernel.Operators.{byte_, binary_result}
use zk_evm.Kernel.Ast.{text_eq}
use zk_evm.Kernel.Optimizer.{fold_binary}

-- The optimizer's constant for BYTE is what the witness generator computes for the index counted
-- from the other end of the word, where the index is below 32, and for the same index, where it is
-- not.
pub fold_binary-binary_result :
    (x y : ℕ)
    → fold_binary "BYTE" x y
      ≡ some (some (if ltb x 32 then binary_result byte_ (31 - x) y else binary_result byte_ x y))
unfolding fold_binary binary_result text_eq
fold_binary-binary_result x y = elim (Bool-cases (ltb x 32)) [
  | inl small ↦
      let below : leb 32 (31 - x) ≡ false = ground arith in
      let back : 31 - (31 - x) ≡ x = ground (arith, small) in rw (small, below, back) refl
  | inr big ↦ let past : leb 32 x ≡ true = ground (arith, big) in rw (big, past) refl
]
