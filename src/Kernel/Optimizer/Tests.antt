-- ===== src/Kernel/Optimizer/Tests.antt =====
-- The optimizer on concrete code, and the theorems about it at concrete inputs.
use zk_evm.Prelude.{
  ℕ, ◌≤◌, ◌-◌, ◌≡◌, refl, inr, ◌⊎◌, ◌^◌, arith, none, some, List, [], ◌∷◌, length, ◌==◌, ltb,
  if◌then◌else◌,
}
use zk_evm.Kernel.U256.{overflowing_add, as_usize}
use zk_evm.Kernel.Operators.{byte_, binary_result}
use zk_evm.Kernel.Ast.{PushTarget, Item, push, standard_op, local_label_declaration, text_eq}
use zk_evm.Kernel.Machine.{Final, ends, crash, Step, stop, run, step, named, perform}
use zk_evm.Kernel.Machine.Order.{Below, IsMachine}
use zk_evm.Kernel.Optimizer.{push_literal, fold_binary, optimize_asm, optimize_asm_once}
use zk_evm.Kernel.Optimizer.Bytes.{fold_binary-binary_result}
use zk_evm.Kernel.Optimizer.Replacements.{ReachesFarShift}
use zk_evm.Kernel.Optimizer.Correct.{optimize_asm-ends, optimize_asm-Refines}

-- A jump to the next label, a swap of two constants, and an addition.
abbrev jump_and_add : List Item
jump_and_add =
    push (PushTarget.label "l")
    ∷ (standard_op "JUMP"
        ∷ (local_label_declaration "l"
            ∷ (push_literal 2
                ∷ (push_literal 3 ∷ (standard_op "SWAP1" ∷ (standard_op "ADD" ∷ []))))))

-- A machine without other operations: the label `l` is at 7, where a jump leads behind the addition.
abbrev no_other : Item → List ℕ → ℕ → Step ℕ
no_other i st s = stop crash

abbrev at_seven : PushTarget → ℕ
at_seven t = 7

abbrev land : ℕ → List ℕ → ℕ → Final ℕ
land a st s = if a == 7 then ends (5 ∷ st) s else crash

no_other-IsMachine : IsMachine no_other at_seven
no_other-IsMachine = record {
  other_words = λ i st s h. tt;
  address_word = λ t. omega arith;
  no_other_dup = λ op st s d n. refl;
}

optimize_asm-ends_example :
    ((result : List Item) × (optimize_asm jump_and_add ≡ some result)
      × (optimize_asm_once result ≡ some result)
      × (length result ≤ length jump_and_add))
    ⊎ ((optimize_asm jump_and_add ≡ none) × ReachesFarShift jump_and_add)
optimize_asm-ends_example = optimize_asm-ends jump_and_add

optimize_asm-Refines_example :
    ((result : List Item) × (optimize_asm jump_and_add ≡ some result)
      × Below
          (run no_other at_seven land jump_and_add (1 ∷ []) 0)
          (run no_other at_seven land result (1 ∷ []) 0))
    ⊎ ((optimize_asm jump_and_add ≡ none) × ReachesFarShift jump_and_add)
unfolding run step named perform text_eq binary_result overflowing_add
optimize_asm-Refines_example =
    optimize_asm-Refines no_other at_seven land no_other-IsMachine jump_and_add
      (tt, (refl, (tt, (omega arith, (omega arith, (refl, (refl, tt)))))))
      ((λ st s h. inr refl), tt) (1 ∷ []) 0 (omega arith, tt)

-- A literal is shifted too far.
far_shift : fold_binary "SHL" (2 ^ 64) 1 ≡ none
unfolding fold_binary as_usize text_eq
far_shift = refl

-- The first byte of a word that ends in 7 is not 7.
fold_binary-binary_result_example :
    fold_binary "BYTE" 0 7
    ≡ some (some (if ltb 0 32 then binary_result byte_ (31 - 0) 7 else binary_result byte_ 0 7))
fold_binary-binary_result_example = fold_binary-binary_result 0 7
