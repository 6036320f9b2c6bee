-- ===== src/Kernel/Cost.antt =====
-- evm_arithmetization/src/cpu/kernel/cost_estimator.rs. `none` is a panic.
use Prim.Native.String.{String}
use zk_evm.Prelude.{ℕ, ◌+◌, Bool, Option, none, some, ◌>>=◌, List, [], ◌∷◌, length, ltb}
use zk_evm.Kernel.U256.{u256_to_trimmed_be_bytes}
use zk_evm.Kernel.Ast.{
  PushTarget, Item, macro_def, global_label_declaration, local_label_declaration, push,
  prover_input, standard_op,
}

abbrev pub bytes_per_offset : ℕ
bytes_per_offset = 3

cost_estimate_standard_op : String → ℕ
cost_estimate_standard_op op = 1

cost_estimate_push : ℕ → ℕ
cost_estimate_push num_bytes = num_bytes

unfoldable pub cost_estimate_item : Item → Option ℕ
unfolding cost_estimate_standard_op cost_estimate_push
cost_estimate_item (macro_def name params body) = some 0
cost_estimate_item (global_label_declaration l) = some 0
cost_estimate_item (local_label_declaration l) = some 0
cost_estimate_item (push (PushTarget.literal n)) =
    some (cost_estimate_push (length (u256_to_trimmed_be_bytes n)))
cost_estimate_item (push (PushTarget.label l)) = some (cost_estimate_push bytes_per_offset)
cost_estimate_item (prover_input f) = some 1
cost_estimate_item (standard_op op) = some (cost_estimate_standard_op op)
cost_estimate_item i = none

unfoldable pub cost_estimate : List Item → Option ℕ
cost_estimate [] = some 0
cost_estimate (i ∷ code) = do
  first ← cost_estimate_item i
  rest ← cost_estimate code
  some (first + rest)

unfoldable pub is_code_improved : List Item → List Item → Option Bool
is_code_improved before after = do
  new ← cost_estimate after
  old ← cost_estimate before
  some (ltb new old)
