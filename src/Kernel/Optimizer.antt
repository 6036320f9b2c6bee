-- ===== src/Kernel/Optimizer.antt =====
-- evm_arithmetization/src/cpu/kernel/optimizer.rs. A closure that maps a window to its replacement
-- is a function on the list of the window's items; one that may panic has an outer `none` for that.
pub mod Folding
pub mod Shifts
pub mod Rules
pub mod Removals
pub mod Passes
pub mod Replacements
pub mod Correct
pub mod Bytes
pub mod Tests
use Prim.Native.String.{String}
use text.Mathlib.Text.{starts_with}
use mathlib.Core.Option
use zk_evm.Prelude.{
  ℕ, zero, suc, ◌+◌, Bool, true, false, ◌||◌, Option, none, some, ◌>>=◌, List, [], ◌∷◌, length, ltb,
  ◌==◌, if◌then◌else◌, bit_and, bit_or, bit_xor,
}
use zk_evm.Kernel.U256.{
  overflowing_add, overflowing_sub, overflowing_mul, overflowing_pow, checked_div, checked_rem,
  shl_by_word, shr_by_word, byte, bit_not, u256_from_bool,
}
use zk_evm.Kernel.Ast.{
  PushTarget, Item, global_label_declaration, local_label_declaration, push, standard_op, text_eq,
  code_eq,
}
use zk_evm.Kernel.Cost.{is_code_improved}
use zk_evm.Kernel.Windows.{replace_windows}

abbrev pub push_literal : ℕ → Item
push_literal x = push (PushTarget.literal x)

abbrev pub unwrap_or_zero : Option ℕ → ℕ
unwrap_or_zero none = 0
unwrap_or_zero (some x) = x

-- The arms of the two matches on the name of an operation.
unfoldable pub fold_unary : String → ℕ → Option (List Item)
fold_unary op x =
    if text_eq op "ISZERO"
    then some (push_literal (u256_from_bool (x == 0)) ∷ [])
    else if text_eq op "NOT"
    then some (push_literal (bit_not x) ∷ [])
    else none

-- The outer `none` is a panic, the inner one an operation that is not folded.
unfoldable pub fold_binary : String → ℕ → ℕ → Option (Option ℕ)
fold_binary op x y =
    if text_eq op "ADD"
    then some (some (overflowing_add x y))
    else if text_eq op "SUB"
    then some (some (overflowing_sub x y))
    else if text_eq op "MUL"
    then some (some (overflowing_mul x y))
    else if text_eq op "DIV"
    then some (some (unwrap_or_zero (checked_div x y)))
    else if text_eq op "MOD"
    then some (some (unwrap_or_zero (checked_rem x y)))
    else if text_eq op "EXP"
    then some (some (overflowing_pow x y))
    else if text_eq op "SHL"
    then (shl_by_word y x >>= λ res. some (some res))
    else if text_eq op "SHR"
    then (shr_by_word y x >>= λ res. some (some res))
    else if text_eq op "AND"
    then some (some (bit_and x y))
    else if text_eq op "OR"
    then some (some (bit_or x y))
    else if text_eq op "XOR"
    then some (some (bit_xor x y))
    else if text_eq op "LT"
    then some (some (u256_from_bool (ltb x y)))
    else if text_eq op "GT"
    then some (some (u256_from_bool (ltb y x)))
    else if text_eq op "EQ"
    then some (some (u256_from_bool (x == y)))
    else if text_eq op "BYTE"
    then some (some (if ltb x 32 then byte y x else 0))
    else some none

unfoldable pub unary_constant : List Item → Option (List Item)
unary_constant (push (PushTarget.literal x) ∷ (standard_op op ∷ [])) = fold_unary op x
unary_constant window = none

unfoldable pub binary_constant : List Item → Option (Option (List Item))
binary_constant
      (push (PushTarget.literal y) ∷ (push (PushTarget.literal x) ∷ (standard_op op ∷ []))) =
    fold_binary op x y >>= λ folded. some (Option.map (λ res. push_literal res ∷ []) folded)
binary_constant window = some none

abbrev pub then_some {ℓ} : {A : Type ℓ} → Bool → A → Option A
then_some b a = if b then some a else none

unfoldable pub identity_operation : List Item → Option (List Item)
identity_operation (push (PushTarget.literal x) ∷ (standard_op op ∷ [])) =
    if text_eq op "ADD"
    then then_some (x == 0) []
    else if text_eq op "MUL"
    then then_some (x == 1) []
    else if text_eq op "OR"
    then then_some (x == 0) []
    else if text_eq op "XOR"
    then then_some (x == 0) []
    else none
identity_operation window = none

-- `decl == LocalLabelDeclaration(l) || decl == GlobalLabelDeclaration(l)`
unfoldable pub declares : Item → String → Bool
declares (local_label_declaration m) l = text_eq m l
declares (global_label_declaration m) l = text_eq m l
declares decl l = false

unfoldable pub no_op_jump : List Item → Option (List Item)
no_op_jump (push (PushTarget.label l) ∷ (standard_op jump ∷ (decl ∷ []))) =
    if text_eq jump "JUMP" then then_some (declares decl l) (decl ∷ []) else none
no_op_jump window = none

unfoldable pub swapped_pushes : List Item → Option (List Item)
swapped_pushes (push x ∷ (push y ∷ (standard_op swap1 ∷ []))) =
    then_some (text_eq swap1 "SWAP1") (push y ∷ (push x ∷ []))
swapped_pushes window = none

abbrev pub is_commutative : String → Bool
is_commutative f =
    text_eq f "ADD"
    || (text_eq f "MUL"
        || (text_eq f "AND" || (text_eq f "OR" || (text_eq f "XOR" || text_eq f "EQ"))))

unfoldable pub swap_commutative : List Item → Option (List Item)
swap_commutative (standard_op swap1 ∷ (standard_op f ∷ [])) =
    if text_eq swap1 "SWAP1" then then_some (is_commutative f) (standard_op f ∷ []) else none
swap_commutative window = none

unfoldable pub ignored_value : List Item → Option (List Item)
ignored_value (push x ∷ (standard_op pop ∷ [])) = then_some (text_eq pop "POP") []
ignored_value (standard_op dup ∷ (standard_op pop ∷ [])) =
    if text_eq pop "POP" then then_some (starts_with dup "DUP") [] else none
ignored_value window = none

-- A closure that cannot panic.
abbrev pub always : (List Item → Option (List Item)) → List Item → Option (Option (List Item))
always maybe_replace window = some (maybe_replace window)

abbrev pub filter_improved : List Item → Option (List Item) → Option (Option (List Item))
filter_improved window none = some none
filter_improved window (some suggestion) = do
  improved ← is_code_improved window suggestion
  some (then_some improved suggestion)

abbrev pub if_better :
    (List Item → Option (Option (List Item))) → List Item → Option (Option (List Item))
if_better maybe_replace window = maybe_replace window >>= filter_improved window

pub replace_windows_if_better :
    ℕ → (List Item → Option (Option (List Item))) → List Item → Option (List Item)
replace_windows_if_better W maybe_replace code = replace_windows W (if_better maybe_replace) code

pub constant_propagation : List Item → Option (List Item)
unfolding replace_windows_if_better
constant_propagation code = do
  code ← replace_windows_if_better 2 (always unary_constant) code
  replace_windows_if_better 3 binary_constant code

pub identity_operations : List Item → Option (List Item)
identity_operations code = replace_windows 2 (always identity_operation) code

pub no_op_jumps : List Item → Option (List Item)
no_op_jumps code = replace_windows 3 (always no_op_jump) code

pub remove_swapped_pushes : List Item → Option (List Item)
remove_swapped_pushes code = replace_windows 3 (always swapped_pushes) code

pub remove_swaps_commutative : List Item → Option (List Item)
remove_swaps_commutative code = replace_windows 2 (always swap_commutative) code

pub remove_ignored_values : List Item → Option (List Item)
remove_ignored_values code = replace_windows 2 (always ignored_value) code

pub optimize_asm_once : List Item → Option (List Item)
unfolding constant_propagation identity_operations no_op_jumps remove_swapped_pushes
    remove_swaps_commutative remove_ignored_values
optimize_asm_once code = do
  code ← constant_propagation code
  code ← identity_operations code
  code ← no_op_jumps code
  code ← remove_swapped_pushes code
  code ← remove_swaps_commutative code
  remove_ignored_values code

-- `none` is a panic, or the end of the fuel.
optimize_loop : ℕ → List Item → Option (List Item)
unfolding optimize_asm_once
optimize_loop zero code = none
optimize_loop (suc fuel) old_code = do
  code ← optimize_asm_once old_code
  let again = optimize_loop fuel code
  if code_eq code old_code then some code else again

-- Each pass that changes the code makes it shorter.
pub optimize_asm : List Item → Option (List Item)
unfolding optimize_loop
optimize_asm code = optimize_loop (length code + 1) code
