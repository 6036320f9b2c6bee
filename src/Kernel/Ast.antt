-- ===== src/Kernel/Ast.antt =====
-- evm_arithmetization/src/cpu/kernel/ast.rs: the items of kernel code. A vector of items inside an
-- item is the type `Items`.
pub mod Equality
use Prim.Native.String.{String}
use text.Mathlib.Text.{◌==◌ as str_eq}
use zk_evm.Prelude.{ℕ, Bool, true, false, ◌&&◌, ◌==◌, List, [], ◌∷◌}

pub data PushTarget : Type 0 where
  literal : ℕ → PushTarget
  label macro_label macro_var constant : String → PushTarget

pub data StackReplacement : Type 0 where
  literal : ℕ → StackReplacement
  identifier label macro_label macro_var constant : String → StackReplacement

pub record StackPlaceholder : Type 0 where
  pub name : String
  pub size : ℕ

pub data BytesTarget : Type 0 where
  literal : ℕ → BytesTarget
  constant : String → BytesTarget

mutual
  pub data Item : Type 0 where
    conditional_block : String → Items → Item
    macro_def : String → List String → Items → Item
    macro_call : String → List PushTarget → Item
    repeat : ℕ → Items → Item
    stack_manipulation : List StackPlaceholder → List StackReplacement → Item
    global_label_declaration local_label_declaration macro_label_declaration : String → Item
    push : PushTarget → Item
    prover_input : List String → Item
    standard_op : String → Item
    bytes : List BytesTarget → Item
    jumptable : List String → Item

  pub data Items : Type 0 where
    end : Items
    item : Item → Items → Items

-- The derived equality.
abbrev pub list_eq {ℓ} : {A : Type ℓ} → (A → A → Bool) → List A → List A → Bool
list_eq eq [] [] = true
list_eq eq [] (y ∷ ys) = false
list_eq eq (x ∷ xs) [] = false
list_eq eq (x ∷ xs) (y ∷ ys) = eq x y && list_eq eq xs ys

unfoldable pub text_eq : String → String → Bool
text_eq a b = str_eq a b

unfoldable pub push_target_eq : PushTarget → PushTarget → Bool
push_target_eq (PushTarget.literal x) (PushTarget.literal y) = x == y
push_target_eq (PushTarget.label x) (PushTarget.label y) = text_eq x y
push_target_eq (PushTarget.macro_label x) (PushTarget.macro_label y) = text_eq x y
push_target_eq (PushTarget.macro_var x) (PushTarget.macro_var y) = text_eq x y
push_target_eq (PushTarget.constant x) (PushTarget.constant y) = text_eq x y
push_target_eq a b = false

unfoldable pub stack_replacement_eq : StackReplacement → StackReplacement → Bool
stack_replacement_eq (StackReplacement.literal x) (StackReplacement.literal y) = x == y
stack_replacement_eq (StackReplacement.identifier x) (StackReplacement.identifier y) = text_eq x y
stack_replacement_eq (StackReplacement.label x) (StackReplacement.label y) = text_eq x y
stack_replacement_eq (StackReplacement.macro_label x) (StackReplacement.macro_label y) = text_eq x y
stack_replacement_eq (StackReplacement.macro_var x) (StackReplacement.macro_var y) = text_eq x y
stack_replacement_eq (StackReplacement.constant x) (StackReplacement.constant y) = text_eq x y
stack_replacement_eq a b = false

unfoldable pub placeholder_eq : StackPlaceholder → StackPlaceholder → Bool
placeholder_eq a b = text_eq a.name b.name && a.size == b.size

unfoldable pub bytes_target_eq : BytesTarget → BytesTarget → Bool
bytes_target_eq (BytesTarget.literal x) (BytesTarget.literal y) = x == y
bytes_target_eq (BytesTarget.constant x) (BytesTarget.constant y) = text_eq x y
bytes_target_eq a b = false

unfoldable mutual
  pub item_eq : Item → Item → Bool
  item_eq (conditional_block f xs) (conditional_block g ys) = text_eq f g && items_eq xs ys
  item_eq (macro_def f ps xs) (macro_def g qs ys) =
      text_eq f g && (list_eq text_eq ps qs && items_eq xs ys)
  item_eq (macro_call f xs) (macro_call g ys) = text_eq f g && list_eq push_target_eq xs ys
  item_eq (repeat m xs) (repeat n ys) = m == n && items_eq xs ys
  item_eq (stack_manipulation ps xs) (stack_manipulation qs ys) =
      list_eq placeholder_eq ps qs && list_eq stack_replacement_eq xs ys
  item_eq (global_label_declaration l) (global_label_declaration m) = text_eq l m
  item_eq (local_label_declaration l) (local_label_declaration m) = text_eq l m
  item_eq (macro_label_declaration l) (macro_label_declaration m) = text_eq l m
  item_eq (push a) (push b) = push_target_eq a b
  item_eq (prover_input f) (prover_input g) = list_eq text_eq f g
  item_eq (standard_op f) (standard_op g) = text_eq f g
  item_eq (bytes xs) (bytes ys) = list_eq bytes_target_eq xs ys
  item_eq (jumptable xs) (jumptable ys) = list_eq text_eq xs ys
  item_eq a b = false

  pub items_eq : Items → Items → Bool
  items_eq end end = true
  items_eq (item x xs) (item y ys) = item_eq x y && items_eq xs ys
  items_eq a b = false

abbrev pub code_eq : List Item → List Item → Bool
code_eq a b = list_eq item_eq a b
