-- ===== src/Kernel/Ast/Equality.antt =====
-- The derived equality holds of an item and itself, and only of code of one length.
use text.Mathlib.TextPositions.{eq_refl}
use Prim.Native.String.{String}
use zk_evm.Prelude.{suc, ◌≡◌, refl, ap, Bool, true, false, ◌&&◌, List, [], ◌∷◌, length, ==-refl}
use zk_evm.Kernel.Ast.{
  PushTarget, StackReplacement, StackPlaceholder, BytesTarget, Item, Items, conditional_block,
  macro_def, macro_call, repeat, stack_manipulation, global_label_declaration,
  local_label_declaration, macro_label_declaration, push, prover_input, standard_op, bytes,
  jumptable, end, item, list_eq, text_eq, push_target_eq, stack_replacement_eq, placeholder_eq,
  bytes_target_eq, item_eq, items_eq, code_eq,
}

list_eq_refl {ℓ} :
    {A : Type ℓ} (eq : A → A → Bool)
    → ((x : A) → eq x x ≡ true)
    → (l : List A) → list_eq eq l l ≡ true
list_eq_refl eq h [] = refl
list_eq_refl eq h (x ∷ l) = rw (h x) (list_eq_refl eq h l)

text_eq_refl : (s : String) → text_eq s s ≡ true
unfolding text_eq
text_eq_refl s = eq_refl s

push_target_eq_refl : (t : PushTarget) → push_target_eq t t ≡ true
unfolding push_target_eq
push_target_eq_refl (PushTarget.literal x) = ==-refl x
push_target_eq_refl (PushTarget.label x) = text_eq_refl x
push_target_eq_refl (PushTarget.macro_label x) = text_eq_refl x
push_target_eq_refl (PushTarget.macro_var x) = text_eq_refl x
push_target_eq_refl (PushTarget.constant x) = text_eq_refl x

stack_replacement_eq_refl : (t : StackReplacement) → stack_replacement_eq t t ≡ true
unfolding stack_replacement_eq
stack_replacement_eq_refl (StackReplacement.literal x) = ==-refl x
stack_replacement_eq_refl (StackReplacement.identifier x) = text_eq_refl x
stack_replacement_eq_refl (StackReplacement.label x) = text_eq_refl x
stack_replacement_eq_refl (StackReplacement.macro_label x) = text_eq_refl x
stack_replacement_eq_refl (StackReplacement.macro_var x) = text_eq_refl x
stack_replacement_eq_refl (StackReplacement.constant x) = text_eq_refl x

placeholder_eq_refl : (p : StackPlaceholder) → placeholder_eq p p ≡ true
unfolding placeholder_eq
placeholder_eq_refl p = rw (text_eq_refl p.name) (==-refl p.size)

bytes_target_eq_refl : (t : BytesTarget) → bytes_target_eq t t ≡ true
unfolding bytes_target_eq
bytes_target_eq_refl (BytesTarget.literal x) = ==-refl x
bytes_target_eq_refl (BytesTarget.constant x) = text_eq_refl x

mutual
  unfolding item_eq items_eq

  item_eq_refl : (i : Item) → item_eq i i ≡ true
  item_eq_refl (conditional_block f xs) = rw (text_eq_refl f) (items_eq_refl xs)
  item_eq_refl (macro_def f ps xs) =
      rw (text_eq_refl f, list_eq_refl text_eq text_eq_refl ps) (items_eq_refl xs)
  item_eq_refl (macro_call f xs) =
      rw (text_eq_refl f) (list_eq_refl push_target_eq push_target_eq_refl xs)
  item_eq_refl (repeat m xs) = rw (==-refl m) (items_eq_refl xs)
  item_eq_refl (stack_manipulation ps xs) =
      rw (list_eq_refl placeholder_eq placeholder_eq_refl ps)
        (list_eq_refl stack_replacement_eq stack_replacement_eq_refl xs)
  item_eq_refl (global_label_declaration l) = text_eq_refl l
  item_eq_refl (local_label_declaration l) = text_eq_refl l
  item_eq_refl (macro_label_declaration l) = text_eq_refl l
  item_eq_refl (push a) = push_target_eq_refl a
  item_eq_refl (prover_input f) = list_eq_refl text_eq text_eq_refl f
  item_eq_refl (standard_op f) = text_eq_refl f
  item_eq_refl (bytes xs) = list_eq_refl bytes_target_eq bytes_target_eq_refl xs
  item_eq_refl (jumptable xs) = list_eq_refl text_eq text_eq_refl xs

  items_eq_refl : (xs : Items) → items_eq xs xs ≡ true
  items_eq_refl end = refl
  items_eq_refl (item x xs) = rw (item_eq_refl x) (items_eq_refl xs)

pub code_eq_refl : (code : List Item) → code_eq code code ≡ true
code_eq_refl code = list_eq_refl item_eq item_eq_refl code

pub code_eq-length : (a b : List Item) → code_eq a b ≡ true → length a ≡ length b
code_eq-length [] [] h = refl
code_eq-length [] (y ∷ b) h = cc
code_eq-length (x ∷ a) [] h = cc
code_eq-length (x ∷ a) (y ∷ b) h = ap suc (code_eq-length a b (tail (item_eq x y) (code_eq a b) h))
  where
    tail : (p q : Bool) → (p && q) ≡ true → q ≡ true
    tail true q h = h
    tail false q h = cc
