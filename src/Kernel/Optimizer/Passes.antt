-- ===== src/Kernel/Optimizer/Passes.antt =====
-- Every pass of the optimizer ends, and is a sequence of replacements that shorten the code.
use Prim.Native.String.{String}
use text.Mathlib.Text.{starts_with}
use mathlib.Core.Option
use zk_evm.Prelude.{
  ℕ, ◌<◌, ◌≡◌, refl, ap, arith, Bool, true, false, Bool-cases, inl, inr, Option, none, some, ◌>>=◌,
  List, [], ◌∷◌, length, ◌==◌,
}
use zk_evm.Kernel.Ast.{PushTarget, Item, push, standard_op, text_eq}
use zk_evm.Kernel.Cost.{is_code_improved, cost_estimate, cost_estimate_item}
use zk_evm.Kernel.Windows.Panics.{suggestion}
use zk_evm.Kernel.Optimizer.{
  push_literal, then_some, fold_unary, fold_binary, unary_constant, binary_constant,
  identity_operation, no_op_jump, declares, swapped_pushes, is_commutative, swap_commutative,
  ignored_value,
}

abbrev pub Rule : Type 0
Rule = List Item → Option (List Item)

abbrev pub Shortens : Rule → Type 0
Shortens f = (w r : List Item) → f w ≡ some r → length r < length w

guarded_shorter :
    (b : Bool) (a r : List Item) (n : ℕ) → then_some b a ≡ some r → length a < n → length r < n
guarded_shorter true a r n h k = omega (arith, ap length (only h))
  where
    only : some a ≡ some r → r ≡ a
    only h = cc
guarded_shorter false a r n h k = cc

fold_unary-shape :
    (op : String) (x : ℕ) (r : List Item)
    → fold_unary op x ≡ some r
    → (v : ℕ) × (r ≡ push_literal v ∷ [])
unfolding fold_unary
fold_unary-shape op x r h = elim (Bool-cases (text_eq op "ISZERO")) [
  | inl t ↦ (_, only (rw t at h))
  | inr n ↦ elim (Bool-cases (text_eq op "NOT")) [
    | inl t ↦ (_, only (rw (n, t) at h))
    | inr k ↦ cc (rw (n, k) at h)
  ]
]
  where
    only : {a : List Item} → some a ≡ some r → r ≡ a
    only h = cc

folded_shape :
    (o : Option (Option ℕ)) (r : List Item)
    → (o >>= λ folded. some (Option.map (λ res. push_literal res ∷ []) folded)) ≡ some (some r)
    → (v : ℕ) × (r ≡ push_literal v ∷ [])
folded_shape none r h = cc
folded_shape (some none) r h = cc
folded_shape (some (some v)) r h = (v, cc)

pub found_suggestion :
    (o : Option (Option (List Item))) (r : List Item)
    → (o >>= λ found. found) ≡ some r
    → o ≡ some (some r)
found_suggestion none r h = cc
found_suggestion (some none) r h = cc
found_suggestion (some (some a)) r h = cc

-- A suggestion for constants can be costed.
abbrev pub Costed : Rule → Type 0
Costed f = (w r : List Item) → f w ≡ some r → (b : Bool) × (is_code_improved w r ≡ some b)

pub unary_constant-Costed : Costed unary_constant
unfolding unary_constant is_code_improved cost_estimate cost_estimate_item
unary_constant-Costed (push (PushTarget.literal x) ∷ (standard_op op ∷ [])) r h =
    let (v, e) = fold_unary-shape op x r h in rw e (_, refl)
unary_constant-Costed w r h = cc

pub binary_constant-Costed : Costed (suggestion binary_constant)
unfolding binary_constant is_code_improved cost_estimate cost_estimate_item
binary_constant-Costed
      (push (PushTarget.literal y) ∷ (push (PushTarget.literal x) ∷ (standard_op op ∷ []))) r h =
    let (v, e) = folded_shape (fold_binary op x y) r (found_suggestion _ r h) in rw e (_, refl)
binary_constant-Costed w r h = cc

pub unary_constant-Shortens : Shortens unary_constant
unfolding unary_constant
unary_constant-Shortens (push (PushTarget.literal x) ∷ (standard_op op ∷ [])) r h =
    omega (arith, ap length (fold_unary-shape op x r h).1)
unary_constant-Shortens w r h = cc

pub binary_constant-Shortens : Shortens (suggestion binary_constant)
unfolding binary_constant
binary_constant-Shortens
      (push (PushTarget.literal y) ∷ (push (PushTarget.literal x) ∷ (standard_op op ∷ []))) r h =
    omega (arith, ap length (folded_shape (fold_binary op x y) r (found_suggestion _ r h)).1)
binary_constant-Shortens w r h = cc

pub no_op_jump-Shortens : Shortens no_op_jump
unfolding no_op_jump
no_op_jump-Shortens (push (PushTarget.label l) ∷ (standard_op op ∷ (decl ∷ []))) r h =
    elim (Bool-cases (text_eq op "JUMP")) [
      | inl t ↦ guarded_shorter (declares decl l) (decl ∷ []) r 3 (rw t at h) (omega arith)
      | inr n ↦ cc (rw n at h)
    ]
no_op_jump-Shortens w r h = cc

pub swapped_pushes-Shortens : Shortens swapped_pushes
unfolding swapped_pushes
swapped_pushes-Shortens (push x ∷ (push y ∷ (standard_op op ∷ []))) r h =
    guarded_shorter (text_eq op "SWAP1") (push y ∷ (push x ∷ [])) r 3 h (omega arith)
swapped_pushes-Shortens w r h = cc

pub swap_commutative-Shortens : Shortens swap_commutative
unfolding swap_commutative
swap_commutative-Shortens (standard_op op ∷ (standard_op f ∷ [])) r h =
    elim (Bool-cases (text_eq op "SWAP1")) [
      | inl t ↦
          guarded_shorter (is_commutative f) (standard_op f ∷ []) r 2 (rw t at h) (omega arith)
      | inr n ↦ cc (rw n at h)
    ]
swap_commutative-Shortens w r h = cc

pub ignored_value-Shortens : Shortens ignored_value
unfolding ignored_value
ignored_value-Shortens (push x ∷ (standard_op op ∷ [])) r h =
    guarded_shorter (text_eq op "POP") [] r 2 h (omega arith)
ignored_value-Shortens (standard_op first ∷ (standard_op op ∷ [])) r h =
    elim (Bool-cases (text_eq op "POP")) [
      | inl t ↦ guarded_shorter (starts_with first "DUP") [] r 2 (rw t at h) (omega arith)
      | inr n ↦ cc (rw n at h)
    ]
ignored_value-Shortens w r h = cc

pub identity_operation-Shortens : Shortens identity_operation
unfolding identity_operation
identity_operation-Shortens (push (PushTarget.literal x) ∷ (standard_op op ∷ [])) r h =
    elim (Bool-cases (text_eq op "ADD")) [
      | inl t ↦ guarded_shorter (x == 0) [] r 2 (rw t at h) (omega arith)
      | inr n1 ↦ elim (Bool-cases (text_eq op "MUL")) [
        | inl t ↦ guarded_shorter (x == 1) [] r 2 (rw (n1, t) at h) (omega arith)
        | inr n2 ↦ elim (Bool-cases (text_eq op "OR")) [
          | inl t ↦ guarded_shorter (x == 0) [] r 2 (rw (n1, n2, t) at h) (omega arith)
          | inr n3 ↦ elim (Bool-cases (text_eq op "XOR")) [
            | inl t ↦ guarded_shorter (x == 0) [] r 2 (rw (n1, n2, n3, t) at h) (omega arith)
            | inr n4 ↦ cc (rw (n1, n2, n3, n4) at h)
          ]
        ]
      ]
    ]
identity_operation-Shortens w r h = cc
