-- ===== src/Kernel/Optimizer/Replacements.antt =====
-- The replacements that the passes of the optimizer make, and where a pass panics.
use zk_evm.Prelude.{
  ℕ, ◌+◌, ◌<◌, ◌≡◌, refl, sym, ap, ◌∙◌, arith, Bool, true, false, inl, inr, ◌⊎◌, Option, none, some,
  ◌>>=◌, List, ◌++◌, length, length-append,
}
use zk_evm.Kernel.Ast.{Item}
use zk_evm.Kernel.Windows.{replace_windows}
use zk_evm.Kernel.Windows.Rewriting.{Rewrites, unchanged, replaced, replace_windows-Ends}
use zk_evm.Kernel.Windows.Panics.{suggestion, calm, replace_windows-Calm}
use zk_evm.Kernel.Optimizer.Shifts.{IsFarShift, HasFarShift, binary_constant-none}
use zk_evm.Kernel.Optimizer.{
  unary_constant, binary_constant, identity_operation, no_op_jump, swapped_pushes, swap_commutative,
  ignored_value, always, if_better, filter_improved, then_some, replace_windows_if_better,
  constant_propagation, identity_operations, no_op_jumps, remove_swapped_pushes,
  remove_swaps_commutative, remove_ignored_values, optimize_asm_once,
}
use zk_evm.Kernel.Optimizer.Passes.{
  Rule, Costed, unary_constant-Costed, binary_constant-Costed, unary_constant-Shortens,
  binary_constant-Shortens, no_op_jump-Shortens, swapped_pushes-Shortens, swap_commutative-Shortens,
  ignored_value-Shortens, identity_operation-Shortens,
}

pub data RuleName : Type 0 where
  fold_one fold_two identities jumps pushes swaps ignored : RuleName

abbrev pub rule : RuleName → Rule
rule fold_one = unary_constant
rule fold_two = suggestion binary_constant
rule identities = identity_operation
rule jumps = no_op_jump
rule pushes = swapped_pushes
rule swaps = swap_commutative
rule ignored = ignored_value

-- One code becomes another by replacements of the seven rules, at any place.
pub data Optimizes : List Item → List Item → Type 0 where
  same : {a : List Item} → Optimizes a a
  by_rule :
      {a b : List Item} (k : RuleName) (pre w r post : List Item)
      → a ≡ pre ++ (w ++ post)
      → rule k w ≡ some r
      → Optimizes (pre ++ (r ++ post)) b
      → Optimizes a b

pub Optimizes-trans : {a b c : List Item} → Optimizes a b → Optimizes b c → Optimizes a c
Optimizes-trans same q = q
Optimizes-trans (by_rule k pre w r post e f p) q = by_rule k pre w r post e f (Optimizes-trans p q)

length-rule : (k : RuleName) (w r : List Item) → rule k w ≡ some r → length r < length w
length-rule fold_one = unary_constant-Shortens
length-rule fold_two = binary_constant-Shortens
length-rule identities = identity_operation-Shortens
length-rule jumps = no_op_jump-Shortens
length-rule pushes = swapped_pushes-Shortens
length-rule swaps = swap_commutative-Shortens
length-rule ignored = ignored_value-Shortens

length-between :
    (pre w post : List Item) → length (pre ++ (w ++ post)) ≡ length pre + (length w + length post)
length-between pre w post =
    omega (arith, length-append {0} pre (w ++ post), length-append {0} w post)

-- Either nothing happens, or the code gets shorter.
pub Optimizes-shrinks : (a b : List Item) → Optimizes a b → (a ≡ b) ⊎ (length b < length a)
Optimizes-shrinks a b same = inl refl
Optimizes-shrinks a b (by_rule k pre w r post e f p) =
    inr (elim (Optimizes-shrinks (pre ++ (r ++ post)) b p) [
      | inl q ↦ omega (arith, ap length q, one_less)
      | inr q ↦ omega (arith, one_less)
    ])
  where
    one_less : length (pre ++ (r ++ post)) < length a
    one_less = omega (
      arith,
      ap length e,
      length-between pre w post,
      length-between pre r post,
      length-rule k w r f,
    )

-- Optimizing leads to a code where a literal is shifted too far.
abbrev pub ReachesFarShift : List Item → Type 0
ReachesFarShift a = (mid : List Item) × Optimizes a mid × HasFarShift mid

-- A pass changes the code by the rules, or panics at such a shift.
abbrev pub Passes : List Item → Option (List Item) → Type 0
Passes a out =
    ((b : List Item) × (out ≡ some b) × Optimizes a b) ⊎ ((out ≡ none) × ReachesFarShift a)

-- A pass that applies one rule.
module _ (W : ℕ) (k : RuleName) (g : List Item → Option (Option (List Item))) (pos : 0 < W)
    (uses : (w r : List Item) → suggestion g w ≡ some r → rule k w ≡ some r)
    (stuck : (w : List Item) → g w ≡ none → IsFarShift w) where
  calm-uses : (w r : List Item) → calm g w ≡ some (some r) → rule k w ≡ some r
  calm-uses w r h = uses w r cc

  Rewrites-Optimizes : (a b : List Item) → Rewrites W (calm g) a b → Optimizes a b
  Rewrites-Optimizes a b unchanged = same
  Rewrites-Optimizes a b (replaced pre w r post e len f e' p) =
      by_rule k pre w r post e (calm-uses w r f) (rw (sym e') (Rewrites-Optimizes _ b p))

  pass-Passes : (a : List Item) → Passes a (replace_windows W g a)
  pass-Passes a = elim (replace_windows-Calm W g a) [
    | inl calmly ↦
        let (b, e, p, n) =
          replace_windows-Ends W (calm g) pos (λ w h. (suggestion g w, refl))
            (λ w r h. length-rule k w r (calm-uses w r h)) a in
        inl (b, calmly ∙ e, Rewrites-Optimizes a b p)
    | inr (panics, (mid, p, (pre, w, post, e, h))) ↦
        inr (panics, (mid, Rewrites-Optimizes a mid p, (pre, w, post, e, stuck w h)))
  ]

always-rule :
    (W : ℕ) (k : RuleName)
    → 0 < W
    → (a : List Item) → Passes a (replace_windows W (always (rule k)) a)
always-rule W k pos a = pass-Passes W k (always (rule k)) pos (λ w r h. h) (λ w h. cc) a

then_some-only : (b : Bool) (x r : List Item) → then_some b x ≡ some r → some x ≡ some r
then_some-only true x r h = h
then_some-only false x r h = cc

-- A rule that is applied where the code gets cheaper.
module _ (f : List Item → Option (Option (List Item))) (costed : Costed (suggestion f)) where
  if_better-uses : (w r : List Item) → suggestion (if_better f) w ≡ some r → suggestion f w ≡ some r
  if_better-uses w r =
      elim (f w)
          as (λ o.
            f w ≡ o
            → ((o >>= filter_improved w) >>= λ found. found) ≡ some r
            → (o >>= λ found. found) ≡ some r) [
              | none ↦ λ e h. cc
              | some none ↦ λ e h. cc
              | some (some x) ↦
                  λ e h. let (b, q) = costed w x (rw e refl) in then_some-only b x r (rw q at h)
            ]
        refl

  if_better-none : (w : List Item) → if_better f w ≡ none → f w ≡ none
  if_better-none w =
      elim (f w) as (λ o. f w ≡ o → (o >>= filter_improved w) ≡ none → o ≡ none) [
        | none ↦ λ e h. refl
        | some none ↦ λ e h. cc
        | some (some x) ↦ λ e h. let (b, q) = costed w x (rw e refl) in cc (rw q at h)
      ]
        refl

better_rule :
    (W : ℕ) (k : RuleName) (f : List Item → Option (Option (List Item)))
    → 0 < W
    → Costed (suggestion f)
    → ((w r : List Item) → suggestion f w ≡ some r → rule k w ≡ some r)
    → ((w : List Item) → f w ≡ none → IsFarShift w)
    → (a : List Item) → Passes a (replace_windows_if_better W f a)
unfolding replace_windows_if_better
better_rule W k f pos costed uses stuck =
    pass-Passes W k (if_better f) pos (λ w r h. uses w r (if_better-uses f costed w r h))
      (λ w h. stuck w (if_better-none f costed w h))

-- One pass after another.
then_Passes :
    (f g : List Item → Option (List Item))
    → ((a : List Item) → Passes a (f a))
    → ((a : List Item) → Passes a (g a))
    → (a : List Item) → Passes a (f a >>= g)
then_Passes f g p q a = elim (p a) [
  | inr (e, far) ↦ inr (rw e refl, far)
  | inl (b, e, x) ↦ elim (q b) [
    | inl (c, e', y) ↦ inl (c, rw e e', Optimizes-trans x y)
    | inr (e', (mid, y, far)) ↦ inr (rw e e', (mid, Optimizes-trans x y, far))
  ]
]

pub optimize_asm_once-Passes : (a : List Item) → Passes a (optimize_asm_once a)
unfolding optimize_asm_once constant_propagation identity_operations no_op_jumps
    remove_swapped_pushes remove_swaps_commutative remove_ignored_values
optimize_asm_once-Passes =
    then_Passes _ _
      (then_Passes _ _
        (better_rule 2 fold_one (always unary_constant) (omega arith) unary_constant-Costed
          (λ w r h. h) (λ w h. cc))
        (better_rule 3 fold_two binary_constant (omega arith) binary_constant-Costed (λ w r h. h)
          binary_constant-none))
      (then_Passes _ _ (always-rule 2 identities (omega arith)) (
        then_Passes _ _ (always-rule 3 jumps (omega arith)) (
          then_Passes _ _ (always-rule 3 pushes (omega arith)) (
            then_Passes _ _ (always-rule 2 swaps (omega arith))
              (always-rule 2 ignored (omega arith))))))
