-- ===== src/Kernel/Optimizer/Correct.antt =====
-- The optimizer as a whole: how it ends, and that what it returns may stand for what it was given.
use zk_evm.Prelude.{
  ℕ, zero, suc, ◌+◌, ◌≤◌, ◌<◌, ◌≡◌, refl, sym, ap, ◌∙◌, arith, Bool-cases, inl, inr, ◌⊎◌, Option,
  none, some, List, ◌++◌, length, All,
}
use zk_evm.Kernel.Ast.{PushTarget, Item, code_eq}
use zk_evm.Kernel.Ast.Equality.{code_eq_refl, code_eq-length}
use zk_evm.Kernel.Machine.{Final, Step, run}
use zk_evm.Kernel.Machine.Words.{Words}
use zk_evm.Kernel.Machine.Order.{
  Below, IsPlain, IsMachine, Coherent, Improves, Improves-refl, Improves-trans, Improves-append,
}
use zk_evm.Kernel.Optimizer.{optimize_asm_once, optimize_loop, optimize_asm}
use zk_evm.Kernel.Optimizer.Rules.{
  unary_constant-Better, binary_constant-Better, swapped_pushes-Better, identity_operation-Better,
}
use zk_evm.Kernel.Optimizer.Removals.{
  no_op_jump-Better, swap_commutative-Better, ignored_value-Better,
}
use zk_evm.Kernel.Optimizer.Passes.{found_suggestion}
use zk_evm.Kernel.Optimizer.Replacements.{
  RuleName, fold_one, fold_two, identities, jumps, pushes, swaps, ignored, rule, Optimizes, same,
  by_rule, Optimizes-trans, Optimizes-shrinks, ReachesFarShift, optimize_asm_once-Passes,
}

-- The optimizer ends, at a code that another round leaves as it is, or panics where a literal is shifted too far.
abbrev Optimized : List Item → Option (List Item) → Type 0
Optimized a out =
    ((b : List Item) × (out ≡ some b) × Optimizes a b × (optimize_asm_once b ≡ some b))
    ⊎ ((out ≡ none) × ReachesFarShift a)

loop-Optimized : (fuel : ℕ) (a : List Item) → length a < fuel → Optimized a (optimize_loop fuel a)
unfolding optimize_loop
loop-Optimized zero a enough = absurd (omega arith)
loop-Optimized (suc fuel) a enough = elim (optimize_asm_once-Passes a) [
  | inr (panics, far) ↦ inr (rw panics refl, far)
  | inl (b, e, p) ↦
      let shrunk = Optimizes-shrinks a b p in
      rw e (elim (Bool-cases (code_eq b a)) [
        | inl stop ↦ rw stop (elim shrunk [
          | inl q ↦ inl (b, refl, p, ap optimize_asm_once (sym q) ∙ e)
          | inr q ↦ absurd (omega (arith, code_eq-length b a stop))
        ])
        | inr go ↦ rw go (elim shrunk [
          | inl q ↦ absurd (cc (code_eq_refl b, go, q))
          | inr q ↦ elim (loop-Optimized fuel b (omega arith)) [
            | inl (c, e', p', fixed) ↦ inl (c, e', Optimizes-trans p p', fixed)
            | inr (e', (mid, y, far)) ↦ inr (e', (mid, Optimizes-trans p y, far))
          ]
        ])
      ])
]

optimize_asm-Optimized : (a : List Item) → Optimized a (optimize_asm a)
unfolding optimize_asm
optimize_asm-Optimized a = loop-Optimized (length a + 1) a (omega arith)

-- For every code, the optimizer ends, with a result that another round leaves as it is and that has
-- at most as many items as the code, or it panics, and then its replacements lead from the code to
-- one where a literal is shifted by a literal of 2 ^ 64 or more.
pub optimize_asm-ends :
    (code : List Item)
    → ((result : List Item) × (optimize_asm code ≡ some result)
        × (optimize_asm_once result ≡ some result)
        × (length result ≤ length code))
      ⊎ ((optimize_asm code ≡ none) × ReachesFarShift code)
optimize_asm-ends code = elim (optimize_asm-Optimized code) [
  | inr panics ↦ inr panics
  | inl (b, e, p, fixed) ↦ inl (
    b,
    e,
    fixed,
    elim (Optimizes-shrinks code b p) [ inl q ↦ omega (arith, ap length q) | inr q ↦ omega arith ],
  )
]

module _ {S : Type 0} (other : Item → List ℕ → S → Step S) (address : PushTarget → ℕ)
    (goto : ℕ → List ℕ → S → Final S) (m : IsMachine other address) where
  rule-Improves :
      (k : RuleName) (w r post : List Item)
      → rule k w ≡ some r
      → Improves other address goto m (w ++ post) (r ++ post)
  rule-Improves fold_one = unary_constant-Better other address goto m
  rule-Improves fold_two =
      λ w r post h. binary_constant-Better other address goto m w r post (found_suggestion _ r h)
  rule-Improves identities = identity_operation-Better other address goto m
  rule-Improves jumps = no_op_jump-Better other address goto m
  rule-Improves pushes = swapped_pushes-Better other address goto m
  rule-Improves swaps = swap_commutative-Better other address goto m
  rule-Improves ignored = ignored_value-Better other address goto m

  Optimizes-Improves : (a b : List Item) → Optimizes a b → Improves other address goto m a b
  Optimizes-Improves a b same = Improves-refl other address goto m a
  Optimizes-Improves a b (by_rule k pre w r post e f p) =
      Improves-trans other address goto m a (pre ++ (r ++ post)) b
        (rw e (
          Improves-append other address goto m pre (w ++ post) (r ++ post)
            (rule-Improves k w r post f)))
        (Optimizes-Improves (pre ++ (r ++ post)) b p)

  -- For plain code, whose literals are words and which has no BYTE, where each label leads where a
  -- jump to it goes: the optimizer returns a code that, from any given stack of words, ends as the
  -- code does, unless the code crashes; or it panics, and then its replacements lead from the code to
  -- one where a literal is shifted by a literal of 2 ^ 64 or more.
  pub optimize_asm-Refines :
      (code : List Item)
      → All IsPlain code
      → Coherent other address goto m code
      → (st : List ℕ) (s : S) → Words st
      → ((result : List Item) × (optimize_asm code ≡ some result)
          × Below (run other address goto code st s) (run other address goto result st s))
        ⊎ ((optimize_asm code ≡ none) × ReachesFarShift code)
  optimize_asm-Refines code plain coherent st s words = elim (optimize_asm-Optimized code) [
    | inr panics ↦ inr panics
    | inl (b, e, p, fixed) ↦
        let (p', c', r) = Optimizes-Improves code b p plain coherent in inl (b, e, r st s words)
  ]
