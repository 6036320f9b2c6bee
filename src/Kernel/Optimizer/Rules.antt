-- ===== src/Kernel/Optimizer/Rules.antt =====
-- Each replacement of the optimizer improves the code, whatever follows the window.
use Prim.Native.String.{String}
use zk_evm.Prelude.{
  ℕ, ◌<◌, ◌≡◌, refl, ap, arith, Bool, true, false, Bool-cases, inl, inr, Option, none, some, ◌>>=◌,
  List, [], ◌∷◌, ◌++◌, ◌==◌, ==_iff,
}
use zk_evm.Prelude.BitOrder.{bit_or-OrLaws, bit_xor-XorLaws}
use zk_evm.Kernel.U256.{modulus, overflowing_add, overflowing_mul}
use zk_evm.Kernel.Ast.{PushTarget, Item, push, standard_op, text_eq}
use zk_evm.Kernel.Operators.{add, mul, or, xor, binary_result, logic_result}
use zk_evm.Kernel.Machine.{
  Operation, binary, logical, named, Final, crash, Step, next, stop, perform, step, run, after,
}
use zk_evm.Kernel.Machine.Order.{IsMachine, Improves, Refines}
use mathlib.Core.Option
use zk_evm.Kernel.Optimizer.Folding.{
  text_eq→≡, TakesOne, TakesTwo, fold_unary-FoldsOne, fold_binary-TakesTwo,
}
use zk_evm.Kernel.Optimizer.{
  then_some, push_literal, fold_binary, unary_constant, binary_constant, identity_operation,
  swapped_pushes,
}

module _ {S : Type 0} (other : Item → List ℕ → S → Step S) (address : PushTarget → ℕ)
    (goto : ℕ → List ℕ → S → Final S) (m : IsMachine other address) where
  abbrev Better : List Item → List Item → Type 0
  Better a b = Improves other address goto m a b

  -- The two items in front are taken as one.
  one_value :
      (op : String) (x v : ℕ) (post : List Item)
      → v < modulus
      → TakesOne other address goto op x v
      → Better (push_literal x ∷ (standard_op op ∷ post)) (push_literal v ∷ post)
  unfolding run step
  one_value op x v post hv acts p c = (
    (hv, p.1.1),
    c,
    λ st s h. inr (
        ap (λ t. after other address goto t (run other address goto post))
          (acts (standard_op op) st s)),
  )

  pub unary_constant-Better :
      (w r post : List Item) → unary_constant w ≡ some r → Better (w ++ post) (r ++ post)
  unfolding unary_constant
  unary_constant-Better (push (PushTarget.literal x) ∷ (standard_op op ∷ [])) r post h p c =
      let (v, e, hv, acts) = fold_unary-FoldsOne other address goto x r op p.0 h in
      rw e (one_value op x v post hv acts p c)
  unary_constant-Better w r post h p c = cc

  two_values :
      (op : String) (x y v : ℕ) (post : List Item)
      → v < modulus
      → TakesTwo other address goto op x y v
      → Better (push_literal y ∷ (push_literal x ∷ (standard_op op ∷ post))) (push_literal v ∷ post)
  unfolding run step
  two_values op x y v post hv acts p c = (
    (hv, p.1.1.1),
    c,
    λ st s h. inr (
        ap (λ t. after other address goto t (run other address goto post))
          (acts (standard_op op) st s)),
  )

  pub binary_constant-Better :
      (w r post : List Item) → binary_constant w ≡ some (some r) → Better (w ++ post) (r ++ post)
  unfolding binary_constant
  binary_constant-Better
        (push (PushTarget.literal y) ∷ (push (PushTarget.literal x) ∷ (standard_op op ∷ []))) r post
        h p c =
      let (v, e, f) = mapped (fold_binary op x y) h in
      let (hv, acts) = fold_binary-TakesTwo other address goto x y v op p.1.1.0 p.1.0 p.0 f in
      rw e (two_values op x y v post hv acts p c)
    where
      mapped :
          (o : Option (Option ℕ))
          → (o >>= λ folded. some (Option.map (λ res. push_literal res ∷ []) folded))
            ≡ some (some r)
          → (v : ℕ) × (r ≡ push_literal v ∷ []) × (o ≡ some (some v))
      mapped none h = cc
      mapped (some none) h = cc
      mapped (some (some v)) h = (v, cc, refl)
  binary_constant-Better w r post h p c = cc

  only : {a r : List Item} → some a ≡ some r → r ≡ a
  only h = cc

  swapped :
      (x y : PushTarget) (post : List Item)
      → Better (push x ∷ (push y ∷ (standard_op "SWAP1" ∷ post))) (push y ∷ (push x ∷ post))
  unfolding run step named perform text_eq
  swapped x y post p c = ((p.1.0, (p.0, p.1.1.1)), c, λ st s h. inr refl)

  pub swapped_pushes-Better :
      (w r post : List Item) → swapped_pushes w ≡ some r → Better (w ++ post) (r ++ post)
  unfolding swapped_pushes
  swapped_pushes-Better (push x ∷ (push y ∷ (standard_op op ∷ []))) r post h =
      elim (Bool-cases (text_eq op "SWAP1")) [
        | inr n ↦ cc (rw n at h)
        | inl t ↦ rw (only (rw t at h), text_eq→≡ op "SWAP1" t) (swapped x y post)
      ]
  swapped_pushes-Better w r post h = cc

  -- An operation that gives its second operand back, with that literal for its first one.
  neutral :
      (op : String) (x : ℕ) (o : Operation) (post : List Item)
      → named op ≡ some o
      → ((s : S) → perform other address goto o (x ∷ []) s ≡ stop crash)
      → ((b : ℕ) (st : List ℕ) (s : S)
          → b < modulus
          → perform other address goto o (x ∷ (b ∷ st)) s ≡ next (b ∷ st) s)
      → Better (push_literal x ∷ (standard_op op ∷ post)) post
  unfolding run step
  neutral op x o post e short long p c = (p.1.1, c, go)
    where
      go : Refines other address goto m (push_literal x ∷ (standard_op op ∷ post)) post
      go [] s h = inl (rw (e, short s))
      go (b ∷ st) s h = inr (rw (e, long b st s h.0))

  add_zero :
      (x : ℕ) (post : List Item) → x ≡ 0 → Better (push_literal x ∷ (standard_op "ADD" ∷ post)) post
  unfolding named text_eq perform binary_result logic_result
  add_zero x post z = rw z (
      neutral "ADD" 0 (binary add) post refl (λ s. refl)
        (λ b st s hb. ap (λ (t : ℕ). next (t ∷ st) s) (add_zero_law b hb)))
    where
      add_zero_law : (b : ℕ) → b < modulus → binary_result add 0 b ≡ b
      add_zero_law b hb = unfold overflowing_add in omega arith

  mul_one :
      (x : ℕ) (post : List Item) → x ≡ 1 → Better (push_literal x ∷ (standard_op "MUL" ∷ post)) post
  unfolding named text_eq perform binary_result logic_result
  mul_one x post z = rw z (
      neutral "MUL" 1 (binary mul) post refl (λ s. refl)
        (λ b st s hb. ap (λ (t : ℕ). next (t ∷ st) s) (mul_one_law b hb)))
    where
      mul_one_law : (b : ℕ) → b < modulus → binary_result mul 1 b ≡ b
      mul_one_law b hb = unfold overflowing_mul in omega arith

  or_zero :
      (x : ℕ) (post : List Item) → x ≡ 0 → Better (push_literal x ∷ (standard_op "OR" ∷ post)) post
  unfolding named text_eq perform binary_result logic_result
  or_zero x post z = rw z (
      neutral "OR" 0 (logical or) post refl (λ s. refl)
        (λ b st s hb. ap (λ (t : ℕ). next (t ∷ st) s) (or_zero_law b hb)))
    where
      or_zero_law : (b : ℕ) → b < modulus → logic_result or 0 b ≡ b
      or_zero_law b hb = (bit_or-OrLaws 256 0 b (omega arith) hb).2

  xor_zero :
      (x : ℕ) (post : List Item) → x ≡ 0 → Better (push_literal x ∷ (standard_op "XOR" ∷ post)) post
  unfolding named text_eq perform binary_result logic_result
  xor_zero x post z = rw z (
      neutral "XOR" 0 (logical xor) post refl (λ s. refl)
        (λ b st s hb. ap (λ (t : ℕ). next (t ∷ st) s) (xor_zero_law b hb)))
    where
      xor_zero_law : (b : ℕ) → b < modulus → logic_result xor 0 b ≡ b
      xor_zero_law b hb = (bit_xor-XorLaws 256 0 b (omega arith) hb).2

  pub identity_operation-Better :
      (w r post : List Item) → identity_operation w ≡ some r → Better (w ++ post) (r ++ post)
  unfolding identity_operation
  identity_operation-Better (push (PushTarget.literal x) ∷ (standard_op op ∷ [])) r post h =
      elim (Bool-cases (text_eq op "ADD")) [
        | inl t ↦
            rw (text_eq→≡ op "ADD" t)
              (guarded "ADD" (x == 0) (rw t at h) (λ z. add_zero x post ((==_iff x 0).0 z)))
        | inr n1 ↦ elim (Bool-cases (text_eq op "MUL")) [
          | inl t ↦
              rw (text_eq→≡ op "MUL" t)
                (guarded "MUL" (x == 1) (rw (n1, t) at h) (λ z. mul_one x post ((==_iff x 1).0 z)))
          | inr n2 ↦ elim (Bool-cases (text_eq op "OR")) [
            | inl t ↦ rw (text_eq→≡ op "OR" t) (
                guarded "OR" (x == 0) (rw (n1, n2, t) at h)
                  (λ z. or_zero x post ((==_iff x 0).0 z)))
            | inr n3 ↦ elim (Bool-cases (text_eq op "XOR")) [
              | inl t ↦ rw (text_eq→≡ op "XOR" t) (
                  guarded "XOR" (x == 0) (rw (n1, n2, n3, t) at h)
                    (λ z. xor_zero x post ((==_iff x 0).0 z)))
              | inr n4 ↦ cc (rw (n1, n2, n3, n4) at h)
            ]
          ]
        ]
      ]
    where
      guarded :
          (name : String) (b : Bool)
          → then_some b [] ≡ some r
          → (b ≡ true → Better (push_literal x ∷ (standard_op name ∷ post)) post)
          → Better (push_literal x ∷ (standard_op name ∷ post)) (r ++ post)
      guarded name true h f = rw (only h) (f refl)
      guarded name false h f = cc
  identity_operation-Better w r post h = cc
