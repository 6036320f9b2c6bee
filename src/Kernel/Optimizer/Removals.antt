-- ===== src/Kernel/Optimizer/Removals.antt =====
-- The replacements that remove jumps, swaps and ignored values improve the code, whatever follows
-- the window.
use Prim.Native.String.{String}
use text.Mathlib.Text.{starts_with}
use zk_evm.Prelude.{
  ℕ, ◌<◌, ◌≡◌, refl, ap, arith, true, Bool-cases, inl, inr, Option, none, some, List, [], ◌∷◌, ◌++◌,
  ◌==◌, ==-sym,
}
use zk_evm.Prelude.BitOrder.{bit_or-OrLaws, bit_and-AndLaws, bit_xor-XorLaws}
use zk_evm.Kernel.U256.{modulus, overflowing_add, overflowing_mul, u256_from_bool}
use zk_evm.Kernel.Ast.{
  PushTarget, Item, push, standard_op, local_label_declaration, global_label_declaration, text_eq,
}
use zk_evm.Kernel.Operators.{add, mul, or, xor, and, binary_result, logic_result}
use zk_evm.Kernel.Machine.{
  Operation, binary, logical, equal, pop, swap1, dup, named, Final, crash, Step, next, stop,
  perform, step, run, after,
}
use zk_evm.Kernel.Machine.Order.{Below, IsMachine, Improves, Refines}
use mathlib.Core.Option
use zk_evm.Prelude.{get_elem?}
use zk_evm.Kernel.Machine.{index_of, dup_names, with_top}
use zk_evm.Kernel.Optimizer.Folding.{text_eq→≡}
use zk_evm.Kernel.Optimizer.{is_commutative, no_op_jump, declares, swap_commutative, ignored_value}

module _ {S : Type 0} (other : Item → List ℕ → S → Step S) (address : PushTarget → ℕ)
    (goto : ℕ → List ℕ → S → Final S) (m : IsMachine other address) where
  abbrev Better : List Item → List Item → Type 0
  Better a b = Improves other address goto m a b

  only : {a r : List Item} → some a ≡ some r → r ≡ a
  only h = cc

  -- A jump to the label that follows it.
  local_jump :
      (l : String) (post : List Item)
      → Better
          (push (PushTarget.label l) ∷ (standard_op "JUMP" ∷ (local_label_declaration l ∷ post)))
          (local_label_declaration l ∷ post)
  unfolding run step named perform text_eq
  local_jump l post p c = (p.1.1, c, λ st s h. c.0 st s h)

  global_jump :
      (l : String) (post : List Item)
      → Better
          (push (PushTarget.label l) ∷ (standard_op "JUMP" ∷ (global_label_declaration l ∷ post)))
          (global_label_declaration l ∷ post)
  unfolding run step named perform text_eq
  global_jump l post p c = (p.1.1, c, λ st s h. c.0 st s h)

  declared_jump :
      (decl : Item) (l : String) (post : List Item)
      → declares decl l ≡ true
      → Better (push (PushTarget.label l) ∷ (standard_op "JUMP" ∷ (decl ∷ post))) (decl ∷ post)
  unfolding declares
  declared_jump (local_label_declaration k) l post h = rw (text_eq→≡ k l h) (local_jump l post)
  declared_jump (global_label_declaration k) l post h = rw (text_eq→≡ k l h) (global_jump l post)
  declared_jump decl l post h = cc

  pub no_op_jump-Better :
      (w r post : List Item) → no_op_jump w ≡ some r → Better (w ++ post) (r ++ post)
  unfolding no_op_jump
  no_op_jump-Better (push (PushTarget.label l) ∷ (standard_op op ∷ (decl ∷ []))) r post h =
      elim (Bool-cases (text_eq op "JUMP")) [
        | inr n ↦ cc (rw n at h)
        | inl t ↦ elim (Bool-cases (declares decl l)) [
          | inr n ↦ cc (rw (t, n) at h)
          | inl d ↦ rw (only (rw (t, d) at h), text_eq→≡ op "JUMP" t) (declared_jump decl l post d)
        ]
      ]
  no_op_jump-Better w r post h = cc

  -- An operation that does not mind the order of its operands.
  commuting :
      (op : String) (o : Operation) (post : List Item)
      → named op ≡ some o
      → ((a b : ℕ) (st : List ℕ) (s : S)
          → a < modulus
          → b < modulus
          → perform other address goto o (b ∷ (a ∷ st)) s
            ≡ perform other address goto o (a ∷ (b ∷ st)) s)
      → Better (standard_op "SWAP1" ∷ (standard_op op ∷ post)) (standard_op op ∷ post)
  unfolding run step
  commuting op o post e swaps p c = (p.1, c, go)
    where
      is_swap : named "SWAP1" ≡ some swap1
      is_swap = unfold named text_eq in refl

      crash_0 : (s : S) → perform other address goto swap1 [] s ≡ stop crash
      crash_0 s = unfold perform in refl

      crash_1 : (a : ℕ) (s : S) → perform other address goto swap1 (a ∷ []) s ≡ stop crash
      crash_1 a s = unfold perform in refl

      swaps_top :
          (a b : ℕ) (st : List ℕ) (s : S)
          → perform other address goto swap1 (a ∷ (b ∷ st)) s ≡ next (b ∷ (a ∷ st)) s
      swaps_top a b st s = unfold perform in refl

      go :
          Refines other address goto m
            (standard_op "SWAP1" ∷ (standard_op op ∷ post))
            (standard_op op ∷ post)
      go [] s h = inl (rw (is_swap, crash_0 s))
      go (a ∷ []) s h = inl (rw (is_swap, crash_1 a s))
      go (a ∷ (b ∷ st)) s h = inr (rw (is_swap, swaps_top a b st s, e, swaps a b st s h.0 h.1.0))

  swap_lem :
      (op : String)
      → is_commutative op ≡ true
      → (post : List Item)
      → Better (standard_op "SWAP1" ∷ (standard_op op ∷ post)) (standard_op op ∷ post)
  unfolding named text_eq perform binary_result logic_result overflowing_add overflowing_mul
  swap_lem op h post = elim (Bool-cases (text_eq op "ADD")) [
    | inl t ↦ rw (text_eq→≡ op "ADD" t) (
        commuting "ADD" (binary add) post refl
          (λ a b st s ha hb. ap (λ (t : ℕ). next (t ∷ st) s) (add_law a b ha hb)))
    | inr n0 ↦ elim (Bool-cases (text_eq op "MUL")) [
      | inl t ↦ rw (text_eq→≡ op "MUL" t) (
          commuting "MUL" (binary mul) post refl
            (λ a b st s ha hb. ap (λ (t : ℕ). next (t ∷ st) s) (mul_law a b ha hb)))
      | inr n1 ↦ elim (Bool-cases (text_eq op "AND")) [
        | inl t ↦ rw (text_eq→≡ op "AND" t) (
            commuting "AND" (logical and) post refl
              (λ a b st s ha hb. ap (λ (t : ℕ). next (t ∷ st) s) (and_law a b ha hb)))
        | inr n2 ↦ elim (Bool-cases (text_eq op "OR")) [
          | inl t ↦ rw (text_eq→≡ op "OR" t) (
              commuting "OR" (logical or) post refl
                (λ a b st s ha hb. ap (λ (t : ℕ). next (t ∷ st) s) (or_law a b ha hb)))
          | inr n3 ↦ elim (Bool-cases (text_eq op "XOR")) [
            | inl t ↦ rw (text_eq→≡ op "XOR" t) (
                commuting "XOR" (logical xor) post refl
                  (λ a b st s ha hb. ap (λ (t : ℕ). next (t ∷ st) s) (xor_law a b ha hb)))
            | inr n4 ↦ elim (Bool-cases (text_eq op "EQ")) [
              | inl t ↦ rw (text_eq→≡ op "EQ" t) (
                  commuting "EQ" (equal) post refl
                    (λ a b st s ha hb. ap (λ (t : ℕ). next (t ∷ st) s) (eq_law a b ha hb)))
              | inr n5 ↦ cc (rw (n0, n1, n2, n3, n4, n5) at h)
            ]
          ]
        ]
      ]
    ]
  ]
    where
      add_law :
          (a b : ℕ) → a < modulus → b < modulus → binary_result add b a ≡ binary_result add a b
      add_law a b ha hb = omega arith

      mul_law :
          (a b : ℕ) → a < modulus → b < modulus → binary_result mul b a ≡ binary_result mul a b
      mul_law a b ha hb = grind arith

      and_law : (a b : ℕ) → a < modulus → b < modulus → logic_result and b a ≡ logic_result and a b
      and_law a b ha hb = (bit_and-AndLaws 256 b a hb ha).1

      or_law : (a b : ℕ) → a < modulus → b < modulus → logic_result or b a ≡ logic_result or a b
      or_law a b ha hb = (bit_or-OrLaws 256 b a hb ha).1

      xor_law : (a b : ℕ) → a < modulus → b < modulus → logic_result xor b a ≡ logic_result xor a b
      xor_law a b ha hb = (bit_xor-XorLaws 256 b a hb ha).1

      eq_law :
          (a b : ℕ) → a < modulus → b < modulus → u256_from_bool (b == a) ≡ u256_from_bool (a == b)
      eq_law a b ha hb = ap u256_from_bool (==-sym b a)

  pub swap_commutative-Better :
      (w r post : List Item) → swap_commutative w ≡ some r → Better (w ++ post) (r ++ post)
  unfolding swap_commutative
  swap_commutative-Better (standard_op op ∷ (standard_op f ∷ [])) r post h =
      elim (Bool-cases (text_eq op "SWAP1")) [
        | inr n ↦ cc (rw n at h)
        | inl t ↦ elim (Bool-cases (is_commutative f)) [
          | inr n ↦ cc (rw (t, n) at h)
          | inl d ↦ rw (only (rw (t, d) at h), text_eq→≡ op "SWAP1" t) (swap_lem f d post)
        ]
      ]
  swap_commutative-Better w r post h = cc

  ignored_push :
      (x : PushTarget) (post : List Item) → Better (push x ∷ (standard_op "POP" ∷ post)) post
  unfolding run step named perform text_eq
  ignored_push x post p c = (p.1.1, c, λ st s h. inr refl)

  named_dup :
      (op : String) (o : Option ℕ)
      → starts_with op "DUP" ≡ true
      → index_of op dup_names 0 ≡ o
      → named op ≡ Option.map dup o
  unfolding named
  named_dup op o d e = rw d (ap (Option.map dup) e)

  pop_named : named "POP" ≡ some pop
  unfolding named text_eq
  pop_named = refl

  ignored_dup :
      (op : String) (post : List Item)
      → starts_with op "DUP" ≡ true
      → Better (standard_op op ∷ (standard_op "POP" ∷ post)) post
  unfolding run step perform
  ignored_dup op post d p c = (p.1.1, c, λ st s h. by_index st s (index_of op dup_names 0) refl)
    where
      by_index :
          (st : List ℕ) (s : S) (o : Option ℕ)
          → index_of op dup_names 0 ≡ o
          → Below
              (run other address goto (standard_op op ∷ (standard_op "POP" ∷ post)) st s)
              (run other address goto post st s)
      by_index st s none e =
          inl (rw (named_dup op none d e, m.no_other_dup op st s d (named_dup op none d e)))
      by_index st s (some n) e = rw (named_dup op (some n) d e) (popped (get_elem? st n))
        where
          popped :
              (v : Option ℕ)
              → Below
                  (after other address goto
                    (with_top other address goto v st s)
                    (run other address goto (standard_op "POP" ∷ post)))
                  (run other address goto post st s)
          popped none = inl refl
          popped (some v) = rw pop_named (inr refl)

  pub ignored_value-Better :
      (w r post : List Item) → ignored_value w ≡ some r → Better (w ++ post) (r ++ post)
  unfolding ignored_value
  ignored_value-Better (push x ∷ (standard_op op ∷ [])) r post h =
      elim (Bool-cases (text_eq op "POP")) [
        | inr n ↦ cc (rw n at h)
        | inl t ↦ rw (only (rw t at h), text_eq→≡ op "POP" t) (ignored_push x post)
      ]
  ignored_value-Better (standard_op first ∷ (standard_op op ∷ [])) r post h =
      elim (Bool-cases (text_eq op "POP")) [
        | inr n ↦ cc (rw n at h)
        | inl t ↦ elim (Bool-cases (starts_with first "DUP")) [
          | inr n ↦ cc (rw (t, n) at h)
          | inl d ↦ rw (only (rw (t, d) at h), text_eq→≡ op "POP" t) (ignored_dup first post d)
        ]
      ]
  ignored_value-Better w r post h = cc
