-- ===== src/Kernel/Optimizer/Folding.antt =====
-- Folding a constant gives what the operation gives.
use Prim.Native.String.{String}
use text.Mathlib.TextEquality.{eq_iff}
use mathlib.Core.Path.{subst}
use native.Mathlib.Nat.{mod-lt}
use zk_evm.Prelude.{
  ℕ, ◌+◌, ◌-◌, ◌*◌, ◌/◌, ◌%◌, ◌^◌, ◌<◌, ◌≤◌, ◌≡◌, refl, ap, sym, ◌∙◌, arith, true, false,
  Bool-cases, inl, inr, Option, some, List, [], ◌∷◌, ◌==◌, ltb, bit_and, bit_or, bit_xor,
}
use zk_evm.Prelude.Powers.{pow-add, pow_mono, mod-mul-add, div-mul-add}
use zk_evm.Kernel.U256.{
  modulus, overflowing_add, overflowing_sub, overflowing_mul, overflowing_pow, checked_div,
  checked_rem, shl, shr, as_usize, bit_not, u256_from_bool,
}
use zk_evm.Kernel.Ast.{PushTarget, Item, text_eq}
use zk_evm.Kernel.Operators.{
  add, mul, sub, div, mod_, shl_, shr_, binary_result, and, or, xor, logic_result,
}
use zk_evm.Kernel.Machine.{named, Final, Step, next, perform, perform_named}
use zk_evm.Kernel.Machine.Words.{bool_word, binary_result-word, logic_result-word}
use zk_evm.Kernel.Optimizer.{push_literal, unwrap_or_zero, fold_unary, fold_binary}

pub text_eq→≡ : (a b : String) → text_eq a b ≡ true → a ≡ b
unfolding text_eq
text_eq→≡ a b h = (eq_iff a b).0 h

pub at_name : (P : String → Type 0) (name op : String) → text_eq op name ≡ true → P name → P op
at_name P name op e p = subst P (sym (text_eq→≡ op name e)) p

div-folds : (x y : ℕ) → binary_result div x y ≡ unwrap_or_zero (checked_div x y)
unfolding binary_result checked_div
div-folds x y = elim (Bool-cases (y == 0)) [ inl e ↦ rw e | inr n ↦ rw n ]

mod-folds : (x y : ℕ) → binary_result mod_ x y ≡ unwrap_or_zero (checked_rem x y)
unfolding binary_result checked_rem
mod-folds x y = elim (Bool-cases (y == 0)) [ inl e ↦ rw e | inr n ↦ rw n ]

-- A shift by the size of a word or more leaves nothing.
shl-folds : (x y : ℕ) → binary_result shl_ x y ≡ shl y x
unfolding binary_result shl
shl-folds x y = elim (Bool-cases (ltb x 256)) [
  | inl e ↦ rw e
  | inr n ↦ rw n (all_out (ground (arith, n)))
]
  where
    all_out : 256 ≤ x → 0 ≡ y * 2 ^ x % modulus
    all_out h = sym (
        ap (λ (t : ℕ). y * 2 ^ t % modulus) (parts h)
        ∙ ap (λ (t : ℕ). y * t % modulus) (pow-add 2 256 (x - 256))
        ∙ ap (λ (t : ℕ). t % modulus) (swap y modulus (2 ^ (x - 256)))
        ∙ mod-mul-add (y * 2 ^ (x - 256)) modulus 0 (omega arith))
      where
        parts : 256 ≤ x → x ≡ 256 + (x - 256)
        parts h = omega arith

        swap : (y p q : ℕ) → y * (p * q) ≡ y * q * p + 0
        swap y p q = grind arith

shr-folds : (x y : ℕ) → y < modulus → binary_result shr_ x y ≡ shr y x
unfolding binary_result shr
shr-folds x y h = elim (Bool-cases (ltb x 256)) [
  | inl e ↦ rw e
  | inr n ↦ rw n (all_out (ground (arith, n)))
]
  where
    all_out : 256 ≤ x → 0 ≡ y / 2 ^ x
    all_out k = sym (
        ap (λ (t : ℕ). t / 2 ^ x) (plain y (2 ^ x))
        ∙ div-mul-add 0 (2 ^ x) y (omega (arith, pow_mono 2 256 x (omega arith) k)))
      where
        plain : (y p : ℕ) → y ≡ 0 * p + y
        plain y p = omega arith

power_word : (x y : ℕ) → overflowing_pow x y < modulus
unfolding overflowing_pow
power_word x y = mod-lt (x ^ y) (omega arith)

module _ {S : Type 0} (other : Item → List ℕ → S → Step S) (address : PushTarget → ℕ)
    (goto : ℕ → List ℕ → S → Final S) where
  -- The operation of that name takes `x`, and leaves `v`.
  abbrev pub TakesOne : String → ℕ → ℕ → Type 0
  TakesOne op x v =
      (i : Item) (st : List ℕ) (s : S)
      → perform_named other address goto (named op) i (x ∷ st) s ≡ next (v ∷ st) s

  abbrev pub TakesTwo : String → ℕ → ℕ → ℕ → Type 0
  TakesTwo op x y v =
      (i : Item) (st : List ℕ) (s : S)
      → perform_named other address goto (named op) i (x ∷ (y ∷ st)) s ≡ next (v ∷ st) s

  module _ (x y v : ℕ) where
    abbrev Folds : String → Type 0
    Folds op = fold_binary op x y ≡ some (some v) → (v < modulus) × TakesTwo op x y v

    at_name-Folds :
        (name op : String) (e : ℕ)
        → text_eq op name ≡ true
        → fold_binary name x y ≡ some (some e)
        → e < modulus
        → TakesTwo name x y e
        → Folds op
    at_name-Folds name op e t f small acts =
        at_name Folds name op t
          (λ h. subst (λ (w : ℕ). (w < modulus) × TakesTwo name x y w) (value_eq f h) (small, acts))
      where
        value_eq : {o : Option (Option ℕ)} → o ≡ some (some e) → o ≡ some (some v) → e ≡ v
        value_eq p q = cc

    shl_Folds : (op : String) → x < modulus → y < modulus → text_eq op "SHL" ≡ true → Folds op
    unfolding fold_binary as_usize named perform text_eq binary_result logic_result
    shl_Folds op hx hy t = elim (Bool-cases (ltb x (2 ^ 64))) [
      | inl small ↦
          at_name-Folds "SHL" op (shl y x) t (rw small refl)
            (rw (shl-folds x y) at (binary_result-word shl_ x y hx hy))
            (λ i st s. ap (λ (t : ℕ). next (t ∷ st) s) (shl-folds x y))
      | inr far ↦ at_name Folds "SHL" op t (λ h. cc (rw far at h))
    ]

    shr_Folds : (op : String) → x < modulus → y < modulus → text_eq op "SHR" ≡ true → Folds op
    unfolding fold_binary as_usize named perform text_eq binary_result logic_result
    shr_Folds op hx hy t = elim (Bool-cases (ltb x (2 ^ 64))) [
      | inl small ↦
          at_name-Folds "SHR" op (shr y x) t (rw small refl)
            (rw (shr-folds x y hy) at (binary_result-word shr_ x y hx hy))
            (λ i st s. ap (λ (t : ℕ). next (t ∷ st) s) (shr-folds x y hy))
      | inr far ↦ at_name Folds "SHR" op t (λ h. cc (rw far at h))
    ]

    pub fold_binary-TakesTwo :
        (op : String)
        → text_eq op "BYTE" ≡ false
        → x < modulus
        → y < modulus
        → fold_binary op x y ≡ some (some v)
        → (v < modulus) × TakesTwo op x y v
    unfolding fold_binary named perform text_eq binary_result logic_result
    fold_binary-TakesTwo op nb hx hy = elim (Bool-cases (text_eq op "ADD")) [
      | inl t ↦
          at_name-Folds "ADD" op (overflowing_add x y) t refl (binary_result-word add x y hx hy)
            (λ i st s. refl)
      | inr n0 ↦ elim (Bool-cases (text_eq op "SUB")) [
        | inl t ↦
            at_name-Folds "SUB" op (overflowing_sub x y) t refl (binary_result-word sub x y hx hy)
              (λ i st s. refl)
        | inr n1 ↦ elim (Bool-cases (text_eq op "MUL")) [
          | inl t ↦
              at_name-Folds "MUL" op (overflowing_mul x y) t refl (binary_result-word mul x y hx hy)
                (λ i st s. refl)
          | inr n2 ↦ elim (Bool-cases (text_eq op "DIV")) [
            | inl t ↦
                at_name-Folds "DIV" op (unwrap_or_zero (checked_div x y)) t refl
                  (rw (div-folds x y) at (binary_result-word div x y hx hy))
                  (λ i st s. ap (λ (t : ℕ). next (t ∷ st) s) (div-folds x y))
            | inr n3 ↦ elim (Bool-cases (text_eq op "MOD")) [
              | inl t ↦
                  at_name-Folds "MOD" op (unwrap_or_zero (checked_rem x y)) t refl
                    (rw (mod-folds x y) at (binary_result-word mod_ x y hx hy))
                    (λ i st s. ap (λ (t : ℕ). next (t ∷ st) s) (mod-folds x y))
              | inr n4 ↦ elim (Bool-cases (text_eq op "EXP")) [
                | inl t ↦
                    at_name-Folds "EXP" op (overflowing_pow x y) t refl (power_word x y)
                      (λ i st s. refl)
                | inr n5 ↦ elim (Bool-cases (text_eq op "SHL")) [
                  | inl t ↦ shl_Folds op hx hy t
                  | inr n6 ↦ elim (Bool-cases (text_eq op "SHR")) [
                    | inl t ↦ shr_Folds op hx hy t
                    | inr n7 ↦ elim (Bool-cases (text_eq op "AND")) [
                      | inl t ↦
                          at_name-Folds "AND" op (bit_and x y) t refl
                            (logic_result-word and x y hx hy) (λ i st s. refl)
                      | inr n8 ↦ elim (Bool-cases (text_eq op "OR")) [
                        | inl t ↦
                            at_name-Folds "OR" op (bit_or x y) t refl
                              (logic_result-word or x y hx hy) (λ i st s. refl)
                        | inr n9 ↦ elim (Bool-cases (text_eq op "XOR")) [
                          | inl t ↦
                              at_name-Folds "XOR" op (bit_xor x y) t refl
                                (logic_result-word xor x y hx hy) (λ i st s. refl)
                          | inr n10 ↦ elim (Bool-cases (text_eq op "LT")) [
                            | inl t ↦
                                at_name-Folds "LT" op (u256_from_bool (ltb x y)) t refl
                                  (bool_word (ltb x y)) (λ i st s. refl)
                            | inr n11 ↦ elim (Bool-cases (text_eq op "GT")) [
                              | inl t ↦
                                  at_name-Folds "GT" op (u256_from_bool (ltb y x)) t refl
                                    (bool_word (ltb y x)) (λ i st s. refl)
                              | inr n12 ↦ elim (Bool-cases (text_eq op "EQ")) [
                                | inl t ↦
                                    at_name-Folds "EQ" op (u256_from_bool (x == y)) t refl
                                      (bool_word (x == y)) (λ i st s. refl)
                                | inr n13 ↦ λ h. cc (
                                    rw
                                      (
                                        n0, n1, n2, n3, n4, n5, n6, n7, n8, n9, n10, n11, n12, n13,
                                        nb,
                                      )
                                      at h)
                              ]
                            ]
                          ]
                        ]
                      ]
                    ]
                  ]
                ]
              ]
            ]
          ]
        ]
      ]
    ]

  module _ (x : ℕ) (r : List Item) where
    abbrev pub FoldsOne : String → Type 0
    FoldsOne op = (v : ℕ) × (r ≡ push_literal v ∷ []) × (v < modulus) × TakesOne op x v

    pub fold_unary-FoldsOne : (op : String) → x < modulus → fold_unary op x ≡ some r → FoldsOne op
    unfolding fold_unary named perform text_eq
    fold_unary-FoldsOne op hx = elim (Bool-cases (text_eq op "ISZERO")) [
      | inl t ↦
          at_name (λ o. fold_unary o x ≡ some r → FoldsOne o) "ISZERO" op t
            (λ h. (u256_from_bool (x == 0), only h, bool_word (x == 0), λ i st s. refl))
      | inr n1 ↦ elim (Bool-cases (text_eq op "NOT")) [
        | inl t ↦
            at_name (λ o. fold_unary o x ≡ some r → FoldsOne o) "NOT" op t
              (λ h. (bit_not x, only h, unfold bit_not in omega arith, λ i st s. refl))
        | inr n2 ↦ λ h. cc (rw (n1, n2) at h)
      ]
    ]
      where
        only : {l : List Item} → some l ≡ some r → r ≡ l
        only h = cc
