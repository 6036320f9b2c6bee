-- ===== src/Kernel/Optimizer/Shifts.antt =====
-- Where folding a constant panics: a shift by a literal that does not fit into 64 bits.
use Prim.Native.String.{String}
use mathlib.Core.Option
use zk_evm.Prelude.{
  ℕ, ◌≤◌, ◌^◌, ◌≡◌, refl, arith, Bool, true, false, ◌||◌, Bool-cases, inl, inr, ◌⊎◌, Option, none,
  some, ◌>>=◌, List, [], ◌∷◌, ◌++◌, ltb, ◌==◌, bit_and, bit_or, bit_xor, if◌then◌else◌,
}
use zk_evm.Kernel.U256.{
  overflowing_add, overflowing_sub, overflowing_mul, overflowing_pow, checked_div, checked_rem,
  as_usize, shl_by_word, shr_by_word, byte, u256_from_bool,
}
use zk_evm.Kernel.Ast.{PushTarget, Item, push, standard_op, text_eq}
use zk_evm.Kernel.Optimizer.{push_literal, unwrap_or_zero, fold_binary, binary_constant}

abbrev pub is_shift : String → Bool
is_shift op = text_eq op "SHL" || text_eq op "SHR"

-- A literal is shifted by a literal that does not fit into 64 bits.
abbrev pub IsFarShift : List Item → Type 0
IsFarShift w =
    (op : String) × (x : ℕ) × (y : ℕ) × (w
      ≡ push_literal y ∷ (push_literal x ∷ (standard_op op ∷ [])))
    × (is_shift op ≡ true)
    × (2 ^ 64 ≤ x)

abbrev pub HasFarShift : List Item → Type 0
HasFarShift code =
    (pre : List Item) × (w : List Item) × (post : List Item) × (code ≡ pre ++ (w ++ post))
    × IsFarShift w

-- An operation that is tested for later.
later :
    (b : Bool) (x : Option ℕ) (o : Option (Option ℕ)) → (if b then some x else o) ≡ none → o ≡ none
later true x o h = cc
later false x o h = h

as_usize-none :
    (x : ℕ) (f : ℕ → ℕ)
    → (as_usize x >>= (λ shift. some (f shift)) >>= (λ res. some (some res))) ≡ none
    → 2 ^ 64 ≤ x
unfolding as_usize
as_usize-none x f h = elim (Bool-cases (ltb x (2 ^ 64))) [
  | inl small ↦ cc (rw small at h)
  | inr far ↦ ground (arith, far)
]

-- The tests in their order, the seventh and the eighth of which are the shifts.
chain_none :
    (b1 b2 b3 b4 b5 b6 b7 b8 b9 b10 b11 b12 b13 b14 b15 : Bool)
    (x1 x2 x3 x4 x5 x6 x9 x10 x11 x12 x13 x14 x15 : Option ℕ) (o p : Option (Option ℕ))
    → (if b1
        then some x1
        else if b2
        then some x2
        else if b3
        then some x3
        else if b4
        then some x4
        else if b5
        then some x5
        else if b6
        then some x6
        else if b7
        then o
        else if b8
        then p
        else if b9
        then some x9
        else if b10
        then some x10
        else if b11
        then some x11
        else if b12
        then some x12
        else if b13
        then some x13
        else if b14
        then some x14
        else if b15
        then some x15
        else some none)
      ≡ none
    → (b7 || b8 ≡ true) × ((o ≡ none) ⊎ (p ≡ none))
chain_none b1 b2 b3 b4 b5 b6 b7 b8 b9 b10 b11 b12 b13 b14 b15 x1 x2 x3 x4 x5 x6 x9 x10 x11 x12 x13
      x14 x15 o p h =
    shifts b7 b8 (
      later b6 x6 _
        (later b5 x5 _ (later b4 x4 _ (later b3 x3 _ (later b2 x2 _ (later b1 x1 _ h))))))
  where
    ends : {o : Option (Option ℕ)} → o ≡ some none → o ≡ none → ⊥
    ends a b = cc

    no_panic :
        (if b9
            then some x9
            else if b10
            then some x10
            else if b11
            then some x11
            else if b12
            then some x12
            else if b13
            then some x13
            else if b14
            then some x14
            else if b15
            then some x15
            else some none)
          ≡ none
        → ⊥
    no_panic k = ends refl (
        later b15 x15 _ (
          later b14 x14 _ (
            later b13 x13 _
              (later b12 x12 _ (later b11 x11 _ (later b10 x10 _ (later b9 x9 _ k)))))))

    shifts :
        (c d : Bool)
        → (if c
            then o
            else if d
            then p
            else if b9
            then some x9
            else if b10
            then some x10
            else if b11
            then some x11
            else if b12
            then some x12
            else if b13
            then some x13
            else if b14
            then some x14
            else if b15
            then some x15
            else some none)
          ≡ none
        → (c || d ≡ true) × ((o ≡ none) ⊎ (p ≡ none))
    shifts true d k = (refl, inl k)
    shifts false true k = (refl, inr k)
    shifts false false k = absurd (no_panic k)

fold_binary-none :
    (op : String) (x y : ℕ) → fold_binary op x y ≡ none → (is_shift op ≡ true) × (2 ^ 64 ≤ x)
unfolding fold_binary
fold_binary-none op x y h =
    let (shift, panics) =
      chain_none (text_eq op "ADD") (text_eq op "SUB") (text_eq op "MUL") (text_eq op "DIV")
        (text_eq op "MOD") (text_eq op "EXP") (text_eq op "SHL") (text_eq op "SHR")
        (text_eq op "AND") (text_eq op "OR") (text_eq op "XOR") (text_eq op "LT") (text_eq op "GT")
        (text_eq op "EQ") (text_eq op "BYTE") (some (overflowing_add x y))
        (some (overflowing_sub x y)) (some (overflowing_mul x y))
        (some (unwrap_or_zero (checked_div x y))) (some (unwrap_or_zero (checked_rem x y)))
        (some (overflowing_pow x y)) (some (bit_and x y)) (some (bit_or x y)) (some (bit_xor x y))
        (some (u256_from_bool (ltb x y))) (some (u256_from_bool (ltb y x)))
        (some (u256_from_bool (x == y))) (some (if ltb x 32 then byte y x else 0))
        (shl_by_word y x >>= λ res. some (some res)) (shr_by_word y x >>= λ res. some (some res))
        h in
    elim panics [
      | inl far ↦ (shift, as_usize-none x _ far)
      | inr far ↦ (shift, as_usize-none x _ far)
    ]

-- Folding panics on such a shift only.
pub binary_constant-none : (w : List Item) → binary_constant w ≡ none → IsFarShift w
unfolding binary_constant
binary_constant-none
      (push (PushTarget.literal y) ∷ (push (PushTarget.literal x) ∷ (standard_op op ∷ []))) h =
    let (shift, far) = fold_binary-none op x y (stops (fold_binary op x y) h) in
    (op, x, y, refl, shift, far)
  where
    stops :
        (o : Option (Option ℕ))
        → (o >>= λ folded. some (Option.map (λ res. push_literal res ∷ []) folded)) ≡ none
        → o ≡ none
    stops none h = refl
    stops (some folded) h = cc
binary_constant-none w h = cc
