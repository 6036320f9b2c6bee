-- ===== src/Arithmetic/Addcy/Completeness.antt =====
-- The row that is generated for an operator meets the constraints.
use native.Mathlib.Nat.{zero-mul}
use zk_evm.Prelude.{
  ℕ, zero, suc, ◌+◌, ◌-◌, ◌*◌, ◌%◌, ◌^◌, ◌≤◌, ◌<◌, ◌≡◌, refl, ◌∙◌, arith, inl, inr, false, All,
  All-append,
}
use zk_evm.Arithmetic.Fields.{Field, IsGoldilocks, order}
use zk_evm.Arithmetic.Addcy.{
  goldilocks_inverse_65536, digit_difference, digits_loop, high_carries, eval_packed_generic_addcy,
}
use zk_evm.Arithmetic.Addcy.Digits.{carry_up, le_or_lt, word_from}
use zk_evm.Arithmetic.Addcy.Sums.{
  Vanishes, limbs_of, IsRangeChecked, difference-eq, filtered, next_carry, filter-mul,
}

-- The lowest digits of a sum that comes out.
digit_of_sum :
    (c x y z a b : ℕ)
    → c ≤ 1
    → x < 65536
    → y < 65536
    → z < 65536
    → c + x + y + 65536 * a ≡ z + 65536 * b
    → (k : ℕ) × (k ≤ 1) × (c + x + y ≡ z + k * 65536) × (k + a ≡ b)
digit_of_sum c x y z a b hc hx hy hz e = elim (le_or_lt (c + x + y) z) [
  | inl low ↦ (0, omega arith, omega arith, omega arith)
  | inr high ↦ (1, omega arith, omega arith, omega arith)
]

-- A digit that is 0 or 2 ^ 16 meets its constraint.
digit_zero : (t k : ℕ) → k ≤ 1 → t ≡ k * 65536 → (t * ((65536 + (order - t)) % order)) % order ≡ 0
digit_zero t zero h e = rw e refl
digit_zero t (suc zero) h e = rw e refl
digit_zero t (suc (suc k)) h e = absurd (omega arith)

bit_product : (g : ℕ) → g ≤ 1 → (g * ((g + (order - 1)) % order)) % order ≡ 0
bit_product zero h = refl
bit_product (suc zero) h = refl
bit_product (suc (suc g)) h = absurd (omega arith)

module _ (F : Field) (G : IsGoldilocks F) where
  -- Without the filter every constraint is met.
  module _ (filter : F.Elem) (off : F.to_canonical_u64 filter ≡ 0) where
    mul-off : (a : F.Elem) → F.to_canonical_u64 (F.mul filter a) ≡ 0
    mul-off a = rw (G.of_mul filter a, off, zero-mul (F.to_canonical_u64 a)) refl

    mul-mul-off : (a b : F.Elem) → F.to_canonical_u64 (F.mul (F.mul filter a) b) ≡ 0
    mul-mul-off a b =
        rw (G.of_mul (F.mul filter a) b, mul-off a, zero-mul (F.to_canonical_u64 b)) refl

    loop-off :
        (left i : ℕ) (cy : F.Elem) (x y z : ℕ → F.Elem)
        → All (Vanishes F) (digits_loop F filter false left i cy x y z).0
    unfolding digits_loop
    loop-off zero i cy x y z = tt
    loop-off (suc left) i cy x y z = (mul-mul-off _ _, loop-off left (i + 1) _ x y z)

    high-off :
        (left i : ℕ) (cy : ℕ → F.Elem) → All (Vanishes F) (high_carries F filter false left i cy)
    unfolding high_carries
    high-off zero i cy = tt
    high-off (suc left) i cy = (mul-off (cy i), high-off left (i + 1) cy)

    pub addcy-off :
        (x y z cy : ℕ → F.Elem)
        → All (Vanishes F) (eval_packed_generic_addcy F filter false x y z cy)
    unfolding eval_packed_generic_addcy
    addcy-off x y z cy =
        All-append (Vanishes F) (digits_loop F filter false 16 0 F.zeros x y z).0 _
          (loop-off 16 0 F.zeros x y z) (mul-mul-off _ _, (mul-off _, high-off 15 1 cy))

  module _ (filter : F.Elem) (on : F.to_canonical_u64 filter ≡ 1) (x y z : ℕ → F.Elem)
      (hx : IsRangeChecked F x) (hy : IsRangeChecked F y) (hz : IsRangeChecked F z) where
    loop-Vanishes :
        (left i : ℕ) (cy : F.Elem) (c k : ℕ)
        → F.to_canonical_u64 cy ≡ c
        → c ≤ 1
        → i + left ≤ 16
        → c + word_from left i (limbs_of F x) + word_from left i (limbs_of F y)
          ≡ word_from left i (limbs_of F z) + k * 65536 ^ left
        → All (Vanishes F) (digits_loop F filter false left i cy x y z).0
          × (F.to_canonical_u64 (digits_loop F filter false left i cy x y z).1 ≡ k)
    unfolding digits_loop word_from
    loop-Vanishes zero i cy c k e hc hi total = (tt, rw e (omega arith))
    loop-Vanishes (suc left) i cy c k e hc hi total =
        let t = digit_difference F filter false cy (x i) (y i) (z i) in
        let (d, hd, sum, above) =
          digit_of_sum c (limbs_of F x i) (limbs_of F y i) (limbs_of F z i)
            (word_from left (i + 1) (limbs_of F x) + word_from left (i + 1) (limbs_of F y))
            (word_from left (i + 1) (limbs_of F z) + k * 65536 ^ left) hc (hx i (omega arith))
            (hy i (omega arith)) (hz i (omega arith)) (omega (arith, carry_up k left)) in
        let et : F.to_canonical_u64 t ≡ d * 65536 =
          difference-eq F G filter on x y z hx hy hz cy c i e hc (omega arith)
          ∙ omega (arith, hz i (omega arith)) in
        let (rest, last) =
          loop-Vanishes left (i + 1) (F.mul t (F.from_canonical_u64 goldilocks_inverse_65536)) d k
            (next_carry F G filter on x y z hx hy hz t d et hd) hd (omega arith) (omega arith) in
        (
          (
            filtered F G filter on x y z hx hy hz t ∙ digit_zero (F.to_canonical_u64 t) d hd et,
            rest,
          ),
          last,
        )

    high-Vanishes :
        (left i : ℕ) (cy : ℕ → F.Elem)
        → ((j : ℕ) → i ≤ j → j < i + left → limbs_of F cy j ≡ 0)
        → All (Vanishes F) (high_carries F filter false left i cy)
    unfolding high_carries
    high-Vanishes zero i cy h = tt
    high-Vanishes (suc left) i cy h = (
      filter-mul F G filter on x y z hx hy hz (cy i) ∙ h i (omega arith) (omega arith),
      high-Vanishes left (i + 1) cy (λ j from to. h j (omega arith) (omega arith)),
    )

    bit-zero :
        (g : F.Elem)
        → F.to_canonical_u64 g ≤ 1
        → F.to_canonical_u64 (F.mul (F.mul filter g) (F.sub g F.ones)) ≡ 0
    bit-zero g h =
        rw
          (
            G.of_mul (F.mul filter g) (F.sub g F.ones),
            filter-mul F G filter on x y z hx hy hz g,
            G.of_sub g F.ones,
            G.of_ones,
          )
          (bit_product (F.to_canonical_u64 g) h)

    -- Words that add up, and their carry, meet the constraints.
    pub addcy-Vanishes :
        (cy : ℕ → F.Elem)
        → limbs_of F cy 0 ≤ 1
        → ((j : ℕ) → 1 ≤ j → j < 16 → limbs_of F cy j ≡ 0)
        → word_from 16 0 (limbs_of F x) + word_from 16 0 (limbs_of F y)
          ≡ word_from 16 0 (limbs_of F z) + limbs_of F cy 0 * 65536 ^ 16
        → All (Vanishes F) (eval_packed_generic_addcy F filter false x y z cy)
    unfolding eval_packed_generic_addcy
    addcy-Vanishes cy bit high total =
        let all = digits_loop F filter false 16 0 F.zeros x y z in
        let (digits, last) =
          loop-Vanishes 16 0 F.zeros 0 (limbs_of F cy 0) G.of_zeros (omega arith) (omega arith)
            (omega arith) in
        All-append (Vanishes F) all.0 _ digits (
          bit-zero (cy 0) bit,
          (
            filter-mul F G filter on x y z hx hy hz (F.sub all.1 (cy 0))
                ∙ (G.of_sub all.1 (cy 0) ∙ rw last (omega arith)),
            high-Vanishes 15 1 cy (λ j from to. high j from (omega arith)),
          ),
        )
