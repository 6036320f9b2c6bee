-- ===== src/Arithmetic/Addcy/Sums.antt =====
-- The constraints of one operator, as an equation between the words in its registers.
use zk_evm.Prelude.{
  ℕ, zero, suc, ◌+◌, ◌-◌, ◌*◌, ◌%◌, ◌^◌, ◌≤◌, ◌<◌, ◌≡◌, refl, arith, inl, inr, false, All,
  All-append_front, All-append_back, Bool-cases, ◌==◌, ==_iff,
}
use zk_evm.Arithmetic.Columns.{
  input_register_0, input_register_1, output_register, aux_input_register_0, Row, register,
}
use zk_evm.Arithmetic.Fields.{Field, IsGoldilocks, order}
use zk_evm.Arithmetic.Addcy.{
  Constraint, constraint, constraint_transition, goldilocks_inverse_65536, digit_difference,
  digits_loop, high_carries, eval_packed_generic_addcy,
}
use zk_evm.Arithmetic.Addcy.Digits.{digit_carry, carry_up, word_from}

module _ (F : Field) where
  -- A constraint is met where the number that it yields is 0.
  abbrev pub Vanishes : Constraint F → Type 0
  Vanishes (constraint c) = F.to_canonical_u64 c ≡ 0
  Vanishes (constraint_transition c) = F.to_canonical_u64 c ≡ 0

  abbrev pub limbs_of : (ℕ → F.Elem) → ℕ → ℕ
  limbs_of x i = F.to_canonical_u64 (x i)

  -- The limbs of a register are range-checked.
  abbrev pub IsRangeChecked : (ℕ → F.Elem) → Type 0
  IsRangeChecked x = (i : ℕ) → i < 16 → limbs_of x i < 65536

  -- The word in a register.
  abbrev pub word : Row F → ℕ → ℕ
  word lv start = word_from 16 0 (limbs_of (register F lv start))

  abbrev pub IsCheckedRow : Row F → Type 0
  IsCheckedRow lv =
      IsRangeChecked (register F lv input_register_0)
      × IsRangeChecked (register F lv input_register_1)
      × IsRangeChecked (register F lv output_register)
      × IsRangeChecked (register F lv aux_input_register_0)

module _ (F : Field) (G : IsGoldilocks F) where
  module _ (filter : F.Elem) (on : F.to_canonical_u64 filter ≡ 1) (x y z : ℕ → F.Elem)
      (hx : IsRangeChecked F x) (hy : IsRangeChecked F y) (hz : IsRangeChecked F z) where
    pub difference-eq :
        (cy : F.Elem) (c i : ℕ)
        → F.to_canonical_u64 cy ≡ c
        → c ≤ 1
        → i < 16
        → F.to_canonical_u64 (digit_difference F filter false cy (x i) (y i) (z i))
          ≡ (c + limbs_of F x i + limbs_of F y i + (order - limbs_of F z i)) % order
    difference-eq cy c i e hc hi =
        rw
          (
            G.of_sub (F.add (F.add cy (x i)) (y i)) (z i),
            G.of_add (F.add cy (x i)) (y i),
            G.of_add cy (x i),
            e,
          )
          (omega (arith, hx i hi, hy i hi, hz i hi))

    pub filtered :
        (t : F.Elem)
        → F.to_canonical_u64 (F.mul (F.mul filter t) (F.sub (F.from_canonical_u64 65536) t))
          ≡ (F.to_canonical_u64 t * ((65536 + (order - F.to_canonical_u64 t)) % order)) % order
    filtered t =
        let same : 1 * F.to_canonical_u64 t % order ≡ F.to_canonical_u64 t =
          omega (arith, G.canonical_lt t) in
        rw
          (
            G.of_mul (F.mul filter t) (F.sub (F.from_canonical_u64 65536) t),
            G.of_mul filter t,
            on,
            same,
            G.of_sub (F.from_canonical_u64 65536) t,
            G.of_from 65536 (omega arith),
          )
          refl

    -- The carry of a digit, as the field computes it.
    pub next_carry :
        (t : F.Elem) (k : ℕ)
        → F.to_canonical_u64 t ≡ k * 65536
        → k ≤ 1
        → F.to_canonical_u64 (F.mul t (F.from_canonical_u64 goldilocks_inverse_65536)) ≡ k
    next_carry t k e h =
        rw
          (
            G.of_mul t (F.from_canonical_u64 goldilocks_inverse_65536),
            G.of_from goldilocks_inverse_65536 (omega arith),
            e,
          )
          (omega arith)

    loop-sum :
        (left i : ℕ) (cy : F.Elem) (c : ℕ)
        → F.to_canonical_u64 cy ≡ c
        → c ≤ 1
        → i + left ≤ 16
        → All (Vanishes F) (digits_loop F filter false left i cy x y z).0
        → (k : ℕ) × (k ≤ 1)
          × (F.to_canonical_u64 (digits_loop F filter false left i cy x y z).1 ≡ k)
          × (c + word_from left i (limbs_of F x) + word_from left i (limbs_of F y)
              ≡ word_from left i (limbs_of F z) + k * 65536 ^ left)
    unfolding digits_loop word_from
    loop-sum zero i cy c e hc hi v = (c, hc, e, omega arith)
    loop-sum (suc left) i cy c e hc hi (v, vs) =
        let t = digit_difference F filter false cy (x i) (y i) (z i) in
        let (k, hk, et, sum) =
          digit_carry c (limbs_of F x i) (limbs_of F y i) (limbs_of F z i) (F.to_canonical_u64 t) hc
            (hx i (omega arith)) (hy i (omega arith)) (hz i (omega arith))
            (difference-eq cy c i e hc (omega arith)) (rw (filtered t) at v) in
        let (last, hl, el, total) =
          loop-sum left (i + 1) (F.mul t (F.from_canonical_u64 goldilocks_inverse_65536)) k
            (next_carry t k et hk) hk (omega arith) vs in
        (last, hl, el, omega (arith, carry_up last left))

    pub filter-mul : (a : F.Elem) → F.to_canonical_u64 (F.mul filter a) ≡ F.to_canonical_u64 a
    filter-mul a = rw (G.of_mul filter a, on) (omega (arith, G.canonical_lt a))

    high-zero :
        (left i : ℕ) (cy : ℕ → F.Elem)
        → All (Vanishes F) (high_carries F filter false left i cy)
        → (j : ℕ) → i ≤ j
        → j < i + left
        → F.to_canonical_u64 (cy j) ≡ 0
    unfolding high_carries
    high-zero zero i cy v j from to = absurd (omega arith)
    high-zero (suc left) i cy (v, vs) j from to = elim (Bool-cases (j == i)) [
      | inl here ↦ rw ((==_iff j i).0 here) (rw (filter-mul (cy i)) at v)
      | inr other ↦ high-zero left (i + 1) cy vs j (ground (arith, from, other)) (omega arith)
    ]

    -- The constraints say that the limbs of `x` and `y` add up to those of `z` and a carry.
    pub addcy-sum :
        (cy : ℕ → F.Elem)
        → All (Vanishes F) (eval_packed_generic_addcy F filter false x y z cy)
        → (limbs_of F cy 0 ≤ 1)
          × ((j : ℕ) → 1 ≤ j → j < 16 → limbs_of F cy j ≡ 0)
          × (word_from 16 0 (limbs_of F x) + word_from 16 0 (limbs_of F y)
              ≡ word_from 16 0 (limbs_of F z) + limbs_of F cy 0 * 65536 ^ 16)
    unfolding eval_packed_generic_addcy
    addcy-sum cy v =
        let all = digits_loop F filter false 16 0 F.zeros x y z in
        let ends = All-append_back (Vanishes F) all.0 _ v in
        let (k, hk, ek, total) =
          loop-sum 16 0 F.zeros 0 G.of_zeros (omega arith) (omega arith)
            (All-append_front (Vanishes F) all.0 _ v) in
        let last : (k + (order - limbs_of F cy 0)) % order ≡ 0 =
          rw (filter-mul (F.sub all.1 (cy 0)), G.of_sub all.1 (cy 0), ek) at ends.1.0 in
        let same : limbs_of F cy 0 ≡ k = omega (arith, G.canonical_lt (cy 0)) in
        (
          omega arith,
          λ j from to. high-zero 15 1 cy ends.1.1 j from (omega arith),
          rw same (omega arith),
        )
