-- ===== src/TraceDecoder/Type1/Branches.antt =====
-- A branch takes its children from the stack.
use zk_evm.Prelude.{
  ℕ, zero, suc, ◌+◌, ◌≤◌, ◌<◌, ◌≡◌, refl, ap, sym, ◌∙◌, fun_ext, arith, inl, inr, true, false, ◌∷◌,
  ltb-lt, ltb, Bool-cases, ◌==◌, ==_iff,
}
use zk_evm.TraceDecoder.Type1.{
  Node, Child, absent, present, Stack, ok, mask_bit, set_child, branch_loop,
}
use zk_evm.TraceDecoder.Type1.Encoding.{is_present, mask_of, mask_bit-mask_of, mask_bit-beyond}

abbrev pub push_child : Child → Stack → Stack
push_child absent stack = stack
push_child (present n) stack = n ∷ stack

-- The children below `k`, the last one on top.
abbrev pub stacked : ℕ → (ℕ → Child) → Stack → Stack
stacked zero f stack = stack
stacked (suc k) f stack = push_child (f k) (stacked k f stack)

abbrev put : (ℕ → Child) → ℕ → Child → ℕ → Child
put children ix absent = children
put children ix (present n) = set_child children ix n

fill : ℕ → (ℕ → Child) → (ℕ → Child) → ℕ → Child
fill zero f children = children
fill (suc k) f children = fill k f (put children k (f k))

put-other :
    (children : ℕ → Child) (ix j : ℕ) (c : Child)
    → (j == ix) ≡ false
    → put children ix c j ≡ children j
put-other children ix j absent h = refl
put-other children ix j (present n) h = rw h refl

put-here :
    (children : ℕ → Child) (ix : ℕ) (c : Child) → children ix ≡ absent → put children ix c ix ≡ c
put-here children ix absent h = h
put-here children ix (present n) h =
    let same : (ix == ix) ≡ true = (==_iff ix ix).1 refl in rw same refl

fill-above : (k j : ℕ) (f children : ℕ → Child) → k ≤ j → fill k f children j ≡ children j
unfolding fill
fill-above zero j f children h = refl
fill-above (suc k) j f children h =
    let other : (j == k) ≡ false = ground (arith, h) in
    fill-above k j f (put children k (f k)) (omega arith) ∙ put-other children k j (f k) other

fill-below :
    (k j : ℕ) (f children : ℕ → Child) → j < k → children j ≡ absent → fill k f children j ≡ f j
unfolding fill
fill-below zero j f children h e = absurd (omega arith)
fill-below (suc k) j f children h e = elim (Bool-cases (j == k)) [
  | inl here ↦
      let same : j ≡ k = (==_iff j k).0 here in
      fill-above k j f (put children k (f k)) (omega arith)
      ∙ rw same (put-here children k (f k) (rw same at e))
  | inr other ↦
      fill-below k j f (put children k (f k)) (below j k h other)
        (put-other children k j (f k) other ∙ e)
]
  where
    below : (j k : ℕ) → j < suc k → (j == k) ≡ false → j < k
    below j k h other = ground (arith, h, other)

skip_bit :
    (ix mask : ℕ) (children : ℕ → Child) (stack : Stack)
    → mask_bit mask ix ≡ false
    → branch_loop (suc ix) mask children stack ≡ branch_loop ix mask children stack
unfolding branch_loop
skip_bit ix mask children stack e = rw (branch_loop, e) refl

take_child :
    (ix mask : ℕ) (children : ℕ → Child) (n : Node) (stack : Stack)
    → mask_bit mask ix ≡ true
    → ix < 16
    → branch_loop (suc ix) mask children (n ∷ stack)
      ≡ branch_loop ix mask (set_child children ix n) stack
unfolding branch_loop
take_child ix mask children n stack e h = rw (branch_loop, e, ltb-lt ix 16 h) refl

branch_loop-fill :
    (k mask : ℕ) (f children : ℕ → Child) (stack : Stack)
    → k ≤ 16
    → ((i : ℕ) → i < k → mask_bit mask i ≡ is_present (f i))
    → branch_loop k mask children (stacked k f stack) ≡ ok (fill k f children, stack)
unfolding branch_loop fill
branch_loop-fill zero mask f children stack h bits = refl
branch_loop-fill (suc k) mask f children stack h bits =
    elim (f k)
        as (λ c.
          is_present c ≡ mask_bit mask k
          → branch_loop (suc k) mask children (push_child c (stacked k f stack))
            ≡ ok (fill k f (put children k c), stack)) [
              | absent ↦ λ e.
                  skip_bit k mask children (stacked k f stack) (sym e)
                  ∙ branch_loop-fill k mask f children stack (omega arith) lower
              | present n ↦ λ e.
                  take_child k mask children n (stacked k f stack) (sym e) (omega arith)
                  ∙ branch_loop-fill k mask f (set_child children k n) stack (omega arith) lower
            ]
      (sym (bits k (omega arith)))
  where
    lower : (i : ℕ) → i < k → mask_bit mask i ≡ is_present (f i)
    lower i to = bits i (omega arith)

branch_loop-high :
    (m mask : ℕ) (children : ℕ → Child) (stack : Stack)
    → ((i : ℕ) → 16 ≤ i → mask_bit mask i ≡ false)
    → branch_loop (16 + m) mask children stack ≡ branch_loop 16 mask children stack
unfolding branch_loop
branch_loop-high zero mask children stack h = refl
branch_loop-high (suc m) mask children stack h =
    let step : 16 + suc m ≡ suc (16 + m) = omega arith in
    rw step (
      skip_bit (16 + m) mask children stack (h (16 + m) (omega arith))
      ∙ branch_loop-high m mask children stack h)

-- The children on the stack, taken by the mask that was made for them.
pub branch_loop-stacked :
    (f : ℕ → Child) (stack : Stack)
    → ((i : ℕ) → 16 ≤ i → f i ≡ absent)
    → branch_loop 64 (mask_of 16 0 f) (λ j. absent) (stacked 16 f stack) ≡ ok (f, stack)
branch_loop-stacked f stack h =
    branch_loop-high 48 (mask_of 16 0 f) (λ j. absent) (stacked 16 f stack)
      (λ i from. mask_bit-beyond 16 0 i f from)
    ∙ (branch_loop-fill 16 (mask_of 16 0 f) f (λ j. absent) stack (omega arith) bits
        ∙ ap (λ g. ok (g, stack)) (fun_ext all))
  where
    bits : (i : ℕ) → i < 16 → mask_bit (mask_of 16 0 f) i ≡ is_present (f i)
    bits i to = mask_bit-mask_of 16 0 i f to ∙ ap (λ (t : ℕ). is_present (f t)) (omega arith)

    all : (j : ℕ) → fill 16 f (λ j. absent) j ≡ f j
    all j = elim (Bool-cases (ltb j 16)) [
      | inl low ↦ fill-below 16 j f (λ j. absent) (ground (arith, low)) refl
      | inr high ↦
          let from : 16 ≤ j = ground (arith, high) in
          fill-above 16 j f (λ j. absent) from ∙ sym (h j from)
    ]
