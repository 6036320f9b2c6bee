-- ===== src/Smt/Bits/Prefixes.antt =====
-- `common_prefix` finds the longest common front of two sequences.
use zk_evm.Prelude.{
  ℕ, zero, suc, ◌+◌, ◌≤◌, ◌<◌, ◌≡◌, ◌≢◌, refl, ap, ap₂, sym, ◌∙◌, arith, Bool, true, false,
  Bool-cases, inl, inr, ◌⊎◌, Option, none, some, List, [], ◌∷◌, ◌++◌, length, append_assoc, ltb,
  ◌==◌, ==_iff, ==-refl, min,
}
use zk_evm.Smt.Bits.{
  Bits, from_bit, bits_eq, shorten, part, first_difference, common_prefix, bit_eq,
}
use zk_evm.Smt.Bits.Sequences.{num, seq, pop_next_bit-seq, from_bit-bound}

same_bit : (x y : Bool) → from_bit x ≡ from_bit y → x ≡ y
same_bit true true h = refl
same_bit false false h = refl
same_bit true false h = absurd (omega arith)
same_bit false true h = absurd (omega arith)

num-cancel : (a b : List Bool) → length a ≡ length b → num a ≡ num b → a ≡ b
num-cancel [] [] e h = refl
num-cancel [] (y ∷ b) e h = absurd (omega arith)
num-cancel (x ∷ a) [] e h = absurd (omega arith)
num-cancel (x ∷ a) (y ∷ b) e h =
    ap₂ ◌∷◌ (same_bit x y (omega (arith, from_bit-bound x, from_bit-bound y)))
      (num-cancel a b (omega arith) (omega (arith, from_bit-bound x, from_bit-bound y)))

bits_eq→≡ : (a b : List Bool) → bits_eq (seq a) (seq b) ≡ true → a ≡ b
bits_eq→≡ a b h = elim (Bool-cases (length a == length b)) [
  | inl same ↦
      num-cancel a b ((==_iff (length a) (length b)).0 same)
        ((==_iff (num a) (num b)).0 (rw same at h))
  | inr differ ↦ cc (rw differ at h)
]

bits_eq_refl : (a : List Bool) → bits_eq (seq a) (seq a) ≡ true
bits_eq_refl a = rw (==-refl (length a), ==-refl (num a)) refl

apart : (a b : List Bool) → bits_eq (seq a) (seq b) ≡ false → a ≢ b
apart a b h e = cc (h, ap (λ r. bits_eq (seq r) (seq b)) e, bits_eq_refl b)

shorten-seq :
    (fuel : ℕ) (a b : List Bool)
    → length a < fuel
    → (p t : List Bool) × (shorten fuel (seq a) (seq b) ≡ some (seq t))
      × (a ≡ p ++ t)
      × (length t ≡ min (length a) (length b))
unfolding shorten
shorten-seq zero a b h = absurd (omega arith)
shorten-seq (suc fuel) [] b h =
    let stop : ltb (length b) 0 ≡ false = ground arith in ([], [], rw stop refl, refl, omega arith)
shorten-seq (suc fuel) (x ∷ a) b h = elim (Bool-cases (ltb (length b) (length (x ∷ a)))) [
  | inl longer ↦
      let more : length b < length (x ∷ a) = ground (arith, longer) in
      let (p, t, run, e, len) = shorten-seq fuel a b (omega arith) in
      (x ∷ p, t, rw (longer, pop_next_bit-seq x a) run, ap (λ r. x ∷ r) e, omega arith)
  | inr fits ↦
      let le : length (x ∷ a) ≤ length b = ground (arith, fits) in
      ([], x ∷ a, rw fits refl, refl, omega arith)
]

-- Two sequences of one length that differ part at a bit.
part-seq :
    (fuel : ℕ) (a b : List Bool) (x y : Bool)
    → length a ≡ length b
    → length a < fuel
    → x ∷ a ≢ y ∷ b
    → (p q t : List Bool) × (x' y' : Bool) × (part fuel (seq a) (seq b) x y ≡ some (seq t, x', y'))
      × (x ∷ a ≡ p ++ (x' ∷ t))
      × (y ∷ b ≡ q ++ (y' ∷ t))
      × (x' ≢ y')
unfolding part
part-seq zero a b x y e h n = absurd (omega arith)
part-seq (suc fuel) [] [] x y e h n =
    ([], [], [], x, y, refl, refl, refl, λ d. n (ap (λ z. z ∷ []) d))
part-seq (suc fuel) [] (y1 ∷ b) x y e h n = absurd (omega arith)
part-seq (suc fuel) (x1 ∷ a) [] x y e h n = absurd (omega arith)
part-seq (suc fuel) (x1 ∷ a) (y1 ∷ b) x y e h n =
    elim (Bool-cases (bits_eq (seq (x1 ∷ a)) (seq (y1 ∷ b)))) [
      | inl same ↦
          let s : x1 ∷ a ≡ y1 ∷ b = bits_eq→≡ (x1 ∷ a) (y1 ∷ b) same in
          ([], [], x1 ∷ a, x, y, rw same refl, refl, ap (λ r. y ∷ r) (sym s), λ d. n (ap₂ ◌∷◌ d s))
      | inr differ ↦
          let (p, q, t, x', y', run, ea, eb, d) =
            part-seq fuel a b x1 y1 (omega arith) (omega arith) (apart (x1 ∷ a) (y1 ∷ b) differ) in
          (
            x ∷ p,
            y ∷ q,
            t,
            x',
            y',
            rw (differ, pop_next_bit-seq x1 a, pop_next_bit-seq y1 b) run,
            ap (λ r. x ∷ r) ea,
            ap (λ r. y ∷ r) eb,
            d,
          )
    ]

-- What two sequences have in common in front, the last bit first: one of them goes on behind it, or
-- both, with different bits.
abbrev pub Common : List Bool → List Bool → Option (Bits × Option (Bool × Bool)) → Type 0
Common a b out =
    ((p q t : List Bool) × (out ≡ some (seq t, none))
      × (a ≡ p ++ t)
      × (b ≡ q ++ t)
      × (length t ≡ min (length a) (length b)))
    ⊎ ((p q t : List Bool) × (x y : Bool) × (out ≡ some (seq t, some (x, y)))
        × (a ≡ p ++ (x ∷ t))
        × (b ≡ q ++ (y ∷ t))
        × (x ≢ y))

unequal : (x y : Bool) → x ≢ y → bit_eq x y ≡ false
unequal true true n = absurd (n refl)
unequal true false n = refl
unequal false true n = refl
unequal false false n = absurd (n refl)

behind : (a p t p' s : List Bool) → a ≡ p ++ t → t ≡ p' ++ s → a ≡ (p ++ p') ++ s
behind a p t p' s e f = e ∙ ap (λ r. p ++ r) f ∙ sym (append_assoc p p' s)

first_difference-seq :
    (s t : List Bool)
    → length s ≡ length t
    → s ≢ t
    → (p q r : List Bool) × (x y : Bool) × (first_difference (seq s) (seq t)
        ≡ some (seq r, some (x, y)))
      × (s ≡ p ++ (x ∷ r))
      × (t ≡ q ++ (y ∷ r))
      × (x ≢ y)
unfolding first_difference
first_difference-seq [] [] e n = absurd (n refl)
first_difference-seq [] (y ∷ t) e n = absurd (omega arith)
first_difference-seq (x ∷ s) [] e n = absurd (omega arith)
first_difference-seq (x ∷ s) (y ∷ t) e n =
    let (p, q, r, x', y', run, es, et, d) =
      part-seq (length (x ∷ s) + 1) s t x y (omega arith) (omega arith) n in
    (
      p,
      q,
      r,
      x',
      y',
      rw (pop_next_bit-seq x s, pop_next_bit-seq y t, run, unequal x' y' d) refl,
      es,
      et,
      d,
    )

-- `common_prefix` does not panic, and its result is what the two sequences have in common in front:
-- all of the shorter one, or up to a bit in which they differ.
pub common_prefix-Common : (a b : List Bool) → Common a b (common_prefix (seq a) (seq b))
unfolding common_prefix
common_prefix-Common a b =
    let (p, s, run, ea, la) = shorten-seq (length a + 1) a b (omega arith) in
    let (q, t, run', eb, lb) = shorten-seq (length b + 1) b s (omega arith) in
    let len : length s ≡ length t = omega arith in
    rw (run, run')
      (elim (Bool-cases (bits_eq (seq s) (seq t))) [
        | inl same ↦
            let e : s ≡ t = bits_eq→≡ s t same in
            inl (p, q, s, rw same refl, ea, eb ∙ ap (λ r. q ++ r) (sym e), omega arith)
        | inr differ ↦
            let (p', q', r, x, y, found, es, et, d) =
              first_difference-seq s t len (apart s t differ) in
            inr (
              p ++ p',
              q ++ q',
              r,
              x,
              y,
              rw differ found,
              behind a p s p' (x ∷ r) ea es,
              behind b q t q' (y ∷ r) eb et,
              d,
            )
      ])
