-- ===== src/Smt/Key/RoundTrip.antt =====
-- `join` of the path to a level and of the key without the path's bits is the key.
use native.Mathlib.Nat.{pow-suc, mod-lt, div-add-mod'}
use zk_evm.Prelude.{
  ℕ, zero, suc, ◌+◌, ◌-◌, ◌*◌, ◌/◌, ◌%◌, ◌^◌, ◌≤◌, ◌<◌, ◌≡◌, ◌≢◌, refl, ap, sym, ◌∙◌, arith, bit_or,
  true, false, Bool-cases, inl, inr, Option, some, ◌>>=◌, ltb, ◌==◌, ==_iff, ==-refl, if◌then◌else◌,
}
use zk_evm.Prelude.Bits.{bit_or_fields, bit_or_fields'}
use zk_evm.Prelude.Powers.{pow_pos, pow_mono, mod-mul}
use zk_evm.Smt.Bits.{Bits, empty}
use zk_evm.Smt.Bits.Sequences.{seq}
use zk_evm.Smt.Key.{
  Key, set_lane, shl_u64, shr_u64, each_lane, split, join_bits, join, remove_key_bits, descend,
}
use zk_evm.Smt.Key.Lanes.{
  key_bit, before, length-before, get_bit-before, descend-before, split-before,
}

-- How many of the first bits belong to a lane.
abbrev steps : ℕ → ℕ → ℕ
steps a i = (i + 3 - a) / 4

power_below : (s : ℕ) → s < 64 → 2 ^ s < 2 ^ 64
power_below s h = omega (
  arith,
  pow_mono 2 (suc s) 64 (omega arith) (omega arith),
  pow-suc 2 s,
  pow_pos 2 s (omega arith),
)

shl_u64-fits : (x s : ℕ) → s < 64 → x * 2 ^ s < 2 ^ 64 → shl_u64 x s ≡ some (x * 2 ^ s)
unfolding shl_u64
shl_u64-fits x s few small =
    let inside : ltb s 64 ≡ true = ground (arith, few) in
    rw inside (ap (λ (t : ℕ). some t) (omega (arith, small)))

shr_u64-fits : (x s : ℕ) → s < 64 → shr_u64 x s ≡ some (x / 2 ^ s)
unfolding shr_u64
shr_u64-fits x s few = let inside : ltb s 64 ≡ true = ground (arith, few) in rw inside refl

module _ (key : Key) (m : ℕ) (short : m ≤ 252) where
  abbrev Joined : ℕ → Key → Key → Type 0
  Joined i n accs = (a : ℕ) → a < 4 → (n a ≡ steps a i) × (accs a ≡ key a % 2 ^ steps a i)

  -- The bit goes to its lane, and the other lanes stay as they are.
  next_step :
      (i : ℕ) (n accs accs' : Key)
      → Joined i n accs
      → ((a : ℕ) → a < 4 → (a == i % 4) ≡ false → accs' a ≡ accs a)
      → accs' (i % 4) ≡ key (i % 4) / 2 ^ (i / 4) % 2 * 2 ^ (i / 4) + key (i % 4) % 2 ^ (i / 4)
      → Joined (i + 1) (set_lane n (i % 4) (n (i % 4) + 1)) accs'
  next_step i n accs accs' h others here a to = elim (Bool-cases (a == i % 4)) [
    | inl same ↦
        let e : a ≡ i % 4 = (==_iff a (i % 4)).0 same in
        let more : steps a (i + 1) ≡ suc (i / 4) = omega arith in
        let now : steps (i % 4) i ≡ i / 4 = omega arith in
        let count : n (i % 4) ≡ i / 4 = (h (i % 4) (omega arith)).0 ∙ now in
        (
          rw (same, more, count) (omega arith),
          rw (more, e)
              (here
                ∙ sym (
                    ap (λ (d : ℕ). key (i % 4) % d) (pow-suc 2 (i / 4))
                    ∙ mod-mul (key (i % 4)) (2 ^ (i / 4)) 2 (pow_pos 2 (i / 4) (omega arith))
                        (omega arith))),
        )
    | inr differ ↦
        let ne : a ≢ i % 4 = λ e. cc ((==_iff a (i % 4)).1 e) in
        let stays : steps a (i + 1) ≡ steps a i = omega (arith, ne) in
        rw (differ, stays, others a to differ) (h a to)
  ]

  join_step :
      (left i : ℕ) (n accs : Key)
      → left + i ≡ m
      → Joined i n accs
      → (n' : Key) × (accs' : Key) × (join_bits left i (seq (before key m)) n accs
          ≡ some (n', accs'))
        × Joined m n' accs'
  unfolding join_bits
  join_step zero i n accs e h = let last : i ≡ m = omega arith in (n, accs, refl, rw last at h)
  join_step (suc left) i n accs e h =
      let lane : ℕ = i % 4 in
      let count : n lane ≡ i / 4 = (h lane (omega arith)).0 ∙ omega arith in
      let acc : accs lane ≡ key lane % 2 ^ (i / 4) =
        (h lane (omega arith)).1 ∙ ap (λ (s : ℕ). key lane % 2 ^ s) (omega arith) in
      let one : shl_u64 1 (n lane) ≡ some (1 * 2 ^ (i / 4)) =
        ap (λ (s : ℕ). shl_u64 1 s) count
        ∙ shl_u64-fits 1 (i / 4) (omega arith) (omega (arith, power_below (i / 4) (omega arith))) in
      rw (get_bit-before key m i (omega arith) (omega arith)) (elim (Bool-cases (key_bit key i)) [
        | inl set ↦
            let bit : key lane / 2 ^ (i / 4) % 2 ≡ 1 =
              (==_iff (key lane / 2 ^ (i / 4) % 2) 1).0 set in
            let joined : bit_or (accs lane) (1 * 2 ^ (i / 4))
                ≡ 1 * 2 ^ (i / 4) + key lane % 2 ^ (i / 4) =
              ap (λ (x : ℕ). bit_or x (1 * 2 ^ (i / 4))) acc
              ∙ bit_or_fields' (i / 4) 1 (key lane % 2 ^ (i / 4))
                  (mod-lt (key lane) (pow_pos 2 (i / 4) (omega arith))) in
            rw (set, one)
              (join_step left (i + 1) _ _ (omega arith) (
                next_step i n accs (set_lane accs lane (bit_or (accs lane) (1 * 2 ^ (i / 4)))) h
                  (λ a to differ. rw differ refl) (rw (==-refl lane, bit) joined)))
        | inr clear ↦
            let bit : key lane / 2 ^ (i / 4) % 2 ≡ 0 = omega (arith, no_bit clear) in
            rw clear (
              join_step left (i + 1) _ _ (omega arith)
                (next_step i n accs accs h (λ a to differ. refl) (rw bit (omega (arith, acc)))))
      ])
    where
      no_bit : key_bit key i ≡ false → key (i % 4) / 2 ^ (i / 4) % 2 ≢ 1
      no_bit clear e = cc ((==_iff (key (i % 4) / 2 ^ (i / 4) % 2) 1).1 e)

each_lane-some :
    (f : ℕ → Option ℕ) (g : ℕ → ℕ)
    → ((a : ℕ) → a < 4 → f a ≡ some (g a))
    → (r : Key) × (each_lane f ≡ some r) × ((a : ℕ) → a < 4 → r a ≡ g a)
each_lane-some f g h = (
  λ i. if i == 0 then g 0 else if i == 1 then g 1 else if i == 2 then g 2 else g 3,
  rw (h 0 (omega arith), h 1 (omega arith), h 2 (omega arith), h 3 (omega arith)) refl,
  value,
)
  where
    value :
        (a : ℕ)
        → a < 4
        → (if a == 0 then g 0 else if a == 1 then g 1 else if a == 2 then g 2 else g 3) ≡ g a
    value zero to = refl
    value (suc zero) to = refl
    value (suc (suc zero)) to = refl
    value (suc (suc (suc zero))) to = refl
    value (suc (suc (suc (suc a)))) to = absurd (omega arith)

-- How far `remove_key_bits` shifts a lane.
removed_bits : (a m : ℕ) → a < 4 → (if ltb (m / 4 * 4 + a) m then m / 4 + 1 else m / 4) ≡ steps a m
removed_bits a m to = elim (Bool-cases (ltb (m / 4 * 4 + a) m)) [
  | inl more ↦ let h : m / 4 * 4 + a < m = ground (arith, more) in rw more (omega arith)
  | inr enough ↦ let h : m ≤ m / 4 * 4 + a = ground (arith, enough) in rw enough (omega arith)
]

module _ (key : Key) (words : (a : ℕ) → a < 4 → key a < 2 ^ 64) (m : ℕ) (short : m ≤ 252) where
  remaining :
      (rem_key : Key) × (remove_key_bits key m ≡ some rem_key)
      × ((a : ℕ) → a < 4 → rem_key a ≡ key a / 2 ^ steps a m)
  unfolding remove_key_bits
  remaining =
      each_lane-some (λ a. shr_u64 (key a) (if ltb (m / 4 * 4 + a) m then m / 4 + 1 else m / 4))
        (λ a. key a / 2 ^ steps a m)
        (λ a to. rw (removed_bits a m to) (shr_u64-fits (key a) (steps a m) (omega arith)))

  rejoined : (x s : ℕ) → s < 64 → x < 2 ^ 64 → bit_or (x / 2 ^ s * 2 ^ s) (x % 2 ^ s) ≡ x
  rejoined x s few small =
      bit_or_fields s (x / 2 ^ s) (x % 2 ^ s) (mod-lt x (pow_pos 2 s (omega arith)))
      ∙ div-add-mod' x (2 ^ s)

  none-Joined : Joined key m short 0 (λ i. 0) (λ i. 0)
  none-Joined a to = let none : steps a 0 ≡ 0 = omega arith in (sym none, rw none (omega arith))

  lane :
      (rem_key n accs : Key) (a : ℕ)
      → a < 4
      → rem_key a ≡ key a / 2 ^ steps a m
      → n a ≡ steps a m
      → accs a ≡ key a % 2 ^ steps a m
      → (shl_u64 (rem_key a) (n a) >>= λ shifted. some (bit_or shifted (accs a))) ≡ some (key a)
  lane rem_key n accs a to r s c =
      rw (r, s, c, shl_u64-fits (key a / 2 ^ steps a m) (steps a m) (omega arith) below)
        (ap (λ x. some x) (rejoined (key a) (steps a m) (omega arith) (words a to)))
    where
      below : key a / 2 ^ steps a m * 2 ^ steps a m < 2 ^ 64
      below = omega (arith, words a to, div-add-mod' (key a) (2 ^ steps a m))

  -- For a key of four words of 64 bits and a level of at most 252: `split` and the descent along the
  -- key's bits to that level do not panic, nor does `remove_key_bits` at that level, and `join` of the
  -- path and the remaining key gives the four words of the key.
  pub join-remove_key_bits :
      (keys path : Bits) × (rem_key result : Key) × (split key ≡ some keys)
      × (descend m 0 keys empty ≡ some path)
      × (remove_key_bits key m ≡ some rem_key)
      × (join path rem_key ≡ some result)
      × ((a : ℕ) → a < 4 → result a ≡ key a)
  unfolding join
  join-remove_key_bits =
      let (rem_key, removed, hr) = remaining in
      let (n, accs, bits, hj) =
        join_step key m short m 0 (λ i. 0) (λ i. 0) (omega arith) none-Joined in
      let (result, run, same) =
        each_lane-some _ key (λ a to. lane rem_key n accs a to (hr a to) (hj a to).0 (hj a to).1) in
      (
        seq (before key 256),
        seq (before key m),
        rem_key,
        result,
        split-before key,
        descend-before key m 0 (omega arith) ∙ ap (λ (c : ℕ). some (seq (before key c))) all_levels,
        removed,
        rw
            (ap (λ (c : ℕ). join_bits c 0 (seq (before key m)) (λ i. 0) (λ i. 0))
                (length-before key m)
              ∙ bits)
            run,
        same,
      )
    where
      all_levels : m + 0 ≡ m
      all_levels = omega arith
