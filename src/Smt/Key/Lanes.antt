-- ===== src/Smt/Key/Lanes.antt =====
-- The bits that `split` makes of a key, and what `join` makes of them.
use native.Mathlib.Nat.{pow-suc, div-div-eq-div-mul}
use zk_evm.Prelude.{
  ℕ, zero, suc, ◌+◌, ◌-◌, ◌*◌, ◌/◌, ◌%◌, ◌^◌, ◌≤◌, ◌<◌, ◌≡◌, ◌≢◌, refl, ap, sym, ◌∙◌, arith,
  bit_and, Bool, true, false, Bool-cases, inl, inr, some, List, [], ◌∷◌, length, get_elem?, ltb,
  ◌==◌, ==_iff, if◌then◌else◌,
}
use zk_evm.Smt.Bits.{get_bit}
use zk_evm.Smt.Bits.Sequences.{seq, push_bit-seq, get_bit-seq, bit_and-one}
use zk_evm.Smt.Key.{Key, set_lane, split_lanes, split_rounds, split, descend}

-- The bit that `split` pushes as number `m`.
abbrev pub key_bit : Key → ℕ → Bool
key_bit key m = key (m % 4) / 2 ^ (m / 4) % 2 == 1

-- The bits pushed before number `m`, the last one first.
abbrev pub before : Key → ℕ → List Bool
before key zero = []
before key (suc m) = key_bit key m ∷ before key m

pub length-before : (key : Key) (m : ℕ) → length (before key m) ≡ m
length-before key zero = refl
length-before key (suc m) = ap suc (length-before key m)

before-get :
    (key : Key) (m d : ℕ) → d < m → get_elem? (before key m) d ≡ some (key_bit key (m - 1 - d))
before-get key zero d h = absurd (omega arith)
before-get key (suc m) zero h = ap (λ (i : ℕ). some (key_bit key i)) (omega arith)
before-get key (suc m) (suc d) h =
    before-get key m d (omega arith) ∙ ap (λ (i : ℕ). some (key_bit key i)) (omega arith)

pub get_bit-before :
    (key : Key) (m i : ℕ) → m ≤ 256 → i < m → get_bit (seq (before key m)) i ≡ some (key_bit key i)
get_bit-before key m i short within =
    get_bit-seq (before key m) i (key_bit key i) (omega (arith, length-before key m))
      (omega (arith, length-before key m)) found
  where
    index : length (before key m) - 1 - i ≡ m - 1 - i
    index = omega (arith, length-before key m)

    found : get_elem? (before key m) (length (before key m) - 1 - i) ≡ some (key_bit key i)
    found =
        ap (λ (j : ℕ). get_elem? (before key m) j) index
        ∙ before-get key m (m - 1 - i) (omega arith)
        ∙ ap (λ (j : ℕ). some (key_bit key j)) (omega arith)

-- The descent along a key's own bits.
pub descend-before :
    (key : Key) (left level : ℕ)
    → left + level ≤ 256
    → descend left level (seq (before key 256)) (seq (before key level))
      ≡ some (seq (before key (left + level)))
unfolding descend
descend-before key zero level h = ap (λ (n : ℕ). some (seq (before key n))) (omega arith)
descend-before key (suc left) level h =
    rw
      (
        get_bit-before key 256 level (omega arith) (omega arith),
        push_bit-seq (before key level) (key_bit key level)
            (omega (arith, length-before key level)),
      )
      (ap (λ (n : ℕ). descend left n (seq (before key 256)) (seq (before key (suc level))))
          (omega arith)
        ∙ descend-before key left (suc level) (omega arith)
        ∙ ap (λ (n : ℕ). some (seq (before key n))) (omega arith))

-- Before lane `j` of round `i` the lanes in front have been shifted once more.
abbrev shifted : Key → ℕ → ℕ → ℕ → ℕ
shifted key i j a = key a / 2 ^ (if ltb a j then i + 1 else i)

halve : (x i : ℕ) → x / 2 ^ i / 2 ≡ x / 2 ^ (i + 1)
halve x i =
    div-div-eq-div-mul x (2 ^ i) 2
    ∙ ap (λ (d : ℕ). x / d) (sym (pow-suc 2 i) ∙ ap (λ (e : ℕ). 2 ^ e) (omega arith))

shifted_next :
    (key : Key) (i j : ℕ) (arr : Key) (a : ℕ)
    → arr a ≡ shifted key i j a
    → arr j ≡ shifted key i j j
    → set_lane arr j (arr j / 2) a ≡ shifted key i (j + 1) a
shifted_next key i j arr a h here = elim (Bool-cases (a == j)) [
  | inl same ↦
      let e : a ≡ j = (==_iff a j).0 same in
      let not_yet : ltb j j ≡ false = ground arith in
      let done : ltb j (j + 1) ≡ true = ground arith in
      rw (same, e, here, not_yet, done) (halve (key j) i)
  | inr differ ↦
      let n : a ≢ j = λ e. cc ((==_iff a j).1 e) in
      let unchanged : ltb a (j + 1) ≡ ltb a j = ground (arith, n) in rw (differ, unchanged) h
]

lane_bit :
    (key : Key) (i j : ℕ) (arr : Key)
    → j < 4
    → arr j ≡ shifted key i j j
    → (bit_and (arr j) 1 == 1) ≡ key_bit key (4 * i + j)
lane_bit key i j arr small h =
    let not_yet : ltb j j ≡ false = ground arith in
    let lane : (4 * i + j) % 4 ≡ j = omega arith in
    let level : (4 * i + j) / 4 ≡ i = omega arith in
    rw (lane, level, bit_and-one (arr j), h, not_yet) refl

split_lanes-before :
    (key : Key) (i left j : ℕ) (arr : Key)
    → left + j ≡ 4
    → i < 64
    → ((a : ℕ) → a < 4 → arr a ≡ shifted key i j a)
    → (arr' : Key) × (split_lanes left j arr (seq (before key (4 * i + j)))
        ≡ some (arr', seq (before key (4 * i + 4))))
      × ((a : ℕ) → a < 4 → arr' a ≡ shifted key i 4 a)
unfolding split_lanes
split_lanes-before key i zero j arr e hi h =
    let last : j ≡ 4 = omega arith in
    (arr, ap (λ (n : ℕ). some (arr, seq (before key (4 * i + n)))) last, rw last at h)
split_lanes-before key i (suc left) j arr e hi h =
    let here : arr j ≡ shifted key i j j = h j (omega arith) in
    let (arr', run, all) =
      split_lanes-before key i left (j + 1) (set_lane arr j (arr j / 2)) (omega arith) hi
        (λ a to. shifted_next key i j arr a (h a to) here) in
    (
      arr',
      rw
          (
            lane_bit key i j arr (omega arith) here,
            push_bit-seq (before key (4 * i + j)) (key_bit key (4 * i + j))
                (omega (arith, length-before key (4 * i + j))),
          )
          (ap
              (λ (n : ℕ).
                split_lanes left (j + 1) (set_lane arr j (arr j / 2)) (seq (before key n)))
              (next_number i j)
            ∙ run),
      all,
    )
  where
    next_number : (i j : ℕ) → suc (4 * i + j) ≡ 4 * i + (j + 1)
    next_number i j = omega arith

split_rounds-before :
    (key : Key) (left i : ℕ) (arr : Key)
    → left + i ≡ 64
    → ((a : ℕ) → a < 4 → arr a ≡ key a / 2 ^ i)
    → split_rounds left arr (seq (before key (4 * i))) ≡ some (seq (before key 256))
unfolding split_rounds
split_rounds-before key zero i arr e h = ap (λ (n : ℕ). some (seq (before key n))) (all_bits i e)
  where
    all_bits : (i : ℕ) → 0 + i ≡ 64 → 4 * i ≡ 256
    all_bits i e = omega arith
split_rounds-before key (suc left) i arr e h =
    let (arr', run, all) = split_lanes-before key i 4 0 arr refl (omega arith) start in
    rw (front i ∙ run) (
      ap (λ (n : ℕ). split_rounds left arr' (seq (before key n))) (next_number i)
      ∙ split_rounds-before key left (i + 1) arr' (omega arith)
          (λ a to. finished arr' a to (all a to)))
  where
    start : (a : ℕ) → a < 4 → arr a ≡ shifted key i 0 a
    start a to = let none_yet : ltb a 0 ≡ false = ground arith in rw none_yet (h a to)

    front :
        (i : ℕ)
        → split_lanes 4 0 arr (seq (before key (4 * i)))
          ≡ split_lanes 4 0 arr (seq (before key (4 * i + 0)))
    front i = ap (λ (n : ℕ). split_lanes 4 0 arr (seq (before key n))) (zero_more i)
      where
        zero_more : (i : ℕ) → 4 * i ≡ 4 * i + 0
        zero_more i = omega arith

    next_number : (i : ℕ) → 4 * i + 4 ≡ 4 * (i + 1)
    next_number i = omega arith

    finished :
        (arr' : Key) (a : ℕ) → a < 4 → arr' a ≡ shifted key i 4 a → arr' a ≡ key a / 2 ^ (i + 1)
    finished arr' a to g = let done : ltb a 4 ≡ true = ground (arith, to) in rw done at g

pub split-before : (key : Key) → split key ≡ some (seq (before key 256))
unfolding split
split-before key = split_rounds-before key 64 0 key refl (λ a to. omega arith)
