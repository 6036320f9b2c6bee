-- ===== src/Mpt/Nibbles/Compare.antt =====
-- Comparing keys: the index of the first difference, and agreement up to the shorter key.
use native.Mathlib.Nat.{zero-add, pow-suc, mul-div_cancel}
use zk_evm.Prelude.{
  ℕ, zero, suc, ◌+◌, ◌-◌, ◌*◌, ◌/◌, ◌^◌, ◌≤◌, ◌<◌, ◌≡◌, refl, ap, sym, ◌∙◌, arith, List, [], ◌∷◌,
  ◌++◌, length, some, length-append, append_assoc, bit_and, take, length-take, All-take, Bool, true,
  false, ◌&&◌, ◌==◌, if◌then◌else◌, min, Bool-cases, inl, inr, ==_iff, ==-refl, ==-ne,
}
use zk_evm.Prelude.Powers.{pow_pos}
use zk_evm.Prelude.Bits.{bit_and_mask}
use zk_evm.Mpt.Intern.{shl, shr}
use zk_evm.Mpt.Nibbles.{
  get_nibble, all_equal, nibbles_are_identical_up_to_smallest_count, diff_loop,
  find_nibble_idx_that_differs_between_nibbles_equal_lengths,
  find_nibble_idx_that_differs_between_nibbles_different_lengths,
}
use zk_evm.Mpt.Nibbles.Fields.{shl-eq, mask_mid}
use zk_evm.Mpt.Nibbles.Slices.{get_nibble_range_front}
use zk_evm.Mpt.Nibbles.Access.{get_nibble-append, value_digit}
use zk_evm.Mpt.Nibbles.Value.{IsNibs, value, nib}

-- The length of the longest common prefix.
abbrev pub common_prefix : List ℕ → List ℕ → ℕ
common_prefix [] ys = 0
common_prefix (x ∷ xs) [] = 0
common_prefix (x ∷ xs) (y ∷ ys) = if x == y then suc (common_prefix xs ys) else 0

-- One of the two is a prefix of the other.
abbrev pub agree : List ℕ → List ℕ → Bool
agree [] ys = true
agree (x ∷ xs) [] = true
agree (x ∷ xs) (y ∷ ys) = x == y && agree xs ys

all_equal-agree :
    (left : ℕ) (p q xs ys : List ℕ)
    → left ≡ min (length xs) (length ys)
    → length p ≡ length q
    → IsNibs xs
    → IsNibs ys
    → length p + length xs ≤ 64
    → length q + length ys ≤ 64
    → all_equal left (length p) (nib (p ++ xs)) (nib (q ++ ys)) ≡ some (agree xs ys)
unfolding all_equal
all_equal-agree zero p q [] ys m e hx hy fx fy = refl
all_equal-agree (suc left) p q [] ys m e hx hy fx fy = absurd (omega arith)
all_equal-agree zero p q (x ∷ xs) [] m e hx hy fx fy = refl
all_equal-agree (suc left) p q (x ∷ xs) [] m e hx hy fx fy = absurd (omega arith)
all_equal-agree zero p q (x ∷ xs) (y ∷ ys) m e hx hy fx fy = absurd (omega arith)
all_equal-agree (suc left) p q (x ∷ xs) (y ∷ ys) m e hx hy fx fy =
    let next_p : length (p ++ (x ∷ [])) ≡ length p + 1 = length-append p (x ∷ []) in
    let next_q : length (q ++ (y ∷ [])) ≡ length q + 1 = length-append q (y ∷ []) in
    let later : all_equal left (length p + 1) (nib (p ++ (x ∷ xs))) (nib (q ++ (y ∷ ys)))
        ≡ some (agree xs ys) =
      rw (append_assoc p (x ∷ []) xs, append_assoc q (y ∷ []) ys, next_p) at
        (all_equal-agree left (p ++ (x ∷ [])) (q ++ (y ∷ [])) xs ys (omega arith) (omega arith) hx.1
          hy.1 (omega arith) (omega arith)) in
    ground (
      arith,
      get_nibble-append p x xs hx (omega arith),
      ap (λ (t : ℕ). get_nibble (nib (q ++ (y ∷ ys))) t) e
          ∙ get_nibble-append q y ys hy (omega arith),
      later,
    )

-- The comparison of two keys of at most 64 nibbles does not panic, and finds them identical up to
-- the shorter one exactly when their nibble lists agree entry by entry as far as both go.
pub identical-nib :
    (xs ys : List ℕ)
    → IsNibs xs
    → IsNibs ys
    → length xs ≤ 64
    → length ys ≤ 64
    → nibbles_are_identical_up_to_smallest_count (nib xs) (nib ys) ≡ some (agree xs ys)
unfolding nibbles_are_identical_up_to_smallest_count
identical-nib xs ys hx hy fx fy =
    all_equal-agree _ [] [] xs ys refl refl hx hy (omega arith) (omega arith)

-- The nibble under the mask of its place.
masked_nibble :
    (p : List ℕ) (x : ℕ) (xs : List ℕ)
    → IsNibs (x ∷ xs)
    → bit_and (value (p ++ (x ∷ xs))) (15 * 16 ^ length xs) ≡ x * 16 ^ length xs
masked_nibble p x xs h =
    mask_mid (value (p ++ (x ∷ xs))) 15 (length xs)
    ∙ ap (λ (t : ℕ). t * 16 ^ length xs)
        (bit_and_mask 4 (value (p ++ (x ∷ xs)) / 16 ^ length xs) ∙ value_digit p x xs h)

scaled_test : (x y k : ℕ) → (x * 16 ^ k == y * 16 ^ k) ≡ (x == y)
scaled_test x y k = elim (Bool-cases (x == y)) [
  | inl same ↦
      ap (λ (t : ℕ). t * 16 ^ k == y * 16 ^ k) ((==_iff x y).0 same)
      ∙ (==-refl (y * 16 ^ k) ∙ sym same)
  | inr differ ↦ ==-ne (x * 16 ^ k) (y * 16 ^ k) (λ e. cc (mul_cancel e, ==-refl y)) ∙ sym differ
]
  where
    mul_cancel : x * 16 ^ k ≡ y * 16 ^ k → x ≡ y
    mul_cancel e =
        sym (mul-div_cancel x (pow_pos 16 k (omega arith)))
        ∙ ap (λ (t : ℕ). t / 16 ^ k) e
        ∙ mul-div_cancel y (pow_pos 16 k (omega arith))

pick :
    (b : Bool) (i c : ℕ) {rest : ℕ}
    → rest ≡ i + 1 + c
    → (if b then rest else i) ≡ i + (if b then suc c else 0)
pick true i c h = omega arith
pick false i c h = omega arith

-- The loop from the nibbles `xs` and `ys` on, behind the prefixes `p` and `q`.
diff_loop-common :
    (p q xs ys : List ℕ) (i mask : ℕ)
    → IsNibs xs
    → IsNibs ys
    → length xs ≡ length ys
    → ((k : ℕ) → length xs ≡ suc k → mask ≡ 15 * 16 ^ k)
    → diff_loop (length xs) i mask (value (p ++ xs)) (value (q ++ ys)) ≡ i + common_prefix xs ys
unfolding diff_loop
diff_loop-common p q [] ys i mask hx hy e hm = omega arith
diff_loop-common p q (x ∷ xs) [] i mask hx hy e hm = absurd (omega arith)
diff_loop-common p q (x ∷ xs) (y ∷ ys) i mask hx hy e hm =
    rw (left_masked, right_masked, scaled_test x y (length xs))
      (pick (x == y) i (common_prefix xs ys) (
        rw (append_assoc p (x ∷ []) xs, append_assoc q (y ∷ []) ys) at
          (diff_loop-common (p ++ (x ∷ [])) (q ++ (y ∷ [])) xs ys (i + 1) (shr mask 4) hx.1 hy.1
            (omega arith) next_mask)))
  where
    next_mask : (k : ℕ) → length xs ≡ suc k → shr mask 4 ≡ 15 * 16 ^ k
    next_mask k h = omega (arith, hm (suc k) (ap suc h), pow-suc 16 k)

    left_masked : bit_and (value (p ++ (x ∷ xs))) mask ≡ x * 16 ^ length xs
    left_masked =
        ap (λ (t : ℕ). bit_and (value (p ++ (x ∷ xs))) t) (hm (length xs) refl)
        ∙ masked_nibble p x xs hx

    same_length : length ys ≡ length xs
    same_length = omega arith

    right_masked : bit_and (value (q ++ (y ∷ ys))) mask ≡ y * 16 ^ length xs
    right_masked =
        ap (λ (t : ℕ). bit_and (value (q ++ (y ∷ ys))) t)
          (hm (length xs) refl ∙ ap (λ (t : ℕ). 15 * 16 ^ t) (sym same_length))
        ∙ masked_nibble q y ys hy
        ∙ ap (λ (t : ℕ). y * 16 ^ t) same_length

first_mask : (n k : ℕ) → n ≡ suc k → k < 64 → shl 15 ((n - 1) * 4) ≡ 15 * 16 ^ k
first_mask n k h small =
    ap (λ (t : ℕ). shl 15 (t * 4)) shorter ∙ shl-eq 15 1 k (omega arith) (omega arith)
  where
    shorter : n - 1 ≡ k
    shorter = omega arith

equal_lengths-nib :
    (xs ys : List ℕ)
    → IsNibs xs
    → IsNibs ys
    → length xs ≤ 64
    → length xs ≡ length ys
    → find_nibble_idx_that_differs_between_nibbles_equal_lengths (nib xs) (nib ys)
      ≡ some (common_prefix xs ys)
unfolding find_nibble_idx_that_differs_between_nibbles_equal_lengths
equal_lengths-nib [] [] hx hy fx e = refl
equal_lengths-nib [] (y ∷ ys) hx hy fx e = absurd (omega arith)
equal_lengths-nib (x ∷ xs) ys hx hy fx e =
    let n = suc (length xs) in
    let same : (n == length ys) ≡ true = (==_iff n (length ys)).1 e in
    rw (same, ==-ne n 0 (λ h. absurd (omega arith)))
      (ap some (
        diff_loop-common [] [] (x ∷ xs) ys 0 (shl 15 ((n - 1) * 4)) hx hy e
          (λ k h. first_mask n k h (omega arith))
        ∙ zero-add _))

common_prefix-take :
    (n : ℕ) (xs ys : List ℕ)
    → n ≡ min (length xs) (length ys)
    → common_prefix (take n xs) (take n ys) ≡ common_prefix xs ys
common_prefix-take zero [] ys h = refl
common_prefix-take (suc n) [] ys h = refl
common_prefix-take zero (x ∷ xs) [] h = refl
common_prefix-take (suc n) (x ∷ xs) [] h = refl
common_prefix-take zero (x ∷ xs) (y ∷ ys) h = absurd (omega arith)
common_prefix-take (suc n) (x ∷ xs) (y ∷ ys) h = rw (common_prefix-take n xs ys (omega arith))

module _ (xs ys : List ℕ) (hx : IsNibs xs) (hy : IsNibs ys) (fx : length xs ≤ 64)
    (fy : length ys ≤ 64) where
  -- On two keys of at most 64 nibbles the index of the first difference is the length of the
  -- longest common prefix of their nibble lists.
  pub different_lengths-nib :
      find_nibble_idx_that_differs_between_nibbles_different_lengths (nib xs) (nib ys)
      ≡ some (common_prefix xs ys)
  unfolding find_nibble_idx_that_differs_between_nibbles_different_lengths
  different_lengths-nib =
      let m = min (length xs) (length ys) in
      rw
        (
          get_nibble_range_front xs hx fx m (omega arith),
          get_nibble_range_front ys hy fy m (omega arith),
        )
        (equal_lengths-nib (take m xs) (take m ys) (All-take _ m xs hx) (All-take _ m ys hy)
            (omega (arith, length-take m xs)) (omega (arith, length-take m xs, length-take m ys))
          ∙ ap some (common_prefix-take m xs ys refl))
