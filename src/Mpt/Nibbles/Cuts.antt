-- ===== src/Mpt/Nibbles/Cuts.antt =====
-- The methods that cut a key: what they return, as cuts of the list of nibbles.
use native.Mathlib.Nat.{mod-eq_of_lt, mod-lt}
use zk_evm.Prelude.{
  ℕ, ◌+◌, ◌-◌, ◌*◌, ◌/◌, ◌^◌, ◌≤◌, ◌<◌, ◌≡◌, sym, ap, ◌∙◌, arith, List, [], ◌++◌, length,
  length-append, bit_and, some, append_assoc, min, All-append,
}
use zk_evm.Prelude.Powers.{pow_pos, pow_mono, div-mul-add}
use zk_evm.Mpt.Intern.{shl, shr, bit_not}
use zk_evm.Mpt.Nibbles.{truncate_n_nibbles_front, truncate_n_nibbles_back, get_nibble_range}
use zk_evm.Mpt.Nibbles.{split_at_idx, split_at_idx_prefix, split_at_idx_postfix}
use zk_evm.Mpt.Nibbles.Value.{IsNibs, value, nib, value-lt, value-append, value-div, value-mod}
use zk_evm.Mpt.Nibbles.Fields.{
  create_mask-eq, shl-eq, shr-eq, mask_low, mask_mid, mask_not, value-lt_word,
}

mul-div_self : (q k : ℕ) → q * 16 ^ k / 16 ^ k ≡ q
mul-div_self q k =
    ap (λ (t : ℕ). t / 16 ^ k) step ∙ div-mul-add q (16 ^ k) 0 (pow_pos 16 k (omega arith))
  where
    step : q * 16 ^ k ≡ q * 16 ^ k + 0
    step = omega arith

module _ (xs ys : List ℕ) (hx : IsNibs xs) (hy : IsNibs ys) where
  cut_low : bit_and (value (xs ++ ys)) (16 ^ length ys - 1) ≡ value ys
  cut_low = mask_low (value (xs ++ ys)) (length ys) ∙ value-mod xs ys hy

  cut_top :
      bit_and (value (xs ++ ys)) ((16 ^ length xs - 1) * 16 ^ length ys) ≡ value xs * 16 ^ length ys
  cut_top =
      mask_mid (value (xs ++ ys)) (16 ^ length xs - 1) (length ys)
      ∙ ap (λ (t : ℕ). bit_and t (16 ^ length xs - 1) * 16 ^ length ys) (value-div xs ys hy)
      ∙ ap (λ (t : ℕ). t * 16 ^ length ys)
          (mask_low (value xs) (length xs) ∙ mod-eq_of_lt (value-lt xs hx))

  module _ (fits : length xs + length ys ≤ 64) where
    word : value (xs ++ ys) < 2 ^ 320
    word = value-lt_word (xs ++ ys) (All-append _ xs ys hx hy) (omega (arith, length-append xs ys))

    mask_bound : (k : ℕ) → k ≤ 64 → 16 ^ k < 2 ^ 320
    mask_bound k h = omega (arith, pow_mono 16 k 79 (omega arith) (omega arith))

    cut_high :
        shr (bit_and (value (xs ++ ys)) (bit_not (16 ^ length ys - 1))) (length ys * 4) ≡ value xs
    cut_high =
        shr-eq _ (length ys)
        ∙ ap (λ (t : ℕ). t / 16 ^ length ys) high
        ∙ mul-div_self (value xs) (length ys)
      where
        small : 16 ^ length ys - 1 < 2 ^ 320
        small = omega (arith, mask_bound (length ys) (omega arith))

        high : bit_and (value (xs ++ ys)) (bit_not (16 ^ length ys - 1)) ≡ value xs * 16 ^ length ys
        high = omega (
          arith,
          mask_not (value (xs ++ ys)) (16 ^ length ys - 1) word small,
          cut_low,
          value-append xs ys,
        )

    shifted_mask : shl (16 ^ length xs - 1) (length ys * 4) ≡ (16 ^ length xs - 1) * 16 ^ length ys
    shifted_mask = shl-eq (16 ^ length xs - 1) (length xs) (length ys) below (omega arith)
      where
        below : 16 ^ length xs - 1 < 16 ^ length xs
        below = omega (arith, pow_pos 16 (length xs) (omega arith))

    cut_front :
        bit_and (value (xs ++ ys)) (bit_not (shl (16 ^ length xs - 1) (length ys * 4))) ≡ value ys
    cut_front = omega (
      arith,
      mask_not (value (xs ++ ys)) (shl (16 ^ length xs - 1) (length ys * 4)) word
          (mod-lt _ (omega arith)),
      ap (λ (t : ℕ). bit_and (value (xs ++ ys)) t) shifted_mask,
      cut_top,
      value-append xs ys,
    )

module _ (xs ys : List ℕ) (hx : IsNibs xs) (hy : IsNibs ys)
    (fits : length xs + length ys ≤ 64) where
  pub front_append :
      (n : ℕ)
      → min n (length (xs ++ ys)) ≡ length xs
      → truncate_n_nibbles_front (nib (xs ++ ys)) n ≡ some (nib ys)
  unfolding truncate_n_nibbles_front
  front_append n e = ground (
    arith,
    length-append xs ys,
    create_mask-eq (length xs) (omega arith),
    cut_front xs ys hx hy fits,
  )

  pub back_append :
      (n : ℕ)
      → min n (length (xs ++ ys)) ≡ length ys
      → truncate_n_nibbles_back (nib (xs ++ ys)) n ≡ some (nib xs)
  unfolding truncate_n_nibbles_back
  back_append n e = ground (
    arith,
    length-append xs ys,
    create_mask-eq (length ys) (omega arith),
    cut_high xs ys hx hy fits,
  )

  pub split_append :
      (n : ℕ) → n ≡ length xs → split_at_idx (nib (xs ++ ys)) n ≡ some (nib xs, nib ys)
  unfolding split_at_idx
  split_append n e = ground (
    arith,
    length-append xs ys,
    create_mask-eq (length ys) (omega arith),
    cut_high xs ys hx hy fits,
    cut_low xs ys hx hy,
  )

  pub postfix_append :
      (n : ℕ) → n ≡ length xs → split_at_idx_postfix (nib (xs ++ ys)) n ≡ some (nib ys)
  unfolding split_at_idx_postfix
  postfix_append n e =
      ground
        (arith, length-append xs ys, create_mask-eq (length ys) (omega arith), cut_low xs ys hx hy)

module _ (xs ys zs : List ℕ) (hx : IsNibs xs) (hy : IsNibs ys) (hz : IsNibs zs)
    (fits : length xs + length ys + length zs ≤ 64) where
  cut_mid :
      shr
        (bit_and (value (xs ++ (ys ++ zs))) (shl (16 ^ length ys - 1) (length zs * 4)))
        (length zs * 4)
      ≡ value ys
  cut_mid =
      shr-eq _ (length zs)
      ∙ ap (λ (t : ℕ). bit_and (value (xs ++ (ys ++ zs))) t / 16 ^ length zs)
          (shifted_mask ys zs hy hz (omega arith))
      ∙ ap (λ (t : ℕ). t / 16 ^ length zs)
          (mask_mid (value (xs ++ (ys ++ zs))) (16 ^ length ys - 1) (length zs))
      ∙ mul-div_self _ (length zs)
      ∙ ap (λ (t : ℕ). bit_and t (16 ^ length ys - 1)) above
      ∙ cut_low xs ys hx hy
    where
      above : value (xs ++ (ys ++ zs)) / 16 ^ length zs ≡ value (xs ++ ys)
      above =
          ap (λ (t : List ℕ). value t / 16 ^ length zs) (sym (append_assoc xs ys zs))
          ∙ value-div (xs ++ ys) zs hz

  pub range_append :
      (start end : ℕ)
      → start ≡ length xs
      → end ≡ length xs + length ys
      → get_nibble_range (nib (xs ++ (ys ++ zs))) start end ≡ some (nib ys)
  unfolding get_nibble_range
  range_append start end e f = ground (
    arith,
    length-append xs (ys ++ zs),
    length-append ys zs,
    create_mask-eq (length ys) (omega arith),
    cut_mid,
  )

module _ (xs ys : List ℕ) (hx : IsNibs xs) (hy : IsNibs ys)
    (fits : length xs + length ys ≤ 64) where
  pub prefix_append :
      (n : ℕ) → n ≡ length xs → split_at_idx_prefix (nib (xs ++ ys)) n ≡ some (nib xs)
  unfolding split_at_idx_prefix
  prefix_append n e = ground (
    arith,
    length-append xs ys,
    create_mask-eq (length xs) (omega arith),
    cut_mid [] xs ys tt hx hy (omega arith),
  )
