-- ===== src/Mpt/Nibbles/Joins.antt =====
-- The methods that join keys return the packing of the joined lists; they panic past 64 nibbles.
use native.Mathlib.Nat.{mul_comm}
use zk_evm.Prelude.{
  ℕ, ◌+◌, ◌*◌, ◌≤◌, ◌<◌, ◌≡◌, ap, sym, ◌∙◌, arith, List, [], ◌∷◌, ◌++◌, length, some, length-append,
  bit_or,
}
use zk_evm.Mpt.Intern.{shl}
use zk_evm.Mpt.Nibbles.{push_nibble_front, push_nibble_back, push_nibbles_front}
use zk_evm.Mpt.Nibbles.{push_nibbles_back, merge_nibble, merge_nibbles}
use zk_evm.Mpt.Nibbles.Value.{IsNibs, value, nib, value-lt, value-append}
use zk_evm.Mpt.Nibbles.Fields.{shl-eq, or_low, or_high}

module _ (xs ys : List ℕ) (hx : IsNibs xs) (hy : IsNibs ys)
    (fits : length xs + length ys ≤ 64) where
  joined_low : bit_or (shl (value xs) (length ys * 4)) (value ys) ≡ value (xs ++ ys)
  joined_low =
      ap (λ (t : ℕ). bit_or t (value ys))
        (shl-eq (value xs) (length xs) (length ys) (value-lt xs hx) (omega arith))
      ∙ or_low (value xs) (value ys) (length ys) (value-lt ys hy)
      ∙ sym (value-append xs ys)

  joined_high : bit_or (value ys) (shl (value xs) (length ys * 4)) ≡ value (xs ++ ys)
  joined_high =
      ap (λ (t : ℕ). bit_or (value ys) t)
        (shl-eq (value xs) (length xs) (length ys) (value-lt xs hx) (omega arith))
      ∙ or_high (value xs) (value ys) (length ys) (value-lt ys hy)
      ∙ sym (value-append xs ys)

  -- Merging two keys of at most 64 nibbles together packs the concatenation of their lists.
  pub merge_nibbles-nib : merge_nibbles (nib xs) (nib ys) ≡ some (nib (xs ++ ys))
  unfolding merge_nibbles
  merge_nibbles-nib = ground (arith, length-append xs ys, joined_low)

  pub push_nibbles_back-nib : push_nibbles_back (nib xs) (nib ys) ≡ some (nib (xs ++ ys))
  unfolding push_nibbles_back
  push_nibbles_back-nib = ground (arith, length-append xs ys, joined_low, mul_comm 4 (length ys))

  pub push_nibbles_front-nib : push_nibbles_front (nib ys) (nib xs) ≡ some (nib (xs ++ ys))
  unfolding push_nibbles_front
  push_nibbles_front-nib = ground (arith, length-append xs ys, joined_high, mul_comm 4 (length ys))

module _ (xs : List ℕ) (x : ℕ) (hx : IsNibs xs) (small : x < 16) (fits : length xs < 64) where
  pub merge_nibble-nib : merge_nibble (nib xs) x ≡ some (nib (xs ++ (x ∷ [])))
  unfolding merge_nibble
  merge_nibble-nib =
      ground (arith, length-append xs (x ∷ []), joined_low xs (x ∷ []) hx (small, tt) (omega arith))

  pub push_nibble_back-nib : push_nibble_back (nib xs) x ≡ some (nib (xs ++ (x ∷ [])))
  unfolding push_nibble_back
  push_nibble_back-nib =
      ground (arith, length-append xs (x ∷ []), joined_low xs (x ∷ []) hx (small, tt) (omega arith))

  pub push_nibble_front-nib : push_nibble_front (nib xs) x ≡ some (nib (x ∷ xs))
  unfolding push_nibble_front
  push_nibble_front-nib =
      ground (arith, joined_high (x ∷ []) xs (small, tt) hx (omega arith), mul_comm 4 (length xs))
