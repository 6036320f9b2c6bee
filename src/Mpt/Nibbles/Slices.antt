-- ===== src/Mpt/Nibbles/Slices.antt =====
-- The methods that cut a key return the cuts of its list of nibbles: `truncate_n_nibbles_*`,
-- `get_nibble_range`, `split_at_idx*` and the methods that pop several nibbles.
use native.Mathlib.Nat.{sub-zero}
use zk_evm.Prelude.{
  ℕ, ◌+◌, ◌-◌, ◌≤◌, ◌≡◌, ap, arith, List, ◌++◌, length, some, take, drop, take-append-drop,
  length-take, length-drop, All-take, All-drop,
}
use zk_evm.Mpt.Nibbles.{truncate_n_nibbles_front, truncate_n_nibbles_back, get_nibble_range}
use zk_evm.Mpt.Nibbles.{split_at_idx, split_at_idx_prefix, split_at_idx_postfix, pop_nibbles_front}
use zk_evm.Mpt.Nibbles.Value.{IsNibs, nib}
use zk_evm.Mpt.Nibbles.Cuts.{
  front_append, back_append, split_append, prefix_append, postfix_append, range_append,
}

module _ (l : List ℕ) (hl : IsNibs l) (fits : length l ≤ 64) where
  cut_length : (n : ℕ) → length (take n l ++ drop n l) ≡ length l
  cut_length n = ap length (take-append-drop n l)

  parts_fit : (n : ℕ) → length (take n l) + length (drop n l) ≤ 64
  parts_fit n = omega (arith, length-take n l, length-drop n l)

  -- Truncating a key of at most 64 nibbles at the front drops that many nibbles of its list, and
  -- all of them past its end.
  pub truncate_n_nibbles_front-nib :
      (n : ℕ) → truncate_n_nibbles_front (nib l) n ≡ some (nib (drop n l))
  truncate_n_nibbles_front-nib n = rw (take-append-drop n l) at (
      front_append (take n l) (drop n l) (All-take _ n l hl) (All-drop _ n l hl) (parts_fit n) n
        (omega (arith, cut_length n, length-take n l)))

  -- Truncating a key of at most 64 nibbles at the back keeps the front of its list, and nothing
  -- past its length.
  pub truncate_n_nibbles_back-nib :
      (n : ℕ) → truncate_n_nibbles_back (nib l) n ≡ some (nib (take (length l - n) l))
  truncate_n_nibbles_back-nib n =
      let k = length l - n in
      rw (take-append-drop k l) at (
        back_append (take k l) (drop k l) (All-take _ k l hl) (All-drop _ k l hl) (parts_fit k) n
          (omega (arith, cut_length k, length-drop k l)))

  -- Splitting a key of at most 64 nibbles at an index within it gives the two parts of its list,
  -- packed.
  pub split_at_idx-nib :
      (n : ℕ) → n ≤ length l → split_at_idx (nib l) n ≡ some (nib (take n l), nib (drop n l))
  split_at_idx-nib n h = rw (take-append-drop n l) at (
      split_append (take n l) (drop n l) (All-take _ n l hl) (All-drop _ n l hl) (parts_fit n) n
        (omega (arith, length-take n l)))

  pub split_at_idx_prefix-nib :
      (n : ℕ) → n ≤ length l → split_at_idx_prefix (nib l) n ≡ some (nib (take n l))
  split_at_idx_prefix-nib n h = rw (take-append-drop n l) at (
      prefix_append (take n l) (drop n l) (All-take _ n l hl) (All-drop _ n l hl) (parts_fit n) n
        (omega (arith, length-take n l)))

  pub split_at_idx_postfix-nib :
      (n : ℕ) → n ≤ length l → split_at_idx_postfix (nib l) n ≡ some (nib (drop n l))
  split_at_idx_postfix-nib n h = rw (take-append-drop n l) at (
      postfix_append (take n l) (drop n l) (All-take _ n l hl) (All-drop _ n l hl) (parts_fit n) n
        (omega (arith, length-take n l)))

  -- The nibbles of a key of at most 64 nibbles from a start up to an end within it are that slice
  -- of its list, packed.
  pub get_nibble_range-nib :
      (start end : ℕ)
      → start ≤ end
      → end ≤ length l
      → get_nibble_range (nib l) start end ≡ some (nib (take (end - start) (drop start l)))
  get_nibble_range-nib start end h k =
      let n = end - start in
      let r = drop start l in
      let hr : IsNibs r = All-drop _ start l hl in
      rw (take-append-drop start l) at (
        rw (take-append-drop n r) at (
          range_append (take start l) (take n r) (drop n r) (All-take _ start l hl)
            (All-take _ n r hr) (All-drop _ n r hr)
            (omega
              (arith, length-take start l, length-drop start l, length-take n r, length-drop n r))
            start end (omega (arith, length-take start l))
            (omega (arith, length-take start l, length-drop start l, length-take n r))))

  -- The next `n` nibbles.
  pub get_nibble_range_front :
      (n : ℕ) → n ≤ length l → get_nibble_range (nib l) 0 n ≡ some (nib (take n l))
  get_nibble_range_front n h = rw (sub-zero n) at (get_nibble_range-nib 0 n (omega arith) h)

  -- Popping nibbles from the front.
  pub pop_nibbles_front-nib :
      (n : ℕ) → n ≤ length l → pop_nibbles_front (nib l) n ≡ some (nib (take n l), nib (drop n l))
  unfolding pop_nibbles_front
  pop_nibbles_front-nib n h =
      ground (arith, get_nibble_range_front n, truncate_n_nibbles_front-nib n)
