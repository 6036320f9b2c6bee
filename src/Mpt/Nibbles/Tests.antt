-- ===== src/Mpt/Nibbles/Tests.antt =====
-- Runs of the operations on keys, and the theorems at concrete keys.
use zk_evm.Prelude.{ℕ, ◌≡◌, refl, arith, List, [], ◌∷◌, ◌++◌, some, take, drop, get_elem?}
use zk_evm.Mpt.Nibbles.{
  get_nibble, get_nibble_range, truncate_n_nibbles_front, truncate_n_nibbles_back, split_at_idx,
  merge_nibbles, nibbles_are_identical_up_to_smallest_count,
  find_nibble_idx_that_differs_between_nibbles_different_lengths, diff_loop,
  find_nibble_idx_that_differs_between_nibbles_equal_lengths,
}
use zk_evm.Mpt.Intern.{is_even, create_mask_of_1s}
use zk_evm.Mpt.Nibbles.Value.{nib, nib-digits, digits}
use zk_evm.Mpt.Nibbles.Access.{get_nibble-nib}
use zk_evm.Mpt.Nibbles.Slices.{
  get_nibble_range-nib, truncate_n_nibbles_front-nib, truncate_n_nibbles_back-nib, split_at_idx-nib,
}
use zk_evm.Mpt.Nibbles.Joins.{merge_nibbles-nib}
use zk_evm.Mpt.Nibbles.Compare.{common_prefix, agree, different_lengths-nib, identical-nib}

abbrev k1 : List ℕ
k1 = 1 ∷ 2 ∷ 3 ∷ 4 ∷ []

abbrev k2 : List ℕ
k2 = 1 ∷ 2 ∷ 5 ∷ 4 ∷ []

get_nibble_run : get_nibble (record { count = 4; packed = 0x1234 }) 1 ≡ some 2
unfolding get_nibble is_even
get_nibble_run = refl

range_run :
    get_nibble_range (record { count = 4; packed = 0x1234 }) 1 3
    ≡ some (record { count = 2; packed = 0x23 })
unfolding get_nibble_range create_mask_of_1s
range_run = refl

differs_run :
    find_nibble_idx_that_differs_between_nibbles_different_lengths
      (record { count = 4; packed = 0x1234 })
      (record { count = 3; packed = 0x125 })
    ≡ some 2
unfolding find_nibble_idx_that_differs_between_nibbles_different_lengths
    find_nibble_idx_that_differs_between_nibbles_equal_lengths get_nibble_range create_mask_of_1s
    diff_loop
differs_run = refl

nib-digits_example : nib (digits 4 0x0234) ≡ record { count = 4; packed = 0x0234 }
nib-digits_example =
    nib-digits (record { count = 4; packed = 0x0234 })
      (record { short = omega arith; fits = omega arith })

get_nibble-nib_example : get_nibble (nib k1) 2 ≡ get_elem? k1 2
get_nibble-nib_example = get_nibble-nib k1 2 (omega arith) (omega arith)

get_nibble_range-nib_example : get_nibble_range (nib k1) 1 3 ≡ some (nib (take 2 (drop 1 k1)))
get_nibble_range-nib_example =
    get_nibble_range-nib k1 (omega arith) (omega arith) 1 3 (omega arith) (omega arith)

truncate_n_nibbles_front-nib_example : truncate_n_nibbles_front (nib k1) 3 ≡ some (nib (drop 3 k1))
truncate_n_nibbles_front-nib_example = truncate_n_nibbles_front-nib k1 (omega arith) (omega arith) 3

truncate_n_nibbles_back-nib_example : truncate_n_nibbles_back (nib k1) 3 ≡ some (nib (take 1 k1))
truncate_n_nibbles_back-nib_example = truncate_n_nibbles_back-nib k1 (omega arith) (omega arith) 3

split_at_idx-nib_example : split_at_idx (nib k1) 1 ≡ some (nib (take 1 k1), nib (drop 1 k1))
split_at_idx-nib_example = split_at_idx-nib k1 (omega arith) (omega arith) 1 (omega arith)

merge_nibbles-nib_example : merge_nibbles (nib k1) (nib k2) ≡ some (nib (k1 ++ k2))
merge_nibbles-nib_example = merge_nibbles-nib k1 k2 (omega arith) (omega arith) (omega arith)

different_lengths-nib_example :
    find_nibble_idx_that_differs_between_nibbles_different_lengths (nib k1) (nib k2)
    ≡ some (common_prefix k1 k2)
different_lengths-nib_example =
    different_lengths-nib k1 k2 (omega arith) (omega arith) (omega arith) (omega arith)

identical-nib_example :
    nibbles_are_identical_up_to_smallest_count (nib k1) (nib k2) ≡ some (agree k1 k2)
identical-nib_example = identical-nib k1 k2 (omega arith) (omega arith) (omega arith) (omega arith)
