-- ===== src/Mpt/Nibbles.antt =====
-- mpt_trie/src/nibbles.rs: keys as packed sequences of nibbles. A method that mutates `self`
-- returns the new value; `none` is a panic, with the subtractions on `usize` checked.
pub mod Value
pub mod Fields
pub mod Cuts
pub mod Slices
pub mod Joins
pub mod Access
pub mod Compare
mod Tests
use zk_evm.Prelude.{
  ℕ, zero, suc, ◌+◌, ◌-◌, ◌*◌, ◌/◌, bit_and, bit_or, min, Bool, true, false, Option, none, some,
  ltb, leb, ◌==◌, if◌then◌else◌, checked_sub, ◌>>=◌, ◌>>◌, assert,
}
use zk_evm.Mpt.Intern.{shl, shr, bit_not, byte, is_even, create_mask_of_1s}

pub record Nibbles : Type 0 where
  pub count : ℕ
  pub packed : ℕ

unfoldable pub new : Nibbles
new = record { count = 0; packed = 0 }

pub from_nibble : ℕ → Option Nibbles
from_nibble n = do assert (leb n 0xf); some (record { count = 1; packed = n })

pub get_nibble : Nibbles → ℕ → Option ℕ
get_nibble self idx = do
  after ← checked_sub self.count idx
  nib_idx ← checked_sub after 1
  byte ← byte self.packed (nib_idx / 2)
  some (if is_even nib_idx then bit_and byte 0b00001111 else shr (bit_and byte 0b11110000) 4)

get_min_truncate_amount_to_prevent_over_truncating : Nibbles → ℕ → ℕ
get_min_truncate_amount_to_prevent_over_truncating self n =
    if leb n self.count then n else self.count

pub truncate_n_nibbles_front : Nibbles → ℕ → Option Nibbles
unfolding get_min_truncate_amount_to_prevent_over_truncating
truncate_n_nibbles_front self amount = do
  let n = get_min_truncate_amount_to_prevent_over_truncating self amount
  left ← checked_sub self.count n
  mask ← create_mask_of_1s (n * 4)
  let truncate_mask = bit_not (shl mask (left * 4))
  some (record { count = left; packed = bit_and self.packed truncate_mask })

pub truncate_n_nibbles_back : Nibbles → ℕ → Option Nibbles
unfolding get_min_truncate_amount_to_prevent_over_truncating
truncate_n_nibbles_back self amount = do
  let n = get_min_truncate_amount_to_prevent_over_truncating self amount
  mask ← create_mask_of_1s (n * 4)
  left ← checked_sub self.count n
  some (record { count = left; packed = shr (bit_and self.packed (bit_not mask)) (n * 4) })

pub get_nibble_range : Nibbles → ℕ → ℕ → Option Nibbles
get_nibble_range self start end = do
  range_count ← checked_sub end start
  behind ← checked_sub self.count end
  let shift_amt = behind * 4
  ones ← create_mask_of_1s (range_count * 4)
  let mask = shl ones shift_amt
  some (record { count = range_count; packed = shr (bit_and self.packed mask) shift_amt })

pub get_next_nibbles : Nibbles → ℕ → Option Nibbles
get_next_nibbles self n = get_nibble_range self 0 n

pub pop_next_nibble_front : Nibbles → Option (ℕ × Nibbles)
pop_next_nibble_front self = do
  n ← get_nibble self 0
  rest ← truncate_n_nibbles_front self 1
  some (n, rest)

pub pop_next_nibble_back : Nibbles → Option (ℕ × Nibbles)
pop_next_nibble_back self = do
  last ← checked_sub self.count 1
  n ← get_nibble self last
  rest ← truncate_n_nibbles_back self 1
  some (n, rest)

-- One round for each nibble left: `i` is the loop's counter, `mask` and `acc` its variables.
reverse_loop : ℕ → ℕ → ℕ → ℕ → ℕ → ℕ
reverse_loop zero i packed mask acc = acc
reverse_loop (suc left) i packed mask acc =
    reverse_loop left (i + 1) packed (shl mask 4)
      (bit_or (shl acc 4) (shr (bit_and packed mask) (i * 4)))

pub reverse : Nibbles → Nibbles
unfolding reverse_loop
reverse self = record { count = self.count; packed = reverse_loop self.count 0 self.packed 0xf 0 }

pub pop_nibbles_front : Nibbles → ℕ → Option (Nibbles × Nibbles)
pop_nibbles_front self n = do
  r ← get_nibble_range self 0 n
  rest ← truncate_n_nibbles_front self n
  some (r, rest)

pub pop_nibbles_back : Nibbles → ℕ → Option (Nibbles × Nibbles)
pop_nibbles_back self n = do
  start ← checked_sub self.count n
  r ← get_nibble_range self start self.count
  rest ← truncate_n_nibbles_back self n
  some (reverse r, rest)

abbrev nibble_append_safety_asserts : Nibbles → ℕ → Option (Unit {0})
nibble_append_safety_asserts self n = do assert (ltb self.count 64); assert (ltb n 16)

abbrev nibbles_append_safety_asserts : ℕ → Option (Unit {0})
nibbles_append_safety_asserts new_count = assert (leb new_count 64)

pub push_nibble_front : Nibbles → ℕ → Option Nibbles
push_nibble_front self n = do
  nibble_append_safety_asserts self n
  let shift_amt = 4 * self.count
  some (record { count = self.count + 1; packed = bit_or self.packed (shl n shift_amt) })

pub push_nibble_back : Nibbles → ℕ → Option Nibbles
push_nibble_back self n = do
  nibble_append_safety_asserts self n
  some (record { count = self.count + 1; packed = bit_or (shl self.packed 4) n })

pub push_nibbles_front : Nibbles → Nibbles → Option Nibbles
push_nibbles_front self n = do
  let new_count = self.count + n.count
  nibbles_append_safety_asserts new_count
  let shift_amt = 4 * self.count
  some (record { count = new_count; packed = bit_or self.packed (shl n.packed shift_amt) })

pub push_nibbles_back : Nibbles → Nibbles → Option Nibbles
push_nibbles_back self n = do
  let new_count = self.count + n.count
  nibbles_append_safety_asserts new_count
  let shift_amt = 4 * n.count
  some (record { count = new_count; packed = bit_or (shl self.packed shift_amt) n.packed })

unfoldable pub is_empty : Nibbles → Bool
is_empty self = self.count == 0

all_equal : ℕ → ℕ → Nibbles → Nibbles → Option Bool
all_equal zero i self other = some true
all_equal (suc left) i self other =
    let rest = all_equal left (i + 1) self other in
    do a ← get_nibble self i; b ← get_nibble other i; if a == b then rest else some false

pub nibbles_are_identical_up_to_smallest_count : Nibbles → Nibbles → Option Bool
nibbles_are_identical_up_to_smallest_count self other =
    all_equal (min self.count other.count) 0 self other

pub split_at_idx : Nibbles → ℕ → Option (Nibbles × Nibbles)
split_at_idx self idx = do
  post_count ← checked_sub self.count idx
  post_mask ← create_mask_of_1s (post_count * 4)
  let pre_mask = bit_not post_mask
  let post : Nibbles = record { count = post_count; packed = bit_and self.packed post_mask }
  let pre : Nibbles = record {
    count = idx;
    packed = shr (bit_and self.packed pre_mask) (post_count * 4);
  }
  some (pre, post)

pub split_at_idx_prefix : Nibbles → ℕ → Option Nibbles
split_at_idx_prefix self idx = do
  behind ← checked_sub self.count idx
  let shift_amt = behind * 4
  ones ← create_mask_of_1s (idx * 4)
  let pre_mask = shl ones shift_amt
  some (record { count = idx; packed = shr (bit_and self.packed pre_mask) shift_amt })

pub split_at_idx_postfix : Nibbles → ℕ → Option Nibbles
split_at_idx_postfix self idx = do
  postfix_count ← checked_sub self.count idx
  mask ← create_mask_of_1s (postfix_count * 4)
  some (record { count = postfix_count; packed = bit_and self.packed mask })

pub merge_nibble : Nibbles → ℕ → Option Nibbles
merge_nibble self post = do
  nibble_append_safety_asserts self post
  some (record { count = self.count + 1; packed = bit_or (shl self.packed 4) post })

pub merge_nibbles : Nibbles → Nibbles → Option Nibbles
merge_nibbles self post = do
  let new_count = self.count + post.count
  assert (leb new_count 64)
  let shift_amt = post.count * 4
  some (record { count = new_count; packed = bit_or (shl self.packed shift_amt) post.packed })

diff_loop : ℕ → ℕ → ℕ → ℕ → ℕ → ℕ
diff_loop zero i curr_mask packed1 packed2 = i
diff_loop (suc left) i curr_mask packed1 packed2 =
    let rest = diff_loop left (i + 1) (shr curr_mask 4) packed1 packed2 in
    if bit_and packed1 curr_mask == bit_and packed2 curr_mask then rest else i

-- The loop's counter is `n1.count` when it ends.
pub find_nibble_idx_that_differs_between_nibbles_equal_lengths : Nibbles → Nibbles → Option ℕ
find_nibble_idx_that_differs_between_nibbles_equal_lengths n1 n2 = do
  assert (n1.count == n2.count)
  let first = shl 0xf ((n1.count - 1) * 4)
  some (if n1.count == 0 then n1.count else diff_loop n1.count 0 first n1.packed n2.packed)

pub find_nibble_idx_that_differs_between_nibbles_different_lengths : Nibbles → Nibbles → Option ℕ
find_nibble_idx_that_differs_between_nibbles_different_lengths n1 n2 = do
  let min_count = min n1.count n2.count
  a ← get_nibble_range n1 0 min_count
  b ← get_nibble_range n2 0 min_count
  find_nibble_idx_that_differs_between_nibbles_equal_lengths a b
