-- ===== src/Smt/Key.antt =====
-- Keys of the sparse Merkle tree, `Key` of smt_trie/src/smt.rs, and the path that `get` of that file
-- keeps while it descends. A key is four field elements, each the number below 2 ^ 64 that its
-- canonical form is, so that `from_canonical_u64` is the identity; they are read at the indices below
-- 4 only. `none` is a panic.
pub mod Lanes
pub mod RoundTrip
mod Tests
use zk_evm.Prelude.{
  ℕ, zero, suc, ◌+◌, ◌*◌, ◌/◌, ◌%◌, ◌^◌, bit_and, bit_or, Bool, Option, none, some, ◌>>=◌, ltb,
  ◌==◌, if◌then◌else◌,
}
use zk_evm.Smt.Bits.{Bits, empty, push_bit, get_bit}

abbrev pub Key : Type 0
Key = ℕ → ℕ

abbrev pub set_lane : Key → ℕ → ℕ → Key
set_lane arr j v i = if i == j then v else arr i

-- A loop over four lanes that may panic.
abbrev pub each_lane : (ℕ → Option ℕ) → Option Key
each_lane f = do
  a ← f 0
  b ← f 1
  c ← f 2
  d ← f 3
  some (λ i. if i == 0 then a else if i == 1 then b else if i == 2 then c else d)

-- `<<` and `>>` on `u64` refuse an amount of 64 or more.
unfoldable pub shl_u64 : ℕ → ℕ → Option ℕ
shl_u64 x n = if ltb n 64 then some (x * 2 ^ n % 2 ^ 64) else none

unfoldable pub shr_u64 : ℕ → ℕ → Option ℕ
shr_u64 x n = if ltb n 64 then some (x / 2 ^ n) else none

-- The inner loop of `split` from lane `j` on, and the outer one.
unfoldable pub split_lanes : ℕ → ℕ → Key → Bits → Option (Key × Bits)
split_lanes zero j arr bits = some (arr, bits)
split_lanes (suc left) j arr bits = do
  bits' ← push_bit bits (bit_and (arr j) 1 == 1)
  split_lanes left (j + 1) (set_lane arr j (arr j / 2)) bits'

unfoldable pub split_rounds : ℕ → Key → Bits → Option Bits
split_rounds zero arr bits = some bits
split_rounds (suc left) arr bits = do
  (arr', bits') ← split_lanes 4 0 arr bits
  split_rounds left arr' bits'

pub split : Key → Option Bits
split self = split_rounds 64 self empty

-- The loop of `join` from the bit `i` on.
unfoldable pub join_bits : ℕ → ℕ → Bits → Key → Key → Option (Key × Key)
join_bits zero i bits n accs = some (n, accs)
join_bits (suc left) i bits n accs = do
  bit ← get_bit bits i
  let lane = i % 4
  let set : Option Key = (do
    one ← shl_u64 1 (n lane)
    some (set_lane accs lane (bit_or (accs lane) one)))
  accs' ← (if bit then set else some accs)
  join_bits left (i + 1) bits (set_lane n lane (n lane + 1)) accs'

pub join : Bits → Key → Option Key
join bits rem_key = do
  (n, accs) ← join_bits bits.count 0 bits (λ i. 0) (λ i. 0)
  each_lane (λ i. do shifted ← shl_u64 (rem_key i) (n i); some (bit_or shifted (accs i)))

pub remove_key_bits : Key → ℕ → Option Key
remove_key_bits self nbits =
    let full_levels = nbits / 4 in
    each_lane (λ i.
      shr_u64 (self i) (if ltb (full_levels * 4 + i) nbits then full_levels + 1 else full_levels))

-- `acc_key` after some more levels of the descent.
unfoldable pub descend : ℕ → ℕ → Bits → Bits → Option Bits
descend zero level keys acc_key = some acc_key
descend (suc left) level keys acc_key = do
  b ← get_bit keys level
  acc_key' ← push_bit acc_key b
  descend left (level + 1) keys acc_key'
