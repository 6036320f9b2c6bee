-- ===== src/Smt/Bits.antt =====
-- Sequences of bits, smt_trie/src/bits.rs. `none` is a panic; a product or a sum of 256-bit words that
-- does not fit panics.
pub mod Sequences
pub mod Prefixes
mod Tests
use zk_evm.Prelude.{
  ℕ, zero, suc, ◌+◌, ◌-◌, ◌*◌, ◌/◌, ◌%◌, ◌^◌, bit_and, Bool, true, false, ◌&&◌, Option, none, some,
  ◌>>=◌, ◌>>◌, assert, ltb, leb, ◌==◌, if◌then◌else◌, not,
}
use zk_evm.Kernel.U256.{modulus, shl, shr}

pub record Bits : Type 0 where
  pub count : ℕ
  pub packed : ℕ

abbrev pub from_u256 : ℕ → Bits
from_u256 packed = record { count = 256; packed = packed }

abbrev pub checked_word : ℕ → Option ℕ
checked_word x = if ltb x modulus then some x else none

unfoldable pub add : Bits → Bits → Option Bits
add self rhs = do
  assert (leb (self.count + rhs.count) 256)
  product ← checked_word (self.packed * shl 1 rhs.count)
  packed ← checked_word (product + rhs.packed)
  some (record { count = self.count + rhs.count; packed = packed })

abbrev pub empty : Bits
empty = record { count = 0; packed = 0 }

abbrev pub is_empty : Bits → Bool
is_empty self = self.count == 0

unfoldable pub pop_next_bit : Bits → Option (Bool × Bits)
pop_next_bit self = do
  assert (not (is_empty self))
  let b = not (bit_and self.packed 1 == 0)
  some (b, record { count = self.count - 1; packed = shr self.packed 1 })

unfoldable pub get_bit : Bits → ℕ → Option Bool
get_bit self i = do
  assert (ltb i self.count)
  some (not (bit_and self.packed (shl 1 (self.count - 1 - i)) == 0))

abbrev pub from_bit : Bool → ℕ
from_bit b = if b then 1 else 0

unfoldable pub push_bit : Bits → Bool → Option Bits
push_bit self bit = do
  doubled ← checked_word (self.packed * 2)
  packed ← checked_word (doubled + from_bit bit)
  some (record { count = self.count + 1; packed = packed })

unfoldable pub add_bit : Bits → Bool → Option Bits
add_bit self bit = push_bit self bit

abbrev pub bits_eq : Bits → Bits → Bool
bits_eq a b = a.count == b.count && a.packed == b.packed

-- `while self.count > k.count { self.pop_next_bit(); }`, one round for each bit at most.
unfoldable pub shorten : ℕ → Bits → Bits → Option Bits
shorten zero a b = none
shorten (suc fuel) a b =
    let popped : Option Bits = (do (bit, rest) ← pop_next_bit a; shorten fuel rest b) in
    if ltb b.count a.count then popped else some a

-- `while a != b`, with the last bits popped.
unfoldable pub part : ℕ → Bits → Bits → Bool → Bool → Option (Bits × Bool × Bool)
part zero a b a_bit b_bit = none
part (suc fuel) a b a_bit b_bit =
    let popped : Option (Bits × Bool × Bool) = (do
      (x, a') ← pop_next_bit a
      (y, b') ← pop_next_bit b
      part fuel a' b' x y) in
    if bits_eq a b then some (a, a_bit, b_bit) else popped

abbrev pub bit_eq : Bool → Bool → Bool
bit_eq true true = true
bit_eq false false = true
bit_eq a b = false

-- `common_prefix` from where the two sequences have one length and differ.
unfoldable pub first_difference : Bits → Bits → Option (Bits × Option (Bool × Bool))
first_difference a b = do
  (a_bit, a') ← pop_next_bit a
  (b_bit, b') ← pop_next_bit b
  (prefix, a_bit', b_bit') ← part (a.count + 1) a' b' a_bit b_bit
  assert (not (bit_eq a_bit' b_bit'))
  some (prefix, some (a_bit', b_bit'))

unfoldable pub common_prefix : Bits → Bits → Option (Bits × Option (Bool × Bool))
common_prefix self k = do
  a ← shorten (self.count + 1) self k
  b ← shorten (k.count + 1) k a
  if bits_eq a b then some (a, none) else first_difference a b
