-- ===== src/Smt/Utils.antt =====
-- Conversions between words, keys and limbs, smt_trie/src/utils.rs. An array of field elements is read
-- at the indices of the array only. `none` is a panic: a sum of 256-bit words that does not fit.
pub mod Limbs
mod Tests
use zk_evm.Prelude.{
  ℕ, zero, suc, ◌+◌, ◌*◌, ◌/◌, ◌%◌, ◌^◌, Bool, ◌&&◌, Option, none, some, ◌>>=◌, ◌==◌, if◌then◌else◌,
}
use zk_evm.Kernel.U256.{shl, shr}
use zk_evm.Smt.Bits.{checked_word}
use zk_evm.Smt.Key.{Key}

-- `low_u32` is the remainder.
unfoldable pub f2limbs : ℕ → ℕ → ℕ
f2limbs x i = shr x (32 * i) % 2 ^ 32

-- The fold from the limb `i` on.
unfoldable pub limbs_from : ℕ → ℕ → ℕ → (ℕ → ℕ) → Option ℕ
limbs_from zero i acc limbs = some acc
limbs_from (suc left) i acc limbs = do
  acc' ← checked_word (acc + shl (limbs i) (i * 32))
  limbs_from left (i + 1) acc' limbs

pub limbs2f : (ℕ → ℕ) → Option ℕ
limbs2f limbs = limbs_from 8 0 0 limbs

-- A word from its four parts of 64 bits.
unfoldable pub key2u : Key → ℕ
key2u key = key 0 + key 1 * 2 ^ 64 + key 2 * 2 ^ 128 + key 3 * 2 ^ 192

-- The parts of a word, with plonky2's `from_canonical_u64` as a parameter, which gives the canonical
-- number of the element that it makes.
unfoldable pub u2k : (ℕ → ℕ) → ℕ → Key
u2k from_canonical_u64 x i = from_canonical_u64 (x / 2 ^ (64 * i) % 2 ^ 64)

abbrev zero_group : (ℕ → ℕ) → ℕ → Bool
zero_group node i =
    node (i * 4) == 0 && (node (i * 4 + 1) == 0 && (node (i * 4 + 2) == 0 && node (i * 4 + 3) == 0))

-- The loop over the groups of four elements: `nfound` and `fnd`.
unfoldable pub sibling_loop : ℕ → ℕ → ℕ × ℕ → (ℕ → ℕ) → ℕ × ℕ
sibling_loop zero i (nfound, fnd) node = (nfound, fnd)
sibling_loop (suc left) i (nfound, fnd) node =
    sibling_loop left (i + 1) (if zero_group node i then (nfound, fnd) else (nfound + 1, i)) node

abbrev unique : ℕ × ℕ → Option ℕ
unique (nfound, fnd) = if nfound == 1 then some fnd else none

-- `none` is -1 here.
pub get_unique_sibling : (ℕ → ℕ) → Option ℕ
unfolding sibling_loop
get_unique_sibling node = unique (sibling_loop 3 0 (0, 0) node)
