-- ===== src/Smt/Key/Tests.antt =====
-- A concrete key, cut at a level and joined again.
use zk_evm.Prelude.{ℕ, ◌+◌, ◌*◌, ◌<◌, ◌≡◌, arith, some}
use zk_evm.Smt.Bits.{Bits, empty}
use zk_evm.Smt.Key.{Key, split, descend, remove_key_bits, join}
use zk_evm.Smt.Key.RoundTrip.{join-remove_key_bits}

abbrev a_key : Key
a_key i = 1000 * i + 77

join-remove_key_bits_example :
    (keys path : Bits) × (rem_key result : Key) × (split a_key ≡ some keys)
    × (descend 6 0 keys empty ≡ some path)
    × (remove_key_bits a_key 6 ≡ some rem_key)
    × (join path rem_key ≡ some result)
    × ((a : ℕ) → a < 4 → result a ≡ a_key a)
join-remove_key_bits_example = join-remove_key_bits a_key (λ a to. omega arith) 6 (omega arith)
