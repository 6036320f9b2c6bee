-- ===== src/Smt/Bits/Tests.antt =====
-- The common front of two concrete sequences.
use zk_evm.Prelude.{Bool, true, false, List, [], ◌∷◌}
use zk_evm.Smt.Bits.{common_prefix}
use zk_evm.Smt.Bits.Sequences.{seq}
use zk_evm.Smt.Bits.Prefixes.{Common, common_prefix-Common}

abbrev long_bits : List Bool
long_bits = true ∷ (true ∷ (false ∷ (true ∷ [])))

abbrev short_bits : List Bool
short_bits = true ∷ (false ∷ (true ∷ []))

common_prefix-Common_example :
    Common long_bits short_bits (common_prefix (seq long_bits) (seq short_bits))
common_prefix-Common_example = common_prefix-Common long_bits short_bits
