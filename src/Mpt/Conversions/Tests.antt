-- ===== src/Mpt/Conversions/Tests.antt =====
-- The theorems on conversions at concrete keys.
use zk_evm.Prelude.{[], ◌∷◌, arith}
use zk_evm.Mpt.Conversions.{from_bytes_be}
use zk_evm.Mpt.Conversions.Bytes.{BytesOutcome, from_bytes_be-BytesOutcome}
use zk_evm.Mpt.Nibbles.{Nibbles}
use zk_evm.Mpt.Conversions.HexPrefix.{RoundTrips, from_hex_prefix_encoding-to_hex_prefix_encoding}

from_bytes_be-BytesOutcome_example :
    BytesOutcome (0x12 ∷ 0x34 ∷ []) (from_bytes_be (0x12 ∷ 0x34 ∷ []))
from_bytes_be-BytesOutcome_example = from_bytes_be-BytesOutcome (0x12 ∷ 0x34 ∷ []) (omega arith)

abbrev odd_key : Nibbles
odd_key = record { count = 5; packed = 0x12345 }

from_hex_prefix_encoding-to_hex_prefix_encoding_example : RoundTrips odd_key
from_hex_prefix_encoding-to_hex_prefix_encoding_example =
    from_hex_prefix_encoding-to_hex_prefix_encoding odd_key
      (record { short = omega arith; fits = omega arith })
