-- ===== src/TraceDecoder/Wire.antt =====
-- The instructions of trace_decoder/src/wire.rs. Nibbles and bytes are numbers; a hash is its bytes.
use zk_evm.Prelude.{ℕ, Bool, Option, List}

-- A vector of the crate nunny, with at least one element.
pub record NonEmpty (A : Type 0) : Type 0 where
  pub first : A
  pub others : List A

abbrev pub Key : Type 0
Key = NonEmpty ℕ

abbrev pub RawBytes : Type 0
RawBytes = NonEmpty ℕ

pub data SmtLeafType : Type 0 where
  balance_leaf nonce_leaf code_leaf code_length_leaf : SmtLeafType
  storage_leaf : RawBytes → SmtLeafType

pub record SmtLeaf : Type 0 where
  pub node_type : SmtLeafType
  pub address : RawBytes
  pub value : RawBytes

pub data Instruction : Type 0 where
  leaf : Key → RawBytes → Instruction
  extension : Key → Instruction
  branch : ℕ → Instruction
  hash : List ℕ → Instruction
  code : RawBytes → Instruction
  account_leaf : Key → Option ℕ → Option ℕ → Bool → Bool → Instruction
  smt_leaf : SmtLeaf → Instruction
  empty_root new_trie : Instruction
