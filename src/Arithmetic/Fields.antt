-- ===== src/Arithmetic/Fields.antt =====
-- The field of the tables, which plonky2 defines: its operations, and what its documentation says of
-- them, that they are those of the integers modulo 2 ^ 64 - 2 ^ 32 + 1. A packed field has one lane
-- here, as in the verifier.
use zk_evm.Prelude.{ℕ, ◌+◌, ◌-◌, ◌*◌, ◌%◌, ◌<◌, ◌≡◌}

pub record Field : Type 1 where
  pub Elem : Type 0
  pub zeros : Elem
  pub ones : Elem
  pub add : Elem → Elem → Elem
  pub sub : Elem → Elem → Elem
  pub mul : Elem → Elem → Elem
  pub from_canonical_u64 : ℕ → Elem
  pub to_canonical_u64 : Elem → ℕ

abbrev pub order : ℕ
order = 18446744069414584321

-- Two elements are equal in the field when they have the same canonical number.
pub record IsGoldilocks (F : Field) : Type 0 where
  pub canonical_lt : (a : F.Elem) → F.to_canonical_u64 a < order
  pub of_zeros : F.to_canonical_u64 F.zeros ≡ 0
  pub of_ones : F.to_canonical_u64 F.ones ≡ 1
  pub of_from : (n : ℕ) → n < order → F.to_canonical_u64 (F.from_canonical_u64 n) ≡ n
  pub of_add :
      (a b : F.Elem)
      → F.to_canonical_u64 (F.add a b) ≡ (F.to_canonical_u64 a + F.to_canonical_u64 b) % order
  pub of_sub :
      (a b : F.Elem)
      → F.to_canonical_u64 (F.sub a b)
        ≡ (F.to_canonical_u64 a + (order - F.to_canonical_u64 b)) % order
  pub of_mul :
      (a b : F.Elem)
      → F.to_canonical_u64 (F.mul a b) ≡ (F.to_canonical_u64 a * F.to_canonical_u64 b) % order
