-- ===== src/Smt/Utils/Limbs.antt =====
-- Words cut into limbs and put together again.
use zk_evm.Prelude.{
  ℕ, zero, suc, ◌+◌, ◌*◌, ◌/◌, ◌%◌, ◌^◌, ◌<◌, ◌≡◌, refl, ap, sym, ◌∙◌, arith, true, some, ltb,
}
use zk_evm.Prelude.Powers.{pow-add, pow_pos, mod-mul}
use zk_evm.Kernel.U256.{modulus, shl, shr}
use zk_evm.Smt.Bits.{checked_word}
use zk_evm.Arithmetic.Fields.{order}
use zk_evm.Smt.Key.{Key}
use zk_evm.Smt.Utils.{f2limbs, limbs_from, limbs2f, key2u, u2k}

-- One limb more.
next_limb : (x i w : ℕ) → x / 2 ^ i % 2 ^ w * 2 ^ i + x % 2 ^ i ≡ x % 2 ^ (i + w)
next_limb x i w =
    sym (mod-mul x (2 ^ i) (2 ^ w) (pow_pos 2 i (omega arith)) (pow_pos 2 w (omega arith)))
    ∙ ap (λ (d : ℕ). x % d) (sym (pow-add 2 i w))

module _ (x : ℕ) (small : x < modulus) where
  below : (i : ℕ) → x % 2 ^ i < modulus
  below i = grind (arith, small)

  next_cut : (i : ℕ) → x % 2 ^ (32 * i + 32) ≡ x % 2 ^ (32 * (i + 1))
  next_cut i = ap (λ (e : ℕ). x % 2 ^ e) (omega arith)

  one_limb :
      (i : ℕ)
      → checked_word (x % 2 ^ (32 * i) + shl (f2limbs x i) (i * 32)) ≡ some (x % 2 ^ (32 * i + 32))
  unfolding shl shr f2limbs
  one_limb i =
      let places : i * 32 ≡ 32 * i = omega arith in
      let cut : x / 2 ^ (32 * i) % 2 ^ 32 * 2 ^ (32 * i) + x % 2 ^ (32 * i)
          ≡ x % 2 ^ (32 * i + 32) =
        next_limb x (32 * i) 32 in
      let fits : x % 2 ^ (32 * i + 32) < modulus = below (32 * i + 32) in
      let whole : x / 2 ^ (32 * i) % 2 ^ 32 * 2 ^ (32 * i) % modulus
          ≡ x / 2 ^ (32 * i) % 2 ^ 32 * 2 ^ (32 * i) =
        omega (arith, cut, fits) in
      let sum : x % 2 ^ (32 * i) + x / 2 ^ (32 * i) % 2 ^ 32 * 2 ^ (32 * i)
          ≡ x % 2 ^ (32 * i + 32) =
        omega (arith, cut) in
      let inside : ltb (x % 2 ^ (32 * i + 32)) modulus ≡ true = ground (arith, fits) in
      rw (places, whole, sum, inside) refl

  limbs_from-f2limbs :
      (left i : ℕ) → left + i ≡ 8 → limbs_from left i (x % 2 ^ (32 * i)) (f2limbs x) ≡ some x
  unfolding limbs_from f2limbs shr shl
  limbs_from-f2limbs zero i e =
      ap (λ (n : ℕ). some (x % 2 ^ (32 * n))) (all_limbs i e) ∙ ap (λ (n : ℕ). some n) whole
    where
      all_limbs : (i : ℕ) → 0 + i ≡ 8 → i ≡ 8
      all_limbs i e = omega arith

      whole : x % 2 ^ 256 ≡ x
      whole = omega (arith, small)
  limbs_from-f2limbs (suc left) i e = rw (one_limb i) (
      ap (λ (a : ℕ). limbs_from left (i + 1) a (f2limbs x)) (next_cut i)
      ∙ limbs_from-f2limbs left (i + 1) (omega arith))

  -- A word of 256 bits, cut into eight limbs of 32 bits, is put together again without an overflow.
  pub limbs2f-f2limbs : limbs2f (f2limbs x) ≡ some x
  unfolding limbs2f
  limbs2f-f2limbs =
      ap (λ (a : ℕ). limbs_from 8 0 a (f2limbs x)) (omega arith) ∙ limbs_from-f2limbs 8 0 refl

-- The parts of a word that was put together of four.
four_parts :
    (a b c d : ℕ)
    → a < order
    → b < order
    → c < order
    → d < order
    → (part : ℕ → ℕ) → part 0 ≡ a
    → part 1 ≡ b
    → part 2 ≡ c
    → part 3 ≡ d
    → (i : ℕ) → i < 4
    → (a + b * 2 ^ 64 + c * 2 ^ 128 + d * 2 ^ 192) / 2 ^ (64 * i) % 2 ^ 64 ≡ part i
four_parts a b c d ha hb hc hd part pa pb pc pd zero to = omega arith
four_parts a b c d ha hb hc hd part pa pb pc pd (suc zero) to = omega arith
four_parts a b c d ha hb hc hd part pa pb pc pd (suc (suc zero)) to = omega arith
four_parts a b c d ha hb hc hd part pa pb pc pd (suc (suc (suc zero))) to = omega arith
four_parts a b c d ha hb hc hd part pa pb pc pd (suc (suc (suc (suc i)))) to = absurd (omega arith)

-- What plonky2 documents of `from_canonical_u64`: below the order of the field, it keeps the number.
abbrev pub KeepsCanonical : (ℕ → ℕ) → Type 0
KeepsCanonical from_canonical_u64 = (n : ℕ) → n < order → from_canonical_u64 n ≡ n

module _ (from_canonical_u64 : ℕ → ℕ) (keeps : KeepsCanonical from_canonical_u64) where
  -- A word of 256 bits whose four parts of 64 bits are each below the order of the field, made into a
  -- key, is put together again.
  pub key2u-u2k :
      (x : ℕ)
      → x < modulus
      → ((i : ℕ) → i < 4 → x / 2 ^ (64 * i) % 2 ^ 64 < order)
      → key2u (u2k from_canonical_u64 x) ≡ x
  unfolding key2u u2k
  key2u-u2k x small canonical =
      rw
        (
          keeps _ (canonical 0 (omega arith)),
          keeps _ (canonical 1 (omega arith)),
          keeps _ (canonical 2 (omega arith)),
          keeps _ (canonical 3 (omega arith)),
        )
        (omega (
          arith,
          next_limb x 0 64,
          next_limb x 64 64,
          next_limb x 128 64,
          next_limb x 192 64,
          small,
        ))

  -- A key of four canonical elements, made into a word, gives the same elements again.
  pub u2k-key2u :
      (key : Key)
      → ((i : ℕ) → i < 4 → key i < order)
      → (i : ℕ) → i < 4
      → u2k from_canonical_u64 (key2u key) i ≡ key i
  unfolding key2u u2k
  u2k-key2u key canonical i to = back i to ∙ keeps (key i) (canonical i to)
    where
      same_part : (i : ℕ) → i < 4 → key2u key / 2 ^ (64 * i) % 2 ^ 64 ≡ key i
      same_part i to =
          four_parts (key 0) (key 1) (key 2) (key 3) (canonical 0 (omega arith))
            (canonical 1 (omega arith)) (canonical 2 (omega arith)) (canonical 3 (omega arith)) key
            refl refl refl refl i to

      back : (i : ℕ) → i < 4 → u2k from_canonical_u64 (key2u key) i ≡ from_canonical_u64 (key i)
      back i to = ap from_canonical_u64 (same_part i to)
