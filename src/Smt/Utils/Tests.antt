-- ===== src/Smt/Utils/Tests.antt =====
-- A concrete word in limbs.
use zk_evm.Arithmetic.Fields.{order}
use zk_evm.Smt.Key.{Key}
use zk_evm.Prelude.{ℕ, zero, suc, ◌/◌, ◌%◌, ◌<◌, ◌*◌, ◌+◌, ◌^◌, ◌≡◌, arith, some}
use zk_evm.Smt.Utils.{f2limbs, limbs2f, key2u, u2k}
use zk_evm.Smt.Utils.Limbs.{limbs2f-f2limbs, KeepsCanonical, key2u-u2k, u2k-key2u}

limbs2f-f2limbs_example : limbs2f (f2limbs (5 * 2 ^ 200 + 9)) ≡ some (5 * 2 ^ 200 + 9)
limbs2f-f2limbs_example = limbs2f-f2limbs (5 * 2 ^ 200 + 9) (omega arith)

-- A function that reduces, as the field does.
abbrev reduced : ℕ → ℕ
reduced n = n % order

reduced-KeepsCanonical : KeepsCanonical reduced
reduced-KeepsCanonical n h = omega (arith, h)

abbrev a_word : ℕ
a_word = 5 * 2 ^ 200 + 9

a_word-canonical : (i : ℕ) → i < 4 → a_word / 2 ^ (64 * i) % 2 ^ 64 < order
a_word-canonical zero to = omega arith
a_word-canonical (suc zero) to = omega arith
a_word-canonical (suc (suc zero)) to = omega arith
a_word-canonical (suc (suc (suc zero))) to = omega arith
a_word-canonical (suc (suc (suc (suc i)))) to = absurd (omega arith)

key2u-u2k_example : key2u (u2k reduced a_word) ≡ a_word
key2u-u2k_example = key2u-u2k reduced reduced-KeepsCanonical a_word (omega arith) a_word-canonical

abbrev a_key : Key
a_key i = i + 7

u2k-key2u_example : u2k reduced (key2u a_key) 2 ≡ a_key 2
u2k-key2u_example =
    u2k-key2u reduced reduced-KeepsCanonical a_key (λ i to. omega (arith, to)) 2 (omega arith)
