-- ===== src/Mpt/Keys.antt =====
-- Lists of nibbles as keys: stripping a prefix, and how two keys part.
use zk_evm.Prelude.{
  ℕ, suc, ◌+◌, ◌≤◌, ◌≡◌, ◌≢◌, refl, ap, sym, ◌∙◌, arith, List, [], ◌∷◌, ◌++◌, length, Option, none,
  some, Bool, true, false, ◌==◌, if◌then◌else◌, Bool-cases, inl, inr, ==_iff, ==-refl, ==-ne, drop,
}
use zk_evm.Mpt.Nibbles.Compare.{common_prefix, agree}

-- What is left of a key behind a prefix, if it has that prefix.
abbrev pub strip : List ℕ → List ℕ → Option (List ℕ)
strip [] k = some k
strip (x ∷ p) [] = none
strip (x ∷ p) (y ∷ k) = if x == y then strip p k else none

-- The first key is a prefix of the second, or they part at a nibble.
pub data Split (l k : List ℕ) : Type 0 where
  within : (r : List ℕ) → k ≡ l ++ r → Split l k
  fork :
      (p : List ℕ) (x : ℕ) (a : List ℕ) (y : ℕ) (b : List ℕ)
      → l ≡ p ++ (x ∷ a)
      → k ≡ p ++ (y ∷ b)
      → x ≢ y
      → Split l k

Split-cons : {l k : List ℕ} (x y : ℕ) → x ≡ y → Split l k → Split (x ∷ l) (y ∷ k)
Split-cons x y e (within r h) = within r (cc)
Split-cons x y e (fork p z a w b h g n) = fork (x ∷ p) z a w b (cc) (cc) n

-- Of two keys with the first no longer than the second.
pub split : (l k : List ℕ) → length l ≤ length k → Split l k
split [] k h = within k refl
split (x ∷ l) [] h = absurd (omega arith)
split (x ∷ l) (y ∷ k) h = elim (Bool-cases (x == y)) [
  | inl same ↦ Split-cons x y ((==_iff x y).0 same) (split l k (omega arith))
  | inr differ ↦ fork [] x l y k refl refl (λ e. cc ((==_iff x y).1 e))
]

pub strip-append : (l r : List ℕ) → strip l (l ++ r) ≡ some r
strip-append [] r = refl
strip-append (x ∷ l) r = rw (==-refl x) (strip-append l r)

pub agree-append : (l r : List ℕ) → agree l (l ++ r) ≡ true
agree-append [] r = refl
agree-append (x ∷ l) r = rw (==-refl x) (agree-append l r)

pub common_prefix-append : (l r : List ℕ) → common_prefix l (l ++ r) ≡ length l
common_prefix-append [] r = refl
common_prefix-append (x ∷ l) r = rw (==-refl x) (ap suc (common_prefix-append l r))

module _ (x y : ℕ) (a b : List ℕ) (differ : x ≢ y) where
  pub strip-fork : (p : List ℕ) → strip (p ++ (x ∷ a)) (p ++ (y ∷ b)) ≡ none
  strip-fork [] = rw (==-ne x y differ)
  strip-fork (z ∷ p) = rw (==-refl z) (strip-fork p)

  pub agree-fork : (p : List ℕ) → agree (p ++ (x ∷ a)) (p ++ (y ∷ b)) ≡ false
  agree-fork [] = rw (==-ne x y differ)
  agree-fork (z ∷ p) = rw (==-refl z) (agree-fork p)

  pub common_prefix-fork : (p : List ℕ) → common_prefix (p ++ (x ∷ a)) (p ++ (y ∷ b)) ≡ length p
  common_prefix-fork [] = rw (==-ne x y differ)
  common_prefix-fork (z ∷ p) = rw (==-refl z) (ap suc (common_prefix-fork p))

-- Stripping in two steps.
pub strip-strip :
    (p l k : List ℕ) → strip (p ++ l) k ≡ elim (strip p k) [ none ↦ none | some r ↦ strip l r ]
strip-strip [] l k = refl
strip-strip (x ∷ p) l [] = refl
strip-strip (x ∷ p) l (y ∷ k) = elim (Bool-cases (x == y)) [
  | inl same ↦ rw same (strip-strip p l k)
  | inr differ ↦ rw differ
]

-- A key with a given prefix is that prefix and the rest.
pub append-strip : (p k : List ℕ) {r : List ℕ} → strip p k ≡ some r → k ≡ p ++ r
append-strip [] k h = cc
append-strip (x ∷ p) [] h = cc
append-strip (x ∷ p) (y ∷ k) {r} h = elim (Bool-cases (x == y)) [
  | inl same ↦ cc ((==_iff x y).0 same, append-strip p k (rw same at h))
  | inr differ ↦ cc
]

abbrev pub keys_eq : List ℕ → List ℕ → Bool
keys_eq [] [] = true
keys_eq [] (y ∷ k) = false
keys_eq (x ∷ q) [] = false
keys_eq (x ∷ q) (y ∷ k) = if x == y then keys_eq q k else false

pub keys_eq_refl : (k : List ℕ) → keys_eq k k ≡ true
keys_eq_refl [] = refl
keys_eq_refl (x ∷ k) = rw (==-refl x) (keys_eq_refl k)

pub keys_eq→eq : (q k : List ℕ) → keys_eq q k ≡ true → q ≡ k
keys_eq→eq [] [] h = refl
keys_eq→eq [] (y ∷ k) h = cc
keys_eq→eq (x ∷ q) [] h = cc
keys_eq→eq (x ∷ q) (y ∷ k) h = elim (Bool-cases (x == y)) [
  | inl same ↦ cc ((==_iff x y).0 same, keys_eq→eq q k (rw same at h))
  | inr differ ↦ cc (rw differ at h)
]

-- Equality with a key, a prefix at a time.
pub keys_eq-append :
    (p k q : List ℕ) → keys_eq q (p ++ k) ≡ elim (strip p q) [ none ↦ false | some r ↦ keys_eq r k ]
keys_eq-append [] k q = refl
keys_eq-append (x ∷ p) k [] = refl
keys_eq-append (x ∷ p) k (y ∷ q) = elim (Bool-cases (x == y)) [
  | inl same ↦ rw (same, (==_iff y x).1 (sym ((==_iff x y).0 same))) (keys_eq-append p k q)
  | inr differ ↦ rw (differ, ==-ne y x (λ e. cc ((==_iff x y).1 (sym e))))
]

pub drop-fork : (p : List ℕ) (x : ℕ) (a : List ℕ) → drop (length p + 1) (p ++ (x ∷ a)) ≡ a
drop-fork [] x a = refl
drop-fork (z ∷ p) x a = ap (λ (t : ℕ). drop t (z ∷ (p ++ (x ∷ a)))) next ∙ drop-fork p x a
  where
    next : suc (length p) + 1 ≡ suc (length p + 1)
    next = omega arith
