-- ===== src/Mpt/Trie/Meaning.antt =====
-- What a trie means: the function from keys to values that it stands for, and the tries over keys
-- of one length, which the code's lookup is made for.
use zk_evm.Prelude.{
  ℕ, zero, suc, ◌+◌, ◌≤◌, ◌<◌, ◌≡◌, refl, ap, arith, List, [], ◌∷◌, length, Option, none, some,
  if◌then◌else◌,
}
use zk_evm.Mpt.Keys.{strip}
use zk_evm.Mpt.Nibbles.{Nibbles}
use zk_evm.Mpt.Nibbles.Value.{IsNibs, nib, digits, digits-value}
use zk_evm.Mpt.Node.{Bytes, Node, empty, hash, branch, extension, leaf, is_empty_bytes}

abbrev pub key_of : Nibbles → List ℕ
key_of n = digits n.count n.packed

-- A leaf answers for exactly its own key.
abbrev pub at_end : Option (List ℕ) → Bytes → Option Bytes
at_end none v = none
at_end (some []) v = some v
at_end (some (x ∷ k)) v = none

unfoldable pub lookup : Node → List ℕ → Option Bytes
lookup empty k = none
lookup (hash h) k = none
lookup (branch children value) [] = if is_empty_bytes value then none else some value
lookup (branch children value) (x ∷ k) = lookup (children x) k
lookup (extension n child) k = elim (strip (key_of n) k) [ none ↦ none | some r ↦ lookup child r ]
lookup (leaf n value) k = at_end (strip (key_of n) k) value

-- The keys below this node have `len` nibbles each, and no value stands inside a branch.
abbrev pub Fixed : ℕ → Node → Type 0
Fixed len empty = Unit
Fixed len (hash h) = Unit
Fixed zero (branch children value) = ⊥
Fixed (suc len) (branch children value) = (value ≡ []) × ((i : ℕ) → i < 16 → Fixed len (children i))
Fixed len (extension n child) =
    (l : List ℕ) × (rest : ℕ) × IsNibs l
    × (n ≡ nib l)
    × (0 < length l)
    × (len ≡ length l + rest)
    × Fixed rest child
Fixed len (leaf n value) = (l : List ℕ) × IsNibs l × (n ≡ nib l) × (length l ≡ len)

-- No part of the trie is left out behind a hash.
abbrev pub Hashless : Node → Type 0
Hashless empty = Unit
Hashless (hash h) = ⊥
Hashless (branch children value) = (i : ℕ) → i < 16 → Hashless (children i)
Hashless (extension n child) = Hashless child
Hashless (leaf n value) = Unit

module _ (l : List ℕ) (hl : IsNibs l) where
  pub lookup-leaf : (v : Bytes) (k : List ℕ) → lookup (leaf (nib l) v) k ≡ at_end (strip l k) v
  unfolding lookup
  lookup-leaf v k = rw (digits-value l hl)

  pub lookup-extension :
      (child : Node) (k : List ℕ)
      → lookup (extension (nib l) child) k
        ≡ elim (strip l k) [ none ↦ none | some r ↦ lookup child r ]
  unfolding lookup
  lookup-extension child k =
      ap (λ (key : List ℕ). elim (strip key k) [ none ↦ none | some r ↦ lookup child r ])
        (digits-value l hl)

pub Fixed-length : {len : ℕ} (l : List ℕ) {rest : ℕ} → len ≡ length l + rest → rest ≤ len
Fixed-length l e = omega arith

pub lookup-child :
    (children : ℕ → Node) (value : Bytes) (z : ℕ) (r : List ℕ)
    → lookup (branch children value) (z ∷ r) ≡ lookup (children z) r
unfolding lookup
lookup-child children value z r = refl

pub lookup-empty : (k : List ℕ) → lookup empty k ≡ none
unfolding lookup
lookup-empty k = refl
