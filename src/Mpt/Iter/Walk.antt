-- ===== src/Mpt/Iter/Walk.antt =====
-- The walk through a trie that the iterator is held against, and what a number of its rounds gives.
use mathlib.Core.Path.{subst}
use zk_evm.Prelude.{
  ℕ, zero, suc, ◌+◌, ◌≤◌, ◌<◌, ◌≡◌, refl, sym, arith, Option, none, some, List, [], ◌∷◌, ◌++◌,
  length, if◌then◌else◌,
}
use zk_evm.Mpt.Nibbles.{Nibbles}
use zk_evm.Mpt.Nibbles.Value.{IsNibs, nib}
use zk_evm.Mpt.Node.{
  Bytes, Node, empty, hash, branch, extension, leaf, val, hash_val, is_empty_bytes,
}
use zk_evm.Mpt.Trie.Meaning.{key_of}
use zk_evm.Mpt.Iter.{IterStackEntry, PartialTrieIter, TrieItem, visit}

-- The walk: children in order, then the value of the branch.
abbrev pub concat_from {ℓ} : {A : Type ℓ} → ℕ → ℕ → (ℕ → List A) → List A
concat_from zero i f = []
concat_from (suc left) i f = f i ++ concat_from left (i + 1) f

abbrev pub own_items : List ℕ → Bytes → List TrieItem
own_items k v = if is_empty_bytes v then [] else (nib k, val v) ∷ []

abbrev pub walk : List ℕ → Node → List TrieItem
walk k empty = []
walk k (hash h) = (nib k, hash_val h) ∷ []
walk k (branch c v) = concat_from 16 0 (λ i. walk (k ++ (i ∷ [])) (c i)) ++ own_items k v
walk k (extension n child) = walk (k ++ key_of n) child
walk k (leaf n v) = (nib (k ++ key_of n), val v) ∷ []

abbrev pub Walkable : Node → Type 0
Walkable (hash h) = Unit
Walkable (branch c v) = Unit
Walkable t = ⊥

-- No key below the node is longer than the given length, and each extension stands before a branch
-- or a hash.
abbrev pub Fits : ℕ → Node → Type 0
Fits len empty = Unit
Fits len (hash h) = Unit
Fits zero (branch c v) = ⊥
Fits (suc len) (branch c v) = (i : ℕ) → i < 16 → Fits len (c i)
Fits len (extension n child) =
    (l : List ℕ) × (rest : ℕ) × IsNibs l
    × (n ≡ nib l)
    × (len ≡ length l + rest)
    × Walkable child
    × Fits rest child
Fits len (leaf n v) = (l : List ℕ) × IsNibs l × (n ≡ nib l) × (length l ≤ len)

abbrev pub at : List ℕ → List IterStackEntry → PartialTrieIter
at k stack = record { curr_key_after_last_branch = nib k; trie_stack = stack }

abbrev pub found : Option TrieItem → List TrieItem → List TrieItem
found none xs = xs
found (some x) xs = x ∷ xs

-- A number of rounds that gives some items.
pub data Emits : ℕ → PartialTrieIter → List TrieItem → PartialTrieIter → Type 0 where
  rest : {self : PartialTrieIter} → Emits 0 self [] self
  turn :
      {n : ℕ} {key : Nibbles} {stack : List IterStackEntry} {e : IterStackEntry}
      {self' last : PartialTrieIter} {item : Option TrieItem} {xs : List TrieItem}
      → visit (record { curr_key_after_last_branch = key; trie_stack = stack }) e
        ≡ some (self', item)
      → Emits n self' xs last
      → Emits
          (suc n)
          (record { curr_key_after_last_branch = key; trie_stack = e ∷ stack })
          (found item xs)
          last

pub Emits-count :
    (n m : ℕ) {a b : PartialTrieIter} {xs : List TrieItem} → n ≡ m → Emits n a xs b → Emits m a xs b
Emits-count n m {a} {b} {xs} e p = subst (λ (n : ℕ). Emits n a xs b) e p

pub found-append :
    (item : Option TrieItem) (xs ys : List TrieItem) → found item (xs ++ ys) ≡ found item xs ++ ys
found-append none xs ys = refl
found-append (some x) xs ys = refl

pub Emits-append :
    {n m : ℕ} {a b c : PartialTrieIter} {xs ys : List TrieItem}
    → Emits n a xs b
    → Emits m b ys c
    → Emits (n + m) a (xs ++ ys) c
Emits-append {m} rest q = Emits-count m (0 + m) (omega arith) q
Emits-append {m} {ys} (turn {n} {item} {xs} e p) q =
    Emits-count (suc (n + m)) (suc n + m) (omega arith)
      (rw (sym (found-append item xs ys)) (turn e (Emits-append p q)))
