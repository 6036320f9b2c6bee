-- ===== src/Mpt/Iter/Items.antt =====
-- The iterator gives the items of the walk, and ends.
use zk_evm.Prelude.{
  ℕ, zero, suc, ◌+◌, ◌<◌, ◌≡◌, refl, ap, ◌∙◌, arith, none, some, List, [], ◌∷◌, inl, inr, ◌⊎◌,
}
use zk_evm.Mpt.Nibbles.{new}
use zk_evm.Mpt.Node.{Node}
use zk_evm.Mpt.Iter.{PartialTrieIter, TrieItem, visit, next, collect, rounds, trie_items}
use zk_evm.Mpt.Iter.Walk.{Fits, Emits, rest, turn, walk, at, found}
use zk_evm.Mpt.Iter.Visits.{Fits-Visited}

-- What `next` does first in a number of rounds that empties the stack.
abbrev First : ℕ → ℕ → PartialTrieIter → List TrieItem → PartialTrieIter → Type 0
First fuel n self xs last =
    ((xs ≡ []) × (next fuel self ≡ some (last, none)))
    ⊎ ((x : TrieItem) × (ys : List TrieItem) × (self' : PartialTrieIter) × (m : ℕ) × (xs ≡ x ∷ ys)
        × (next fuel self ≡ some (self', some x))
        × (m < n)
        × Emits m self' ys last)

next-First :
    (fuel n : ℕ) (self : PartialTrieIter) (xs : List TrieItem) (k : List ℕ)
    → Emits n self xs (at k [])
    → n < fuel
    → First fuel n self xs (at k [])
unfolding next
next-First zero n self xs k p enough = absurd (omega arith)
next-First (suc fuel) n self xs k rest enough = inl (refl, refl)
next-First (suc fuel) n self xs k (turn {n = m} {self'} {item = some x} {xs = ys} e p) enough =
    inr (x, ys, self', m, refl, rw e refl, omega arith, p)
next-First (suc fuel) n self xs k (turn {n = m} {self'} {item = none} {xs = ys} e p) enough =
    elim (next-First fuel m self' ys k p (omega arith)) [
      | inl (nothing, q) ↦ inl (nothing, rw e q)
      | inr (x, zs, later, m', ex, q, less, p') ↦
          inr (x, zs, later, m', ex, rw e q, omega arith, p')
    ]

collect-Emits :
    (fuel left n : ℕ) (self : PartialTrieIter) (xs : List TrieItem) (k : List ℕ)
    → Emits n self xs (at k [])
    → n < fuel
    → n < left
    → collect fuel left self ≡ some xs
unfolding collect
collect-Emits fuel zero n self xs k p enough more = absurd (omega arith)
collect-Emits fuel (suc left) n self xs k p enough more =
    elim (next-First fuel n self xs k p enough) [
      | inl (nothing, q) ↦ rw (q, nothing) refl
      | inr (x, ys, self', m, ex, q, less, p') ↦
          rw (q, ex, collect-Emits fuel left m self' ys k p' (omega arith) (omega arith)) refl
    ]

-- In a trie with no key of more than 64 nibbles, whose extensions stand before branches and hashes:
-- the iterator ends, does not panic, and gives the leaves, hash nodes and values of branches with
-- their keys, the children of a branch in order and before its own value.
pub trie_items-walk : (t : Node) → Fits 64 t → trie_items t ≡ some (walk [] t)
unfolding trie_items visit new
trie_items-walk t f =
    let (self', item, n, xs, e, few, p, w) = Fits-Visited t 64 [] f tt (omega arith) [] in
    collect-Emits (rounds t + 2) (rounds t + 2) (suc n) _ (found item xs) [] (turn e p)
      (omega arith) (omega arith)
    ∙ ap some w
