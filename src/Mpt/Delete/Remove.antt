-- ===== src/Mpt/Delete/Remove.antt =====
-- `trie_delete` takes one key out of what the trie means.
use zk_evm.Prelude.{
  ℕ, zero, suc, ◌≤◌, ◌≡◌, refl, ◌∙◌, arith, List, [], ◌∷◌, length, Option, none, some, Bool-cases,
  inl, inr, ltb-lt,
}
use zk_evm.Mpt.Keys.{keys_eq, keys_eq→eq}
use zk_evm.Mpt.Nibbles.{new}
use zk_evm.Mpt.Nibbles.Value.{IsNibs, nib}
use zk_evm.Mpt.Nibbles.Access.{pop_next_nibble_front-nib, is_empty-cons}
use zk_evm.Mpt.Trie.Compact.{IsCompact}
use zk_evm.Mpt.Node.{
  Bytes, Node, empty, hash, branch, extension, leaf, OnOrphanedHashNode, TrieOpResult, ok, ◌>>=◌,
}
use zk_evm.Mpt.Trie.Meaning.{
  lookup, lookup-leaf, lookup-extension, lookup-child, lookup-empty, Fixed, Hashless,
}
use zk_evm.Mpt.Delete.{delete_intern, try_collapse_if_extension, finish_delete, trie_delete}
use zk_evm.Mpt.Delete.Shape.{Settled, try_collapse-Settled}
use zk_evm.Mpt.Delete.Steps.{without, Deleted, delete_leaf, branch_step, delete_extension}

module _ (strategy : OnOrphanedHashNode) where
  delete-Fixed :
      (t : Node) (len : ℕ) (k : List ℕ)
      → Fixed len t
      → Hashless t
      → IsCompact t
      → IsNibs k
      → length k ≡ len
      → len ≤ 64
      → Deleted len t k (lookup t k) (delete_intern t (nib k) strategy)
  unfolding delete_intern
  delete-Fixed empty len k f h c hk ek fits = rw (lookup-empty k)
  delete-Fixed (hash x) len k f h c hk ek fits = absurd h
  delete-Fixed (branch children value) zero k f h c hk ek fits = absurd f
  delete-Fixed (branch children value) (suc len) [] f h c hk ek fits = absurd (omega arith)
  delete-Fixed (branch children value) (suc len) (x ∷ k) f h c hk ek fits =
      rw
        (
          f.0,
          lookup-child children [] x k,
          is_empty-cons x k,
          pop_next_nibble_front-nib x k hk (omega arith),
          ltb-lt x 16 hk.0,
        )
        (branch_step strategy children x k len _ _ hk.0 (omega arith) (refl, f.1) h c refl
          (delete-Fixed (children x) len k (f.1 x hk.0) (h x hk.0) (c.7 x hk.0) hk.1 (omega arith)
            (omega arith)))
  delete-Fixed (extension n child) len k (l, rest, hl, en, pos, el, f) h (b, c) hk ek fits =
      rw (en, lookup-extension l hl child k)
        (delete_extension strategy l child k len rest hl pos el fits b hk ek
          (λ r hr er. delete-Fixed child rest r f h c hr er (omega arith)))
  delete-Fixed (leaf n w) len k (l, hl, en, el) h c hk ek fits =
      rw (en, lookup-leaf l hl w k) (delete_leaf l w k len hl hk)

-- How `trie_delete` ends: the trie without the key, and the value that the key read as.
abbrev pub DeleteOutcome : ℕ → Node → List ℕ → TrieOpResult (Node × Option Bytes) → Type 0
DeleteOutcome len t k r =
    (t' : Node) × (r ≡ ok (t', lookup t k))
    × Fixed len t'
    × Hashless t'
    × IsCompact t'
    × ((q : List ℕ) → IsNibs q → lookup t' q ≡ without (lookup t) k q)

absent : (t : Node) (k q : List ℕ) → lookup t k ≡ none → lookup t q ≡ without (lookup t) k q
absent t k q e = elim (Bool-cases (keys_eq q k)) [
  | inl same ↦ rw (same, keys_eq→eq q k same) e
  | inr differ ↦ rw differ
]

finish_outcome :
    (t : Node) (len : ℕ) (k : List ℕ) (strategy : OnOrphanedHashNode)
    → Fixed len t
    → Hashless t
    → IsCompact t
    → len ≤ 64
    → (o : Option Bytes) (r : TrieOpResult (Option (Node × Bytes))) → lookup t k ≡ o
    → Deleted len t k o r
    → DeleteOutcome len t k (r >>= finish_delete t strategy)
unfolding finish_delete
finish_outcome t len k strategy f h c fits none r e d =
    (t, rw (d, e), f, h, c, λ q hq. absent t k q e)
finish_outcome t len k strategy f h c fits (some v) r e (u, er, fu, hu, ou, there, hq) =
    rw er (finish (try_collapse-Settled u len new strategy fu hu ou fits))
  where
    finish :
        Settled len u (try_collapse_if_extension u new strategy)
        → DeleteOutcome len t k (finish_delete t strategy (some (u, v)))
    finish (t', et, (ft, ht, qt), nt, ct) = (t', rw (et, e), ft, ht, ct, λ q qn. qt q ∙ hq q qn)

-- Deleting a key of the trie's length from a compact trie with no hash node: the call succeeds with
-- either strategy and returns what the key read as; the new trie is over keys of that length, compact
-- and without a hash node, and means the old one without that key.
pub trie_delete-DeleteOutcome :
    (t : Node) (len : ℕ) (k : List ℕ) (strategy : OnOrphanedHashNode)
    → Fixed len t
    → Hashless t
    → IsCompact t
    → IsNibs k
    → length k ≡ len
    → len ≤ 64
    → DeleteOutcome len t k (trie_delete t (nib k) strategy)
unfolding trie_delete
trie_delete-DeleteOutcome t len k strategy f h c hk ek fits =
    finish_outcome t len k strategy f h c fits (lookup t k) _ refl
      (delete-Fixed strategy t len k f h c hk ek fits)
