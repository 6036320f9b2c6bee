-- ===== src/Mpt/Delete/Reads.antt =====
-- `trie_get` after `trie_delete`.
use zk_evm.Prelude.{
  ap, ℕ, ◌≤◌, ◌≡◌, refl, List, length, Option, none, Bool, true, false, if◌then◌else◌,
}
use zk_evm.Mpt.Keys.{keys_eq}
use zk_evm.Mpt.Nibbles.Value.{IsNibs, nib}
use zk_evm.Mpt.Trie.Compact.{IsCompact}
use zk_evm.Mpt.Node.{Bytes, Node, OnOrphanedHashNode, TrieOpResult, ok}
use zk_evm.Mpt.Trie.{trie_get, from_iter_common}
use zk_evm.Mpt.Trie.Extend.{AllKeys, entries, replay, from_iter_common-Fixed}
use zk_evm.Prelude.{ap, sym, ◌∙◌}
use zk_evm.Mpt.Trie.Get.{trie_get-lookup}
use zk_evm.Mpt.Trie.Meaning.{lookup, Fixed, Hashless}
use zk_evm.Mpt.Delete.{trie_delete}
use zk_evm.Mpt.Delete.Steps.{without}
use zk_evm.Mpt.Delete.Remove.{trie_delete-DeleteOutcome}

-- The reading of the key `q` after `k` went, in place of an earlier reading.
abbrev pub read_without :
    List ℕ → List ℕ → TrieOpResult (Option Bytes) → TrieOpResult (Option Bytes)
read_without q k before = if keys_eq q k then ok none else before

read-without :
    (t t' : Node) (k q : List ℕ)
    → lookup t' q ≡ without (lookup t) k q
    → trie_get t (nib q) ≡ ok (lookup t q)
    → trie_get t' (nib q) ≡ ok (lookup t' q)
    → trie_get t' (nib q) ≡ read_without q k (trie_get t (nib q))
read-without t t' k q e g g' = rw (g', g, e) (cases (keys_eq q k))
  where
    cases :
        (c : Bool) → ok (if c then none else lookup t q) ≡ (if c then ok none else ok (lookup t q))
    cases true = refl
    cases false = refl

-- Deleting a key of the trie's length from a compact trie with no hash node succeeds and returns
-- what `trie_get` answers for the key before; after it that key reads as absent, and every other key
-- of that length as before.
pub trie_get-trie_delete :
    (t : Node) (len : ℕ) (k : List ℕ) (strategy : OnOrphanedHashNode)
    → Fixed len t
    → Hashless t
    → IsCompact t
    → IsNibs k
    → length k ≡ len
    → len ≤ 64
    → (t' : Node) × (v : Option Bytes) × (trie_get t (nib k) ≡ ok v)
      × (trie_delete t (nib k) strategy ≡ ok (t', v))
      × ((q : List ℕ)
          → IsNibs q
          → length q ≡ len
          → trie_get t' (nib q) ≡ read_without q k (trie_get t (nib q)))
trie_get-trie_delete t len k strategy f h c hk ek fits =
    let (t', e, f', h', c', same) = trie_delete-DeleteOutcome t len k strategy f h c hk ek fits in
    (
      t',
      lookup t k,
      trie_get-lookup t len k f hk ek fits,
      e,
      λ q hq eq.
          read-without t t' k q (same q hq) (trie_get-lookup t len q f hq eq fits)
            (trie_get-lookup t' len q f' hq eq fits),
    )

-- A key deleted from a trie that was built from values at keys of one length: the deletion succeeds
-- and returns the last value given for the key, if there was one; after it that key reads as absent
-- and every other key of that length as the last value given for it, if there was one.
pub trie_delete-from_iter_common :
    (len : ℕ) (es : List (List ℕ × Bytes)) (k : List ℕ) (strategy : OnOrphanedHashNode)
    → len ≤ 64
    → AllKeys len es
    → IsNibs k
    → length k ≡ len
    → (t : Node) × (t' : Node) × (from_iter_common (entries es) ≡ ok t)
      × (trie_delete t (nib k) strategy ≡ ok (t', replay es (λ q. none) k))
      × ((q : List ℕ)
          → IsNibs q
          → length q ≡ len
          → trie_get t' (nib q) ≡ ok (without (replay es (λ q. none)) k q))
trie_delete-from_iter_common len es k strategy fits hes hk ek =
    let (t, e, f, h, c, all) = from_iter_common-Fixed len fits es hes in
    let (t', e', f', h', c', same) = trie_delete-DeleteOutcome t len k strategy f h c hk ek fits in
    (
      t,
      t',
      e,
      rw (sym (all k)) e',
      λ q hq eq.
          trie_get-lookup t' len q f' hq eq fits
          ∙ ap ok (same q hq ∙ ap (λ (o : Option Bytes). if keys_eq q k then none else o) (all q)),
    )
