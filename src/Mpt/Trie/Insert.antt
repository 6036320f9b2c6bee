-- ===== src/Mpt/Trie/Insert.antt =====
-- `trie_insert` of a value changes what the trie means at one key, and keeps the keys' length.
use zk_evm.Prelude.{
  ℕ, zero, suc, ◌+◌, ◌≤◌, ◌<◌, ◌≡◌, refl, ap, ◌∙◌, arith, List, [], ◌∷◌, ◌++◌, length, Option, none,
  some, append-nil,
}
use zk_evm.Mpt.Keys.{strip-append, strip-fork, within, fork, split}
use zk_evm.Mpt.Nibbles.Value.{IsNibs, value, nib}
use zk_evm.Mpt.Node.{
  H256, Bytes, Node, empty, hash, branch, extension, leaf, TrieOpResult, ok, err, ◌>>=◌, val,
  hash_node_insert_error,
}
use zk_evm.Mpt.Trie.{insert_into_trie_rec, trie_insert, unwrap, create_node_from_insert_val}
use zk_evm.Mpt.Trie.Meaning.{lookup, lookup-leaf, lookup-empty, Fixed, Hashless}
use zk_evm.Mpt.Trie.InsertSteps.{
  blocked, put, Inserted, insert_branch, insert_within, blocked-extension,
}
use zk_evm.Mpt.Trie.Get.{IsNibs-rest, IsNibs-front, length-rest}
use zk_evm.Mpt.Trie.InsertForks.{extension_fork, leaf_fork, leaf_same}
use zk_evm.Mpt.Trie.Fork.{at_end-keys_eq}
use zk_evm.Mpt.Trie.Compact.{IsCompact}

insert_extension :
    (l : List ℕ) (child : Node) (k : List ℕ) (v : Bytes) (len rest : ℕ)
    → IsNibs l
    → 0 < length l
    → len ≡ length l + rest
    → Fixed rest child
    → IsNibs k
    → length k ≡ len
    → len ≤ 64
    → ((r : List ℕ)
        → IsNibs r
        → length r ≡ rest
        → Inserted rest child r v
            (blocked child r)
            (insert_into_trie_rec child (record { nibbles = nib r; v = val v })))
    → Inserted len
        (extension (nib l) child)
        k
        v
        (blocked (extension (nib l) child) k)
        (insert_into_trie_rec (extension (nib l) child) (record { nibbles = nib k; v = val v }))
insert_extension l child k v len rest hl pos el fc hk ek fits ih = elim (split l k (omega arith)) [
  | within r e ↦ rw (blocked-extension l child k hl) (
      rw (e, strip-append l r)
        (insert_within l child r v len rest hl (IsNibs-rest l r k e hk) pos el
          (omega (arith, length-rest l r k e))
          (ih r (IsNibs-rest l r k e hk) (omega (arith, length-rest l r k e)))))
  | fork p x a y b e f n ↦ rw (blocked-extension l child k hl) (
      rw (e, f, strip-fork x y a b n p)
        (extension_fork p x a y b v child rest len (IsNibs-front p (x ∷ a) l e hl)
          (IsNibs-rest p (x ∷ a) l e hl) (IsNibs-rest p (y ∷ b) k f hk) n fc
          (omega (arith, ap length e)) (omega (arith, ap length f)) fits))
]

whole_key : (l r k : List ℕ) → k ≡ l ++ r → length r ≡ 0 → k ≡ l
whole_key l [] k e h = e ∙ append-nil l
whole_key l (x ∷ r) k e h = absurd (omega arith)

insert_leaf :
    (l : List ℕ) (w : Bytes) (k : List ℕ) (v : Bytes) (len : ℕ)
    → IsNibs l
    → length l ≡ len
    → IsNibs k
    → length k ≡ len
    → len ≤ 64
    → Inserted len
        (leaf (nib l) w)
        k
        v
        none
        (insert_into_trie_rec (leaf (nib l) w) (record { nibbles = nib k; v = val v }))
insert_leaf l w k v len hl el hk ek fits = elim (split l k (omega arith)) [
  | within r e ↦
      rw (whole_key l r k e (omega (arith, length-rest l r k e))) (leaf_same l w v len hl el)
  | fork p x a y b e f n ↦
      rw (e, f)
        (leaf_fork p x a y b v w len (IsNibs-front p (x ∷ a) l e hl) (IsNibs-rest p (x ∷ a) l e hl)
          (IsNibs-rest p (y ∷ b) k f hk) n (omega (arith, ap length e)) (omega (arith, ap length f))
          fits)
]

insert-Fixed :
    (t : Node) (len : ℕ) (k : List ℕ) (v : Bytes)
    → Fixed len t
    → IsNibs k
    → length k ≡ len
    → len ≤ 64
    → Inserted len t k v
        (blocked t k)
        (insert_into_trie_rec t (record { nibbles = nib k; v = val v }))
unfolding blocked
insert-Fixed empty len k v f hk ek fits = (
  leaf (nib k) v,
  unfold insert_into_trie_rec create_node_from_insert_val in refl,
  (k, hk, refl, ek),
  (λ q. rw (lookup-leaf k hk v q, lookup-empty q) (at_end-keys_eq k q v)),
  (λ h. tt),
  (refl, (λ b. absurd b), λ c. tt),
)
insert-Fixed (hash h) len k v f hk ek fits = unfold insert_into_trie_rec in refl
insert-Fixed (branch children value) zero k v f hk ek fits = absurd f
insert-Fixed (branch children value) (suc len) [] v f hk ek fits = absurd (omega arith)
insert-Fixed (branch children value) (suc len) (x ∷ k) v f hk ek fits =
    insert_branch children value x k v len f hk (omega arith)
      (insert-Fixed (children x) len k v (f.1 x hk.0) hk.1 (omega arith) (omega arith))
insert-Fixed (extension n child) len k v (l, rest, hl, en, pos, el, fc) hk ek fits = rw en (
    insert_extension l child k v len rest hl pos el fc hk ek fits
      (λ r hr er. insert-Fixed child rest r v fc hr er (omega arith)))
insert-Fixed (leaf n w) len k v (l, hl, en, el) hk ek fits =
    rw en (insert_leaf l w k v len hl el hk ek fits)

-- How `trie_insert` of a value ends, by the hash node on the way.
abbrev pub InsertOutcome : ℕ → Node → List ℕ → Bytes → Option H256 → TrieOpResult Node → Type 0
InsertOutcome len t k v (some h) r = r ≡ err (hash_node_insert_error h)
InsertOutcome len t k v none r =
    (t' : Node) × (r ≡ ok t')
    × Fixed len t'
    × ((q : List ℕ) → lookup t' q ≡ put (lookup t) k v q)
    × (Hashless t → Hashless t')
    × (IsCompact t → IsCompact t')

outcome :
    (len : ℕ) (t : Node) (k : List ℕ) (v : Bytes) (o : Option H256) (r : TrieOpResult (Option Node))
    → Inserted len t k v o r
    → InsertOutcome len t k v o (r >>= unwrap)
outcome len t k v (some h) r e = rw e
outcome len t k v none r (t', e, f, q, h, (nt, bt, ct)) = (t', rw e, f, q, h, ct)

-- Inserting a value at a key of the trie's length: an error exactly where the key ends in a hash
-- node, and else a trie over keys of that length which means the old one with the value at that key,
-- which has no hash node if the old one had none, and which is compact if the old one was.
pub trie_insert-InsertOutcome :
    (t : Node) (len : ℕ) (k : List ℕ) (v : Bytes)
    → Fixed len t
    → IsNibs k
    → length k ≡ len
    → len ≤ 64
    → InsertOutcome len t k v (blocked t k) (trie_insert t (nib k) (val v))
unfolding trie_insert
trie_insert-InsertOutcome t len k v f hk ek fits =
    outcome len t k v (blocked t k) _ (insert-Fixed t len k v f hk ek fits)
