-- ===== src/Mpt/Trie/Extend.antt =====
-- `trie_extend` from any trie with no hash node, and reading back what was inserted.
use zk_evm.Prelude.{
  ℕ, ◌≤◌, ◌≡◌, refl, ap, fun_ext, ◌∙◌, List, [], ◌∷◌, length, Option, none, some, Bool, true, false,
  if◌then◌else◌,
}
use zk_evm.Mpt.Keys.{strip, append-strip, keys_eq}
use zk_evm.Mpt.Nibbles.{Nibbles}
use zk_evm.Mpt.Nibbles.Value.{IsNibs, nib}
use zk_evm.Mpt.Node.{
  Bytes, Node, empty, hash, branch, extension, leaf, TrieOpResult, ok, ValOrHash, val,
}
use zk_evm.Mpt.Trie.{trie_insert, trie_extend, from_iter_common, trie_get}
use zk_evm.Mpt.Trie.Meaning.{lookup, lookup-empty, key_of, Fixed, Hashless}
use zk_evm.Mpt.Trie.Get.{trie_get-lookup, IsNibs-rest}
use zk_evm.Mpt.Trie.Compact.{IsCompact}
use zk_evm.Mpt.Trie.InsertSteps.{blocked, put}
use zk_evm.Mpt.Trie.Insert.{InsertOutcome, trie_insert-InsertOutcome}

below :
    (child : Node) (k p : List ℕ)
    → IsNibs k
    → ((r : List ℕ) → IsNibs r → blocked child r ≡ none)
    → (o : Option (List ℕ)) → strip p k ≡ o
    → elim o [ none ↦ none | some r ↦ blocked child r ] ≡ none
below child k p hk h none e = refl
below child k p hk h (some r) e = h r (IsNibs-rest p r k (append-strip p k e) hk)

-- Without hash nodes no key ends in one.
blocked-Hashless : (t : Node) (k : List ℕ) → Hashless t → IsNibs k → blocked t k ≡ none
unfolding blocked
blocked-Hashless empty k h hk = refl
blocked-Hashless (hash x) k h hk = absurd h
blocked-Hashless (branch children value) [] h hk = refl
blocked-Hashless (branch children value) (x ∷ k) h hk =
    blocked-Hashless (children x) k (h x hk.0) hk.1
blocked-Hashless (extension n child) k h hk =
    below child k (key_of n) hk (λ r hr. blocked-Hashless child r h hr) (strip (key_of n) k) refl
blocked-Hashless (leaf n value) k h hk = refl

-- The reading of the key `q` after the value `v` went in at `k`, in place of an earlier reading.
abbrev pub read_after :
    List ℕ → List ℕ → Bytes → TrieOpResult (Option Bytes) → TrieOpResult (Option Bytes)
read_after q k v before = if keys_eq q k then ok (some v) else before

-- The puts of a list of entries, the first one first.
abbrev pub replay : List (List ℕ × Bytes) → (List ℕ → Option Bytes) → List ℕ → Option Bytes
replay [] f = f
replay ((k, v) ∷ es) f = replay es (put f k v)

-- The entries as the source takes them.
abbrev pub entries : List (List ℕ × Bytes) → List (Nibbles × ValOrHash)
entries [] = []
entries ((k, v) ∷ es) = (nib k, val v) ∷ entries es

-- Every entry's key is a key of `len` nibbles.
abbrev pub AllKeys : ℕ → List (List ℕ × Bytes) → Type 0
AllKeys len [] = Unit
AllKeys len ((k, v) ∷ es) = IsNibs k × (length k ≡ len) × AllKeys len es

replay-ext :
    (es : List (List ℕ × Bytes)) (f g : List ℕ → Option Bytes)
    → ((q : List ℕ) → f q ≡ g q)
    → (q : List ℕ) → replay es f q ≡ replay es g q
replay-ext es f g h q = ap (λ (m : List ℕ → Option Bytes). replay es m q) (fun_ext h)

module _ (len : ℕ) (fits : len ≤ 64) where
  -- With no hash node an insertion succeeds, and every key then reads as put.
  insert-Hashless :
      (t : Node) (k : List ℕ) (v : Bytes)
      → Fixed len t
      → Hashless t
      → IsNibs k
      → length k ≡ len
      → InsertOutcome len t k v none (trie_insert t (nib k) (val v))
  insert-Hashless t k v f h hk ek =
      rw (blocked-Hashless t k h hk) at (trie_insert-InsertOutcome t len k v f hk ek fits)

  read-put :
      (t t' : Node) (k q : List ℕ) (v : Bytes)
      → lookup t' q ≡ put (lookup t) k v q
      → trie_get t (nib q) ≡ ok (lookup t q)
      → trie_get t' (nib q) ≡ ok (lookup t' q)
      → trie_get t' (nib q) ≡ read_after q k v (trie_get t (nib q))
  read-put t t' k q v e g g' = rw (g', g, e) (cases (keys_eq q k))
    where
      cases :
          (c : Bool)
          → ok (if c then some v else lookup t q) ≡ (if c then ok (some v) else ok (lookup t q))
      cases true = refl
      cases false = refl

  -- Inserting a value into a trie with no hash node succeeds, and of the keys of the trie's length
  -- exactly that key then reads as the value, while every other one reads as before.
  pub trie_get-trie_insert :
      (t : Node) (k : List ℕ) (v : Bytes)
      → Fixed len t
      → Hashless t
      → IsNibs k
      → length k ≡ len
      → (t' : Node) × (trie_insert t (nib k) (val v) ≡ ok t')
        × ((q : List ℕ)
            → IsNibs q
            → length q ≡ len
            → trie_get t' (nib q) ≡ read_after q k v (trie_get t (nib q)))
  trie_get-trie_insert t k v f h hk ek =
      let (t', e, f', same, h', c') = insert-Hashless t k v f h hk ek in
      (
        t',
        e,
        λ q hq eq.
            read-put t t' k q v (same q) (trie_get-lookup t len q f hq eq fits)
              (trie_get-lookup t' len q f' hq eq fits),
      )

  extend-replay :
      (es : List (List ℕ × Bytes)) (t : Node)
      → Fixed len t
      → Hashless t
      → AllKeys len es
      → (t' : Node) × (trie_extend t (entries es) ≡ ok t')
        × Fixed len t'
        × Hashless t'
        × (IsCompact t → IsCompact t')
        × ((q : List ℕ) → lookup t' q ≡ replay es (lookup t) q)
  unfolding trie_extend
  extend-replay [] t f h hes = (t, refl, f, h, (λ c. c), λ q. refl)
  extend-replay ((k, v) ∷ es) t f h (hk, ek, hes) =
      let (t1, e1, f1, same, h1, c1) = insert-Hashless t k v f h hk ek in
      let (t2, e2, f2, h2, c2, all) = extend-replay es t1 f1 (h1 h) hes in
      (
        t2,
        rw e1 e2,
        f2,
        h2,
        (λ c. c2 (c1 c)),
        λ q. all q ∙ replay-ext es (lookup t1) (put (lookup t) k v) same q,
      )

  -- What a trie built from values at keys of one length means, and its shape.
  pub from_iter_common-Fixed :
      (es : List (List ℕ × Bytes))
      → AllKeys len es
      → (t : Node) × (from_iter_common (entries es) ≡ ok t)
        × Fixed len t
        × Hashless t
        × IsCompact t
        × ((q : List ℕ) → lookup t q ≡ replay es (λ k. none) q)
  unfolding from_iter_common
  from_iter_common-Fixed es hes =
      let (t, e, f, h, c, all) = extend-replay es empty tt tt hes in
      (t, e, f, h, c tt, λ q. all q ∙ replay-ext es (lookup empty) (λ k. none) lookup-empty q)

  -- A trie built by `try_from_iter` from values at keys of one length: no step fails, and each key
  -- of that length reads as the last value given for it, or as absent if there was none.
  pub from_iter_common-replay :
      (es : List (List ℕ × Bytes))
      → AllKeys len es
      → (t : Node) × (from_iter_common (entries es) ≡ ok t)
        × ((q : List ℕ)
            → IsNibs q
            → length q ≡ len
            → trie_get t (nib q) ≡ ok (replay es (λ k. none) q))
  from_iter_common-replay es hes =
      let (t, e, f, h, c, all) = from_iter_common-Fixed es hes in
      (t, e, λ q hq eq. trie_get-lookup t len q f hq eq fits ∙ ap ok (all q))
