-- ===== src/Mpt/Trie/InsertSteps.antt =====
-- The descent of an insertion through one branch or one extension.
use mathlib.Core.Option
use zk_evm.Prelude.{
  ℕ, suc, ◌+◌, ◌≤◌, ◌<◌, ◌≡◌, refl, ap, arith, List, [], ◌∷◌, ◌++◌, length, Option, none, some,
  Bool, true, false, ◌==◌, if◌then◌else◌, length-append, ltb-lt, ==_iff, ==-ne, Bool-cases, inl,
  inr, ◌⊎◌, drop-length, All-append,
}
use zk_evm.Mpt.Keys.{strip, keys_eq, keys_eq-append, agree-append}
use zk_evm.Mpt.Nibbles.Value.{IsNibs, value, nib, digits-value}
use zk_evm.Mpt.Nibbles.Compare.{identical-nib}
use zk_evm.Mpt.Nibbles.Access.{pop_next_nibble_front-nib}
use zk_evm.Mpt.Nibbles.Slices.{truncate_n_nibbles_front-nib}
use zk_evm.Mpt.Node.{
  H256, Bytes, Node, empty, hash, branch, extension, leaf, TrieOpResult, ok, err, ◌>>=◌, val,
  set_child, hash_node_insert_error,
}
use zk_evm.Mpt.Trie.{insert_into_trie_rec}
use zk_evm.Mpt.Trie.Meaning.{lookup, lookup-extension, lookup-child, Fixed, Hashless, key_of}
use zk_evm.Mpt.Trie.Fork.{within_postfixes}
use zk_evm.Mpt.Trie.Compact.{Kept, set_child-Kept}

-- The hash node that the walk along a key ends in, if it does.
unfoldable pub blocked : Node → List ℕ → Option H256
blocked empty k = none
blocked (hash h) k = some h
blocked (branch children value) [] = none
blocked (branch children value) (x ∷ k) = blocked (children x) k
blocked (extension n child) k = elim (strip (key_of n) k) [ none ↦ none | some r ↦ blocked child r ]
blocked (leaf n value) k = none

-- A function changed at one key.
abbrev pub put : (List ℕ → Option Bytes) → List ℕ → Bytes → List ℕ → Option Bytes
put f k v q = if keys_eq q k then some v else f q

-- The result of inserting `v` at `k` below `t`, by the hash node on the way.
abbrev pub Inserted : ℕ → Node → List ℕ → Bytes → Option H256 → TrieOpResult (Option Node) → Type 0
Inserted len t k v (some h) r = r ≡ err (hash_node_insert_error h)
Inserted len t k v none r =
    (t' : Node) × (r ≡ ok (some t'))
    × Fixed len t'
    × ((q : List ℕ) → lookup t' q ≡ put (lookup t) k v q)
    × (Hashless t → Hashless t')
    × Kept t t'

set_child-Fixed :
    (c : Bool) (old new : Node) (len : ℕ)
    → Fixed len old
    → Fixed len new
    → Fixed len (if c then new else old)
set_child-Fixed true old new len f g = g
set_child-Fixed false old new len f g = f

set_child-Hashless :
    (c : Bool) (old new : Node) → Hashless old → Hashless new → Hashless (if c then new else old)
set_child-Hashless true old new f g = g
set_child-Hashless false old new f g = f

lookup-set_child :
    (children : ℕ → Node) (value : Bytes) (x : ℕ) (k : List ℕ) (v : Bytes) (t' : Node)
    → ((q : List ℕ) → lookup t' q ≡ put (lookup (children x)) k v q)
    → (q : List ℕ)
    → lookup (branch (set_child children x t') value) q
      ≡ put (lookup (branch children value)) (x ∷ k) v q
lookup-set_child children value x k v t' hq [] = unfold lookup in refl
lookup-set_child children value x k v t' hq (z ∷ q) =
    rw (lookup-child (set_child children x t') value z q, lookup-child children value z q)
      (cases (Bool-cases (z == x)))
  where
    cases :
        ((z == x) ≡ true) ⊎ ((z == x) ≡ false)
        → lookup (if z == x then t' else children z) q
          ≡ (if keys_eq (z ∷ q) (x ∷ k) then some v else lookup (children z) q)
    cases (inl same) = rw (same, (==_iff z x).0 same) (hq q)
    cases (inr differ) = rw differ

branch_step :
    (children : ℕ → Node) (value : Bytes) (x : ℕ) (k : List ℕ) (v : Bytes) (len : ℕ)
    → x < 16
    → Fixed (suc len) (branch children value)
    → (o : Option H256) (r : TrieOpResult (Option Node)) → Inserted len (children x) k v o r
    → Inserted (suc len) (branch children value) (x ∷ k) v o (
        r >>= λ updated.
        ok (Option.map (λ child. branch (set_child children x child) value) updated))
branch_step children value x k v len small f (some h) r e = rw e
branch_step children value x k v len small f none r (t', e, ft, hq, hh, kt) = (
  branch (set_child children x t') value,
  rw e,
  (f.0, λ i h. set_child-Fixed (i == x) (children i) t' len (f.1 i h) ft),
  (λ q. lookup-set_child children value x k v t' hq q),
  (λ h i b. set_child-Hashless (i == x) (children i) t' (h i b) (hh (h x small))),
  set_child-Kept children value x t' small kt,
)

extension_put :
    (child t' : Node) (k : List ℕ) (v : Bytes)
    → ((q : List ℕ) → lookup t' q ≡ put (lookup child) k v q)
    → (o : Option (List ℕ))
    → elim o [ none ↦ none | some r ↦ lookup t' r ] ≡ (
        if elim o [ none ↦ false | some r ↦ keys_eq r k ]
        then some v
        else elim o [ none ↦ none | some r ↦ lookup child r ])
extension_put child t' k v hq none = refl
extension_put child t' k v hq (some r) = hq r

extension_step :
    (l : List ℕ) (child : Node) (k : List ℕ) (v : Bytes) (len rest : ℕ)
    → IsNibs l
    → 0 < length l
    → len ≡ length l + rest
    → (o : Option H256) (r : TrieOpResult (Option Node)) → Inserted rest child k v o r
    → Inserted len
        (extension (nib l) child)
        (l ++ k)
        v
        o
        (r >>= λ updated. ok (Option.map (extension (nib l)) updated))
extension_step l child k v len rest hl pos el (some h) r e = rw e
extension_step l child k v len rest hl pos el none r (t', e, ft, hq, hh, (nt, bt, ct)) = (
  extension (nib l) t',
  rw e,
  (l, rest, hl, refl, pos, el, ft),
  (λ q.
      rw (lookup-extension l hl t' q, keys_eq-append l k q, lookup-extension l hl child q)
        (extension_put child t' k v hq (strip l q))),
  hh,
  (refl, (λ b. b), λ (b, c). (bt b, ct c)),
)

pub insert_branch :
    (children : ℕ → Node) (value : Bytes) (x : ℕ) (k : List ℕ) (v : Bytes) (len : ℕ)
    → Fixed (suc len) (branch children value)
    → IsNibs (x ∷ k)
    → length k < 64
    → Inserted len
        (children x)
        k
        v
        (blocked (children x) k)
        (insert_into_trie_rec (children x) (record { nibbles = nib k; v = val v }))
    → Inserted
        (suc len)
        (branch children value)
        (x ∷ k)
        v
        (blocked (children x) k)
        (insert_into_trie_rec (branch children value) (record { nibbles = nib (x ∷ k); v = val v }))
unfolding insert_into_trie_rec
insert_branch children value x k v len f h fits ih =
    rw (nonempty, pop_next_nibble_front-nib x k h fits, ltb-lt x 16 h.0)
      (branch_step children value x k v len h.0 f _ _ ih)
  where
    nonempty : (length (x ∷ k) == 0) ≡ false
    nonempty = ==-ne (length (x ∷ k)) 0 (λ e. absurd (omega arith))

pub insert_within :
    (l : List ℕ) (child : Node) (r : List ℕ) (v : Bytes) (len rest : ℕ)
    → IsNibs l
    → IsNibs r
    → 0 < length l
    → len ≡ length l + rest
    → length l + length r ≤ 64
    → Inserted rest child r v
        (blocked child r)
        (insert_into_trie_rec child (record { nibbles = nib r; v = val v }))
    → Inserted len (extension (nib l) child) (l ++ r) v (blocked child r) (
        insert_into_trie_rec
          (extension (nib l) child)
          (record { nibbles = nib (l ++ r); v = val v }))
unfolding insert_into_trie_rec
insert_within l child r v len rest hl hr pos el fits ih =
    rw
      (
        within_postfixes l r hl hr fits,
        identical-nib l (l ++ r) hl hlr (omega arith) (omega (arith, length-append l r)),
        agree-append l r,
        truncate_n_nibbles_front-nib (l ++ r) hlr (omega (arith, length-append l r)) (length l),
        drop-length l r,
      )
      (extension_step l child r v len rest hl pos el _ _ ih)
  where
    hlr : IsNibs (l ++ r)
    hlr = All-append _ l r hl hr

pub blocked-extension :
    (l : List ℕ) (child : Node) (k : List ℕ)
    → IsNibs l
    → blocked (extension (nib l) child) k
      ≡ elim (strip l k) [ none ↦ none | some r ↦ blocked child r ]
unfolding blocked
blocked-extension l child k h =
    ap (λ (key : List ℕ). elim (strip key k) [ none ↦ none | some r ↦ blocked child r ])
      (digits-value l h)
