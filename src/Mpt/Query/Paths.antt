-- ===== src/Mpt/Query/Paths.antt =====
-- A path ends in a leaf where the trie has a value.
use zk_evm.Prelude.{
  ℕ, zero, suc, ◌+◌, ◌≤◌, ◌<◌, ◌≡◌, refl, ap, ap₂, sym, ◌∙◌, arith, min, Bool, true, false, Option,
  none, some, List, [], ◌∷◌, ◌++◌, length, drop, drop-length, length-append, ltb-lt, All-drop,
  ==-refl, Bool-cases, inl, inr, append-nil,
}
use zk_evm.Mpt.Keys.{strip, strip-append, within, fork, split, agree-fork, strip-fork}
use zk_evm.Mpt.Nibbles.Value.{IsNibs, nib, value, digits, digits-value}
use zk_evm.Mpt.Nibbles.Compare.{agree, identical-nib}
use zk_evm.Mpt.Nibbles.Access.{pop_next_nibble_front-nib, is_empty-cons}
use zk_evm.Mpt.Nibbles.Slices.{pop_nibbles_front-nib}
use zk_evm.Mpt.Node.{Bytes, Node, empty, hash, branch, extension, leaf}
use zk_evm.Mpt.Trie.{nibbles_eq}
use zk_evm.Mpt.Trie.Meaning.{lookup, lookup-leaf, lookup-extension, Fixed, at_end}
use zk_evm.Mpt.Query.{
  TrieSegment, empty_segment, hash_segment, branch_segment, extension_segment, leaf_segment,
  next_segment, path_segments, path_for_query,
}

-- The path ends in a leaf.
abbrev pub reaches_leaf : List TrieSegment → Bool
reaches_leaf [] = false
reaches_leaf (leaf_segment n ∷ segments) = true
reaches_leaf (s ∷ segments) = reaches_leaf segments

abbrev pub is_found : Option Bytes → Bool
is_found none = false
is_found (some v) = true

agree-append_right : (l r : List ℕ) → agree (l ++ r) l ≡ true
agree-append_right [] [] = refl
agree-append_right [] (x ∷ r) = refl
agree-append_right (x ∷ l) r = rw (==-refl x) (agree-append_right l r)

nibbles_eq-nib : (k l : List ℕ) → IsNibs k → IsNibs l → nibbles_eq (nib k) (nib l) ≡ true → k ≡ l
nibbles_eq-nib k l hk hl e =
    let counts : length k ≡ length l = ground (arith, e) in
    let values : value k ≡ value l = ground (arith, e) in
    sym (digits-value k hk) ∙ (ap₂ digits counts values ∙ digits-value l hl)

nibbles_eq_refl : (l : List ℕ) → nibbles_eq (nib l) (nib l) ≡ true
nibbles_eq_refl l = rw (==-refl (length l), ==-refl (value l)) refl

Reaches : ℕ → Node → List ℕ → Type 0
Reaches fuel t k =
    (segments : List TrieSegment) × (path_segments fuel (path_for_query t (nib k) false)
      ≡ some segments)
    × (reaches_leaf segments ≡ is_found (lookup t k))

strip_self : (l : List ℕ) → strip l l ≡ some []
strip_self [] = refl
strip_self (x ∷ l) = rw (==-refl x) (strip_self l)

leaf-Reaches :
    (fuel : ℕ) (l k : List ℕ) (v : Bytes)
    → IsNibs l
    → IsNibs k
    → length l ≡ length k
    → Reaches (suc (suc fuel)) (leaf (nib l) v) k
unfolding Reaches path_segments path_for_query next_segment
leaf-Reaches fuel l k v hl hk e = elim (Bool-cases (nibbles_eq (nib k) (nib l))) [
  | inl same ↦
      let ek = nibbles_eq-nib k l hk hl same in
      (
        leaf_segment (nib l) ∷ [],
        rw (next_segment, same) refl,
        rw (lookup-leaf l hl v k, ek, strip_self l) refl,
      )
  | inr differ ↦
      ([], rw (next_segment, differ) refl, rw (lookup-leaf l hl v k, no_value differ) refl)
]
  where
    no_value : nibbles_eq (nib k) (nib l) ≡ false → at_end (strip l k) v ≡ none
    no_value differ = elim (split l k (omega arith)) [
      | within r ek ↦ absurd (whole r ek)
      | fork p x a y b el ek n ↦ rw (el, ek, strip-fork x y a b n p) refl
    ]
      where
        whole : (r : List ℕ) → k ≡ l ++ r → ⊥
        whole [] ek = let same : k ≡ l = ek ∙ append-nil l in cc (nibbles_eq_refl l, differ, same)
        whole (x ∷ r) ek = omega (arith, ap length ek, length-append l (x ∷ r))

extension-Reaches :
    (fuel : ℕ) (l : List ℕ) (child : Node) (k : List ℕ)
    → IsNibs l
    → IsNibs k
    → length l ≤ length k
    → length k ≤ 64
    → ((r : List ℕ) → k ≡ l ++ r → Reaches fuel child r)
    → Reaches (suc fuel) (extension (nib l) child) k
unfolding Reaches path_segments path_for_query next_segment
extension-Reaches fuel l child k hl hk le fits below = elim (split l k le) [
  | within r ek ↦
      let (segments, run, same) = below r ek in
      let ends : agree k l ≡ true = rw ek (agree-append_right l r) in
      let short : min (length k) (length l) ≡ length l = omega arith in
      let rest : drop (length l) k ≡ r = rw ek (drop-length l r) in
      (
        extension_segment (nib l) ∷ segments,
        rw
            (
              next_segment,
              identical-nib k l hk hl fits (omega arith),
              ends,
              short,
              pop_nibbles_front-nib k hk fits (length l) le,
              rest,
              run,
            )
            refl,
        rw (lookup-extension l hl child k, ek, strip-append l r) same,
      )
  | fork p x a y b el ek n ↦
      let parts : agree k l ≡ false = rw (el, ek) (agree-fork y x b a (λ q. n (sym q)) p) in
      let none_left : strip l k ≡ none = rw (el, ek) (strip-fork x y a b n p) in
      (
        [],
        rw (next_segment, identical-nib k l hk hl fits (omega arith), parts) refl,
        rw (lookup-extension l hl child k, none_left) refl,
      )
]

-- In a trie over keys of one length, of at most 64 nibbles: the path of a key of that length, without
-- a final node that does not match, ends without a panic when it has more fuel than the key has
-- nibbles and one more, and it ends in a leaf exactly when the trie has a value for the key.
pub path_segments-lookup :
    (t : Node) (len : ℕ) (k : List ℕ) (fuel : ℕ)
    → Fixed len t
    → IsNibs k
    → length k ≡ len
    → len ≤ 64
    → len + 1 < fuel
    → (segments : List TrieSegment) × (path_segments fuel (path_for_query t (nib k) false)
        ≡ some segments)
      × (reaches_leaf segments ≡ is_found (lookup t k))
unfolding Reaches path_segments path_for_query next_segment lookup
path_segments-lookup t len k zero f h e fits more = absurd (omega arith)
path_segments-lookup t len k (suc zero) f h e fits more = absurd (omega arith)
path_segments-lookup empty len k (suc (suc fuel)) f h e fits more = (empty_segment ∷ [], refl, refl)
path_segments-lookup (hash x) len k (suc (suc fuel)) f h e fits more =
    (hash_segment ∷ [], refl, refl)
path_segments-lookup (branch c v) zero k (suc (suc fuel)) f h e fits more = absurd f
path_segments-lookup (branch c v) (suc len) [] (suc (suc fuel)) f h e fits more =
    absurd (omega arith)
path_segments-lookup (branch c v) (suc len) (x ∷ k) (suc (suc fuel)) f h e fits more =
    let (segments, run, same) =
      path_segments-lookup (c x) len k (suc fuel) (f.1 x h.0) h.1 (omega arith) (omega arith)
        (omega arith) in
    (
      branch_segment x ∷ segments,
      rw
          (
            next_segment,
            is_empty-cons x k,
            pop_next_nibble_front-nib x k h (omega arith),
            ltb-lt x 16 h.0,
            run,
          )
          refl,
      same,
    )
path_segments-lookup (extension n child) len k (suc (suc fuel)) (l, rest, hl, en, pos, el, f) h e
      fits more =
    rw en (
      extension-Reaches (suc fuel) l child k hl h (omega arith) (omega arith) (λ r ek.
        path_segments-lookup child rest r (suc fuel) f
          (rw (drop-length l r) at (All-drop (λ x. x < 16) (length l) (l ++ r) (rw ek at h)))
          (omega (arith, ap length ek, length-append l r)) (omega arith) (omega arith)))
path_segments-lookup (leaf n v) len k (suc (suc fuel)) (l, hl, en, el) h e fits more =
    rw en (leaf-Reaches fuel l k v hl h (omega arith))
