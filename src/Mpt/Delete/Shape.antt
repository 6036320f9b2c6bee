-- ===== src/Mpt/Delete/Shape.antt =====
-- Collapsing an extension, alone and in front of what a deletion left.
use zk_evm.Prelude.{
  ℕ, ◌+◌, ◌≤◌, ◌<◌, ◌≡◌, refl, sym, arith, List, ◌++◌, length, Option, none, some, length-append,
  All-append,
}
use zk_evm.Mpt.Keys.{strip, strip-strip}
use zk_evm.Mpt.Nibbles.{Nibbles}
use zk_evm.Mpt.Nibbles.Value.{IsNibs, nib}
use zk_evm.Mpt.Nibbles.Joins.{merge_nibbles-nib}
use zk_evm.Mpt.Trie.Compact.{NonEmpty, IsBranch-NonEmpty, IsCompact}
use zk_evm.Mpt.Node.{
  Bytes, Node, empty, hash, branch, extension, leaf, OnOrphanedHashNode, TrieOpResult, ok,
}
use zk_evm.Mpt.Trie.Meaning.{lookup, lookup-leaf, lookup-extension, Fixed, Hashless, at_end}
use zk_evm.Mpt.Delete.{collapse_ext_node_if_needed, try_collapse_if_extension}

-- What the recursion of a deletion returns: compact up to an extension at the root.
abbrev pub IsOpen : Node → Type 0
IsOpen (extension n child) = NonEmpty child × IsCompact child
IsOpen t = IsCompact t

pub IsCompact-IsOpen : (t : Node) → IsCompact t → IsOpen t
IsCompact-IsOpen empty c = c
IsCompact-IsOpen (hash h) c = c
IsCompact-IsOpen (branch children value) c = c
IsCompact-IsOpen (extension n child) (b, c) = (IsBranch-NonEmpty child b, c)
IsCompact-IsOpen (leaf n v) c = c

-- A trie of the same keys that means the same as `t`.
abbrev pub Same : ℕ → Node → Node → Type 0
Same len t t' = Fixed len t' × Hashless t' × ((q : List ℕ) → lookup t' q ≡ lookup t q)

-- How a collapse in front of `c` ends.
abbrev pub Collapsed : ℕ → List ℕ → Node → TrieOpResult Node → Type 0
Collapsed len l c r =
    (t' : Node) × (r ≡ ok t')
    × Same len (extension (nib l) c) t'
    × NonEmpty t'
    × IsOpen t'
    × (IsCompact c → IsCompact t')

module _ (l l2 : List ℕ) (hl : IsNibs l) (hl2 : IsNibs l2) where
  merged_extension :
      (child : Node) (q : List ℕ)
      → lookup (extension (nib (l ++ l2)) child) q
        ≡ lookup (extension (nib l) (extension (nib l2) child)) q
  merged_extension child q =
      rw
        (
          lookup-extension (l ++ l2) (All-append _ l l2 hl hl2) child q,
          strip-strip l l2 q,
          lookup-extension l hl (extension (nib l2) child) q,
        )
        (behind (strip l q))
    where
      behind :
          (o : Option (List ℕ))
          → elim (elim o as (λ x. Option (List ℕ)) [ none ↦ none | some r ↦ strip l2 r ]) [
            | none ↦ none
            | some r ↦ lookup child r
          ]
            ≡ elim o [ none ↦ none | some r ↦ lookup (extension (nib l2) child) r ]
      behind none = refl
      behind (some r) = sym (lookup-extension l2 hl2 child r)

  merged_leaf :
      (v : Bytes) (q : List ℕ)
      → lookup (leaf (nib (l ++ l2)) v) q ≡ lookup (extension (nib l) (leaf (nib l2) v)) q
  merged_leaf v q =
      rw
        (
          lookup-leaf (l ++ l2) (All-append _ l l2 hl hl2) v q,
          strip-strip l l2 q,
          lookup-extension l hl (leaf (nib l2) v) q,
        )
        (behind (strip l q))
    where
      behind :
          (o : Option (List ℕ))
          → at_end (elim o [ none ↦ none | some r ↦ strip l2 r ]) v
            ≡ elim o [ none ↦ none | some r ↦ lookup (leaf (nib l2) v) r ]
      behind none = refl
      behind (some r) = sym (lookup-leaf l2 hl2 v r)

module _ (l : List ℕ) (hl : IsNibs l) (pos : 0 < length l) (len rest : ℕ)
    (el : len ≡ length l + rest) (fits : len ≤ 64) (curr : Nibbles)
    (strategy : OnOrphanedHashNode) where
  pub collapse_ext-Collapsed :
      (c : Node)
      → Fixed rest c
      → Hashless c
      → NonEmpty c
      → IsOpen c
      → Collapsed len l c (collapse_ext_node_if_needed (nib l) c curr strategy)
  unfolding collapse_ext_node_if_needed
  collapse_ext-Collapsed empty f h ne o = cc
  collapse_ext-Collapsed (hash x) f h ne o = absurd h
  collapse_ext-Collapsed (branch children value) f h ne o = (
    extension (nib l) (branch children value),
    refl,
    ((l, rest, hl, refl, pos, el, f), h, λ q. refl),
    refl,
    (refl, o),
    λ c. (tt, c),
  )
  collapse_ext-Collapsed (extension n child) (l2, rest2, hl2, en, pos2, e2, f) h ne (nc, o) = (
    extension (nib (l ++ l2)) child,
    rw (en, merge_nibbles-nib l l2 hl hl2 (omega arith)),
    (
      (
        l ++ l2,
        rest2,
        All-append _ l l2 hl hl2,
        refl,
        omega (arith, length-append l l2),
        omega (arith, length-append l l2),
        f,
      ),
      h,
      λ q. rw en (merged_extension l l2 hl hl2 child q),
    ),
    refl,
    (nc, o),
    λ c. c,
  )
  collapse_ext-Collapsed (leaf n v) (l2, hl2, en, e2) h ne o = (
    leaf (nib (l ++ l2)) v,
    rw (en, merge_nibbles-nib l l2 hl hl2 (omega arith)),
    (
      (l ++ l2, All-append _ l l2 hl hl2, refl, omega (arith, length-append l l2)),
      tt,
      λ q. rw en (merged_leaf l l2 hl hl2 v q),
    ),
    refl,
    tt,
    λ c. tt,
  )

-- How the collapse of what is left of a child ends.
abbrev pub Settled : ℕ → Node → TrieOpResult Node → Type 0
Settled len t r =
    (t' : Node) × (r ≡ ok t') × Same len t t' × (NonEmpty t → NonEmpty t') × IsCompact t'

pub try_collapse-Settled :
    (t : Node) (len : ℕ) (curr : Nibbles) (strategy : OnOrphanedHashNode)
    → Fixed len t
    → Hashless t
    → IsOpen t
    → len ≤ 64
    → Settled len t (try_collapse_if_extension t curr strategy)
unfolding try_collapse_if_extension
try_collapse-Settled empty len curr strategy f h o fits =
    (empty, refl, (f, h, λ q. refl), λ n. n, tt)
try_collapse-Settled (hash x) len curr strategy f h o fits = absurd h
try_collapse-Settled (branch children value) len curr strategy f h o fits =
    (branch children value, refl, (f, h, λ q. refl), λ n. n, o)
try_collapse-Settled (extension n child) len curr strategy (l, rest, hl, en, pos, el, f) h (ne, c)
      fits =
    rw en (
      settle (
        collapse_ext-Collapsed l hl pos len rest el fits curr strategy child f h ne
          (IsCompact-IsOpen child c)))
  where
    settle :
        Collapsed len l child (collapse_ext_node_if_needed (nib l) child curr strategy)
        → Settled len
            (extension (nib l) child)
            (collapse_ext_node_if_needed (nib l) child curr strategy)
    settle (t', e, same, there, o, compact) = (t', e, same, (λ n. there), compact c)
try_collapse-Settled (leaf n v) len curr strategy f h o fits =
    (leaf n v, refl, (f, h, λ q. refl), λ n. n, tt)
