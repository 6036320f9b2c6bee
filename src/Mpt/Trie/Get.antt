-- ===== src/Mpt/Trie/Get.antt =====
-- `trie_get` answers what the trie means, for keys of the trie's length.
use zk_evm.Prelude.{
  ℕ, zero, suc, ◌+◌, ◌≤◌, ◌≡◌, refl, ap, sym, ◌∙◌, arith, List, [], ◌∷◌, ◌++◌, length, Option, none,
  some, Bool, true, if◌then◌else◌, length-append, append-nil, take, take-length, drop-length,
  ltb-lt,
}
use zk_evm.Prelude.{All-take, All-drop, length-take}
use zk_evm.Mpt.Keys.{strip, strip-append, within, fork, split, agree-append, agree-fork, strip-fork}
use zk_evm.Mpt.Nibbles.Value.{IsNibs, nib}
use zk_evm.Mpt.Nibbles.Compare.{agree, identical-nib}
use zk_evm.Mpt.Nibbles.Access.{pop_next_nibble_front-nib, is_empty-cons}
use zk_evm.Mpt.Nibbles.Slices.{pop_nibbles_front-nib}
use zk_evm.Mpt.Node.{Bytes, Node, empty, hash, branch, extension, leaf, ok}
use zk_evm.Mpt.Trie.{trie_get_intern, trie_get}
use zk_evm.Mpt.Trie.Meaning.{lookup, lookup-leaf, lookup-extension, Fixed, at_end}

abbrev if_identical : Bool → Bytes → Option Bytes
if_identical b v = if b then some v else none

-- At a leaf of the same length, agreement is equality.
agree-strip :
    (l k : List ℕ) (v : Bytes)
    → length l ≡ length k
    → if_identical (agree l k) v ≡ at_end (strip l k) v
agree-strip [] [] v e = refl
agree-strip [] (y ∷ k) v e = absurd (omega arith)
agree-strip (x ∷ l) [] v e = absurd (omega arith)
agree-strip (x ∷ l) (y ∷ k) v e = ground (arith, agree-strip l k v (omega arith))

agree_self : (l : List ℕ) → agree l l ≡ true
agree_self l = rw (append-nil l) at (agree-append l [])

take-fork :
    (p : List ℕ) (x : ℕ) (a : List ℕ) (y : ℕ) (b : List ℕ)
    → take (length (p ++ (x ∷ a))) (p ++ (y ∷ b)) ≡ p ++ (y ∷ take (length a) b)
take-fork [] x a y b = refl
take-fork (z ∷ p) x a y b = ap (λ t. z ∷ t) (take-fork p x a y b)

pub IsNibs-rest : (l r k : List ℕ) → k ≡ l ++ r → IsNibs k → IsNibs r
IsNibs-rest l r k e h = rw (drop-length l r) at (All-drop _ (length l) (l ++ r) (rw e at h))

pub IsNibs-front : (l r k : List ℕ) → k ≡ l ++ r → IsNibs k → IsNibs l
IsNibs-front l r k e h = rw (take-length l r) at (All-take _ (length l) (l ++ r) (rw e at h))

pub length-rest : (l r k : List ℕ) → k ≡ l ++ r → length k ≡ length l + length r
length-rest l r k e = ap length e ∙ length-append l r

-- The descent through an extension, given the answer of the child.
get_extension :
    (l : List ℕ) (child : Node) (k : List ℕ)
    → IsNibs l
    → IsNibs k
    → length l ≤ length k
    → length k ≤ 64
    → ((r : List ℕ) → k ≡ l ++ r → trie_get_intern child (nib r) ≡ ok (lookup child r))
    → trie_get_intern (extension (nib l) child) (nib k)
      ≡ ok (elim (strip l k) [ none ↦ none | some r ↦ lookup child r ])
unfolding trie_get_intern
get_extension l child k hl h le fits below =
    rw
      (
        pop_nibbles_front-nib k h fits (length l) le,
        identical-nib (take (length l) k) l (All-take _ (length l) k h) hl
            (omega (arith, length-take (length l) k)) (omega arith),
      )
      (elim (split l k le) [
        | within r e ↦
            rw (e, take-length l r, drop-length l r, strip-append l r, agree_self l) (below r e)
        | fork p x a y b el ek n ↦ rw (
          el,
          ek,
          take-fork p x a y b,
          agree-fork y x (take (length a) b) a (λ q. n (sym q)) p,
          strip-fork x y a b n p,
        )
      ])

get-Fixed :
    (t : Node) (len : ℕ) (k : List ℕ)
    → Fixed len t
    → IsNibs k
    → length k ≡ len
    → len ≤ 64
    → trie_get_intern t (nib k) ≡ ok (lookup t k)
unfolding trie_get_intern lookup
get-Fixed empty len k f h e fits = refl
get-Fixed (hash x) len k f h e fits = refl
get-Fixed (branch children value) zero k f h e fits = absurd f
get-Fixed (branch children value) (suc len) [] f h e fits = absurd (omega arith)
get-Fixed (branch children value) (suc len) (x ∷ k) f h e fits =
    rw (is_empty-cons x k, pop_next_nibble_front-nib x k h (omega arith), ltb-lt x 16 h.0)
      (get-Fixed (children x) len k (f.1 x h.0) h.1 (omega arith) (omega arith))
get-Fixed (extension n child) len k (l, rest, hl, en, pos, el, fc) h e fits =
    rw (en, lookup-extension l hl child k)
      (get_extension l child k hl h (omega arith) (omega arith) (λ r er.
        get-Fixed child rest r fc (IsNibs-rest l r k er h) (omega (arith, length-rest l r k er))
          (omega arith)))
get-Fixed (leaf n v) len k (l, hl, en, el) h e fits =
    rw (en, lookup-leaf l hl v k)
      (rw (identical-nib l k hl h (omega arith) (omega arith))
        (ap ok (agree-strip l k v (omega arith))))

-- On a trie over keys of one length, of at most 64 nibbles, a lookup at a key of that length does
-- not panic and answers the value of the function from keys to values that the trie stands for.
pub trie_get-lookup :
    (t : Node) (len : ℕ) (k : List ℕ)
    → Fixed len t
    → IsNibs k
    → length k ≡ len
    → len ≤ 64
    → trie_get t (nib k) ≡ ok (lookup t k)
unfolding trie_get
trie_get-lookup t len k f h e fits = get-Fixed t len k f h e fits
