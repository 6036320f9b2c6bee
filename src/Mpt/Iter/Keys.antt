-- ===== src/Mpt/Iter/Keys.antt =====
-- The keys that the iterator gives are the keys that a lookup finds.
use zk_evm.Prelude.{
  ℕ, zero, suc, ◌+◌, ◌-◌, ◌≤◌, ◌<◌, ◌≡◌, ◌≢◌, refl, ap, ap₂, sym, ◌∙◌, arith, Bool, true, false,
  Bool-cases, inl, inr, Option, none, some, List, [], ◌∷◌, ◌++◌, length, append_assoc, All-append,
  ◌==◌, ==_iff, ==-refl, ==-ne, if◌then◌else◌,
}
use zk_evm.Mpt.Keys.{
  strip, strip-strip, strip-append, keys_eq, keys_eq_refl, keys_eq→eq, append-strip,
}
use zk_evm.Mpt.Nibbles.Value.{IsNibs, value, nib, digits, digits-value}
use zk_evm.Mpt.Node.{Bytes, Node, empty, hash, branch, extension, leaf, ok}
use zk_evm.Mpt.Trie.{nibbles_eq, trie_get}
use zk_evm.Mpt.Trie.Meaning.{lookup, lookup-leaf, lookup-extension, Fixed, Hashless, at_end}
use zk_evm.Mpt.Trie.Compact.{IsBranch, IsCompact}
use zk_evm.Mpt.Trie.Get.{trie_get-lookup, IsNibs-rest, length-rest}
use zk_evm.Mpt.Iter.{TrieItem, any, trie_has_item_by_key}
use zk_evm.Mpt.Iter.Walk.{Fits, Walkable, walk, concat_from}
use zk_evm.Mpt.Iter.Items.{trie_items-walk}

abbrev pub present : Option Bytes → Bool
present none = false
present (some v) = true

abbrev has_key : List ℕ → List TrieItem → Bool
has_key q items = any (λ (item : TrieItem). nibbles_eq item.0 (nib q)) items

nib-cancel : (a b : List ℕ) → IsNibs a → IsNibs b → nibbles_eq (nib a) (nib b) ≡ true → a ≡ b
nib-cancel a b ha hb h = elim (Bool-cases (length a == length b)) [
  | inl same ↦ elim (Bool-cases (value a == value b)) [
    | inl equal ↦
        sym (digits-value a ha)
        ∙ ap₂ digits ((==_iff (length a) (length b)).0 same) ((==_iff (value a) (value b)).0 equal)
        ∙ digits-value b hb
    | inr differ ↦ cc (rw (same, differ) at h)
  ]
  | inr differ ↦ cc (rw differ at h)
]

nibbles_eq-keys_eq : (a b : List ℕ) → IsNibs a → IsNibs b → nibbles_eq (nib a) (nib b) ≡ keys_eq a b
nibbles_eq-keys_eq a b ha hb = elim (Bool-cases (nibbles_eq (nib a) (nib b))) [
  | inl same ↦ let e : a ≡ b = nib-cancel a b ha hb same in rw same (sym (rw e (keys_eq_refl b)))
  | inr differ ↦ elim (Bool-cases (keys_eq a b)) [
    | inl equal ↦ cc (rw (keys_eq→eq a b equal, ==-refl (length b), ==-refl (value b)) at differ)
    | inr other ↦ rw (differ, other) refl
  ]
]

keys_eq-prefix : (p a b : List ℕ) → keys_eq (p ++ a) (p ++ b) ≡ keys_eq a b
keys_eq-prefix [] a b = refl
keys_eq-prefix (x ∷ p) a b = rw (==-refl x) (keys_eq-prefix p a b)

keys_eq-apart : (r l b : List ℕ) → strip r b ≡ none → keys_eq (r ++ l) b ≡ false
keys_eq-apart [] l b h = cc
keys_eq-apart (x ∷ r) l [] h = refl
keys_eq-apart (x ∷ r) l (y ∷ b) h = elim (Bool-cases (x == y)) [
  | inl same ↦ rw same (keys_eq-apart r l b (rw same at h))
  | inr differ ↦ rw differ refl
]

at_end-keys_eq : (l q : List ℕ) (v : Bytes) → present (at_end (strip l q) v) ≡ keys_eq l q
at_end-keys_eq [] [] v = refl
at_end-keys_eq [] (y ∷ q) v = refl
at_end-keys_eq (x ∷ l) [] v = refl
at_end-keys_eq (x ∷ l) (y ∷ q) v = elim (Bool-cases (x == y)) [
  | inl same ↦ rw same (at_end-keys_eq l q v)
  | inr differ ↦ rw differ refl
]

has_key-append :
    (q : List ℕ) (xs ys : List TrieItem)
    → has_key q xs ≡ false
    → has_key q (xs ++ ys) ≡ has_key q ys
has_key-append q [] ys h = refl
has_key-append q (x ∷ xs) ys h = elim (Bool-cases (nibbles_eq x.0 (nib q))) [
  | inl same ↦ cc (rw same at h)
  | inr differ ↦ rw differ (has_key-append q xs ys (rw differ at h))
]

has_key-front :
    (q : List ℕ) (xs ys : List TrieItem)
    → has_key q ys ≡ false
    → has_key q (xs ++ ys) ≡ has_key q xs
has_key-front q [] ys h = h
has_key-front q (x ∷ xs) ys h = elim (Bool-cases (nibbles_eq x.0 (nib q))) [
  | inl same ↦ rw same refl
  | inr differ ↦ rw differ (has_key-front q xs ys h)
]

concat-miss :
    (q : List ℕ) (left i : ℕ) (g : ℕ → List TrieItem)
    → ((j : ℕ) → i ≤ j → j < i + left → has_key q (g j) ≡ false)
    → has_key q (concat_from left i g) ≡ false
concat-miss q zero i g h = refl
concat-miss q (suc left) i g h =
    has_key-append q (g i) (concat_from left (i + 1) g) (h i (omega arith) (omega arith))
    ∙ concat-miss q left (i + 1) g (λ j a b. h j (omega arith) (omega arith))

concat-hit :
    (q : List ℕ) (x left i : ℕ) (g : ℕ → List TrieItem)
    → i ≤ x
    → x < i + left
    → ((j : ℕ) → j < i + left → j ≢ x → has_key q (g j) ≡ false)
    → has_key q (concat_from left i g) ≡ has_key q (g x)
concat-hit q x zero i g from to h = absurd (omega arith)
concat-hit q x (suc left) i g from to h = elim (Bool-cases (i == x)) [
  | inl here ↦
      let e : i ≡ x = (==_iff i x).0 here in
      has_key-front q (g i) (concat_from left (i + 1) g)
        (concat-miss q left (i + 1) g (λ j a b. h j (omega arith) (omega arith)))
      ∙ ap (λ (j : ℕ). has_key q (g j)) e
  | inr later ↦
      let n : i ≢ x = λ e. cc ((==_iff i x).1 e) in
      has_key-append q (g i) (concat_from left (i + 1) g) (h i (omega arith) n)
      ∙ concat-hit q x left (i + 1) g (omega (arith, n)) (omega arith)
          (λ j a b. h j (omega arith) b)
]

one_key :
    (k b : List ℕ) (o : Bytes)
    → IsNibs k
    → IsNibs b
    → (if nibbles_eq (nib k) (nib b) then true else false) ≡ keys_eq k b
one_key k b o hk hb = rw (nibbles_eq-keys_eq k b hk hb) (same (keys_eq k b))
  where
    same : (c : Bool) → (if c then true else false) ≡ c
    same true = refl
    same false = refl

-- A key that parts from the prefix is not among the items below it.
walk-miss :
    (t : Node) (len : ℕ) (r b : List ℕ)
    → Fixed len t
    → Hashless t
    → IsNibs r
    → IsNibs b
    → strip r b ≡ none
    → has_key b (walk r t) ≡ false
walk-miss empty len r b f h hr hb apart = refl
walk-miss (hash x) len r b f h hr hb apart = absurd h
walk-miss (branch c v) zero r b f h hr hb apart = absurd f
walk-miss (branch c v) (suc len) r b f h hr hb apart = rw f.0 (
    has_key-front b (concat_from 16 0 (λ i. walk (r ++ (i ∷ [])) (c i))) [] refl
    ∙ concat-miss b 16 0 (λ i. walk (r ++ (i ∷ [])) (c i))
        (λ i from to.
          walk-miss (c i) len (r ++ (i ∷ [])) b (f.1 i to) (h i to)
            (All-append _ r (i ∷ []) hr (to, tt)) hb (rw (strip-strip r (i ∷ []) b, apart) refl)))
walk-miss (extension n child) len r b (l, left, hl, en, pos, el, f) h hr hb apart =
    rw (en, digits-value l hl)
      (walk-miss child left (r ++ l) b f h (All-append _ r l hr hl) hb
        (rw (strip-strip r l b, apart) refl))
walk-miss (leaf n v) len r b (l, hl, en, el) h hr hb apart =
    rw (en, digits-value l hl)
      (one_key (r ++ l) b v (All-append _ r l hr hl) hb ∙ keys_eq-apart r l b apart)

strip-prefix : (p l q : List ℕ) → strip (p ++ l) (p ++ q) ≡ strip l q
strip-prefix p l q = rw (strip-strip p l (p ++ q), strip-append p q) refl

walk-lookup :
    (t : Node) (len : ℕ) (p q : List ℕ)
    → Fixed len t
    → Hashless t
    → IsNibs p
    → IsNibs q
    → length q ≡ len
    → has_key (p ++ q) (walk p t) ≡ present (lookup t q)
unfolding lookup
walk-lookup empty len p q f h hp hq e = refl
walk-lookup (hash x) len p q f h hp hq e = absurd h
walk-lookup (branch c v) zero p q f h hp hq e = absurd f
walk-lookup (branch c v) (suc len) p [] f h hp hq e = absurd (omega arith)
walk-lookup (branch c v) (suc len) p (x ∷ q) f h hp hq e =
    let below : ℕ → List TrieItem = λ i. walk (p ++ (i ∷ [])) (c i) in
    let nibs : (i : ℕ) → i < 16 → IsNibs (p ++ (i ∷ [])) =
      λ i hi. All-append _ p (i ∷ []) hp (hi, tt) in
    rw f.0 (
      has_key-front (p ++ (x ∷ q)) (concat_from 16 0 below) [] refl
      ∙ concat-hit (p ++ (x ∷ q)) x 16 0 below (omega arith) hq.0 (λ j to n.
        walk-miss (c j) len (p ++ (j ∷ [])) (p ++ (x ∷ q)) (f.1 j to) (h j to) (nibs j to)
          (All-append _ p (x ∷ q) hp hq) (rw (strip-prefix p (j ∷ []) (x ∷ q), ==-ne j x n) refl))
      ∙ rw (append_assoc p (x ∷ []) q) at (
          walk-lookup (c x) len (p ++ (x ∷ [])) q (f.1 x hq.0) (h x hq.0) (nibs x hq.0) hq.1
            (omega arith)))
walk-lookup (extension n child) len p q (l, left, hl, en, pos, el, f) h hp hq e =
    rw (en, lookup-extension l hl child q, digits-value l hl)
      (elim (strip l q)
          as (λ o.
            strip l q ≡ o
            → has_key (p ++ q) (walk (p ++ l) child)
              ≡ present (elim o [ none ↦ none | some r ↦ lookup child r ])) [
                | none ↦ λ apart.
                    walk-miss child left (p ++ l) (p ++ q) f h (All-append _ p l hp hl)
                      (All-append _ p q hp hq) (strip-prefix p l q ∙ apart)
                | some r ↦ λ s.
                    let parts : q ≡ l ++ r = append-strip l q s in
                    rw (parts, sym (append_assoc p l r))
                      (walk-lookup child left (p ++ l) r f h (All-append _ p l hp hl)
                        (IsNibs-rest l r q parts hq) (omega (arith, length-rest l r q parts)))
              ]
        refl)
walk-lookup (leaf n v) len p q (l, hl, en, el) h hp hq e =
    rw (en, lookup-leaf l hl v q, digits-value l hl)
      (one_key (p ++ l) (p ++ q) v (All-append _ p l hp hl) (All-append _ p q hp hq)
        ∙ keys_eq-prefix p l q
        ∙ sym (at_end-keys_eq l q v))

IsBranch-Walkable : (t : Node) → IsBranch t → Walkable t
IsBranch-Walkable empty b = absurd b
IsBranch-Walkable (hash h) b = absurd b
IsBranch-Walkable (branch c v) b = tt
IsBranch-Walkable (extension n child) b = absurd b
IsBranch-Walkable (leaf n v) b = absurd b

pub Fixed-Fits : (t : Node) (len bound : ℕ) → Fixed len t → IsCompact t → len ≤ bound → Fits bound t
Fixed-Fits empty len bound f c le = tt
Fixed-Fits (hash h) len bound f c le = tt
Fixed-Fits (branch c v) zero bound f k le = absurd f
Fixed-Fits (branch c v) (suc len) zero f k le = absurd (omega arith)
Fixed-Fits (branch c v) (suc len) (suc bound) f k le =
    let (i, j, hi, hj, n, ni, nj, all) = k in
    λ m hm. Fixed-Fits (c m) len bound (f.1 m hm) (all m hm) (omega arith)
Fixed-Fits (extension n child) len bound (l, left, hl, en, pos, el, f) (b, c) le = (
  l,
  bound - length l,
  hl,
  en,
  omega arith,
  IsBranch-Walkable child b,
  Fixed-Fits child left (bound - length l) f c (omega arith),
)
Fixed-Fits (leaf n v) len bound (l, hl, en, el) c le = (l, hl, en, omega arith)

-- In a compact trie over keys of one length, of at most 64 nibbles, with no hash node: for a key of
-- that length the search through the iterator's items ends, without a panic, and finds the key
-- exactly when a lookup finds a value for it.
pub trie_has_item_by_key-trie_get :
    (t : Node) (len : ℕ) (q : List ℕ)
    → Fixed len t
    → Hashless t
    → IsCompact t
    → IsNibs q
    → length q ≡ len
    → len ≤ 64
    → (answer : Option Bytes) × (trie_get t (nib q) ≡ ok answer)
      × (trie_has_item_by_key t (nib q) ≡ some (present answer))
unfolding trie_has_item_by_key
trie_has_item_by_key-trie_get t len q f h c hq e fits = (
  lookup t q,
  trie_get-lookup t len q f hq e fits,
  rw (trie_items-walk t (Fixed-Fits t len 64 f c fits))
      (ap some (walk-lookup t len [] q f h tt hq e)),
)
