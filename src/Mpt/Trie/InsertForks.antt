-- ===== src/Mpt/Trie/InsertForks.antt =====
-- An insertion at the node where the new key parts from an existing one.
use mathlib.Core.Path.{subst}
use zk_evm.Prelude.{
  ℕ, suc, ◌+◌, ◌≤◌, ◌<◌, ◌≡◌, ◌≢◌, refl, ap, sym, ◌∙◌, arith, List, [], ◌∷◌, ◌++◌, length, Option,
  none, some, Bool, true, false, ◌==◌, if◌then◌else◌, length-append, ==-ne, ==-refl, ==-sym,
  Bool-cases, inl, inr, All-append,
}
use zk_evm.Mpt.Keys.{strip, strip-append, strip-strip, keys_eq, drop-fork, agree-fork}
use zk_evm.Mpt.Nibbles.{Nibbles}
use zk_evm.Mpt.Nibbles.Value.{IsNibs, value, nib, digits, digits-value}
use zk_evm.Mpt.Nibbles.Compare.{identical-nib}
use zk_evm.Mpt.Nibbles.Slices.{truncate_n_nibbles_front-nib}
use zk_evm.Mpt.Node.{Bytes, Node, extension, leaf, ok, val}
use zk_evm.Mpt.Trie.{
  insert_into_trie_rec, nibbles_eq, leaf_from_insert_val, create_node_if_ins_val_not_hash,
}
use zk_evm.Mpt.Trie.Meaning.{lookup, lookup-leaf, lookup-extension, Fixed, at_end}
use zk_evm.Mpt.Trie.InsertSteps.{Inserted}
use zk_evm.Mpt.Trie.Compact.{NonEmpty, IsCompact, wrap-IsCompact, fork-IsCompact, fork-NonEmpty}
use zk_evm.Mpt.Trie.Fork.{
  wrap, lookup-wrap, fork_branch, fork_postfixes, fork_place, lookup-fork, fork-Fixed,
  fork-Hashless, wrap-Hashless, behind, at_end-keys_eq,
}

-- Equal packings are of equal lists.
pub key-eq : (l k : List ℕ) → IsNibs l → IsNibs k → nibbles_eq (nib l) (nib k) ≡ true → l ≡ k
key-eq l k hl hk h =
    sym (digits-value l hl)
    ∙ ap (λ (t : ℕ). digits t (value l)) same_length
    ∙ ap (λ (t : ℕ). digits (length k) t) same_value
    ∙ digits-value k hk
  where
    same_length : length l ≡ length k
    same_length = ground arith

    same_value : value l ≡ value k
    same_value = ground arith

key-ne : (l k : List ℕ) → IsNibs l → IsNibs k → (l ≡ k → ⊥) → nibbles_eq (nib l) (nib k) ≡ false
key-ne l k hl hk n = elim (Bool-cases (nibbles_eq (nib l) (nib k))) [
  | inl same ↦ absurd (n (key-eq l k hl hk same))
  | inr differ ↦ differ
]

fork-ne :
    (p : List ℕ) (x : ℕ) (a : List ℕ) (y : ℕ) (b : List ℕ) → x ≢ y → p ++ (x ∷ a) ≡ p ++ (y ∷ b) → ⊥
fork-ne p x a y b n e =
    n (head-eq (sym (strip-append p (x ∷ a)) ∙ ap (strip p) e ∙ strip-append p (y ∷ b)))
  where
    head-eq : some (x ∷ a) ≡ some (y ∷ b) → x ≡ y
    head-eq h = cc

module _ (p : List ℕ) (x : ℕ) (a : List ℕ) (y : ℕ) (b : List ℕ) (hp : IsNibs p)
    (ha : IsNibs (x ∷ a)) (hb : IsNibs (y ∷ b)) (differ : x ≢ y) (fa : length p + length a < 64)
    (fb : length p + length b < 64) (v : Bytes) where
  hpa : IsNibs (p ++ (x ∷ a))
  hpa = All-append _ p (x ∷ a) hp ha

  insert_extension_fork :
      (child : Node)
      → insert_into_trie_rec
          (extension (nib (p ++ (x ∷ a))) child)
          (record { nibbles = nib (p ++ (y ∷ b)); v = val v })
        ≡ ok (some (wrap p (fork_branch x (wrap a child) y b v)))
  unfolding insert_into_trie_rec
  insert_extension_fork child = rw (
    fork_postfixes p x a y b hp ha hb differ fa fb,
    identical-nib (p ++ (x ∷ a)) (p ++ (y ∷ b)) hpa (All-append _ p (y ∷ b) hp hb)
        (omega (arith, length-append p (x ∷ a))) (omega (arith, length-append p (y ∷ b))),
    agree-fork x y a b differ p,
    truncate_n_nibbles_front-nib (x ∷ a) ha (omega arith) 1,
    fork_place p x a y b hp ha hb differ fa fb (wrap a child) v,
  )

  insert_leaf_fork :
      (w : Bytes)
      → insert_into_trie_rec
          (leaf (nib (p ++ (x ∷ a))) w)
          (record { nibbles = nib (p ++ (y ∷ b)); v = val v })
        ≡ ok (some (wrap p (fork_branch x (leaf (nib a) w) y b v)))
  unfolding insert_into_trie_rec
  insert_leaf_fork w = rw (
    other_key,
    fork_postfixes p x a y b hp ha hb differ fa fb,
    truncate_n_nibbles_front-nib (p ++ (x ∷ a)) hpa (omega (arith, length-append p (x ∷ a)))
        (length p + 1),
    drop-fork p x a,
    fork_place p x a y b hp ha hb differ fa fb (leaf (nib a) w) v,
  )
    where
      other_key : nibbles_eq (nib (p ++ (x ∷ a))) (nib (p ++ (y ∷ b))) ≡ false
      other_key =
          key-ne (p ++ (x ∷ a)) (p ++ (y ∷ b)) hpa (All-append _ p (y ∷ b) hp hb)
            (fork-ne p x a y b differ)

-- What the two kinds of forked node meant, behind the prefix of the fork.
behind-leaf :
    (p : List ℕ) (x : ℕ) (a : List ℕ) (w : Bytes) (q : List ℕ)
    → IsNibs p
    → IsNibs (x ∷ a)
    → lookup (leaf (nib (p ++ (x ∷ a))) w) q
      ≡ elim (strip p q) [ none ↦ none | some r ↦ behind x (leaf (nib a) w) r ]
behind-leaf p x a w q hp ha =
    rw (lookup-leaf (p ++ (x ∷ a)) (All-append _ p (x ∷ a) hp ha) w q, strip-strip p (x ∷ a) q)
      (cases (strip p q))
  where
    cases :
        (o : Option (List ℕ))
        → at_end (elim o [ none ↦ none | some r ↦ strip (x ∷ a) r ]) w
          ≡ elim o [ none ↦ none | some r ↦ behind x (leaf (nib a) w) r ]
    cases none = refl
    cases (some []) = refl
    cases (some (z ∷ r)) = rw (==-sym x z) (at_z (z == x))
      where
        at_z :
            (c : Bool)
            → at_end (if c then strip a r else none) w
              ≡ (if c then lookup (leaf (nib a) w) r else none)
        at_z true = sym (lookup-leaf a ha.1 w r)
        at_z false = refl

-- The answer of a node behind a prefix that may be missing.
abbrev through : Node → Option (List ℕ) → Option Bytes
through child none = none
through child (some r) = lookup child r

behind-extension :
    (p : List ℕ) (x : ℕ) (a : List ℕ) (child : Node) (q : List ℕ)
    → IsNibs p
    → IsNibs (x ∷ a)
    → lookup (extension (nib (p ++ (x ∷ a))) child) q
      ≡ elim (strip p q) [ none ↦ none | some r ↦ behind x (wrap a child) r ]
behind-extension p x a child q hp ha =
    rw
      (
        lookup-extension (p ++ (x ∷ a)) (All-append _ p (x ∷ a) hp ha) child q,
        strip-strip p (x ∷ a) q,
      )
      (cases (strip p q))
  where
    cases :
        (o : Option (List ℕ))
        → through child (elim o [ none ↦ none | some r ↦ strip (x ∷ a) r ])
          ≡ elim o [ none ↦ none | some r ↦ behind x (wrap a child) r ]
    cases none = refl
    cases (some []) = refl
    cases (some (z ∷ r)) = rw (==-sym x z) (at_z (z == x))
      where
        at_z :
            (c : Bool)
            → through child (if c then strip a r else none)
              ≡ (if c then lookup (wrap a child) r else none)
        at_z true = sym (lookup-wrap a child r ha.1)
        at_z false = refl

wrap-Fixed :
    (a : List ℕ) (child : Node) (rest len : ℕ)
    → IsNibs a
    → Fixed rest child
    → len ≡ length a + rest
    → Fixed len (wrap a child)
wrap-Fixed [] child rest len h f e = subst (λ n. Fixed n child) same f
  where
    same : rest ≡ len
    same = omega arith
wrap-Fixed (z ∷ a) child rest len h f e =
    rw (==-ne (length (z ∷ a)) 0 (λ q. absurd (omega arith)))
      (z ∷ a, rest, h, refl, omega arith, e, f)

-- The old keys and the new one have the same length on both sides of a fork.
fork_lengths :
    (p : List ℕ) (x : ℕ) (a : List ℕ) (y : ℕ) (b : List ℕ) (rest len : ℕ)
    → len ≡ length (p ++ (x ∷ a)) + rest
    → length (p ++ (y ∷ b)) ≡ len
    → (length b ≡ length a + rest) × (len ≡ length p + suc (length b))
fork_lengths p x a y b rest len e f = (
  omega (arith, length-append p (x ∷ a), length-append p (y ∷ b)),
  omega (arith, length-append p (y ∷ b)),
)

pub extension_fork :
    (p : List ℕ) (x : ℕ) (a : List ℕ) (y : ℕ) (b : List ℕ) (v : Bytes) (child : Node) (rest len : ℕ)
    → IsNibs p
    → IsNibs (x ∷ a)
    → IsNibs (y ∷ b)
    → x ≢ y
    → Fixed rest child
    → len ≡ length (p ++ (x ∷ a)) + rest
    → length (p ++ (y ∷ b)) ≡ len
    → len ≤ 64
    → Inserted len (extension (nib (p ++ (x ∷ a))) child) (p ++ (y ∷ b)) v none (
        insert_into_trie_rec
          (extension (nib (p ++ (x ∷ a))) child)
          (record { nibbles = nib (p ++ (y ∷ b)); v = val v }))
extension_fork p x a y b v child rest len hp ha hb n f e g fits =
    let (lb, lp) = fork_lengths p x a y b rest len e g in
    (
      wrap p (fork_branch x (wrap a child) y b v),
      insert_extension_fork p x a y b hp ha hb n (omega arith) (omega arith) v child,
      fork-Fixed p x (wrap a child) y b v (length b) len hp hb.1
          (wrap-Fixed a child rest (length b) ha.1 f lb) refl lp,
      lookup-fork p x (wrap a child) y b v _ hp hb.1 n (λ q. behind-extension p x a child q hp ha),
      (λ h. fork-Hashless p x (wrap a child) y b v (wrap-Hashless a child h)),
      (
        fork-NonEmpty p x (wrap a child) y b v,
        (λ c. absurd c),
        λ (c, d).
            let w : NonEmpty (wrap a child) × IsCompact (wrap a child) =
              wrap-IsCompact a child c d in
            fork-IsCompact p x (wrap a child) y b v ha.0 hb.0 n w.0 w.1,
      ),
    )

pub leaf_fork :
    (p : List ℕ) (x : ℕ) (a : List ℕ) (y : ℕ) (b : List ℕ) (v w : Bytes) (len : ℕ)
    → IsNibs p
    → IsNibs (x ∷ a)
    → IsNibs (y ∷ b)
    → x ≢ y
    → len ≡ length (p ++ (x ∷ a))
    → length (p ++ (y ∷ b)) ≡ len
    → len ≤ 64
    → Inserted len (leaf (nib (p ++ (x ∷ a))) w) (p ++ (y ∷ b)) v none (
        insert_into_trie_rec
          (leaf (nib (p ++ (x ∷ a))) w)
          (record { nibbles = nib (p ++ (y ∷ b)); v = val v }))
leaf_fork p x a y b v w len hp ha hb n e g fits =
    let (lb, lp) = fork_lengths p x a y b 0 len (omega arith) g in
    (
      wrap p (fork_branch x (leaf (nib a) w) y b v),
      insert_leaf_fork p x a y b hp ha hb n (omega arith) (omega arith) v w,
      fork-Fixed p x (leaf (nib a) w) y b v (length b) len hp hb.1 (a, ha.1, refl, omega arith) refl
          lp,
      lookup-fork p x (leaf (nib a) w) y b v _ hp hb.1 n (λ q. behind-leaf p x a w q hp ha),
      (λ h. fork-Hashless p x (leaf (nib a) w) y b v tt),
      (
        fork-NonEmpty p x (leaf (nib a) w) y b v,
        (λ c. absurd c),
        λ c. fork-IsCompact p x (leaf (nib a) w) y b v ha.0 hb.0 n refl tt,
      ),
    )

pub same_key : (n : Nibbles) → nibbles_eq n n ≡ true
same_key n = rw (==-refl n.count, ==-refl n.packed)

-- A leaf of the same key takes the new value.
replaced :
    (l : List ℕ) (w v : Bytes)
    → insert_into_trie_rec (leaf (nib l) w) (record { nibbles = nib l; v = val v })
      ≡ ok (some (leaf (nib l) v))
unfolding insert_into_trie_rec leaf_from_insert_val create_node_if_ins_val_not_hash
replaced l w v = rw (same_key (nib l))

changed_value :
    (c : Bool) (v w : Bytes)
    → (if c then some v else none) ≡ (if c then some v else if c then some w else none)
changed_value true v w = refl
changed_value false v w = refl

pub leaf_same :
    (l : List ℕ) (w v : Bytes) (len : ℕ)
    → IsNibs l
    → length l ≡ len
    → Inserted len
        (leaf (nib l) w)
        l
        v
        none
        (insert_into_trie_rec (leaf (nib l) w) (record { nibbles = nib l; v = val v }))
leaf_same l w v len hl el = (
  leaf (nib l) v,
  replaced l w v,
  (l, hl, refl, el),
  (λ q.
      rw (lookup-leaf l hl v q, lookup-leaf l hl w q, at_end-keys_eq l q v, at_end-keys_eq l q w)
        (changed_value (keys_eq q l) v w)),
  (λ h. tt),
  (refl, (λ b. b), λ c. tt),
)
