-- ===== src/Mpt/Delete/Steps.antt =====
-- One step of a deletion: at a leaf, through a branch and through an extension.
use zk_evm.Prelude.{
  ℕ, suc, ◌+◌, ◌≤◌, ◌<◌, ◌≡◌, refl, ◌∙◌, arith, Bool, true, false, List, [], ◌∷◌, ◌++◌, length,
  Option, none, some, ◌==◌, if◌then◌else◌, Bool-cases, Option-cases, inl, inr, drop-length, ==_iff,
}
use zk_evm.Mpt.Keys.{
  strip, strip-append, strip-fork, append-strip, keys_eq, keys_eq_refl, keys_eq→eq, keys_eq-append,
  agree-append, agree-fork, within, fork, split,
}
use zk_evm.Mpt.Nibbles.Value.{IsNibs, nib}
use zk_evm.Mpt.Nibbles.Compare.{identical-nib}
use zk_evm.Mpt.Nibbles.Slices.{truncate_n_nibbles_front-nib}
use zk_evm.Mpt.Trie.Compact.{NonEmpty, IsBranch, IsCompact}
use zk_evm.Mpt.Node.{
  Bytes, Node, empty, hash, branch, extension, leaf, OnOrphanedHashNode, TrieOpResult, ok, ◌>>=◌,
}
use zk_evm.Mpt.Trie.{nibbles_eq}
use zk_evm.Mpt.Trie.Fork.{at_end-keys_eq}
use zk_evm.Mpt.Trie.Get.{IsNibs-rest, length-rest}
use zk_evm.Mpt.Trie.InsertForks.{key-eq, same_key}
use zk_evm.Mpt.Trie.Meaning.{
  lookup, lookup-leaf, lookup-extension, lookup-child, lookup-empty, Fixed, Hashless, at_end,
}
use zk_evm.Mpt.Delete.{delete_intern, if_deleted, update_branch, collapse_ext_node_if_needed}
use zk_evm.Mpt.Delete.Shape.{IsOpen, Collapsed, collapse_ext-Collapsed}
use zk_evm.Mpt.Delete.Branches.{patched, Updated, update_branch-Updated}

-- A function without one key.
abbrev pub without : (List ℕ → Option Bytes) → List ℕ → List ℕ → Option Bytes
without f k q = if keys_eq q k then none else f q

-- How the recursion ends, by what the key reads as.
abbrev pub Deleted :
    ℕ → Node → List ℕ → Option Bytes → TrieOpResult (Option (Node × Bytes)) → Type 0
Deleted len t k none r = r ≡ ok none
Deleted len t k (some v) r =
    (t' : Node) × (r ≡ ok (some (t', v)))
    × Fixed len t'
    × Hashless t'
    × IsOpen t'
    × (IsBranch t → NonEmpty t')
    × ((q : List ℕ) → IsNibs q → lookup t' q ≡ without (lookup t) k q)

pub lookup-NonEmpty : (t : Node) (k : List ℕ) (v : Bytes) → lookup t k ≡ some v → NonEmpty t
lookup-NonEmpty empty k v e = cc (lookup-empty k, e)
lookup-NonEmpty (hash h) k v e = refl
lookup-NonEmpty (branch children value) k v e = refl
lookup-NonEmpty (extension n child) k v e = refl
lookup-NonEmpty (leaf n w) k v e = refl

patched-without :
    (c : ℕ → Node) (x : ℕ) (u : Node) (k : List ℕ)
    → ((q : List ℕ) → IsNibs q → lookup u q ≡ without (lookup (c x)) k q)
    → (q : List ℕ) → IsNibs q
    → patched c x u q ≡ without (lookup (branch c [])) (x ∷ k) q
patched-without c x u k h [] hq = unfold lookup in refl
patched-without c x u k h (z ∷ q) hq = rw (lookup-child c [] z q) (elim (Bool-cases (z == x)) [
  | inl same ↦ rw (same, (==_iff z x).0 same) (h q hq.1)
  | inr differ ↦ rw differ
])

key-same : (l k : List ℕ) → IsNibs l → IsNibs k → nibbles_eq (nib l) (nib k) ≡ keys_eq k l
key-same l k hl hk = elim (Bool-cases (keys_eq k l)) [
  | inl same ↦ rw (same, keys_eq→eq k l same) (same_key (nib l))
  | inr differ ↦ rw differ (elim (Bool-cases (nibbles_eq (nib l) (nib k))) [
    | inl same ↦ cc (key-eq l k hl hk same, keys_eq_refl k, differ)
    | inr other ↦ other
  ])
]

pub delete_leaf :
    (l : List ℕ) (w : Bytes) (k : List ℕ) (len : ℕ)
    → IsNibs l
    → IsNibs k
    → Deleted len
        (leaf (nib l) w)
        k
        (at_end (strip l k) w)
        (ok (if nibbles_eq (nib l) (nib k) then some (empty, w) else none))
delete_leaf l w k len hl hk =
    rw (at_end-keys_eq l k w, key-same l k hl hk)
      (elim (Bool-cases (keys_eq k l)) [
        | inl same ↦ rw same (
          empty,
          refl,
          tt,
          tt,
          tt,
          (λ b. absurd b),
          λ q hq.
              rw (lookup-empty q, lookup-leaf l hl w q, at_end-keys_eq l q w, keys_eq→eq k l same)
                (gone (keys_eq q l)),
        )
        | inr differ ↦ rw differ
      ])
  where
    gone : (b : Bool) → none ≡ (if b then none else if b then some w else none)
    gone true = refl
    gone false = refl

module _ (strategy : OnOrphanedHashNode) where
  pub branch_step :
      (c : ℕ → Node) (x : ℕ) (k : List ℕ) (len : ℕ) (o : Option Bytes)
      (r : TrieOpResult (Option (Node × Bytes)))
      → x < 16
      → len ≤ 64
      → Fixed (suc len) (branch c [])
      → Hashless (branch c [])
      → IsCompact (branch c [])
      → lookup (c x) k ≡ o
      → Deleted len (c x) k o r
      → Deleted
          (suc len)
          (branch c [])
          (x ∷ k)
          o
          (r >>= λ res. if_deleted res (λ child. update_branch c [] x child (nib k) strategy))
  branch_step c x k len none r small fits f h b e d = rw d
  branch_step c x k len (some v) r small fits f h b e (u, er, fu, hu, ou, there, hq) = rw er (
      finish (
        update_branch-Updated c x u len small fits f h b.7 (lookup-NonEmpty (c x) k v e) fu hu ou b
          (nib k) strategy))
    where
      finish :
          Updated (suc len) c x u (update_branch c [] x u (nib k) strategy)
          → Deleted
              (suc len)
              (branch c [])
              (x ∷ k)
              (some v)
              (update_branch c [] x u (nib k) strategy >>= λ node. ok (some (node, v)))
      finish (t', et, ft, ht, nt, ot, qt) =
          (t', rw et, ft, ht, ot, (λ _. nt), λ q qn. qt q qn ∙ patched-without c x u k hq q qn)

  extension_without :
      (l : List ℕ) (child u : Node) (k q : List ℕ)
      → IsNibs q
      → ((r : List ℕ) → IsNibs r → lookup u r ≡ without (lookup child) k r)
      → IsNibs l
      → lookup (extension (nib l) u) q ≡ without (lookup (extension (nib l) child)) (l ++ k) q
  extension_without l child u k q hq h hl =
      rw (lookup-extension l hl u q, lookup-extension l hl child q, keys_eq-append l k q)
        (elim (Option-cases (strip l q)) [
          | inl off ↦ rw off
          | inr (r, on) ↦ rw on (h r (IsNibs-rest l r q (append-strip l q on) hq))
        ])

  extension_step :
      (l : List ℕ) (child : Node) (k : List ℕ) (len rest : ℕ) (o : Option Bytes)
      (r : TrieOpResult (Option (Node × Bytes)))
      → IsNibs l
      → 0 < length l
      → len ≡ length l + rest
      → len ≤ 64
      → IsBranch child
      → Deleted rest child k o r
      → Deleted len (extension (nib l) child) (l ++ k) o (
          r >>= λ res.
          if_deleted res (λ node. collapse_ext_node_if_needed (nib l) node (nib k) strategy))
  extension_step l child k len rest none r hl pos el fits b d = rw d
  extension_step l child k len rest (some v) r hl pos el fits b (u, er, fu, hu, ou, there, hq) =
      rw er (
        finish
          (collapse_ext-Collapsed l hl pos len rest el fits (nib k) strategy u fu hu (there b) ou))
    where
      finish :
          Collapsed len l u (collapse_ext_node_if_needed (nib l) u (nib k) strategy)
          → Deleted len (extension (nib l) child) (l ++ k) (some v) (
              collapse_ext_node_if_needed (nib l) u (nib k) strategy >>= λ node.
              ok (some (node, v)))
      finish (t', et, (ft, ht, qt), nt, ot, ct) = (
        t',
        rw et,
        ft,
        ht,
        ot,
        (λ _. nt),
        λ q qn. qt q ∙ extension_without l child u k q qn hq hl,
      )

  pub delete_extension :
      (l : List ℕ) (child : Node) (k : List ℕ) (len rest : ℕ)
      → IsNibs l
      → 0 < length l
      → len ≡ length l + rest
      → len ≤ 64
      → IsBranch child
      → IsNibs k
      → length k ≡ len
      → ((r : List ℕ)
          → IsNibs r
          → length r ≡ rest
          → Deleted rest child r (lookup child r) (delete_intern child (nib r) strategy))
      → Deleted len
          (extension (nib l) child)
          k
          (elim (strip l k) [ none ↦ none | some r ↦ lookup child r ])
          (delete_intern (extension (nib l) child) (nib k) strategy)
  unfolding delete_intern
  delete_extension l child k len rest hl pos el fits b hk ek ih =
      rw
        (
          identical-nib l k hl hk (omega arith) (omega arith),
          truncate_n_nibbles_front-nib k hk (omega arith) (length l),
        )
        (elim (split l k (omega arith)) [
          | within r e ↦
              rw (e, agree-append l r, strip-append l r, drop-length l r)
                (extension_step l child r len rest _ _ hl pos el fits b
                  (ih r (IsNibs-rest l r k e hk) (omega (arith, length-rest l r k e))))
          | fork p x a y c e f n ↦ rw (e, f, agree-fork x y a c n p, strip-fork x y a c n p)
        ])
