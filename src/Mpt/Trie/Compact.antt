-- ===== src/Mpt/Trie/Compact.antt =====
-- The shape that insertion and deletion keep: no branch with a single child, no extension before
-- another extension or a leaf.
use zk_evm.Prelude.{
  ℕ, ◌≡◌, ◌<◌, ◌≢◌, refl, arith, Bool, true, false, List, [], ◌∷◌, length, ◌==◌, if◌then◌else◌,
  ==-refl, ==-ne,
}
use zk_evm.Mpt.Nibbles.Value.{nib}
use zk_evm.Mpt.Node.{Bytes, Node, empty, hash, branch, extension, leaf, node_is_empty, set_child}
use zk_evm.Mpt.Trie.Fork.{wrap, fork_branch}

abbrev pub NonEmpty : Node → Type 0
NonEmpty t = node_is_empty t ≡ false

abbrev pub IsBranch : Node → Type 0
IsBranch (branch children value) = Unit
IsBranch t = ⊥

-- Each branch has two children or more, and each extension stands before a branch.
abbrev pub IsCompact : Node → Type 0
IsCompact (branch children value) =
    (i : ℕ) × (j : ℕ) × (i < 16)
    × (j < 16)
    × (i ≢ j)
    × NonEmpty (children i)
    × NonEmpty (children j)
    × ((m : ℕ) → m < 16 → IsCompact (children m))
IsCompact (extension n child) = IsBranch child × IsCompact child
IsCompact t = Unit

pub IsBranch-NonEmpty : (t : Node) → IsBranch t → NonEmpty t
IsBranch-NonEmpty empty b = absurd b
IsBranch-NonEmpty (hash h) b = absurd b
IsBranch-NonEmpty (branch children value) b = refl
IsBranch-NonEmpty (extension n child) b = absurd b
IsBranch-NonEmpty (leaf n v) b = absurd b

-- What an insertion keeps of the shape.
abbrev pub Kept : Node → Node → Type 0
Kept t t' = NonEmpty t' × (IsBranch t → IsBranch t') × (IsCompact t → IsCompact t')

fork_branch-IsCompact :
    (x : ℕ) (old : Node) (y : ℕ) (b : List ℕ) (v : Bytes)
    → x < 16
    → y < 16
    → x ≢ y
    → NonEmpty old
    → IsCompact old
    → IsCompact (fork_branch x old y b v)
fork_branch-IsCompact x old y b v hx hy n ne c = (
  x,
  y,
  hx,
  hy,
  n,
  rw (==-ne x y n, ==-refl x) ne,
  rw (==-refl y),
  λ m h. cases (m == y) (m == x),
)
  where
    cases : (d e : Bool) → IsCompact (if d then leaf (nib b) v else if e then old else empty)
    cases true e = tt
    cases false true = c
    cases false false = tt

wrap_branch-IsCompact :
    (p : List ℕ) (c : ℕ → Node) (v : Bytes)
    → IsCompact (branch c v)
    → IsCompact (wrap p (branch c v))
wrap_branch-IsCompact [] c v h = h
wrap_branch-IsCompact (z ∷ p) c v h =
    rw (==-ne (length (z ∷ p)) 0 (λ e. absurd (omega arith))) (tt, h)

wrap_branch-NonEmpty : (p : List ℕ) (c : ℕ → Node) (v : Bytes) → NonEmpty (wrap p (branch c v))
wrap_branch-NonEmpty [] c v = refl
wrap_branch-NonEmpty (z ∷ p) c v = rw (==-ne (length (z ∷ p)) 0 (λ e. absurd (omega arith))) refl

-- The branch at a fork is compact if the old node is.
pub fork-IsCompact :
    (p : List ℕ) (x : ℕ) (old : Node) (y : ℕ) (b : List ℕ) (v : Bytes)
    → x < 16
    → y < 16
    → x ≢ y
    → NonEmpty old
    → IsCompact old
    → IsCompact (wrap p (fork_branch x old y b v))
fork-IsCompact p x old y b v hx hy n ne c =
    wrap_branch-IsCompact p _ [] (fork_branch-IsCompact x old y b v hx hy n ne c)

pub fork-NonEmpty :
    (p : List ℕ) (x : ℕ) (old : Node) (y : ℕ) (b : List ℕ) (v : Bytes)
    → NonEmpty (wrap p (fork_branch x old y b v))
fork-NonEmpty p x old y b v = wrap_branch-NonEmpty p _ []

-- A branch stays compact when a child gives way to one that is compact and not empty.
pub set_child-Kept :
    (c : ℕ → Node) (value : Bytes) (x : ℕ) (t' : Node)
    → x < 16
    → Kept (c x) t'
    → Kept (branch c value) (branch (set_child c x t') value)
set_child-Kept c value x t' small (there, same, compact) = (
  refl,
  (λ b. tt),
  λ (i, j, hi, hj, n, ni, nj, rest). (
    i,
    j,
    hi,
    hj,
    n,
    kept (i == x) (c i) ni,
    kept (j == x) (c j) nj,
    λ m hm. below (m == x) (c m) (compact (rest x small)) (rest m hm),
  ),
)
  where
    kept : (d : Bool) (old : Node) → NonEmpty old → NonEmpty (if d then t' else old)
    kept true old h = there
    kept false old h = h

    below :
        (d : Bool) (old : Node) → IsCompact t' → IsCompact old → IsCompact (if d then t' else old)
    below true old h k = h
    below false old h k = k

-- The rest of an extension in front of its branch.
pub wrap-IsCompact :
    (a : List ℕ) (child : Node)
    → IsBranch child
    → IsCompact child
    → NonEmpty (wrap a child) × IsCompact (wrap a child)
wrap-IsCompact [] child b c = (IsBranch-NonEmpty child b, c)
wrap-IsCompact (z ∷ a) child b c =
    rw (==-ne (length (z ∷ a)) 0 (λ e. absurd (omega arith))) (refl, (b, c))
