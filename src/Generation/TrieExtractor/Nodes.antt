-- ===== src/Generation/TrieExtractor/Nodes.antt =====
-- What the reader finds in single cells and behind the children's pointers, for the proofs, and when
-- two tries are the same.
use zk_evm.Prelude.{
  ℕ, zero, suc, ◌+◌, ◌^◌, ◌≤◌, ◌<◌, ◌≡◌, refl, arith, some, List, [], ◌∷◌, ◌++◌, length, map,
  get_elem?, ltb-lt, leb-le, Bool-cases, inl, inr, ◌==◌, ==_iff, false, if◌then◌else◌,
}
use zk_evm.Mpt.Node.{Bytes, Node, empty, hash, branch, extension, leaf}
use zk_evm.Generation.Errors.{ProgramResult, ok, u256_to_usize}
use zk_evm.Generation.Mpt.{MemoryValues}
use zk_evm.Generation.Mpt.Cells.{Holds, Holds-le, drop-Holds}
use zk_evm.Generation.TrieExtractor.{load, load_slice_from, get_children}

-- The same trie, where an array of children is what it holds below 16.
abbrev pub Agree : Node → Node → Type 0
Agree empty empty = Unit
Agree (hash h) (hash g) = h ≡ g
Agree (branch c v) (branch d w) = ((i : ℕ) → i < 16 → Agree (c i) (d i)) × (v ≡ w)
Agree (extension n c) (extension o d) = (n ≡ o) × Agree c d
Agree (leaf n v) (leaf o w) = (n ≡ o) × (v ≡ w)
Agree s t = ⊥

-- What holds of the values of the leaves.
abbrev pub LeafValues : (Bytes → Type 0) → Node → Type 0
LeafValues P empty = Unit
LeafValues P (hash h) = Unit
LeafValues P (branch c v) = (i : ℕ) → i < 16 → LeafValues P (c i)
LeafValues P (extension n c) = LeafValues P c
LeafValues P (leaf n v) = P v

pub load-cell : (m : MemoryValues) (p w : ℕ) → get_elem? m p ≡ some (some w) → load m p ≡ w
load-cell m p w e = rw (load, e) refl

pub load-Holds :
    (m : MemoryValues) (p : ℕ) (words : List ℕ)
    → Holds m p words
    → (k w : ℕ) → get_elem? words k ≡ some w
    → load m (p + k) ≡ w
load-Holds m p [] h k w e = absurd cc
load-Holds m p (x ∷ words) (here, rest) zero w e =
    let start : p + 0 ≡ p = omega arith in
    let same : x ≡ w = cc in rw start (load-cell m p w (rw same at here))
load-Holds m p (x ∷ words) (here, rest) (suc k) w e =
    let step : p + suc k ≡ suc p + k = omega arith in
    rw step (load-Holds m (suc p) words rest k w e)

pub usize : (n : ℕ) → n < 2 ^ 64 → u256_to_usize n ≡ ok n
usize n h = rw (ltb-lt n (2 ^ 64) h) refl

pub slice-Holds :
    (m : MemoryValues) (p : ℕ) (words : List ℕ)
    → Holds m p words
    → (rest : MemoryValues) × (load_slice_from m p ≡ ok (map some words ++ rest))
slice-Holds m p words h =
    let (rest, e) = drop-Holds m p words h in
    (rest, rw (leb-le p (length m) (Holds-le m p words h), e) refl)

pub get_children-ok :
    (Q : ℕ → Node → Type 0) (left i : ℕ) (f : ℕ → ProgramResult Node)
    → ((j : ℕ) → j < i + left → (s : Node) × (f j ≡ ok s) × Q j s)
    → (array : ℕ → Node) × (get_children left i f ≡ ok array)
      × ((j : ℕ) → i ≤ j → j < i + left → Q j (array j))
get_children-ok Q zero i f h = (λ j. empty, refl, λ j a b. absurd (omega arith))
get_children-ok Q (suc left) i f h =
    let (s, e, q) = h i (omega arith) in
    let (others, p, all) = get_children-ok Q left (i + 1) f (λ j to. h j (omega arith)) in
    (
      λ j. if j == i then s else others j,
      rw (e, p) refl,
      λ j from to. elim (Bool-cases (j == i)) [
        | inl here ↦ rw (here, (==_iff j i).0 here) q
        | inr later ↦ rw later (all j (after j i from later) (omega arith))
      ],
    )
  where
    after : (j i : ℕ) → i ≤ j → (j == i) ≡ false → i + 1 ≤ j
    after j i from later = ground (arith, from, later)
