-- ===== src/Generation/Mpt/Loading.antt =====
-- What `load_mpt` leaves in the memory.
use zk_evm.Prelude.{
  ℕ, zero, suc, ◌+◌, ◌^◌, ◌≤◌, ◌<◌, ◌≡◌, refl, arith, ◌⊎◌, inl, inr, some, List, [], ◌∷◌, length,
  get_elem?, ltb-lt, Bool-cases, ◌==◌, ==_iff, false,
}
use zk_evm.Mpt.Nibbles.{Nibbles}
use zk_evm.Mpt.Node.{Bytes, Node, empty, hash, branch, extension, leaf}
use zk_evm.Generation.Errors.{ProgramResult, ok}
use zk_evm.Generation.Mpt.{MemoryValues, pushed, zeros, load_children, load_mpt, push_branch_value}
use zk_evm.Generation.Mpt.Cells.{
  Holds, Keeps, Starts, length-pushed, pushed-Keeps, Keeps-refl, Keeps-any, Keeps-trans,
  Keeps-wider, Holds-Keeps, pushed-Holds, pushed-pushed, get_elem?-lt, set_cell-ok,
}

module _ (parse_value : Bytes → ProgramResult (List ℕ)) where
  -- The words that a value is written as.
  abbrev pub Parses : Bytes → List ℕ → Type 0
  Parses v words = parse_value v ≡ ok words

  -- The keys in the nodes have at most 256 bits, and the values are parsed.
  abbrev pub Loadable : Node → Type 0
  Loadable empty = Unit
  Loadable (hash h) = Unit
  Loadable (branch c []) = (i : ℕ) → i < 16 → Loadable (c i)
  Loadable (branch c (b ∷ v)) =
      ((i : ℕ) → i < 16 → Loadable (c i)) × (words : List ℕ) × Parses (b ∷ v) words
  Loadable (extension n c) = (n.packed < 2 ^ 256) × Loadable c
  Loadable (leaf n v) = (n.packed < 2 ^ 256) × (words : List ℕ) × Parses v words

  -- The value of a branch whose node starts at `p`.
  abbrev pub ValueStored : Bytes → ℕ → MemoryValues → Type 0
  ValueStored [] p m = Holds m (p + 17) (0 ∷ [])
  ValueStored (b ∷ v) p m =
      (words : List ℕ) × Parses (b ∷ v) words × Holds m (p + 17) ((p + 18) ∷ words)

  -- The trie stands at the pointer, in cells from `lo` on; only an empty one may stand at 0.
  abbrev pub Stored : ℕ → Node → ℕ → MemoryValues → Type 0
  Stored lo empty p m = ((p < 1) ⊎ (lo ≤ p)) × (get_elem? m p ≡ some (some 0))
  Stored lo (hash h) p m = (lo ≤ p) × Holds m p (1 ∷ (h ∷ []))
  Stored lo (branch c v) p m =
      (lo ≤ p)
      × (get_elem? m p ≡ some (some 2))
      × ((i : ℕ)
          → i < 16
          → (q : ℕ) × (get_elem? m (p + 1 + i) ≡ some (some q)) × Stored lo (c i) q m)
      × ValueStored v p m
  Stored lo (extension n c) p m =
      (lo ≤ p) × (q : ℕ) × Holds m p (3 ∷ (n.count ∷ (n.packed ∷ (q ∷ [])))) × Stored lo c q m
  Stored lo (leaf n v) p m =
      (lo ≤ p)
      × (words : List ℕ) × Parses v words
      × Holds m p (4 ∷ (n.count ∷ (n.packed ∷ ((p + 4) ∷ words))))

  ValueStored-Keeps :
      {a b : ℕ} (v : Bytes) (p : ℕ) (m n : MemoryValues)
      → b ≤ p + 17
      → Keeps a b m n
      → ValueStored v p m
      → ValueStored v p n
  ValueStored-Keeps [] p m n h keep s = Holds-Keeps m n (p + 17) (0 ∷ []) (omega arith) keep s
  ValueStored-Keeps (b ∷ v) p m n h keep (words, parsed, s) =
      (words, parsed, Holds-Keeps m n (p + 17) ((p + 18) ∷ words) (omega arith) keep s)

  -- A stored trie stays when the cells before it change, other than cell 0.
  pub Stored-Keeps :
      (lo lo' : ℕ) (t : Node) (p : ℕ) (m n : MemoryValues)
      → lo' ≤ lo
      → Keeps 1 lo m n
      → Stored lo t p m
      → Stored lo' t p n
  Stored-Keeps lo lo' empty p m n h keep (inl at_0, e) = (inl at_0, keep.1 p _ (inl at_0) e)
  Stored-Keeps lo lo' empty p m n h keep (inr from, e) =
      (inr (omega arith), keep.1 p _ (inr from) e)
  Stored-Keeps lo lo' (hash x) p m n h keep (from, s) =
      (omega arith, Holds-Keeps m n p (1 ∷ (x ∷ [])) from keep s)
  Stored-Keeps lo lo' (branch c v) p m n h keep (from, e, below, s) = (
    omega arith,
    keep.1 p _ (inr from) e,
    λ i to.
        (let (q, eq, child) = below i to in
          (
            q,
            keep.1 (p + 1 + i) _ (inr (omega arith)) eq,
            Stored-Keeps lo lo' (c i) q m n h keep child,
          )),
    ValueStored-Keeps v p m n (omega arith) keep s,
  )
  Stored-Keeps lo lo' (extension x c) p m n h keep (from, q, s, child) = (
    omega arith,
    q,
    Holds-Keeps m n p (3 ∷ (x.count ∷ (x.packed ∷ (q ∷ [])))) from keep s,
    Stored-Keeps lo lo' c q m n h keep child,
  )
  Stored-Keeps lo lo' (leaf x v) p m n h keep (from, words, parsed, s) = (
    omega arith,
    words,
    parsed,
    Holds-Keeps m n p (4 ∷ (x.count ∷ (x.packed ∷ ((p + 4) ∷ words)))) from keep s,
  )

  -- Where a trie is loaded to: an empty one to cell 0.
  abbrev pub Pointer : Node → ℕ → ℕ → MemoryValues → Type 0
  Pointer empty len p n = (p ≡ 0) × (length n ≡ len)
  Pointer (hash h) len p n = p ≡ len
  Pointer (branch c v) len p n = p ≡ len
  Pointer (extension x c) len p n = p ≡ len
  Pointer (leaf x v) len p n = p ≡ len

  Pointer-cases :
      (t : Node) (len p : ℕ) (n : MemoryValues)
      → Pointer t len p n
      → ((t ≡ empty) × (p ≡ 0) × (length n ≡ len)) ⊎ (p ≡ len)
  Pointer-cases empty len p n (e, f) = inl (refl, e, f)
  Pointer-cases (hash h) len p n e = inr e
  Pointer-cases (branch c v) len p n e = inr e
  Pointer-cases (extension x c) len p n e = inr e
  Pointer-cases (leaf x v) len p n e = inr e

  abbrev pub Loaded : Node → MemoryValues → ProgramResult (ℕ × MemoryValues) → Type 0
  Loaded t m out =
      (p : ℕ) × (n : MemoryValues) × (out ≡ ok (p, n))
      × Pointer t (length m) p n
      × Stored (length m) t p n
      × Keeps 0 0 m n

  children-Loaded :
      (c : ℕ → Node) (load : ℕ → MemoryValues → ProgramResult (ℕ × MemoryValues)) (first : ℕ)
      → 0 < first
      → ((j : ℕ) → j < 16 → (m : MemoryValues) → Starts m → Loaded (c j) m (load j m))
      → (left i : ℕ) (m : MemoryValues) → i + left ≡ 16
      → first + 16 ≤ length m
      → Starts m
      → (n : MemoryValues) × (load_children left i first load m ≡ ok n)
        × Keeps (first + i) (first + 16) m n
        × ((j : ℕ)
            → i ≤ j
            → j < 16
            → (q : ℕ) × (get_elem? n (first + j) ≡ some (some q)) × Stored (first + 16) (c j) q n)
  children-Loaded c load first pos each zero i m e long start =
      (m, refl, Keeps-refl _ _ m, λ j from to. absurd (omega arith))
  children-Loaded c load first pos each (suc left) i m e long start =
      let (q, m1, run, at, stored, keep1) = each i (omega arith) m start in
      let (m2, run2, here, keep2) = set_cell-ok m1 (first + i) q (omega (arith, keep1.0)) in
      let start2 = keep2.1 0 _ (inl (omega arith)) (keep1.1 0 _ (inr (omega arith)) start) in
      let (n, run3, keep3, rest) =
        children-Loaded c load first pos each left (i + 1) m2 (omega arith)
          (omega (arith, keep1.0, keep2.0)) start2 in
      (
        n,
        rw (run, run2) run3,
        Keeps-trans m m1 n (Keeps-any _ _ m m1 keep1) (
            Keeps-trans m1 m2 n (Keeps-wider m1 m2 (omega arith) (omega arith) keep2)
              (Keeps-wider m2 n (omega arith) (omega arith) keep3)),
        λ j from to. elim (Bool-cases (j == i)) [
          | inl same ↦ (
            q,
            rw ((==_iff j i).0 same) (keep3.1 (first + i) _ (inl (omega arith)) here),
            rw ((==_iff j i).0 same) (
                Stored-Keeps (length m) (first + 16) (c i) q m1 n long
                  (Keeps-trans m1 m2 n (Keeps-wider m1 m2 (omega arith) (omega arith) keep2)
                    (Keeps-wider m2 n (omega arith) (omega arith) keep3))
                  stored),
          )
          | inr later ↦ rest j (later_lem j i from later) to
        ],
      )
    where
      later_lem : (j i : ℕ) → i ≤ j → (j == i) ≡ false → i + 1 ≤ j
      later_lem j i from later = ground (arith, from, later)

  -- A node's first three words, with a pointer behind them.
  three-words :
      (m : MemoryValues) (a b c : ℕ) (ws : List ℕ)
      → (let head = pushed m (a ∷ (b ∷ (c ∷ []))) in
          pushed head ((length head + 1) ∷ ws) ≡ pushed m (a ∷ (b ∷ (c ∷ ((length m + 4) ∷ ws)))))
  three-words m a b c ws =
      let next : length (pushed m (a ∷ (b ∷ (c ∷ [])))) + 1 ≡ length m + 4 =
        omega (arith, length-pushed m (a ∷ (b ∷ (c ∷ [])))) in
      rw (next, pushed-pushed m (a ∷ (b ∷ (c ∷ []))) ((length m + 4) ∷ ws)) refl

  branch-value :
      (v : Bytes) (p : ℕ) (m : MemoryValues) (c : ℕ → Node)
      → Loadable (branch c v)
      → length m ≡ p + 17
      → (n : MemoryValues) × (push_branch_value parse_value v m ≡ ok n)
        × ValueStored v p n
        × Keeps 0 0 m n
  branch-value [] p m c h e =
      (pushed m (0 ∷ []), refl, rw e at (pushed-Holds m (0 ∷ [])), pushed-Keeps 0 0 m (0 ∷ []))
  branch-value (b ∷ v) p m c (h, words, parsed) e = (
    pushed m ((p + 18) ∷ words),
    (let next : length m + 1 ≡ p + 18 = omega arith in rw (parsed, next) refl),
    (words, parsed, rw e at (pushed-Holds m ((p + 18) ∷ words))),
    pushed-Keeps 0 0 m ((p + 18) ∷ words),
  )

  -- The pointer to an empty child is one past the node, where a 0 is put.
  abbrev extension_end : ℕ → MemoryValues → MemoryValues
  extension_end q n = elim q [ zero ↦ pushed n (0 ∷ []) | suc k ↦ n ]

  extension_end-Stored :
      (x : Nibbles) (c : Node) (p q : ℕ) (m n : MemoryValues)
      → length m ≡ p + 4
      → Holds m p (3 ∷ (x.count ∷ (x.packed ∷ ((p + 4) ∷ []))))
      → Pointer c (length m) q n
      → Stored (length m) c q n
      → Keeps 0 0 m n
      → Stored p (extension x c) p (extension_end q n) × Keeps 0 0 m (extension_end q n)
  extension_end-Stored x c p q m n e head at stored keep =
      let words = 3 ∷ (x.count ∷ (x.packed ∷ ((p + 4) ∷ []))) in
      elim (Pointer-cases c (length m) q n at) [
        | inl (ec, eq, en) ↦
            let all = Keeps-trans m n (pushed n (0 ∷ [])) keep (pushed-Keeps 0 0 n (0 ∷ [])) in
            let here = (pushed-Holds n (0 ∷ [])).0 in
            let place : length n ≡ p + 4 = omega arith in
            rw (ec, eq)
              (
                (
                  omega arith,
                  p + 4,
                  Holds-Keeps m (pushed n (0 ∷ [])) p words (omega arith) all head,
                  (inr (omega arith), rw place at here),
                ),
                all,
              )
        | inr eq ↦
            let place : q ≡ suc (p + 3) = omega arith in
            rw place (
              (
                omega arith,
                p + 4,
                Holds-Keeps m n p words (omega arith) keep head,
                (let four : q ≡ p + 4 = omega arith in
                    Stored-Keeps (length m) p c (p + 4) n n (omega arith)
                      (Keeps-refl 1 (length m) n) (rw four at stored)),
              ),
              keep,
            )
      ]

  -- A branch, once its value stands and its children are loaded.
  branch-Stored :
      (c : ℕ → Node) (v : Bytes) (p first : ℕ) (m n : MemoryValues)
      → first ≡ p + 1
      → get_elem? m p ≡ some (some 2)
      → ValueStored v p m
      → Keeps (first + 0) (first + 16) m n
      → ((j : ℕ)
          → j < 16
          → (q : ℕ) × (get_elem? n (first + j) ≡ some (some q)) × Stored (first + 16) (c j) q n)
      → Stored p (branch c v) p n
  branch-Stored c v p first m n one kind value keep below = (
    omega arith,
    keep.1 p _ (inl (omega arith)) kind,
    λ i to.
        (let (q, e, child) = below i to in
          (
            q,
            rw one at e,
            Stored-Keeps (first + 16) p (c i) q n n (omega arith) (Keeps-refl 1 (first + 16) n)
                child,
          )),
    ValueStored-Keeps v p m n (omega arith) keep value,
  )

  child-Loadable :
      (c : ℕ → Node) (v : Bytes) → Loadable (branch c v) → (i : ℕ) → i < 16 → Loadable (c i)
  child-Loadable c [] h i to = h i to
  child-Loadable c (b ∷ v) h i to = h.0 i to

  -- A trie whose keys have at most 256 bits, and whose values are parsed, loaded into a memory with a
  -- 0 in front: no error or panic occurs, every cell keeps its content, and at the pointer that is
  -- returned stands the whole trie, node by node, in cells behind the old ones; an empty trie is at
  -- cell 0.
  pub load_mpt-Loaded :
      (t : Node) (m : MemoryValues) → Loadable t → Starts m → Loaded t m (load_mpt parse_value t m)
  unfolding load_mpt
  load_mpt-Loaded empty m h start =
      (0, m, refl, (refl, refl), (inl (omega arith), start), Keeps-refl 0 0 m)
  load_mpt-Loaded (hash x) m h start = (
    length m,
    pushed m (1 ∷ (x ∷ [])),
    refl,
    refl,
    (omega arith, pushed-Holds m (1 ∷ (x ∷ []))),
    pushed-Keeps 0 0 m (1 ∷ (x ∷ [])),
  )
  load_mpt-Loaded (branch c v) m h start =
      let typed = pushed m (2 ∷ []) in
      let zeroed = pushed typed (zeros 16) in
      let one : length typed ≡ length m + 1 = omega (arith, length-pushed m (2 ∷ [])) in
      let long : length zeroed ≡ length m + 17 = omega (arith, length-pushed typed (zeros 16)) in
      let (valued, run, value, keep1) = branch-value v (length m) zeroed c h long in
      let keep0 =
        Keeps-trans m typed zeroed (pushed-Keeps 0 0 m (2 ∷ []))
          (pushed-Keeps 0 0 typed (zeros 16)) in
      let before = Keeps-trans m zeroed valued keep0 keep1 in
      let (n, run2, keep2, below) =
        children-Loaded c (λ i k. load_mpt parse_value (c i) k) (length typed) (omega arith)
          (λ j to k starts. load_mpt-Loaded (c j) k (child-Loadable c v h j to) starts) 16 0 valued
          refl (omega (arith, keep1.0)) (before.1 0 _ (inr (omega arith)) start) in
      let kind = keep1.1 (length m) _ (inr (omega arith)) (
        (pushed-Keeps 0 0 typed (zeros 16)).1 (length m) _ (inr (omega arith))
          (pushed-Holds m (2 ∷ [])).0) in
      (
        length m,
        n,
        rw (run, run2) refl,
        refl,
        branch-Stored c v (length m) (length typed) valued n one kind value keep2
            (λ j to. below j (omega arith) to),
        (
          omega (arith, before.0, keep2.0),
          λ k cell out e.
              keep2.1 k cell (inl (omega (arith, get_elem?-lt m k cell e))) (before.1 k cell out e),
        ),
      )
  load_mpt-Loaded (extension x c) m (small, h) start =
      let words = 3 ∷ (x.count ∷ (x.packed ∷ ((length m + 4) ∷ []))) in
      let head = pushed m words in
      let keep0 = pushed-Keeps 0 0 m words in
      let (q, n, run, at, stored, keep) =
        load_mpt-Loaded c head h (keep0.1 0 _ (inr (omega arith)) start) in
      let (ends, keep1) =
        extension_end-Stored x c (length m) q head n (length-pushed m words) (pushed-Holds m words)
          at stored keep in
      (
        length m,
        extension_end q n,
        rw (ltb-lt x.packed (2 ^ 256) small, three-words m 3 x.count x.packed [], run) refl,
        refl,
        ends,
        Keeps-trans m head (extension_end q n) keep0 keep1,
      )
  load_mpt-Loaded (leaf x v) m (small, words, parsed) start =
      let all = 4 ∷ (x.count ∷ (x.packed ∷ ((length m + 4) ∷ words))) in
      (
        length m,
        pushed m all,
        rw (ltb-lt x.packed (2 ^ 256) small, parsed, three-words m 4 x.count x.packed words) refl,
        refl,
        (omega arith, words, parsed, pushed-Holds m all),
        pushed-Keeps 0 0 m all,
      )
