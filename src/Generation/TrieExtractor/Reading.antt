-- ===== src/Generation/TrieExtractor/Reading.antt =====
-- A trie that was loaded into the memory is read from it again.
use zk_evm.Prelude.{
  ℕ, zero, suc, ◌+◌, ◌^◌, ◌≤◌, ◌<◌, ◌≡◌, refl, arith, some, List, [], ◌∷◌, ◌++◌, length,
  length-append, All-append, map,
}
use zk_evm.Prelude.Powers.{pow_mono}
use zk_evm.Mpt.Nibbles.{Nibbles, new}
use zk_evm.Mpt.Nibbles.Value.{nib, IsNibs, value-lt}
use zk_evm.Mpt.Nibbles.Joins.{merge_nibble-nib, merge_nibbles-nib}
use zk_evm.Mpt.Node.{Bytes, Node, empty, hash, branch, extension, leaf}
use zk_evm.Mpt.Trie.Meaning.{Fixed}
use zk_evm.Generation.Errors.{ProgramResult, ok}
use zk_evm.Generation.Mpt.{MemoryValues, load_mpt}
use zk_evm.Generation.Mpt.Cells.{Starts, Holds-le, get_elem?-lt}
use zk_evm.Generation.Mpt.Loading.{Loadable, Stored, load_mpt-Loaded}
use zk_evm.Generation.TrieExtractor.{get_branch_child, get_trie_helper, get_trie}
use zk_evm.Generation.TrieExtractor.Nodes.{
  Agree, LeafValues, load-cell, load-Holds, usize, slice-Holds, get_children-ok,
}

pub packed-lt :
    (x : Nibbles) (l : List ℕ) → IsNibs l → x ≡ nib l → length l ≤ 64 → x.packed < 2 ^ 256
packed-lt x l hl e h =
    rw e (omega (arith, value-lt l hl, pow_mono 16 (length l) 64 (omega arith) h))

module _ (parse_value : Bytes → ProgramResult (List ℕ))
    (read_value : MemoryValues → MemoryValues → ProgramResult Bytes) where
  -- The reader undoes the parser on a value, whatever stands behind it in the memory.
  abbrev pub Undoes : Bytes → Type 0
  Undoes v =
      (words : List ℕ) × (parse_value v ≡ ok words)
      × ((m rest : MemoryValues) → read_value m (map some words ++ rest) ≡ ok v)

  Stored-lt :
      (lo : ℕ) (t : Node) (p : ℕ) (m : MemoryValues) → Stored parse_value lo t p m → p < length m
  Stored-lt lo empty p m (at, e) = get_elem?-lt m p (some 0) e
  Stored-lt lo (hash h) p m (at, held) = get_elem?-lt m p (some 1) held.0
  Stored-lt lo (branch c v) p m (at, e, below, value) = get_elem?-lt m p (some 2) e
  Stored-lt lo (extension n c) p m (at, q, held, child) = get_elem?-lt m p (some 3) held.0
  Stored-lt lo (leaf n v) p m (at, words, parsed, held) = get_elem?-lt m p (some 4) held.0

  get_trie_helper-Agree :
      (m : MemoryValues) (lo : ℕ) (t : Node) (len p fuel : ℕ) (l : List ℕ)
      → length m < 2 ^ 64
      → Stored parse_value lo t p m
      → Fixed len t
      → LeafValues Undoes t
      → IsNibs l
      → length l + len ≤ 64
      → len < fuel
      → (s : Node) × (get_trie_helper m read_value fuel p (nib l) ≡ ok s) × Agree t s
  unfolding get_trie_helper
  get_trie_helper-Agree m lo t len p zero l small stored f v hl fits e = absurd (omega arith)
  get_trie_helper-Agree m lo empty len p (suc fuel) l small (at, here) f v hl fits e =
      (empty, rw (load-cell m p 0 here) refl, tt)
  get_trie_helper-Agree m lo (hash h) len p (suc fuel) l small (at, held) f v hl fits e =
      let words = 1 ∷ (h ∷ []) in
      (hash h, rw (load-cell m p 1 held.0, load-Holds m p words held 1 h refl) refl, refl)
  get_trie_helper-Agree m lo (branch c w) zero p (suc fuel) l small stored f v hl fits e = absurd f
  get_trie_helper-Agree m lo (branch c (b ∷ w)) (suc len) p (suc fuel) l small stored f v hl fits
        e =
      absurd cc
  get_trie_helper-Agree m lo (branch c []) (suc len) p (suc fuel) l small (at, kind, below, value) f
        v hl fits e =
      let (d, run, all) =
        get_children-ok (λ j s. Agree (c j) s) 16 0
          (get_branch_child m read_value (get_trie_helper m read_value fuel) p (nib l))
          (λ j to.
            let (q, cell, stored) = below j to in
            let (s, run, same) =
              get_trie_helper-Agree m lo (c j) len q fuel (l ++ (j ∷ [])) small stored (f.1 j to)
                (v j to) (All-append (λ x. x < 16) l (j ∷ []) hl (to, tt))
                (omega (arith, length-append l (j ∷ []))) (omega arith) in
            (
              s,
              rw
                  (
                    load-cell m (p + 1 + j) q cell,
                    usize q (omega (arith, Stored-lt lo (c j) q m stored)),
                    merge_nibble-nib l j hl to (omega arith),
                  )
                  run,
              same,
            )) in
      let seventeen : p + 1 + 16 ≡ p + 17 = omega arith in
      (
        branch d [],
        rw (load-cell m p 2 kind, run, seventeen, load-cell m (p + 17) 0 value.0) refl,
        (λ i to. all i (omega arith) to, refl),
      )
  get_trie_helper-Agree m lo (extension x c) len p (suc fuel) l small (at, q, held, child)
        (k, rest, hk, en, pos, el, f) v hl fits e =
      let words = 3 ∷ (x.count ∷ (x.packed ∷ (q ∷ []))) in
      let (s, run, same) =
        get_trie_helper-Agree m lo c rest q fuel (l ++ k) small child f v
          (All-append (λ x. x < 16) l k hl hk) (omega (arith, length-append l k)) (omega arith) in
      (
        extension x s,
        rw
            (
              load-cell m p 3 held.0,
              load-Holds m p words held 1 x.count refl,
              load-Holds m p words held 2 x.packed refl,
              load-Holds m p words held 3 q refl,
              usize x.count (rw en (omega arith)),
              usize q (omega (arith, Stored-lt lo c q m child)),
              en,
              merge_nibbles-nib l k hl hk (omega arith),
              run,
            )
            refl,
        (refl, same),
      )
  get_trie_helper-Agree m lo (leaf x w) len p (suc fuel) l small (at, words, parsed, held)
        (k, hk, en, el) (others, parsed', back) hl fits e =
      let all = 4 ∷ (x.count ∷ (x.packed ∷ ((p + 4) ∷ words))) in
      let far = Holds-le m (suc (suc (suc (suc p)))) words held.1.1.1.1 in
      let four : suc (suc (suc (suc p))) ≡ p + 4 = omega arith in
      let (rest, slice) = slice-Holds m (p + 4) words (rw four at held.1.1.1.1) in
      let same : words ≡ others = cc in
      (
        leaf x w,
        rw
            (
              load-cell m p 4 held.0,
              load-Holds m p all held 1 x.count refl,
              load-Holds m p all held 2 x.packed refl,
              load-Holds m p all held 3 (p + 4) refl,
              usize x.count (rw en (omega arith)),
              usize (p + 4) (omega arith),
              slice,
              same,
              back m rest,
            )
            refl,
        (refl, refl),
      )

  Loadable-Undoes :
      (t : Node) (len : ℕ) → Fixed len t → len ≤ 64 → LeafValues Undoes t → Loadable parse_value t
  Loadable-Undoes empty len f h v = tt
  Loadable-Undoes (hash x) len f h v = tt
  Loadable-Undoes (branch c []) zero f h v = absurd f
  Loadable-Undoes (branch c []) (suc len) f h v =
      λ i to. Loadable-Undoes (c i) len (f.1 i to) (omega arith) (v i to)
  Loadable-Undoes (branch c (b ∷ w)) zero f h v = absurd f
  Loadable-Undoes (branch c (b ∷ w)) (suc len) f h v = absurd cc
  Loadable-Undoes (extension x c) len (l, rest, hl, en, pos, el, f) h v =
      (packed-lt x l hl en (omega arith), Loadable-Undoes c rest f (omega arith) v)
  Loadable-Undoes (leaf x w) len (l, hl, en, el) h (words, parsed, back) =
      (packed-lt x l hl en (omega arith), words, parsed)

  -- A trie over keys of one length, of at most 64 nibbles, whose values the reader gets back from
  -- what the parser makes of them: loaded into a memory with a 0 in front, and read with more fuel
  -- than a key has nibbles, it is the same trie, if the memory's length is below 2 ^ 64.
  pub get_trie-load_mpt :
      (t : Node) (len : ℕ) (m : MemoryValues) (p : ℕ) (n : MemoryValues) (fuel : ℕ)
      → Fixed len t
      → len ≤ 64
      → LeafValues Undoes t
      → Starts m
      → load_mpt parse_value t m ≡ ok (p, n)
      → length n < 2 ^ 64
      → len < fuel
      → (s : Node) × (get_trie n read_value fuel p ≡ ok s) × Agree t s
  unfolding get_trie new
  get_trie-load_mpt t len m p n fuel f h v start run small e =
      let (q, o, run', at, stored, keep) =
        load_mpt-Loaded parse_value t m (Loadable-Undoes t len f h v) start in
      let eq : q ≡ p = cc in
      let eo : o ≡ n = cc in
      get_trie_helper-Agree n (length m) t len p fuel [] small (rw (eq, eo) at stored) f v tt
        (omega arith) e
