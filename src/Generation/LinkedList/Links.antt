-- ===== src/Generation/LinkedList/Links.antt =====
-- Memory that holds a linked list of storage slots: how a slot is put at its end, and how it is read.
use zk_evm.Prelude.{
  ℕ, zero, suc, ◌+◌, ◌-◌, ◌*◌, ◌^◌, ◌≤◌, ◌<◌, ◌≡◌, refl, ap, sym, arith, ◌⊎◌, inl, inr, ◌∙◌, some,
  List, [], ◌∷◌, ◌++◌, length, length-append, map, take, take-length, get_elem?, checked_sub,
  checked_sub-le,
}
use zk_evm.Generation.Errors.{ProgramResult, ok, err, panic, ◌>>=◌}
use zk_evm.Generation.Mpt.{MemoryValues, pushed, set_cell}
use zk_evm.Generation.Mpt.Cells.{
  Holds, Keeps, length-pushed, pushed-Keeps, pushed-Holds, set_cell-ok, get_elem?-lt,
}
use zk_evm.Generation.TrieExtractor.Nodes.{usize}
use zk_evm.Generation.LinkedList.{
  storage_linked_list, LinkedList, cell_at, cells_at, next_node, take_nodes,
}

-- A slot: the address, the key and the value. The fourth word of its node is a counter.
pub record Slot : Type 0 where
  pub address : ℕ
  pub key : ℕ
  pub word : ℕ

abbrev pub payload : Slot → List ℕ
payload s = s.address ∷ (s.key ∷ (s.word ∷ (0 ∷ [])))

-- Where the node behind position `at` stands; the last node leads to the first one.
abbrev pub pointer_to : ℕ → List (List ℕ) → ℕ
pointer_to at [] = storage_linked_list
pointer_to at (b ∷ bs) = storage_linked_list + at

-- Nodes of four words and a pointer, from a position to the end of the memory.
abbrev pub Linked : MemoryValues → ℕ → List (List ℕ) → Type 0
Linked m at [] = length m ≡ at
Linked m at (b ∷ bs) =
    (length b ≡ 4)
    × Holds m at b
    × (get_elem? m (at + 4) ≡ some (some (pointer_to (at + 5) bs)))
    × Linked m (at + 5) bs

Holds-below :
    {a b : ℕ} (m n : MemoryValues) (q : ℕ) (ws : List ℕ)
    → q + length ws ≤ a
    → Keeps a b m n
    → Holds m q ws
    → Holds n q ws
Holds-below m n q [] h keep p = omega (arith, keep.0)
Holds-below m n q (w ∷ ws) h keep (here, rest) =
    (keep.1 q (some w) (inl (omega arith)) here, Holds-below m n (suc q) ws (omega arith) keep rest)

Linked-le : (m : MemoryValues) (at : ℕ) (bs : List (List ℕ)) → Linked m at bs → at ≤ length m
Linked-le m at [] e = omega arith
Linked-le m at (b ∷ bs) (four, here, link, rest) = omega (arith, Linked-le m (at + 5) bs rest)

pub Linked-ge :
    (m : MemoryValues) (at : ℕ) (b : List ℕ) (bs : List (List ℕ))
    → Linked m at (b ∷ bs)
    → at + 5 ≤ length m
Linked-ge m at b bs (four, here, link, rest) = Linked-le m (at + 5) bs rest

-- The node that is put at the end, where the last pointer is patched.
abbrev pub node_words : List ℕ → List ℕ
node_words b = b ++ (storage_linked_list ∷ [])

append-Linked :
    (m n : MemoryValues) (at : ℕ) (b : List ℕ) (bs : List (List ℕ)) (new : List ℕ)
    → length new ≡ 4
    → Linked m at (b ∷ bs)
    → Keeps (length m - 1) (length m) m n
    → length n ≡ length m + 5
    → get_elem? n (length m - 1) ≡ some (some (storage_linked_list + length m))
    → Holds n (length m) new
    → get_elem? n (length m + 4) ≡ some (some storage_linked_list)
    → Linked n at ((b ∷ bs) ++ (new ∷ []))
append-Linked m n at b [] new four (fb, here, link, rest) keep long patched hold end =
    let place : length m ≡ at + 5 = omega arith in
    let last : length m - 1 ≡ at + 4 = omega arith in
    (
      fb,
      Holds-below m n at b (omega arith) keep here,
      rw place at (rw last at patched),
      (four, rw place at hold, rw place at end, omega arith),
    )
append-Linked m n at b (c ∷ bs) new four (fb, here, link, rest) keep long patched hold end =
    let far = Linked-ge m (at + 5) c bs rest in
    (
      fb,
      Holds-below m n at b (omega arith) keep here,
      keep.1 (at + 4) _ (inl (omega arith)) link,
      append-Linked m n (at + 5) c bs new four rest keep long patched hold end,
    )

set_cell-length :
    (m : MemoryValues) (i w : ℕ) (n : MemoryValues) → set_cell m i w ≡ ok n → length n ≡ length m
unfolding set_cell
set_cell-length [] i w n e = absurd cc
set_cell-length (c ∷ cs) zero w n e = let same : n ≡ some w ∷ cs = cc in rw same refl
set_cell-length (c ∷ cs) (suc i) w n e =
    kept (set_cell cs i w) refl e (λ rest h. set_cell-length cs i w rest h)
  where
    kept :
        (r : ProgramResult MemoryValues)
        → set_cell cs i w ≡ r
        → (r >>= λ rest. ok (c ∷ rest)) ≡ ok n
        → ((rest : MemoryValues) → set_cell cs i w ≡ ok rest → length rest ≡ length cs)
        → length n ≡ suc (length cs)
    kept (ok rest) h e below = let same : n ≡ c ∷ rest = cc in rw same (ap suc (below rest h))
    kept (err x) h e below = absurd cc
    kept panic h e below = absurd cc

-- A slot that is put at the end of a list, as `get_storage_leaves` does.
pub put-Linked :
    (m : MemoryValues) (b : List ℕ) (bs : List (List ℕ)) (s : Slot)
    → Linked m 0 (b ∷ bs)
    → (n : MemoryValues) × (set_cell m (length m - 1) (storage_linked_list + length m) ≡ ok n)
      × Linked (pushed n (node_words (payload s))) 0 ((b ∷ bs) ++ (payload s ∷ []))
put-Linked m b bs s linked =
    let long = Linked-ge m 0 b bs linked in
    let (n, run, here, keep) =
      set_cell-ok m (length m - 1) (storage_linked_list + length m) (omega arith) in
    let four : suc (suc (suc (suc (length m)))) ≡ length m + 4 = omega arith in
    let words = node_words (payload s) in
    let all = pushed-Keeps (length m - 1) (length m) n words in
    let same : length n ≡ length m =
      set_cell-length m (length m - 1) (storage_linked_list + length m) n run in
    let held : Holds (pushed n words) (length m) words = rw same at (pushed-Holds n words) in
    (
      n,
      run,
      append-Linked m (pushed n words) 0 b bs (payload s) refl linked
          (
            omega (arith, keep.0, all.0),
            λ k c out e. all.1 k c out (keep.1 k c (narrow m k long out) e),
          )
          (length-pushed n words ∙ omega arith)
          ((pushed-Keeps 0 0 n words).1 (length m - 1) _ (inr (omega arith)) here)
          (held.0, (held.1.0, (held.1.1.0, (held.1.1.1.0, omega (arith, length-pushed n words)))))
          (rw four at held.1.1.1.1.0),
    )
  where
    narrow :
        (m : MemoryValues) (k : ℕ)
        → 0 + 5 ≤ length m
        → (k < length m - 1) ⊎ (length m ≤ k)
        → (k < length m - 1) ⊎ (suc (length m - 1) ≤ k)
    narrow m k long (inl low) = inl low
    narrow m k long (inr high) = inr (omega arith)

cell-eq : (m : MemoryValues) (i w : ℕ) → get_elem? m i ≡ some (some w) → cell_at m i ≡ ok w
cell-eq m i w e = rw (cell_at, e) refl

offset-sub : (t : ℕ) → checked_sub (storage_linked_list + t) storage_linked_list ≡ some t
offset-sub t =
    let back : storage_linked_list + t - storage_linked_list ≡ t = omega arith in
    checked_sub-le (storage_linked_list + t) storage_linked_list (omega arith)
    ∙ ap (λ (n : ℕ). some n) back

cells-Holds :
    (m : MemoryValues) (i : ℕ) (ws : List ℕ) → Holds m i ws → cells_at (length ws) m i ≡ ok ws
cells-Holds m i [] h = refl
cells-Holds m i (w ∷ ws) (here, rest) = rw (cell-eq m i w here, cells-Holds m (suc i) ws rest) refl

node-Holds :
    (m : MemoryValues) (q : ℕ) (b : List ℕ) (w : ℕ)
    → Holds m q b
    → get_elem? m (q + length b) ≡ some (some w)
    → Holds m q (b ++ (w ∷ []))
node-Holds m q [] w h e =
    let place : q + 0 ≡ q = omega arith in
    (rw place at e, omega (arith, get_elem?-lt m (q + 0) (some w) e))
node-Holds m q (x ∷ b) w (here, rest) e =
    let place : q + suc (length b) ≡ suc q + length b = omega arith in
    (here, node-Holds m (suc q) b w rest (rw place at e))

abbrev pub reader : MemoryValues → ℕ → LinkedList
reader m pos = record { mem = m; offset = storage_linked_list; pos = pos }

-- One item of the iterator: it follows the pointer of the node that it is at.
next-Linked :
    (m : MemoryValues) (at target : ℕ) (b : List ℕ) (w : ℕ)
    → get_elem? m (at + 4) ≡ some (some (storage_linked_list + target))
    → length b ≡ 4
    → Holds m target b
    → get_elem? m (target + 4) ≡ some (some w)
    → storage_linked_list + length m < 2 ^ 64
    → next_node 5 (reader m at) ≡ ok (some (b ++ (w ∷ []), reader m target))
unfolding next_node
next-Linked m at target b w link four hold end small =
    let place : at + 5 - 1 ≡ at + 4 = omega arith in
    let far : target + 4 < length m = get_elem?-lt m (target + 4) (some w) end in
    let five : length (b ++ (w ∷ [])) ≡ 5 = omega (arith, length-append b (w ∷ [])) in
    let item : cells_at 5 m target ≡ ok (b ++ (w ∷ [])) =
      rw five at
        (cells-Holds m target (b ++ (w ∷ [])) (node-Holds m target b w hold (rw four end))) in
    rw
      (
        place,
        cell-eq m (at + 4) (storage_linked_list + target) link,
        usize (storage_linked_list + target) (omega arith),
        offset-sub target,
        item,
      )
      refl

take-four : (b : List ℕ) (w : ℕ) → length b ≡ 4 → take 4 (b ++ (w ∷ [])) ≡ b
take-four b w e = ap (λ (n : ℕ). take n (b ++ (w ∷ []))) (sym e) ∙ take-length b (w ∷ [])

-- The items behind a node, up to the first node of the list again.
pub read-Linked :
    (m : MemoryValues) (first : List ℕ) (others : List (List ℕ)) (at : ℕ) (b : List ℕ)
    (bs : List (List ℕ))
    → Linked m 0 (first ∷ others)
    → Linked m at (b ∷ bs)
    → storage_linked_list + length m < 2 ^ 64
    → (items : List (List ℕ)) × (take_nodes (suc (length bs)) 5 (reader m at) ≡ ok items)
      × (map (take 4) items ≡ bs ++ (first ∷ []))
unfolding take_nodes
read-Linked m first others at b [] (four, here, link, rest) (fb, hb, lb, rb) small =
    let w = pointer_to (0 + 5) others in
    let item = next-Linked m at 0 first w lb four here link small in
    ((first ++ (w ∷ [])) ∷ [], rw item refl, rw (take-four first w four) refl)
read-Linked m first others at b (c ∷ bs) whole (fb, hb, lb, (fc, hc, lc, rc)) small =
    let w = pointer_to (at + 5 + 5) bs in
    let item = next-Linked m at (at + 5) c w lb fc hc lc small in
    let (items, run, same) =
      read-Linked m first others (at + 5) c bs whole (fc, hc, lc, rc) small in
    ((c ++ (w ∷ [])) ∷ items, rw (item, run) refl, rw (take-four c w fc, same) refl)

pub length-Linked :
    (m : MemoryValues) (at : ℕ) (bs : List (List ℕ))
    → Linked m at bs
    → length m ≡ at + 5 * length bs
length-Linked m at [] e = omega arith
length-Linked m at (b ∷ bs) (four, here, link, rest) =
    omega (arith, length-Linked m (at + 5) bs rest)
