-- ===== src/Generation/Mpt/Cells.antt =====
-- Cells of the memory segment TrieData, for the proofs: what stands in them, and what a write keeps.
use zk_evm.Prelude.{
  ℕ, zero, suc, ◌+◌, ◌≤◌, ◌<◌, ◌≡◌, refl, ap, ap₂, append_assoc, arith, ◌⊎◌, inl, inr, Option, some,
  List, [], ◌∷◌, ◌++◌, length, map, drop, get_elem?, length-append,
}
use zk_evm.Generation.Errors.{ok}
use zk_evm.Generation.Mpt.{MemoryValues, pushed, set_cell}

-- The words stand one after the other from a cell on.
abbrev pub Holds : MemoryValues → ℕ → List ℕ → Type 0
Holds m q [] = q ≤ length m
Holds m q (w ∷ ws) = (get_elem? m q ≡ some (some w)) × Holds m (suc q) ws

-- No cell is lost, and those outside of a range stay what they are.
abbrev pub Keeps : ℕ → ℕ → MemoryValues → MemoryValues → Type 0
Keeps a b m m' =
    (length m ≤ length m')
    × ((k : ℕ) (c : Option ℕ)
        → (k < a) ⊎ (b ≤ k)
        → get_elem? m k ≡ some c
        → get_elem? m' k ≡ some c)

-- A trie at cell 0 is empty.
abbrev pub Starts : MemoryValues → Type 0
Starts m = get_elem? m 0 ≡ some (some 0)

pub length-words : (ws : List ℕ) → length (map {B = Option ℕ} (λ w. some w) ws) ≡ length ws
length-words [] = refl
length-words (w ∷ ws) = omega (arith, length-words ws)

pub length-pushed : (m : MemoryValues) (ws : List ℕ) → length (pushed m ws) ≡ length m + length ws
length-pushed m ws = omega (arith, length-append m (map some ws), length-words ws)

pub get_elem?-lt : (m : MemoryValues) (k : ℕ) (c : Option ℕ) → get_elem? m k ≡ some c → k < length m
get_elem?-lt [] k c e = absurd cc
get_elem?-lt (x ∷ m) zero c e = omega arith
get_elem?-lt (x ∷ m) (suc k) c e = omega (arith, get_elem?-lt m k c e)

get_elem?-append :
    (m xs : MemoryValues) (k : ℕ) (c : Option ℕ)
    → get_elem? m k ≡ some c
    → get_elem? (m ++ xs) k ≡ some c
get_elem?-append [] xs k c e = absurd cc
get_elem?-append (x ∷ m) xs zero c e = e
get_elem?-append (x ∷ m) xs (suc k) c e = get_elem?-append m xs k c e

pub pushed-Keeps : (a b : ℕ) (m : MemoryValues) (ws : List ℕ) → Keeps a b m (pushed m ws)
pushed-Keeps a b m ws =
    (omega (arith, length-pushed m ws), λ k c out e. get_elem?-append m (map some ws) k c e)

pub Keeps-refl : (a b : ℕ) (m : MemoryValues) → Keeps a b m m
Keeps-refl a b m = (omega arith, λ k c out e. e)

pub Keeps-trans : {a b : ℕ} (m n o : MemoryValues) → Keeps a b m n → Keeps a b n o → Keeps a b m o
Keeps-trans m n o (l1, k1) (l2, k2) = (omega arith, λ k c out e. k2 k c out (k1 k c out e))

-- What keeps every cell.
pub Keeps-any : (a b : ℕ) (m n : MemoryValues) → Keeps 0 0 m n → Keeps a b m n
Keeps-any a b m n (l, keep) = (l, λ k c out e. keep k c (inr (omega arith)) e)

pub Keeps-wider :
    {a b a' b' : ℕ} (m n : MemoryValues) → a' ≤ a → b ≤ b' → Keeps a b m n → Keeps a' b' m n
Keeps-wider {a} {b} {a'} {b'} m n ha hb (l, keep) = (
  l,
  λ k c out e. elim out [
    | inl low ↦ keep k c (inl (omega arith)) e
    | inr high ↦ keep k c (inr (omega arith)) e
  ],
)

pub Holds-Keeps :
    {a b : ℕ} (m n : MemoryValues) (q : ℕ) (ws : List ℕ)
    → b ≤ q
    → Keeps a b m n
    → Holds m q ws
    → Holds n q ws
Holds-Keeps m n q [] h (l, keep) p = omega arith
Holds-Keeps m n q (w ∷ ws) h (l, keep) (here, rest) =
    (keep q (some w) (inr h) here, Holds-Keeps m n (suc q) ws (omega arith) (l, keep) rest)

Holds-cons :
    (c : Option ℕ) (m : MemoryValues) (q : ℕ) (ws : List ℕ)
    → Holds m q ws
    → Holds (c ∷ m) (suc q) ws
Holds-cons c m q [] p = omega arith
Holds-cons c m q (w ∷ ws) (here, rest) = (here, Holds-cons c m (suc q) ws rest)

Holds-words : (ws : List ℕ) → Holds (map some ws) 0 ws
Holds-words [] = omega arith
Holds-words (w ∷ ws) = (refl, Holds-cons (some w) (map some ws) 0 ws (Holds-words ws))

pub pushed-Holds : (m : MemoryValues) (ws : List ℕ) → Holds (pushed m ws) (length m) ws
pushed-Holds [] ws = Holds-words ws
pushed-Holds (c ∷ m) ws = Holds-cons c (pushed m ws) (length m) ws (pushed-Holds m ws)

map-append : (xs ys : List ℕ) → map some xs ++ map some ys ≡ map some (xs ++ ys)
map-append [] ys = refl
map-append (x ∷ xs) ys = ap (λ t. some x ∷ t) (map-append xs ys)

pub pushed-pushed :
    (m : MemoryValues) (xs ys : List ℕ) → pushed (pushed m xs) ys ≡ pushed m (xs ++ ys)
pushed-pushed m xs ys = rw (append_assoc m (map some xs) (map some ys), map-append xs ys) refl

tail-Holds :
    (c : Option ℕ) (m : MemoryValues) (q : ℕ) (ws : List ℕ)
    → Holds (c ∷ m) (suc q) ws
    → Holds m q ws
tail-Holds c m q [] p = omega arith
tail-Holds c m q (w ∷ ws) (here, rest) = (here, tail-Holds c m (suc q) ws rest)

pub drop-Holds :
    (m : MemoryValues) (q : ℕ) (ws : List ℕ)
    → Holds m q ws
    → (rest : MemoryValues) × (drop q m ≡ map some ws ++ rest)
drop-Holds m q [] p = (drop q m, refl)
drop-Holds [] q (w ∷ ws) (here, rest) = absurd cc
drop-Holds (x ∷ m) zero (w ∷ ws) (here, rest) =
    let (tail, e) = drop-Holds m 0 ws (tail-Holds x m 0 ws rest) in
    let same : x ≡ some w = cc in (tail, ap₂ (λ a b. a ∷ b) same e)
drop-Holds (x ∷ m) (suc q) (w ∷ ws) h = drop-Holds m q (w ∷ ws) (tail-Holds x m q (w ∷ ws) h)

pub Holds-le : (m : MemoryValues) (q : ℕ) (ws : List ℕ) → Holds m q ws → q ≤ length m
Holds-le m q [] h = h
Holds-le m q (w ∷ ws) h = omega (arith, get_elem?-lt m q (some w) h.0)

-- A write to a cell that there is.
pub set_cell-ok :
    (m : MemoryValues) (i w : ℕ)
    → i < length m
    → (n : MemoryValues) × (set_cell m i w ≡ ok n)
      × (get_elem? n i ≡ some (some w))
      × Keeps i (suc i) m n
unfolding set_cell
set_cell-ok [] i w h = absurd (omega arith)
set_cell-ok (c ∷ m) zero w h = (some w ∷ m, refl, refl, (omega arith, λ k x out e. kept k x out e))
  where
    kept :
        (k : ℕ) (x : Option ℕ)
        → (k < 0) ⊎ (1 ≤ k)
        → get_elem? (c ∷ m) k ≡ some x
        → get_elem? (some w ∷ m) k ≡ some x
    kept zero x out e = absurd (omega (arith, out))
    kept (suc k) x out e = e
set_cell-ok (c ∷ m) (suc i) w h =
    let (n, run, here, (l, keep)) = set_cell-ok m i w (omega arith) in
    (c ∷ n, rw run refl, here, (omega arith, λ k x out e. kept n keep k x out e))
  where
    kept :
        (n : MemoryValues)
        → ((k : ℕ) (x : Option ℕ)
            → (k < i) ⊎ (suc i ≤ k)
            → get_elem? m k ≡ some x
            → get_elem? n k ≡ some x)
        → (k : ℕ) (x : Option ℕ) → (k < suc i) ⊎ (suc (suc i) ≤ k)
        → get_elem? (c ∷ m) k ≡ some x
        → get_elem? (c ∷ n) k ≡ some x
    kept n keep zero x out e = e
    kept n keep (suc k) x (inl low) e = keep k x (inl (omega arith)) e
    kept n keep (suc k) x (inr high) e = keep k x (inr (omega arith)) e
