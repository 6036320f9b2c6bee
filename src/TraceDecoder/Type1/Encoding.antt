-- ===== src/TraceDecoder/Type1/Encoding.antt =====
-- The instructions that build a witness tree: each node behind its parts.
use native.Mathlib.Nat.{div-div-eq-div-mul, pow-suc, mul_comm, zero-div}
use zk_evm.Prelude.{
  ℕ, zero, suc, ◌+◌, ◌*◌, ◌/◌, ◌%◌, ◌^◌, ◌≤◌, ◌<◌, ◌≡◌, refl, ap, sym, ◌∙◌, arith, Bool, true,
  false, Option, none, some, List, [], ◌∷◌, ◌++◌, ◌==◌, if◌then◌else◌,
}
use zk_evm.TraceDecoder.Wire.{
  Key, Instruction, leaf, extension, branch, hash, code, account_leaf, empty_root,
}
use zk_evm.TraceDecoder.Type1.{
  AccountCode, hash_of_code, raw_code, Node, hash_node, leaf_node, extension_node, branch_node,
  code_node, empty_node, LeafValue, value, account, Child, absent, present, mask_bit,
}

abbrev pub is_present : Child → Bool
is_present absent = false
is_present (present n) = true

abbrev pub bit_of : Bool → ℕ
bit_of b = if b then 1 else 0

-- The mask of the children from `i` on, the first one in the lowest bit.
unfoldable pub mask_of : ℕ → ℕ → (ℕ → Child) → ℕ
mask_of zero i f = 0
mask_of (suc left) i f = bit_of (is_present (f i)) + 2 * mask_of left (i + 1) f

abbrev pub encode_code : Option AccountCode → List Instruction
encode_code none = []
encode_code (some (hash_of_code h)) = hash h ∷ []
encode_code (some (raw_code c)) = code c ∷ []

abbrev pub has_code : Option AccountCode → Bool
has_code none = false
has_code (some c) = true

-- The parts below `n`, in order.
unfoldable pub encode_children : ℕ → (ℕ → List Instruction) → List Instruction
encode_children zero g = []
encode_children (suc n) g = encode_children n g ++ g n

unfoldable mutual
  pub encode : Node → List Instruction
  encode (hash_node h) = hash h ∷ []
  encode (leaf_node key v) = encode_leaf key v
  encode (extension_node key child) = encode child ++ (extension key ∷ [])
  encode (branch_node f) =
      encode_children 16 (λ i. encode_child (f i)) ++ (branch (mask_of 16 0 f) ∷ [])
  encode (code_node c) = code c ∷ []
  encode empty_node = empty_root ∷ []

  pub encode_leaf : Key → LeafValue → List Instruction
  encode_leaf key (value v) = leaf key v ∷ []
  encode_leaf key (account nonce balance storage c) =
      encode_code c
      ++ (encode_child storage
          ++ (account_leaf key (some nonce) (some balance) (has_code c) (is_present storage) ∷ []))

  pub encode_child : Child → List Instruction
  encode_child absent = []
  encode_child (present n) = encode n

-- An array of children has 16 entries.
unfoldable mutual
  pub WellFormed : Node → Type 0
  WellFormed (hash_node h) = Unit
  WellFormed (leaf_node key v) = WellFormedLeaf v
  WellFormed (extension_node key child) = WellFormed child
  WellFormed (branch_node f) =
      ((i : ℕ) → i < 16 → WellFormedChild (f i)) × ((i : ℕ) → 16 ≤ i → f i ≡ absent)
  WellFormed (code_node c) = Unit
  WellFormed empty_node = Unit

  pub WellFormedLeaf : LeafValue → Type 0
  WellFormedLeaf (value v) = Unit
  WellFormedLeaf (account nonce balance storage c) = WellFormedChild storage

  pub WellFormedChild : Child → Type 0
  WellFormedChild absent = Unit
  WellFormedChild (present n) = WellFormed n

half : (b : Bool) (m : ℕ) → (bit_of b + 2 * m) / 2 ≡ m
half true m = omega arith
half false m = omega arith

low_bit : (b : Bool) (m : ℕ) → (bit_of b + 2 * m) / 2 ^ 0 % 2 ≡ bit_of b
low_bit true m = omega arith
low_bit false m = omega arith

next_bit : (b : Bool) (m k : ℕ) → mask_bit (bit_of b + 2 * m) (suc k) ≡ mask_bit m k
next_bit b m k =
    ap (λ (t : ℕ). (bit_of b + 2 * m) / t % 2 == 1) (pow-suc 2 k ∙ mul_comm (2 ^ k) 2)
    ∙ (ap (λ (t : ℕ). t % 2 == 1) (sym (div-div-eq-div-mul (bit_of b + 2 * m) 2 (2 ^ k)))
        ∙ ap (λ (t : ℕ). t / 2 ^ k % 2 == 1) (half b m))

is_bit : (b : Bool) → (bit_of b == 1) ≡ b
is_bit true = refl
is_bit false = refl

-- The bits of the mask say which children are present.
pub mask_bit-mask_of :
    (left i k : ℕ) (f : ℕ → Child)
    → k < left
    → mask_bit (mask_of left i f) k ≡ is_present (f (i + k))
unfolding mask_of
mask_bit-mask_of zero i k f h = absurd (omega arith)
mask_bit-mask_of (suc left) i zero f h =
    let start : i + 0 ≡ i = omega arith in
    rw start (
      ap (λ (t : ℕ). t == 1) (low_bit (is_present (f i)) (mask_of left (i + 1) f))
      ∙ is_bit (is_present (f i)))
mask_bit-mask_of (suc left) i (suc k) f h =
    let place : i + suc k ≡ i + 1 + k = omega arith in
    rw place (
      next_bit (is_present (f i)) (mask_of left (i + 1) f) k
      ∙ mask_bit-mask_of left (i + 1) k f (omega arith))

pub mask_bit-beyond :
    (left i k : ℕ) (f : ℕ → Child) → left ≤ k → mask_bit (mask_of left i f) k ≡ false
unfolding mask_of
mask_bit-beyond zero i k f h = ap (λ (t : ℕ). t % 2 == 1) (zero-div (2 ^ k))
mask_bit-beyond (suc left) i zero f h = absurd (omega arith)
mask_bit-beyond (suc left) i (suc k) f h =
    next_bit (is_present (f i)) (mask_of left (i + 1) f) k
    ∙ mask_bit-beyond left (i + 1) k f (omega arith)
