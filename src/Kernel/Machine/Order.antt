-- ===== src/Kernel/Machine/Order.antt =====
-- When code may stand for other code: from every stack of words it ends in the same way, unless the
-- other code crashes.
use Prim.Native.String.{String}
use text.Mathlib.Text.{starts_with}
use zk_evm.Prelude.{
  ℕ, zero, suc, ◌<◌, ◌≡◌, refl, arith, true, false, inl, inr, ◌⊎◌, Option, none, some, List, [],
  ◌∷◌, ◌++◌, All, get_elem?, ◌==◌,
}
use zk_evm.Kernel.U256.{modulus, bit_not, overflowing_pow}
use zk_evm.Kernel.Ast.{
  PushTarget, Item, global_label_declaration, local_label_declaration, push, standard_op, text_eq,
}
use zk_evm.Kernel.Machine.{
  Operation, binary, logical, exp, iszero, not_, equal, pop, swap1, jump, dup, named, Final, crash,
  Step, next, stop, perform, perform_named, with_top, step, after, run,
}
use zk_evm.Kernel.Machine.Words.{Words, binary_result-word, logic_result-word, bool_word}

-- A crash allows anything.
abbrev pub Below : {S : Type 0} → Final S → Final S → Type 0
Below f g = (f ≡ crash) ⊎ (f ≡ g)

pub Below-refl : {S : Type 0} (f : Final S) → Below f f
Below-refl f = inr refl

pub Below-trans : {S : Type 0} (f g h : Final S) → Below f g → Below g h → Below f h
Below-trans f g h (inl e) q = inl e
Below-trans f g h (inr e) (inl q) = inl (cc)
Below-trans f g h (inr e) (inr q) = inr (cc)

abbrev pub WordsStep : {S : Type 0} → Step S → Type 0
WordsStep (next st s) = Words st
WordsStep (stop f) = Unit

-- Literals are words, and the operation whose constants are folded wrongly does not occur.
abbrev pub IsPlain : Item → Type 0
IsPlain (push (PushTarget.literal n)) = n < modulus
IsPlain (standard_op op) = text_eq op "BYTE" ≡ false
IsPlain i = Unit

-- What is assumed of the other items, of addresses and of names.
pub record IsMachine {S : Type 0} (other : Item → List ℕ → S → Step S) (address : PushTarget → ℕ)
    : Type 0 where
  pub other_words : (i : Item) (st : List ℕ) (s : S) → Words st → WordsStep (other i st s)
  pub address_word : (t : PushTarget) → address t < modulus
  pub no_other_dup :
      (op : String) (st : List ℕ) (s : S)
      → starts_with op "DUP" ≡ true
      → named op ≡ none
      → other (standard_op op) st s ≡ stop crash

abbrev IsWord : Option ℕ → Type 0
IsWord none = Unit
IsWord (some v) = v < modulus

get_elem?-IsWord : (st : List ℕ) (n : ℕ) → Words st → IsWord (get_elem? st n)
get_elem?-IsWord [] n h = tt
get_elem?-IsWord (x ∷ st) zero h = h.0
get_elem?-IsWord (x ∷ st) (suc n) h = get_elem?-IsWord st n h.1

module _ {S : Type 0} (other : Item → List ℕ → S → Step S) (address : PushTarget → ℕ)
    (goto : ℕ → List ℕ → S → Final S) (m : IsMachine other address) where
  perform-Words :
      (o : Operation) (st : List ℕ) (s : S)
      → Words st
      → WordsStep (perform other address goto o st s)
  unfolding perform
  perform-Words (binary o) (a ∷ (b ∷ st)) s h = (binary_result-word o a b h.0 h.1.0, h.1.1)
  perform-Words (logical o) (a ∷ (b ∷ st)) s h = (logic_result-word o a b h.0 h.1.0, h.1.1)
  perform-Words exp (a ∷ (b ∷ st)) s h = (unfold overflowing_pow in omega arith, h.1.1)
  perform-Words equal (a ∷ (b ∷ st)) s h = (bool_word (a == b), h.1.1)
  perform-Words swap1 (a ∷ (b ∷ st)) s h = (h.1.0, (h.0, h.1.1))
  perform-Words iszero (a ∷ st) s h = (bool_word (a == 0), h.1)
  perform-Words not_ (a ∷ st) s h = (unfold bit_not in omega arith, h.1)
  perform-Words pop (a ∷ st) s h = h.1
  perform-Words jump (a ∷ st) s h = tt
  perform-Words (dup n) st s h = pushed (get_elem? st n) (get_elem?-IsWord st n h)
    where
      pushed : (o : Option ℕ) → IsWord o → WordsStep (with_top other address goto o st s)
      pushed none k = tt
      pushed (some v) k = (k, h)
  perform-Words o st s h = tt

  step-Words :
      (i : Item) (st : List ℕ) (s : S)
      → IsPlain i
      → Words st
      → WordsStep (step other address goto i st s)
  unfolding step
  step-Words (push (PushTarget.literal n)) st s p h = (p, h)
  step-Words (push t) st s p h = (m.address_word t, h)
  step-Words (global_label_declaration l) st s p h = h
  step-Words (local_label_declaration l) st s p h = h
  step-Words (standard_op op) st s p h = by_name (named op)
    where
      by_name :
          (o : Option Operation)
          → WordsStep (perform_named other address goto o (standard_op op) st s)
      by_name none = m.other_words (standard_op op) st s h
      by_name (some o) = perform-Words o st s h
  step-Words i st s p h = m.other_words i st s h

  -- The code is plain, and each label leads where a jump to it goes, as far as that does not crash.
  abbrev pub Coherent : List Item → Type 0
  Coherent [] = Unit
  Coherent (global_label_declaration l ∷ code) =
      ((st : List ℕ) (s : S)
        → Words st
        → Below (goto (address (PushTarget.label l)) st s) (run other address goto code st s))
      × Coherent code
  Coherent (local_label_declaration l ∷ code) =
      ((st : List ℕ) (s : S)
        → Words st
        → Below (goto (address (PushTarget.label l)) st s) (run other address goto code st s))
      × Coherent code
  Coherent (i ∷ code) = Coherent code

  -- The second code may stand for the first one.
  abbrev pub Refines : List Item → List Item → Type 0
  Refines code code' =
      (st : List ℕ) (s : S)
      → Words st
      → Below (run other address goto code st s) (run other address goto code' st s)

  -- As long as the code is plain and coherent, the other code is too, and may stand for it.
  abbrev pub Improves : List Item → List Item → Type 0
  Improves code code' =
      All IsPlain code → Coherent code → All IsPlain code' × Coherent code' × Refines code code'

  pub Improves-refl : (code : List Item) → Improves code code
  Improves-refl code p c = (p, c, λ st s h. inr refl)

  pub Improves-trans : (a b c : List Item) → Improves a b → Improves b c → Improves a c
  Improves-trans a b c f g p k =
      let (p1, k1, r1) = f p k in
      let (p2, k2, r2) = g p1 k1 in (p2, k2, λ st s h. Below-trans _ _ _ (r1 st s h) (r2 st s h))

  after-Below :
      (r : Step S) (f g : List ℕ → S → Final S)
      → WordsStep r
      → ((st : List ℕ) (s : S) → Words st → Below (f st s) (g st s))
      → Below (after other address goto r f) (after other address goto r g)
  after-Below (next st s) f g w h = h st s w
  after-Below (stop x) f g w h = inr refl

  Refines-cons :
      (i : Item) (code code' : List Item)
      → IsPlain i
      → Refines code code'
      → Refines (i ∷ code) (i ∷ code')
  unfolding run
  Refines-cons i code code' p r st s h =
      after-Below (step other address goto i st s) _ _ (step-Words i st s p h) r

  Coherent-cons :
      (i : Item) (code code' : List Item)
      → Refines code code'
      → (Coherent code → Coherent code')
      → Coherent (i ∷ code)
      → Coherent (i ∷ code')
  Coherent-cons (global_label_declaration l) code code' r f (g, c) =
      ((λ st s h. Below-trans _ _ _ (g st s h) (r st s h)), f c)
  Coherent-cons (local_label_declaration l) code code' r f (g, c) =
      ((λ st s h. Below-trans _ _ _ (g st s h) (r st s h)), f c)
  Coherent-cons i code code' r f c = f c

  Coherent-tail : (i : Item) (code : List Item) → Coherent (i ∷ code) → Coherent code
  Coherent-tail (global_label_declaration l) code c = c.1
  Coherent-tail (local_label_declaration l) code c = c.1
  Coherent-tail i code c = c

  Improves-cons : (i : Item) (a b : List Item) → Improves a b → Improves (i ∷ a) (i ∷ b)
  Improves-cons i a b f (pi, pa) c =
      let (pb, cb, r) = f pa (Coherent-tail i a c) in
      ((pi, pb), Coherent-cons i a b r (λ k. cb) c, Refines-cons i a b pi r)

  -- An improvement holds behind any code.
  pub Improves-append : (pre a b : List Item) → Improves a b → Improves (pre ++ a) (pre ++ b)
  Improves-append [] a b f = f
  Improves-append (i ∷ pre) a b f =
      Improves-cons i (pre ++ a) (pre ++ b) (Improves-append pre a b f)
