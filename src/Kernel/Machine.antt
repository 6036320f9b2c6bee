-- ===== src/Kernel/Machine.antt =====
-- A stack machine for kernel code, to say what the optimizer keeps. The operations that the
-- optimizer knows do what the witness generator does with them; every other item does what the
-- parameter `other` says, on the stack and on a state of any type, and a jump does what the
-- parameter `goto` says. The depth of the stack and gas are not counted.
pub mod Words
pub mod Order
use Prim.Native.String.{String}
use text.Mathlib.Text.{starts_with}
use mathlib.Core.Option
use zk_evm.Prelude.{ℕ, Bool, Option, none, some, List, [], ◌∷◌, get_elem?, ◌==◌, if◌then◌else◌}
use zk_evm.Kernel.U256.{bit_not, overflowing_pow, u256_from_bool}
use zk_evm.Kernel.Operators.{
  BinaryOperator, add, mul, sub, div, mod_, lt, gt, byte_, shl_, shr_, binary_result, LogicOp, and,
  or, xor, logic_result,
}
use zk_evm.Kernel.Ast.{
  PushTarget, Item, global_label_declaration, local_label_declaration, push, standard_op, text_eq,
}

pub data Operation : Type 0 where
  binary : BinaryOperator → Operation
  logical : LogicOp → Operation
  exp iszero not_ equal pop swap1 jump : Operation
  dup : ℕ → Operation

abbrev pub dup_names : List String
dup_names =
    "DUP1"
    ∷ ("DUP2"
        ∷ ("DUP3"
            ∷ ("DUP4"
                ∷ ("DUP5"
                    ∷ ("DUP6"
                        ∷ ("DUP7"
                            ∷ ("DUP8"
                                ∷ ("DUP9"
                                    ∷ ("DUP10"
                                        ∷ ("DUP11"
                                            ∷ ("DUP12"
                                                ∷ ("DUP13"
                                                    ∷ ("DUP14"
                                                        ∷ ("DUP15" ∷ ("DUP16" ∷ [])))))))))))))))

abbrev pub index_of : String → List String → ℕ → Option ℕ
index_of op [] i = none
index_of op (name ∷ names) i = if text_eq op name then some i else index_of op names i

-- The operation that a name stands for, where the optimizer knows it.
unfoldable pub named : String → Option Operation
named op =
    if starts_with op "DUP"
    then Option.map dup (index_of op dup_names 0)
    else if text_eq op "ADD"
    then some (binary add)
    else if text_eq op "SUB"
    then some (binary sub)
    else if text_eq op "MUL"
    then some (binary mul)
    else if text_eq op "DIV"
    then some (binary div)
    else if text_eq op "MOD"
    then some (binary mod_)
    else if text_eq op "EXP"
    then some exp
    else if text_eq op "SHL"
    then some (binary shl_)
    else if text_eq op "SHR"
    then some (binary shr_)
    else if text_eq op "AND"
    then some (logical and)
    else if text_eq op "OR"
    then some (logical or)
    else if text_eq op "XOR"
    then some (logical xor)
    else if text_eq op "LT"
    then some (binary lt)
    else if text_eq op "GT"
    then some (binary gt)
    else if text_eq op "EQ"
    then some equal
    else if text_eq op "BYTE"
    then some (binary byte_)
    else if text_eq op "ISZERO"
    then some iszero
    else if text_eq op "NOT"
    then some not_
    else if text_eq op "POP"
    then some pop
    else if text_eq op "SWAP1"
    then some swap1
    else if text_eq op "JUMP"
    then some jump
    else none

-- How a run ends.
pub data Final (S : Type 0) : Type 0 where
  ends : List ℕ → S → Final S
  crash : Final S

pub data Step (S : Type 0) : Type 0 where
  next : List ℕ → S → Step S
  stop : Final S → Step S

module _ {S : Type 0} (other : Item → List ℕ → S → Step S) (address : PushTarget → ℕ)
    (goto : ℕ → List ℕ → S → Final S) where
  abbrev pub value_of : PushTarget → ℕ
  value_of (PushTarget.literal n) = n
  value_of t = address t

  abbrev pub with_top : Option ℕ → List ℕ → S → Step S
  with_top none st s = stop crash
  with_top (some v) st s = next (v ∷ st) s

  unfoldable pub perform : Operation → List ℕ → S → Step S
  perform (binary o) (a ∷ (b ∷ st)) s = next (binary_result o a b ∷ st) s
  perform (logical o) (a ∷ (b ∷ st)) s = next (logic_result o a b ∷ st) s
  perform exp (a ∷ (b ∷ st)) s = next (overflowing_pow a b ∷ st) s
  perform equal (a ∷ (b ∷ st)) s = next (u256_from_bool (a == b) ∷ st) s
  perform swap1 (a ∷ (b ∷ st)) s = next (b ∷ (a ∷ st)) s
  perform iszero (a ∷ st) s = next (u256_from_bool (a == 0) ∷ st) s
  perform not_ (a ∷ st) s = next (bit_not a ∷ st) s
  perform pop (a ∷ st) s = next st s
  perform jump (a ∷ st) s = stop (goto a st s)
  perform (dup n) st s = with_top (get_elem? st n) st s
  perform o st s = stop crash

  abbrev pub perform_named : Option Operation → Item → List ℕ → S → Step S
  perform_named none i st s = other i st s
  perform_named (some o) i st s = perform o st s

  unfoldable pub step : Item → List ℕ → S → Step S
  step (push t) st s = next (value_of t ∷ st) s
  step (global_label_declaration l) st s = next st s
  step (local_label_declaration l) st s = next st s
  step (standard_op op) st s = perform_named (named op) (standard_op op) st s
  step i st s = other i st s

  abbrev pub after : Step S → (List ℕ → S → Final S) → Final S
  after (next st s) k = k st s
  after (stop f) k = f

  unfoldable pub run : List Item → List ℕ → S → Final S
  run [] st s = ends st s
  run (i ∷ code) st s = after (step i st s) (run code)
