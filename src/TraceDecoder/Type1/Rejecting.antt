-- ===== src/TraceDecoder/Type1/Rejecting.antt =====
-- Instructions that the stack machine never accepts.
use native.Mathlib.Nat.{mod-lt}
use zk_evm.Prelude.{
  ℕ, zero, suc, ◌+◌, ◌*◌, ◌/◌, ◌%◌, ◌^◌, ◌≤◌, ◌≡◌, refl, ap, sym, ◌∙◌, arith, ◌⊎◌, inl, inr, true,
  false, List, [], ◌∷◌, ◌++◌, ltb, Bool-cases,
}
use zk_evm.Prelude.Powers.{pow-add, pow_pos, pow_mono, mod-mul}
use zk_evm.TraceDecoder.Wire.{
  Instruction, leaf, extension, branch, hash, code, account_leaf, smt_leaf, empty_root, new_trie,
}
use zk_evm.TraceDecoder.Type1.{
  Child, absent, ◌>>=◌, Stack, Execution, ExecuteError, ExecuteResult, ok, err, mask_bit,
  branch_loop, step, finish_stack, no_node_for_branch, oob_mask_bit, unexpected_smt_leaf,
  execute_loop, execute,
}

-- A leaf of the other format, and a branch with a bit of its 64 set behind the sixteenth.
abbrev pub IsRejected : Instruction → Type 0
IsRejected (smt_leaf l) = Unit
IsRejected (branch mask) = 2 ^ 16 ≤ mask % 2 ^ 64
IsRejected i = ⊥

abbrev pub Fails {ℓ} : {A : Type ℓ} → ExecuteResult A → Type ℓ
Fails r = (e : ExecuteError) × (r ≡ err e)

top_bit : (n mask : ℕ) → mask / 2 ^ n % 2 * 2 ^ n + mask % 2 ^ n ≡ mask % 2 ^ suc n
top_bit n mask =
    let step : n + 1 ≡ suc n = omega arith in
    sym (mod-mul mask (2 ^ n) 2 (pow_pos 2 n (omega arith)) (omega arith))
    ∙ ap (λ (d : ℕ). mask % d) (sym (pow-add 2 n 1) ∙ ap (λ (e : ℕ). 2 ^ e) step)

unset_lower : (n mask : ℕ) → mask_bit mask n ≡ false → mask % 2 ^ suc n ≡ mask % 2 ^ n
unset_lower n mask h =
    let bit : mask / 2 ^ n % 2 ≡ 0 = ground (arith, h) in
    sym (top_bit n mask) ∙ rw bit (omega arith)

low_mask : (n mask : ℕ) → n ≤ 15 → 2 ^ 16 ≤ mask % 2 ^ suc n → ⊥
low_mask n mask small h = omega (
  arith,
  mod-lt mask (pow_pos 2 (suc n) (omega arith)),
  pow_mono 2 (suc n) 16 (omega arith) (omega arith),
)

branch_loop-Fails :
    (n mask : ℕ) (children : ℕ → Child) (stack : Stack)
    → 2 ^ 16 ≤ mask % 2 ^ n
    → Fails (branch_loop n mask children stack)
unfolding branch_loop
branch_loop-Fails zero mask children stack h = absurd (omega arith)
branch_loop-Fails (suc n) mask children stack h = elim (Bool-cases (mask_bit mask n)) [
  | inl set ↦ taken stack set (Bool-cases (ltb n 16))
  | inr unset ↦
      let (e, fails) =
        branch_loop-Fails n mask children stack (rw (unset_lower n mask unset) at h) in
      (e, rw (branch_loop, unset) fails)
]
  where
    taken :
        (stack : Stack)
        → mask_bit mask n ≡ true
        → (ltb n 16 ≡ true) ⊎ (ltb n 16 ≡ false)
        → Fails (branch_loop (suc n) mask children stack)
    taken [] set low = (no_node_for_branch, rw (branch_loop, set) refl)
    taken (x ∷ stack) set (inl low) = absurd (low_mask n mask (ground (arith, low)) h)
    taken (x ∷ stack) set (inr high) = (oob_mask_bit, rw (branch_loop, set, high) refl)

step-Fails : (i : Instruction) (stack : Stack) → IsRejected i → Fails (step i stack)
unfolding step
step-Fails (smt_leaf l) stack h = (unexpected_smt_leaf, refl)
step-Fails (branch mask) stack h =
    let (e, fails) = branch_loop-Fails 64 mask (λ j. absent) stack h in (e, rw fails refl)
step-Fails i stack h = absurd h

-- An instruction fails, or the rest goes on.
abbrev GoesOn : List Instruction → ExecuteResult (List Execution) → Type 0
GoesOn is r = Fails r ⊎ ((ws : List Execution) × (stack : Stack) × (r ≡ execute_loop is ws stack))

after_step :
    (is : List Instruction) (ws : List Execution) (r : ExecuteResult Stack)
    → GoesOn is (r >>= λ next. execute_loop is ws next)
after_step is ws (ok next) = inr (ws, next, refl)
after_step is ws (err e) = inl (e, refl)

after_finish :
    (is : List Instruction) (ws : List Execution) (r : ExecuteResult Execution)
    → GoesOn is (r >>= λ w. execute_loop is (ws ++ (w ∷ [])) [])
after_finish is ws (ok w) = inr (ws ++ (w ∷ []), [], refl)
after_finish is ws (err e) = inl (e, refl)

execute_loop-GoesOn :
    (i : Instruction) (is : List Instruction) (ws : List Execution) (stack : Stack)
    → GoesOn is (execute_loop (i ∷ is) ws stack)
unfolding execute_loop
execute_loop-GoesOn new_trie is ws stack = after_finish is ws (finish_stack stack)
execute_loop-GoesOn (leaf k v) is ws stack = after_step is ws (step (leaf k v) stack)
execute_loop-GoesOn (extension k) is ws stack = after_step is ws (step (extension k) stack)
execute_loop-GoesOn (branch m) is ws stack = after_step is ws (step (branch m) stack)
execute_loop-GoesOn (hash h) is ws stack = after_step is ws (step (hash h) stack)
execute_loop-GoesOn (code c) is ws stack = after_step is ws (step (code c) stack)
execute_loop-GoesOn (account_leaf k n b c s) is ws stack =
    after_step is ws (step (account_leaf k n b c s) stack)
execute_loop-GoesOn (smt_leaf l) is ws stack = after_step is ws (step (smt_leaf l) stack)
execute_loop-GoesOn empty_root is ws stack = after_step is ws (step empty_root stack)

execute_loop-Fails :
    (i : Instruction) (is : List Instruction) (ws : List Execution) (stack : Stack)
    → IsRejected i
    → Fails (execute_loop (i ∷ is) ws stack)
unfolding execute_loop
execute_loop-Fails (smt_leaf l) is ws stack h =
    let (e, fails) = step-Fails (smt_leaf l) stack h in (e, rw fails refl)
execute_loop-Fails (branch m) is ws stack h =
    let (e, fails) = step-Fails (branch m) stack h in (e, rw fails refl)
execute_loop-Fails i is ws stack h = absurd h

execute_loop-Fails_after :
    (before : List Instruction) (i : Instruction) (after : List Instruction) (ws : List Execution)
    (stack : Stack)
    → IsRejected i
    → Fails (execute_loop (before ++ (i ∷ after)) ws stack)
execute_loop-Fails_after [] i after ws stack h = execute_loop-Fails i after ws stack h
execute_loop-Fails_after (b ∷ before) i after ws stack h =
    elim (execute_loop-GoesOn b (before ++ (i ∷ after)) ws stack) [
      | inl fails ↦ fails
      | inr (ws', stack', same) ↦
          let (e, fails) = execute_loop-Fails_after before i after ws' stack' h in (e, same ∙ fails)
    ]

-- Wherever a leaf of the other format stands among the instructions, or a branch with one of its 64
-- bits set behind the sixteenth: the stack machine ends in an error.
pub execute-Fails :
    (before : List Instruction) (i : Instruction) (after : List Instruction)
    → IsRejected i
    → Fails (execute (before ++ (i ∷ after)))
unfolding execute
execute-Fails before i after h = execute_loop-Fails_after before i after [] [] h
