-- ===== src/Kernel/Windows.antt =====
-- `replace_windows` of evm_arithmetization/src/cpu/kernel/utils.rs. The replacement's outer `none`
-- is a panic, the inner one leaves the window as it is.
pub mod Lists
pub mod Rewriting
pub mod Panics
pub mod Tests
use zk_evm.Prelude.{
  ℕ, zero, suc, ◌+◌, ◌-◌, ◌*◌, Option, none, some, ◌>>=◌, List, ◌++◌, length, take, drop, leb,
  if◌then◌else◌,
}

module _ {ℓ} {A : Type ℓ} (W : ℕ) (maybe_replace : List A → Option (Option (List A))) where
  -- `start` and `vec` after one round.
  unfoldable pub next_window : ℕ → List A → Option (List A) → ℕ × List A
  next_window start vec none = (start + 1, vec)
  next_window start vec (some replacement) =
      (start - (W - 1), take start vec ++ (replacement ++ drop (start + W) vec))

  -- The loop; `none` is a panic, or the end of the fuel.
  unfoldable pub replace_loop : ℕ → ℕ → List A → Option (List A)
  replace_loop zero start vec = none
  replace_loop (suc fuel) start vec =
      let round : Option (List A) = (do
        found ← maybe_replace (take W (drop start vec))
        let (start', vec') = next_window start vec found
        replace_loop fuel start' vec') in
      if leb (start + W) (length vec) then round else some vec

  -- The fuel is enough for replacements that are shorter than the window: each of them makes room
  -- for at most `W` more rounds than it takes away.
  pub replace_windows : List A → Option (List A)
  replace_windows vec = replace_loop (W * length vec + 1) 0 vec
