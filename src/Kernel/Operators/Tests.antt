-- ===== src/Kernel/Operators/Tests.antt =====
-- The modular subtraction at concrete numbers.
use zk_evm.Prelude.{◌+◌, ◌%◌, ◌<◌, ◌≡◌, arith}
use zk_evm.Kernel.Operators.{submod}
use zk_evm.Kernel.Operators.Modular.{submod_lem}

submod_lem_example : (submod 3 25 7 < 7) × ((submod 3 25 7 + 25) % 7 ≡ 3 % 7)
submod_lem_example = submod_lem 7 (omega arith) 3 25
