-- ===== src/Bench/Tests.antt =====
-- Concrete runs of the benchmarks of my_version: the theorems at work.
use nvme_ioctl.Prelude.{ℕ, ◌+◌, ◌/◌, ◌≡◌, refl, ℤ, pos, negsuc, is_neg, arith, ◌==◌, if◌then◌else◌}
use nvme_ioctl.Ioctl.{UserIo}
use nvme_ioctl.Transfer.{write, get_opcode}
use nvme_ioctl.Bench.{div_round_up, thread_nums, run, nvme_io}
use nvme_ioctl.Bench.Split.{command_at, commands_from}
use nvme_ioctl.Bench.Report.{nvme_io_lem}

-- A device that fails the first command only.
abbrev first_fails : UserIo → ℕ → ℤ × ℕ
first_fails io n = if n == 0 then (negsuc 4, 1) else (pos 0, n + 1)

nvme_io_lem_example :
    (nvme_io first_fails write 4096 1048576 0).0
    ≡ is_neg
        (first_fails
          (command_at (get_opcode write) 4096 ((1048576 + 511) / 512) 2)
          (run first_fails
            (commands_from (get_opcode write) 4096 ((1048576 + 511) / 512) 0 2)
            0).1).0
unfolding thread_nums div_round_up
nvme_io_lem_example = nvme_io_lem first_fails write 4096 1048576 2 0 (omega arith) refl
