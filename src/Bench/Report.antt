-- ===== src/Bench/Report.antt =====
-- my_version/ioctl_thread/ioctl_thread_pool.cpp and my_version/ioctl/ioctl_single_thread.cpp: what
-- nvme_io() reports of the commands.
use nvme_ioctl.Prelude.{
  ℕ, zero, suc, ◌+◌, ◌/◌, ◌≡◌, refl, ◌∙◌, ap, ◌≤◌, Bool, false, List, [], ◌∷◌, ◌++◌, ℤ, is_neg, u64,
  arith,
}
use nvme_ioctl.Ioctl.{UserIo}
use nvme_ioctl.Transfer.{Opcode, get_opcode}
use nvme_ioctl.Bench.{thread_nums, commands, error_after, run, nvme_io}
use nvme_ioctl.Bench.Split.{command_at, commands_from, commands-commands_from}

module _ {State : Type 0} (ioctl : UserIo → State → ℤ × State) where
  -- The last of some commands decides.
  last_decides :
      (ios : List UserIo) (io : UserIo) (s : State) (error : Bool)
      → error_after error (run ioctl (ios ++ io ∷ []) s).0 ≡ is_neg (ioctl io (run ioctl ios s).1).0
  unfolding run error_after
  last_decides [] io s error = refl
  last_decides (x ∷ ios) io s error = last_decides ios io (ioctl x s).1 (is_neg (ioctl x s).0)

  commands_from-snoc :
      (opcode buffer blocks i n k : ℕ)
      → k ≡ i + n
      → commands_from opcode buffer blocks i (suc n)
        ≡ commands_from opcode buffer blocks i n ++ command_at opcode buffer blocks k ∷ []
  unfolding commands_from
  commands_from-snoc opcode buffer blocks i zero k e =
      ap (λ j. command_at opcode buffer blocks j ∷ []) (let q : i ≡ k = omega arith in q)
  commands_from-snoc opcode buffer blocks i (suc n) k e =
      ap (λ xs. command_at opcode buffer blocks i ∷ xs)
        (commands_from-snoc opcode buffer blocks (i + 1) n k (omega arith))

  -- For a buffer that is not empty, nvme_io() ends the program exactly where the last command
  -- fails, whatever the commands before it have returned.
  pub nvme_io_lem :
      (io_type : Opcode) (buffer size n : ℕ) (s : State)
      → size + 458752 ≤ u64
      → thread_nums size ≡ suc n
      → (nvme_io ioctl io_type buffer size s).0
        ≡ is_neg
            (ioctl
              (command_at (get_opcode io_type) buffer ((size + 511) / 512) n)
              (run ioctl
                (commands_from (get_opcode io_type) buffer ((size + 511) / 512) 0 n)
                s).1).0
  unfolding nvme_io
  nvme_io_lem io_type buffer size n s small count =
      let code = get_opcode io_type in
      let blocks = (size + 511) / 512 in
      let same : commands io_type buffer size
          ≡ commands_from code buffer blocks 0 n ++ command_at code buffer blocks n ∷ [] =
        commands-commands_from io_type buffer size small
        ∙ (ap (λ m. commands_from code buffer blocks 0 m) count
            ∙ commands_from-snoc code buffer blocks 0 n n (omega arith)) in
      ap (λ ios. error_after false (run ioctl ios s).0) same
      ∙ last_decides (commands_from code buffer blocks 0 n) (command_at code buffer blocks n) s
          false
