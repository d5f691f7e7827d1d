-- ===== src/Transfer/Kernel.antt =====
-- The commands of my_version/nvme_transfer in nvme_submit_io() of kernel_modification/ioctl.c.
use nvme_ioctl.Prelude.{
  ℕ, zero, suc, ◌+◌, ◌-◌, ◌*◌, ◌%◌, ◌^◌, ◌≡◌, ap₂, Option-cases, u32, ◌≤◌, ◌<◌, some, arith, All,
  ap, ◌∙◌, inl, inr,
}
use nvme_ioctl.Ioctl.{Env, Ns, UserIo}
use nvme_ioctl.Ioctl.Submit.{plan_io, IoPlan}
use nvme_ioctl.Transfer.{Opcode, get_opcode, submit_io, cut, commands}
use nvme_ioctl.Transfer.Order.{least, least_lem, blocks_of}

-- A namespace with blocks of 512 bytes and no metadata.
pub record Plain (ns : Ns) : Type 0 where
  pub shift_lem : ns.lba_shift ≡ 9
  pub ms_lem : ns.ms ≡ 0

-- The kernel takes the command, and transfers as much as its blocks hold, which a chunk bounds.
abbrev pub Taken : Env → Ns → UserIo → Type 0
Taken env ns io =
    (p : IoPlan) × ((plan_io env ns io ≡ some p)
      × ((p.length ≡ (io.nblocks + 1) * 512) × ((p.meta_len ≡ 0) × (p.length ≤ 2097152))))

module _ (env : Env) (ns : Ns) (plain : Plain ns) where
  submit_io-Taken :
      (buffer : ℕ) (io_type : Opcode) (n lba : ℕ)
      → 0 < n
      → n ≤ 4096
      → Taken env ns (submit_io buffer io_type n lba)
  unfolding submit_io plan_io get_opcode
  submit_io-Taken buffer io_type n lba p q =
      let io = submit_io buffer io_type n lba in
      let blocks : io.nblocks + 1 ≡ n = blocks_of n p (omega arith) in
      let size : 2 ^ ns.lba_shift ≡ 512 = ap (λ x. 2 ^ x) plain.shift_lem in
      let whole : (io.nblocks + 1) * 2 ^ ns.lba_shift % u32 ≡ n * 512 =
        ap₂ (λ x y. x * y % u32) blocks size ∙ omega arith in
      let meta : (io.nblocks + 1) * ns.ms % u32 ≡ 0 =
        ap (λ x. (io.nblocks + 1) * x % u32) plain.ms_lem ∙ omega arith in
      elim (Option-cases (plan_io env ns io)) [
        | inl h ↦ absurd (ground arith)
        | inr h ↦ (h.0, (h.1, (ground arith, (ground arith, ground arith))))
      ]

  cut-Taken :
      (fuel : ℕ) (io_type : Opcode) (remain each at buffer : ℕ)
      → 0 < each
      → each ≤ 4096
      → All (Taken env ns) (cut fuel io_type remain each at buffer)
  unfolding cut least
  cut-Taken zero io_type remain each at buffer p q = tt
  cut-Taken (suc fuel) io_type zero each at buffer p q = tt
  cut-Taken (suc fuel) io_type (suc r) each at buffer p q =
      let n = least (suc r) each in
      let b = least_lem (suc r) each (omega arith) p (omega arith) in
      (
        submit_io-Taken buffer io_type n at b.0 (omega (arith, b)),
        cut-Taken fuel io_type (suc r - n) n (at + n) (buffer + n * 512) b.0 (omega (arith, b)),
      )

  -- On a namespace with blocks of 512 bytes and no metadata, nvme_submit_io() refuses none of the
  -- commands of a test, and each transfers the bytes of its blocks, 2 MiB at most.
  pub commands-Taken :
      (io_type : Opcode) (nblocks lba buffer : ℕ)
      → All (Taken env ns) (commands io_type nblocks lba buffer)
  unfolding commands
  commands-Taken io_type nblocks lba buffer =
      cut-Taken nblocks io_type nblocks 4096 lba buffer (omega arith) (omega arith)
