-- ===== src/Ioctl/Plan.antt =====
-- kernel_modification/ioctl.c: the lengths that nvme_submit_io() works out from a user's blocks.
use nvme_ioctl.Prelude.{
  ◌+◌, ◌*◌, ◌^◌, ◌%◌, ◌≡◌, ◌≢◌, ◌⊎◌, inl, inr, ◌<◌, true, false, ◌&&◌, some, arith, u32, ◌==◌,
  Bool-cases,
}
use nvme_ioctl.Prelude.{ℕ, Bool, ap, if◌then◌else◌}
use nvme_ioctl.Ioctl.{Ns, UserIo, Env, Command, rw_cmd}
use nvme_ioctl.Ioctl.Permission.{nvme_to_user_ptr}
use nvme_ioctl.Ioctl.Submit.{plan_io, IoPlan, nvme_cmd_write, nvme_cmd_read, nvme_cmd_compare}

-- The bytes of the blocks; whether the controller strips their metadata, which then is all of the
-- protection information; and the bytes of metadata that go along.
abbrev pub data_bytes : Ns → UserIo → ℕ
data_bytes ns io = (io.nblocks + 1) * 2 ^ ns.lba_shift

abbrev pub strips : Env → Ns → UserIo → Bool
strips env ns io = io.pract && ns.ms == env.pi_tuple_size

abbrev pub meta_bytes : Env → Ns → UserIo → ℕ
meta_bytes env ns io = if strips env ns io then 0 else (io.nblocks + 1) * ns.ms

-- The read, write or compare of the user's struct, for the namespace of the file. The number of blocks
-- counts from 0 in both.
abbrev pub own_command : Ns → UserIo → Command
own_command ns io = rw_cmd (record {
  opcode = io.opcode;
  flags = 0;
  nsid = ns.ns_id;
  slba = io.slba;
  length = io.nblocks;
  control = io.control;
  dsmgmt = io.dsmgmt;
  reftag = io.reftag;
  apptag = io.apptag;
  appmask = io.appmask;
})

-- What a call that nvme_submit_io() lets through brings to the device.
pub record Planned (env : Env) (ns : Ns) (io : UserIo) (p : IoPlan) : Type 0 where
  pub no_flags_lem : io.flags ≡ 0
  pub opcode_lem :
      (io.opcode ≡ nvme_cmd_write) ⊎ (io.opcode ≡ nvme_cmd_read) ⊎ (io.opcode ≡ nvme_cmd_compare)
  pub command_lem : p.command ≡ own_command ns io
  pub inside_lem :
      ns.ext_lbas ≡ true → (p.length ≡ data_bytes ns io + meta_bytes env ns io) × (p.meta_len ≡ 0)
  pub apart_lem :
      ns.ext_lbas ≡ false → (p.length ≡ data_bytes ns io) × (p.meta_len ≡ meta_bytes env ns io)
  pub place_lem : p.metadata ≡ (if strips env ns io then 0 else nvme_to_user_ptr env io.metadata)
  pub none_lem : strips env ns io ≡ true → nvme_to_user_ptr env io.metadata ≡ 0
  pub aligned_lem : (p.meta_len ≡ 0) ⊎ ((io.metadata % 4 ≡ 0) × (io.metadata ≢ 0))

module _ (env : Env) where
  plan_command :
      (ns : Ns) (io : UserIo) (p : IoPlan)
      → plan_io env ns io ≡ some p
      → p.command ≡ own_command ns io
  unfolding plan_io
  plan_command ns io p h =
      let none_set : io.flags ≡ 0 = ground arith in
      let same =
        ap
          (λ f. rw_cmd (record {
            opcode = io.opcode;
            flags = f;
            nsid = ns.ns_id;
            slba = io.slba;
            length = io.nblocks;
            control = io.control;
            dsmgmt = io.dsmgmt;
            reftag = io.reftag;
            apptag = io.apptag;
            appmask = io.appmask;
          }))
          none_set in
      ground (arith, same)

  -- Where the bytes of the blocks with their metadata fit in 32 bits, a call that nvme_submit_io() lets
  -- through has no flags and a known opcode and sends the command of the user's struct, each field in
  -- its place, for the namespace of the file. On a namespace with extended blocks its buffer holds the
  -- data and the metadata of all blocks, and none is apart; on another the buffer holds the data, and
  -- the metadata of all blocks is apart, at the user's address, a multiple of four. Where the controller
  -- strips the metadata there is none, and the user has given no address.
  pub plan_io-Planned :
      (ns : Ns) (io : UserIo) (p : IoPlan)
      → (io.nblocks + 1) * 2 ^ ns.lba_shift + (io.nblocks + 1) * ns.ms < u32
      → plan_io env ns io ≡ some p
      → Planned env ns io p
  unfolding plan_io
  plan_io-Planned ns io p small h = elim (Bool-cases (io.pract && ns.ms == env.pi_tuple_size)) [
    | inl stripped ↦ record {
      no_flags_lem = ground arith;
      opcode_lem = ground arith;
      command_lem = plan_command ns io p h;
      inside_lem = λ e. ground arith;
      apart_lem = λ e. ground arith;
      place_lem = ground arith;
      none_lem = λ e. ground arith;
      aligned_lem = ground arith;
    }
    | inr keeps ↦ record {
      no_flags_lem = ground arith;
      opcode_lem = ground arith;
      command_lem = plan_command ns io p h;
      inside_lem = λ e. ground arith;
      apart_lem = λ e. ground arith;
      place_lem = ground arith;
      none_lem = λ e. ground arith;
      aligned_lem = ground arith;
    }
  ]
