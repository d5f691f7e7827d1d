-- ===== src/Ioctl/Submit.antt =====
-- kernel_modification/ioctl.c: the synchronous commands.
use nvme_ioctl.Prelude.{
  ℕ, ◌+◌, ◌*◌, ◌%◌, ◌^◌, Bool, true, false, not, ◌&&◌, ◌||◌, Option, none, some, ◌∷◌, ℤ, is_zero,
  is_neg, einval, efault, eacces, u32, ◌==◌, if◌then◌else◌, is_some,
}
use nvme_ioctl.Ioctl.{
  Ctrl, Ns, PassthruCmd, UserIo, Command, common, rw_cmd, Effects, CmdFlags, World, Req, Env,
  free_request, unmap_user,
}
use nvme_ioctl.Ioctl.Permission.{nvme_cmd_allowed, nvme_to_user_ptr, nvme_validate_passthru_nsid}
use nvme_ioctl.Ioctl.Map.{nvme_alloc_user_request, nvme_map_user_request, nvme_finish_user_metadata}

-- The opcodes of nvme_submit_io(), as phison_version/nvme_transfer/nvme-ioctl.cpp lists them.
abbrev pub nvme_cmd_write : ℕ
nvme_cmd_write = 0x01

abbrev pub nvme_cmd_read : ℕ
nvme_cmd_read = 0x02

abbrev pub nvme_cmd_compare : ℕ
nvme_cmd_compare = 0x05

abbrev pub no_flags : CmdFlags
no_flags = record { vec = false; partition = false }

-- The test `if (effects)`.
abbrev pub any_effect : Effects → Bool
any_effect e = e.csupp || e.lbcc || e.uuid_sel || not (e.scope == 0) || not (e.rest == 0)

-- The command that nvme_user_cmd(), nvme_user_cmd64() and nvme_uring_cmd_io() build.
unfoldable pub command_of : PassthruCmd → Command
command_of cmd = common (record {
  opcode = cmd.opcode;
  flags = cmd.flags;
  nsid = cmd.nsid;
  cdw2 = cmd.cdw2;
  cdw3 = cmd.cdw3;
  cdw10 = cmd.cdw10;
  cdw11 = cmd.cdw11;
  cdw12 = cmd.cdw12;
  cdw13 = cmd.cdw13;
  cdw14 = cmd.cdw14;
  cdw15 = cmd.cdw15;
})

-- What nvme_submit_io() works out of the user's struct: the command, `length`, `meta_len` and
-- `metadata`.
pub record IoPlan : Type 0 where
  pub command : Command
  pub length : ℕ
  pub meta_len : ℕ
  pub metadata : ℕ

module _ (env : Env) where
  unfoldable pub issue : Req → Command → World → World
  issue req c w = record w {
    issued = (record { queue = req.queue; command = c; srcu_held = w.srcu }) ∷ w.issued;
  }

  -- The part of nvme_submit_user_cmd() behind the mapping: the code and `*result`.
  unfoldable pub execute_and_finish : Req → Command → ℕ → ℕ → Bool → Bool → World → ℤ × ℕ × World
  execute_and_finish req c meta_buffer meta_len has_bio has_meta w =
      let (status, result, effects) = env.execute w req c in
      let done = issue req c w in
      let (ret, w₁) =
        if has_meta
        then nvme_finish_user_metadata env req true meta_buffer meta_len status done
        else (status, done) in
      let w₂ = free_request (if has_bio then unmap_user w₁ else w₁) in
      (ret, result, if any_effect effects then record w₂ { ended = effects ∷ w₂.ended } else w₂)

  -- nvme_submit_user_cmd(): the code, `*result` where a command was executed, and the world.
  unfoldable pub nvme_submit_user_cmd :
      ℕ → Bool → Command → ℕ → ℕ → ℕ → ℕ → CmdFlags → World → ℤ × Option ℕ × World
  nvme_submit_user_cmd q has_ns c ubuffer bufflen meta_buffer meta_len flags w =
      let req : Req = record {
        queue = q;
        has_ns = has_ns;
        write = env.is_write c;
        polled = false;
        nowait = false;
      } in
      let (failed, w₁) = nvme_alloc_user_request env req w in
      let m = nvme_map_user_request env req ubuffer bufflen meta_buffer meta_len false flags w₁ in
      let mapped = execute_and_finish req c meta_buffer meta_len m.has_bio m.has_meta m.world in
      let plain = execute_and_finish req c meta_buffer meta_len false false w₁ in
      elim failed [
        | some e ↦ (e, none, w₁)
        | none ↦
            if not (ubuffer == 0) && not (bufflen == 0)
            then if not (is_zero m.ret)
              then (m.ret, none, m.world)
              else (mapped.0, some mapped.1, mapped.2)
            else (plain.0, some plain.1, plain.2)
      ]

  -- The checks of nvme_submit_io() behind the copy of the struct; `none` is -EINVAL.
  unfoldable pub plan_io : Ns → UserIo → Option IoPlan
  plan_io ns io =
      let blocks = io.nblocks + 1 in
      let known =
        io.opcode == nvme_cmd_write
        || io.opcode == nvme_cmd_read
        || io.opcode == nvme_cmd_compare in
      let len = blocks * 2 ^ ns.lba_shift % u32 in
      let user_meta = nvme_to_user_ptr env io.metadata in
      let stripped = io.pract && ns.ms == env.pi_tuple_size in
      let meta_len = if stripped then 0 else blocks * ns.ms % u32 in
      let metadata = if stripped then 0 else user_meta in
      let misplaced = not (io.metadata % 4 == 0) || io.metadata == 0 in
      let c = rw_cmd (record {
        opcode = io.opcode;
        flags = io.flags;
        nsid = ns.ns_id;
        slba = io.slba;
        length = io.nblocks;
        control = io.control;
        dsmgmt = io.dsmgmt;
        reftag = io.reftag;
        apptag = io.apptag;
        appmask = io.appmask;
      }) in
      if not (io.flags == 0)
      then none
      else if not known
      then none
      else if stripped && not (user_meta == 0)
      then none
      else if ns.ext_lbas
      then some (record {
        command = c;
        length = (len + meta_len) % u32;
        meta_len = 0;
        metadata = metadata;
      })
      else if not (meta_len == 0) && misplaced
      then none
      else some (record { command = c; length = len; meta_len = meta_len; metadata = metadata })

  -- nvme_submit_io(); no struct stands for a fault of copy_from_user().
  unfoldable pub nvme_submit_io : Ns → Option UserIo → World → ℤ × World
  nvme_submit_io ns none w = (efault, w)
  nvme_submit_io ns (some io) w = elim (plan_io ns io) [
    | none ↦ (einval, w)
    | some p ↦
        let (ret, _, w') =
          nvme_submit_user_cmd ns.queue true p.command io.addr p.length p.metadata p.meta_len
            no_flags w in
        (ret, w')
  ]

  -- The queue of a command: the namespace's, or the controller's for admin commands.
  unfoldable pub queue_for : Ctrl → Option Ns → ℕ
  queue_for ctrl none = ctrl.admin_q
  queue_for ctrl (some ns) = ns.queue

  -- put_user() of the result, for a status that is not negative.
  unfoldable pub store_result : ℤ × Option ℕ × World → ℤ × World
  store_result (status, none, w) = (status, w)
  store_result (status, some result, w) =
      if is_neg status
      then (status, w)
      else if env.result_faults w
      then (efault, w)
      else (status, record w { stored = result ∷ w.stored })

  -- The checks and the submission that nvme_user_cmd() and nvme_user_cmd64() share; the first
  -- flags are those of the permission, the second those of the submission.
  unfoldable pub user_cmd_with :
      Ctrl → Option Ns → Option PassthruCmd → CmdFlags → CmdFlags → Bool → World → ℤ × World
  user_cmd_with ctrl ns none checked used writable w = (efault, w)
  user_cmd_with ctrl ns (some cmd) checked used writable w =
      let c = command_of cmd in
      let q = queue_for ctrl ns in
      let meta = nvme_to_user_ptr env cmd.metadata in
      if not (cmd.flags == 0)
      then (einval, w)
      else if not (nvme_validate_passthru_nsid ns cmd.nsid)
      then (einval, w)
      else if not (nvme_cmd_allowed env ns c checked writable)
      then (eacces, w)
      else store_result
          (nvme_submit_user_cmd q (is_some ns) c cmd.addr cmd.data_len meta cmd.metadata_len used w)

  -- nvme_user_cmd(): the permission is asked for with no flags, whatever the caller's are.
  unfoldable pub nvme_user_cmd :
      Ctrl → Option Ns → Option PassthruCmd → CmdFlags → Bool → World → ℤ × World
  nvme_user_cmd ctrl ns ucmd flags writable w =
      user_cmd_with ctrl ns ucmd no_flags no_flags writable w

  unfoldable pub nvme_user_cmd64 :
      Ctrl → Option Ns → Option PassthruCmd → CmdFlags → Bool → World → ℤ × World
  nvme_user_cmd64 ctrl ns ucmd flags writable w = user_cmd_with ctrl ns ucmd flags flags writable w
