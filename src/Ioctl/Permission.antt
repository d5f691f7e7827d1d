-- ===== src/Ioctl/Permission.antt =====
-- kernel_modification/ioctl.c: who may send which command.
use nvme_ioctl.Prelude.{
  ℕ, ◌%◌, Bool, true, false, not, ◌||◌, Option, none, some, u32, leb, ◌==◌, if◌then◌else◌,
}
use nvme_ioctl.Ioctl.{
  Ns, Command, opcode_of, Cns, ns_cns, cs_ns, ns_cs_indep, cs_ctrl, ctrl_cns, other_cns, CmdFlags,
  Env,
}

unfoldable pub harmless_cns : Cns → Bool
harmless_cns ns_cns = true
harmless_cns cs_ns = true
harmless_cns ns_cs_indep = true
harmless_cns cs_ctrl = true
harmless_cns ctrl_cns = true
harmless_cns other_cns = false

module _ (env : Env) where
  -- nvme_cmd_allowed(); `writable` is FMODE_WRITE of the file's mode.
  unfoldable pub nvme_cmd_allowed : Option Ns → Command → CmdFlags → Bool → Bool
  nvme_cmd_allowed ns c flags writable =
      if env.admin
      then true
      else if flags.partition
      then false
      else if leb env.vendor_start (opcode_of c) || opcode_of c == env.fabrics_command
      then false
      else elim ns [
        | none ↦ if opcode_of c == env.admin_identify then harmless_cns (env.cns c) else false
        | some n ↦
            let e = env.effects n (opcode_of c) in
            if not e.csupp
            then false
            else if not (e.rest == 0)
            then false
            else if env.is_write c || e.lbcc
            then writable
            else true
      ]

  -- nvme_to_user_ptr()
  unfoldable pub nvme_to_user_ptr : ℕ → ℕ
  nvme_to_user_ptr ptrval = if env.compat then ptrval % u32 else ptrval

-- nvme_validate_passthru_nsid()
unfoldable pub nvme_validate_passthru_nsid : Option Ns → ℕ → Bool
nvme_validate_passthru_nsid none nsid = true
nvme_validate_passthru_nsid (some n) nsid = nsid == n.ns_id
