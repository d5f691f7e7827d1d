-- ===== src/Ioctl/Dispatch.antt =====
-- kernel_modification/ioctl.c: the entry points, for block devices, character devices, multipath
-- heads and the controller.
use nvme_ioctl.Prelude.{
  ℕ, ◌+◌, ◌-◌, Bool, true, false, not, ◌&&◌, Option, none, some, List, [], ◌∷◌, ℤ, pos, is_zero,
  einval, eagain, eacces, enotty, eopnotsupp, if◌then◌else◌,
}
use nvme_ioctl.Ioctl.{Ctrl, Ns, PassthruCmd, UserIo, CmdFlags, World, Env}
use nvme_ioctl.Ioctl.Submit.{no_flags, nvme_submit_io, nvme_user_cmd, nvme_user_cmd64}
use nvme_ioctl.Ioctl.Uring.{IssueFlags, UringCmd, Pending, nvme_uring_cmd_io}

-- The ioctl numbers that the switches name; `sed` is one of is_sed_ioctl().
pub data IoctlCmd : Type 0 where
  admin_cmd admin64_cmd id io_cmd submit_io io64_cmd io64_cmd_vec : IoctlCmd
  reset subsys_reset rescan : IoctlCmd
  sed : ℕ → IoctlCmd
  other : IoctlCmd

-- The `cmd_op` of an io_uring command.
pub data UringOp : Type 0 where
  uring_io uring_io_vec uring_admin uring_admin_vec uring_other : UringOp

-- The argument of a call as copy_from_user() would give it: none is a fault.
pub record Arg : Type 0 where
  pub cmd : Option PassthruCmd
  pub io : Option UserIo

-- The calls that leave the file: sed_ioctl(), nvme_reset_ctrl_sync() and nvme_reset_subsystem();
-- bio_poll() of a command's bio, and whether the cookie is a bio of a device.
pub record Services : Type 0 where
  pub sed_ioctl : IoctlCmd → ℤ
  pub reset_ctrl : World → ℤ
  pub reset_subsystem : World → ℤ
  pub bio_poll : World → ℤ
  pub cookie_bio : Bool

unfoldable pub is_ctrl_ioctl : IoctlCmd → Bool
is_ctrl_ioctl admin_cmd = true
is_ctrl_ioctl admin64_cmd = true
is_ctrl_ioctl (sed n) = true
is_ctrl_ioctl _ = false

-- nvme_uring_cmd_checks()
unfoldable pub nvme_uring_cmd_checks : IssueFlags → ℤ
nvme_uring_cmd_checks f = if not (f.sqe128 && f.cqe32) then eopnotsupp else pos 0

abbrev pub partition_flags : Bool → CmdFlags
partition_flags is_partition = record { vec = false; partition = is_partition }

-- The locks and references that the entry points take and drop.
abbrev pub srcu_read_lock : World → World
srcu_read_lock w = record w { srcu = w.srcu + 1 }

abbrev pub srcu_read_unlock : World → World
srcu_read_unlock w = record w { srcu = w.srcu - 1 }

abbrev pub nvme_get_ctrl : World → World
nvme_get_ctrl w = record w { ctrl_refs = w.ctrl_refs + 1 }

abbrev pub nvme_put_ctrl : World → World
nvme_put_ctrl w = record w { ctrl_refs = w.ctrl_refs - 1 }

abbrev pub down_read : World → World
down_read w = record w { rwsem = w.rwsem + 1 }

abbrev pub up_read : World → World
up_read w = record w { rwsem = w.rwsem - 1 }

module _ (env : Env) (services : Services) where
  unfoldable pub nvme_ctrl_ioctl : Ctrl → IoctlCmd → Arg → Bool → World → ℤ × World
  nvme_ctrl_ioctl ctrl cmd arg writable w = elim cmd [
    | admin_cmd ↦ nvme_user_cmd env ctrl none arg.cmd no_flags writable w
    | admin64_cmd ↦ nvme_user_cmd64 env ctrl none arg.cmd no_flags writable w
    | other_cmd ↦ (services.sed_ioctl other_cmd, w)
  ]

  unfoldable pub nvme_ns_ioctl : Ns → IoctlCmd → Arg → CmdFlags → Bool → World → ℤ × World
  nvme_ns_ioctl ns cmd arg flags writable w = elim cmd [
    | id ↦ (pos ns.ns_id, w)
    | io_cmd ↦ nvme_user_cmd env ns.ctrl (some ns) arg.cmd flags writable w
    | submit_io ↦ nvme_submit_io env ns arg.io w
    | io64_cmd_vec ↦
        nvme_user_cmd64 env ns.ctrl (some ns) arg.cmd (record flags { vec = true }) writable w
    | io64_cmd ↦ nvme_user_cmd64 env ns.ctrl (some ns) arg.cmd flags writable w
    | _ ↦ (enotty, w)
  ]

  -- nvme_ioctl(), the block device of a namespace or a partition of it.
  unfoldable pub nvme_ioctl_bdev : Ns → Bool → Bool → IoctlCmd → Arg → World → ℤ × World
  nvme_ioctl_bdev ns is_partition writable cmd arg w =
      if is_ctrl_ioctl cmd
      then nvme_ctrl_ioctl ns.ctrl cmd arg writable w
      else nvme_ns_ioctl ns cmd arg (partition_flags is_partition) writable w

  unfoldable pub nvme_ns_chr_ioctl : Ns → Bool → IoctlCmd → Arg → World → ℤ × World
  nvme_ns_chr_ioctl ns writable cmd arg w =
      if is_ctrl_ioctl cmd
      then nvme_ctrl_ioctl ns.ctrl cmd arg writable w
      else nvme_ns_ioctl ns cmd arg no_flags writable w

  unfoldable pub nvme_ns_uring_cmd :
      Ns → UringOp → UringCmd → IssueFlags → World → ℤ × Option Pending × World
  nvme_ns_uring_cmd ns op u f w =
      if not (is_zero (nvme_uring_cmd_checks f))
      then (nvme_uring_cmd_checks f, none, w)
      else elim op [
        | uring_io ↦ nvme_uring_cmd_io env ns.ctrl (some ns) u f false w
        | uring_io_vec ↦ nvme_uring_cmd_io env ns.ctrl (some ns) u f true w
        | _ ↦ (enotty, none, w)
      ]

  -- nvme_ns_chr_uring_cmd_iopoll()
  unfoldable pub nvme_ns_chr_uring_cmd_iopoll : Ns → World → ℤ
  nvme_ns_chr_uring_cmd_iopoll ns w =
      if ns.poll && services.cookie_bio then services.bio_poll w else pos 0

  -- nvme_ns_head_ctrl_ioctl(): the SRCU lock is dropped before the command, for a reference to the
  -- controller.
  unfoldable pub nvme_ns_head_ctrl_ioctl : Ns → IoctlCmd → Arg → Bool → World → ℤ × World
  nvme_ns_head_ctrl_ioctl ns cmd arg writable w =
      let (ret, w') =
        nvme_ctrl_ioctl ns.ctrl cmd arg writable (srcu_read_unlock (nvme_get_ctrl w)) in
      (ret, nvme_put_ctrl w')

  -- The part of nvme_ns_head_ioctl() and nvme_ns_head_chr_ioctl() behind their flags. The path is
  -- what nvme_find_path() finds.
  unfoldable pub head_ioctl_with : Option Ns → CmdFlags → Bool → IoctlCmd → Arg → World → ℤ × World
  head_ioctl_with none flags writable cmd arg w = (eagain, srcu_read_unlock (srcu_read_lock w))
  head_ioctl_with (some ns) flags writable cmd arg w =
      let locked = srcu_read_lock w in
      let (ret, w') = nvme_ns_ioctl ns cmd arg flags writable locked in
      if is_ctrl_ioctl cmd
      then nvme_ns_head_ctrl_ioctl ns cmd arg writable locked
      else (ret, srcu_read_unlock w')

  unfoldable pub nvme_ns_head_ioctl : Option Ns → Bool → Bool → IoctlCmd → Arg → World → ℤ × World
  nvme_ns_head_ioctl path is_partition writable cmd arg w =
      head_ioctl_with path (partition_flags is_partition) writable cmd arg w

  unfoldable pub nvme_ns_head_chr_ioctl : Option Ns → Bool → IoctlCmd → Arg → World → ℤ × World
  nvme_ns_head_chr_ioctl path writable cmd arg w = head_ioctl_with path no_flags writable cmd arg w

  unfoldable pub nvme_ns_head_chr_uring_cmd :
      Option Ns → UringOp → UringCmd → IssueFlags → World → ℤ × Option Pending × World
  nvme_ns_head_chr_uring_cmd none op u f w = (einval, none, srcu_read_unlock (srcu_read_lock w))
  nvme_ns_head_chr_uring_cmd (some ns) op u f w =
      let (ret, p, w') = nvme_ns_uring_cmd ns op u f (srcu_read_lock w) in
      (ret, p, srcu_read_unlock w')

  -- nvme_ns_head_chr_uring_cmd_iopoll()
  unfoldable pub nvme_ns_head_chr_uring_cmd_iopoll : Option Ns → World → ℤ × World
  nvme_ns_head_chr_uring_cmd_iopoll none w = (pos 0, srcu_read_unlock (srcu_read_lock w))
  nvme_ns_head_chr_uring_cmd_iopoll (some ns) w =
      let locked = srcu_read_lock w in
      (
        if ns.poll && services.cookie_bio then services.bio_poll locked else pos 0,
        srcu_read_unlock locked,
      )

  unfoldable pub nvme_dev_uring_cmd :
      Ctrl → UringOp → UringCmd → IssueFlags → World → ℤ × Option Pending × World
  nvme_dev_uring_cmd ctrl op u f w =
      if f.iopoll
      then (eopnotsupp, none, w)
      else if not (is_zero (nvme_uring_cmd_checks f))
      then (nvme_uring_cmd_checks f, none, w)
      else elim op [
        | uring_admin ↦ nvme_uring_cmd_io env ctrl none u f false w
        | uring_admin_vec ↦ nvme_uring_cmd_io env ctrl none u f true w
        | _ ↦ (enotty, none, w)
      ]

  -- nvme_dev_user_cmd(), over the controller's list of namespaces.
  unfoldable pub nvme_dev_user_cmd : Ctrl → List Ns → Arg → Bool → World → ℤ × World
  nvme_dev_user_cmd ctrl [] arg writable w = (enotty, up_read (down_read w))
  nvme_dev_user_cmd ctrl (ns ∷ []) arg writable w =
      let held = down_read w in
      let kept = up_read (record held { ns_refs = held.ns_refs + 1 }) in
      let (ret, w') = nvme_user_cmd env ctrl (some ns) arg.cmd no_flags writable kept in
      (ret, record w' { ns_refs = w'.ns_refs - 1 })
  nvme_dev_user_cmd ctrl (ns ∷ ns' ∷ more) arg writable w = (einval, up_read (down_read w))

  unfoldable pub nvme_dev_ioctl : Ctrl → List Ns → Bool → IoctlCmd → Arg → World → ℤ × World
  nvme_dev_ioctl ctrl namespaces writable cmd arg w =
      let counted = record w { resets = w.resets + 1 } in
      elim cmd [
        | admin_cmd ↦ nvme_user_cmd env ctrl none arg.cmd no_flags writable w
        | admin64_cmd ↦ nvme_user_cmd64 env ctrl none arg.cmd no_flags writable w
        | io_cmd ↦ nvme_dev_user_cmd ctrl namespaces arg writable w
        | reset ↦ if not env.admin then (eacces, w) else (services.reset_ctrl w, counted)
        | subsys_reset ↦
            if not env.admin then (eacces, w) else (services.reset_subsystem w, counted)
        | rescan ↦ if not env.admin then (eacces, w) else (pos 0, record w { scans = w.scans + 1 })
        | _ ↦ (enotty, w)
      ]
