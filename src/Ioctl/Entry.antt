-- ===== src/Ioctl/Entry.antt =====
-- kernel_modification/ioctl.c: the entry points as wholes.
use nvme_ioctl.Prelude.{
  ℕ, ◌+◌, ◌≡◌, refl, ◌⊎◌, inl, inr, Bool, true, false, Option, none, some, List, [], ◌∷◌, arith,
  Option-cases,
}
use nvme_ioctl.Ioctl.{Ctrl, Ns, PassthruCmd, Command, CmdFlags, World, Env}
use nvme_ioctl.Ioctl.Permission.{nvme_cmd_allowed}
use nvme_ioctl.Ioctl.Submit.{no_flags, nvme_user_cmd64, user_cmd_with}
use nvme_ioctl.Ioctl.Locks.{
  SameLocks, Sends, nvme_user_cmd-Sends, nvme_user_cmd64-Sends, nvme_submit_io-SameLocks,
}
use nvme_ioctl.Ioctl.Dispatch.{
  IoctlCmd, admin_cmd, admin64_cmd, io_cmd, submit_io, io64_cmd, io64_cmd_vec, Arg, Services,
  is_ctrl_ioctl, srcu_read_lock, srcu_read_unlock, nvme_get_ctrl, nvme_ctrl_ioctl, nvme_ns_ioctl,
  nvme_ioctl_bdev, nvme_ns_head_ctrl_ioctl, head_ioctl_with, nvme_dev_user_cmd, nvme_dev_ioctl,
  down_read, up_read,
}

-- Whatever has been sent was sent with so many SRCU read locks held.
abbrev pub SentUnder : ℕ → World → World → Type 0
SentUnder held w w' =
    (w'.issued ≡ w.issued)
    ⊎ ((q : ℕ) × (c : Command) × (w'.issued
          ≡ (record { queue = q; command = c; srcu_held = held }) ∷ w.issued))

cast-SentUnder :
    (held held' : ℕ) (w w' v : World)
    → held ≡ held'
    → w'.issued ≡ v.issued
    → SentUnder held w w'
    → SentUnder held' w v
cast-SentUnder held held' w w' v same sent (inl r) = inl (ground arith)
cast-SentUnder held held' w w' v same sent (inr (q, c, r)) = inr (q, c, ground arith)

module _ (env : Env) (services : Services) where
  Sends-SentUnder :
      (ctrl : Ctrl) (ns : Option Ns) (ucmd : Option PassthruCmd) (flags : CmdFlags)
      (writable : Bool) (w w' : World)
      → Sends env ctrl ns ucmd flags writable w w'
      → SentUnder w.srcu w w'
  Sends-SentUnder ctrl ns none flags writable w w' h = inl h
  Sends-SentUnder ctrl ns (some cmd) flags writable w w' (inl h) = inl h
  Sends-SentUnder ctrl ns (some cmd) flags writable w w' (inr (_, _, _, h)) = inr (_, _, h)

  ctrl_ioctl_keeps :
      (ctrl : Ctrl) (cmd : IoctlCmd) (arg : Arg) (writable : Bool) (w : World)
      → let w' = (nvme_ctrl_ioctl env services ctrl cmd arg writable w).1 in
        SameLocks w w' × SentUnder w.srcu w w'
  unfolding nvme_ctrl_ioctl
  ctrl_ioctl_keeps ctrl admin_cmd arg writable w =
      let (l, s) = nvme_user_cmd-Sends env ctrl none arg.cmd no_flags writable w in
      (l, Sends-SentUnder ctrl none arg.cmd no_flags writable w _ s)
  ctrl_ioctl_keeps ctrl admin64_cmd arg writable w =
      let (l, s) = nvme_user_cmd64-Sends env ctrl none arg.cmd no_flags writable w in
      (l, Sends-SentUnder ctrl none arg.cmd no_flags writable w _ s)
  ctrl_ioctl_keeps ctrl _ arg writable w = (
    record {
      srcu_lem = refl;
      rwsem_lem = refl;
      ctrl_refs_lem = refl;
      ns_refs_lem = refl;
      resets_lem = refl;
      scans_lem = refl;
    },
    inl refl,
  )

  ns_ioctl_keeps :
      (ns : Ns) (cmd : IoctlCmd) (arg : Arg) (flags : CmdFlags) (writable : Bool) (w : World)
      → SameLocks w (nvme_ns_ioctl env services ns cmd arg flags writable w).1
  unfolding nvme_ns_ioctl
  ns_ioctl_keeps ns io_cmd arg flags writable w =
      (nvme_user_cmd-Sends env ns.ctrl (some ns) arg.cmd flags writable w).0
  ns_ioctl_keeps ns submit_io arg flags writable w = nvme_submit_io-SameLocks env ns arg.io w
  ns_ioctl_keeps ns io64_cmd_vec arg flags writable w =
      (nvme_user_cmd64-Sends env ns.ctrl (some ns) arg.cmd (record flags { vec = true }) writable
        w).0
  ns_ioctl_keeps ns io64_cmd arg flags writable w =
      (nvme_user_cmd64-Sends env ns.ctrl (some ns) arg.cmd flags writable w).0
  ns_ioctl_keeps ns _ arg flags writable w = record {
    srcu_lem = refl;
    rwsem_lem = refl;
    ctrl_refs_lem = refl;
    ns_refs_lem = refl;
    resets_lem = refl;
    scans_lem = refl;
  }

  -- A call on a multipath head, whatever the path, flags and command, ends with the locks and
  -- references it began with.
  head_ioctl_with-SameLocks :
      (path : Option Ns) (flags : CmdFlags) (writable : Bool) (cmd : IoctlCmd) (arg : Arg)
      (w : World)
      → SameLocks w (head_ioctl_with env services path flags writable cmd arg w).1
  unfolding head_ioctl_with nvme_ns_head_ctrl_ioctl
  head_ioctl_with-SameLocks none flags writable cmd arg w = ground arith
  head_ioctl_with-SameLocks (some ns) flags writable cmd arg w =
      let locked = srcu_read_lock w in
      ground (
        arith,
        ns_ioctl_keeps ns cmd arg flags writable locked,
        ctrl_ioctl_keeps ns.ctrl cmd arg writable (srcu_read_unlock (nvme_get_ctrl locked)),
      )

  -- A command for the controller that goes through a multipath head leaves without the head's SRCU
  -- lock: the command is sent under as many read locks as the caller held.
  pub head_ioctl_with-SentUnder :
      (path : Option Ns) (flags : CmdFlags) (writable : Bool) (cmd : IoctlCmd) (arg : Arg)
      (w : World)
      → (is_ctrl_ioctl cmd ≡ true)
      → SentUnder w.srcu w (head_ioctl_with env services path flags writable cmd arg w).1
  unfolding head_ioctl_with nvme_ns_head_ctrl_ioctl
  head_ioctl_with-SentUnder none flags writable cmd arg w h = inl refl
  head_ioctl_with-SentUnder (some ns) flags writable cmd arg w h =
      let locked = srcu_read_lock w in
      let bare = srcu_read_unlock (nvme_get_ctrl locked) in
      cast-SentUnder bare.srcu w.srcu w
        (nvme_ctrl_ioctl env services ns.ctrl cmd arg writable bare).1
        (head_ioctl_with env services (some ns) flags writable cmd arg w).1 (omega arith)
        (ground arith) (ctrl_ioctl_keeps ns.ctrl cmd arg writable bare).1

  -- The deprecated I/O call on the controller ends with the locks and references it began with,
  -- and sends nothing unless the controller has exactly one namespace.
  pub nvme_dev_user_cmd-SameLocks :
      (ctrl : Ctrl) (namespaces : List Ns) (arg : Arg) (writable : Bool) (w : World)
      → let w' = (nvme_dev_user_cmd env services ctrl namespaces arg writable w).1 in
        SameLocks w w' × ((w'.issued ≡ w.issued) ⊎ ((ns : Ns) × (namespaces ≡ ns ∷ [])))
  unfolding nvme_dev_user_cmd
  nvme_dev_user_cmd-SameLocks ctrl [] arg writable w = ground arith
  nvme_dev_user_cmd-SameLocks ctrl (ns ∷ []) arg writable w =
      let held = down_read w in
      let kept = up_read (record held { ns_refs = held.ns_refs + 1 }) in
      (
        ground (arith, nvme_user_cmd-Sends env ctrl (some ns) arg.cmd no_flags writable kept),
        inr (ns, refl),
      )
  nvme_dev_user_cmd-SameLocks ctrl (ns ∷ ns' ∷ more) arg writable w = ground arith

  -- Without admin rights no call on the controller resets it or its subsystem or scans for
  -- namespaces.
  pub nvme_dev_ioctl-admin :
      (ctrl : Ctrl) (namespaces : List Ns) (writable : Bool) (cmd : IoctlCmd) (arg : Arg)
      (w : World)
      → (env.admin ≡ false)
      → let w' = (nvme_dev_ioctl env services ctrl namespaces writable cmd arg w).1 in
        (w'.resets ≡ w.resets) × (w'.scans ≡ w.scans)
  unfolding nvme_dev_ioctl
  nvme_dev_ioctl-admin ctrl namespaces writable admin_cmd arg w no_admin =
      ground (arith, nvme_user_cmd-Sends env ctrl none arg.cmd no_flags writable w)
  nvme_dev_ioctl-admin ctrl namespaces writable admin64_cmd arg w no_admin =
      ground (arith, nvme_user_cmd64-Sends env ctrl none arg.cmd no_flags writable w)
  nvme_dev_ioctl-admin ctrl namespaces writable io_cmd arg w no_admin =
      ground (arith, nvme_dev_user_cmd-SameLocks ctrl namespaces arg writable w)
  nvme_dev_ioctl-admin ctrl namespaces writable _ arg w no_admin = ground arith

  -- Without admin rights, NVME_IOCTL_IO64_CMD on a partition changes nothing.
  pub nvme_ioctl_bdev-partition64 :
      (ns : Ns) (writable : Bool) (arg : Arg) (w : World)
      → (env.admin ≡ false)
      → (nvme_ioctl_bdev env services ns true writable io64_cmd arg w).1 ≡ w
  unfolding nvme_ioctl_bdev is_ctrl_ioctl nvme_ns_ioctl nvme_user_cmd64 user_cmd_with
      nvme_cmd_allowed
  nvme_ioctl_bdev-partition64 ns writable arg w no_admin = elim (Option-cases arg.cmd) [
    | inl bad ↦ ground arith
    | inr (cmd, good) ↦ ground arith
  ]
