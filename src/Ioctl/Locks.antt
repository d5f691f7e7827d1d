-- ===== src/Ioctl/Locks.antt =====
-- kernel_modification/ioctl.c: the locks and references around a command, and the commands that
-- leave for the device.
use nvme_ioctl.Prelude.{
  ℕ, ◌+◌, ◌≡◌, refl, ◌⊎◌, inl, inr, Bool, true, false, Option, none, some, ◌∷◌, ℤ, arith,
  Option-cases, is_some,
}
use nvme_ioctl.Prelude.{ap}
use mathlib.Core.Path.{subst}
use nvme_ioctl.Ioctl.{common}
use nvme_ioctl.Ioctl.Access.{Permitted, nvme_cmd_allowed_iff}
use nvme_ioctl.Ioctl.{Ctrl, Ns, PassthruCmd, UserIo, Command, CmdFlags, World, Req, Env}
use nvme_ioctl.Ioctl.Permission.{nvme_to_user_ptr, nvme_cmd_allowed, nvme_validate_passthru_nsid}
use nvme_ioctl.Ioctl.Map.{
  nvme_add_user_metadata, nvme_finish_user_metadata, nvme_alloc_user_request, give_up, after_map,
  nvme_map_user_request,
}
use nvme_ioctl.Ioctl.Submit.{
  no_flags, command_of, queue_for, issue, execute_and_finish, nvme_submit_user_cmd, plan_io,
  nvme_submit_io, store_result, user_cmd_with, nvme_user_cmd, nvme_user_cmd64,
}

-- The locks and references of a world, its resets and its scans.
pub record SameLocks (w w' : World) : Type 0 where
  pub srcu_lem : w'.srcu ≡ w.srcu
  pub rwsem_lem : w'.rwsem ≡ w.rwsem
  pub ctrl_refs_lem : w'.ctrl_refs ≡ w.ctrl_refs
  pub ns_refs_lem : w'.ns_refs ≡ w.ns_refs
  pub resets_lem : w'.resets ≡ w.resets
  pub scans_lem : w'.scans ≡ w.scans

-- The same, with nothing sent to the device.
pub record Quiet (w w' : World) : Type 0 where
  pub locks : SameLocks w w'
  pub issued_lem : w'.issued ≡ w.issued

-- Nothing has left for the device, or this command has, once.
abbrev pub AtMostOnce : ℕ → Command → World → World → Type 0
AtMostOnce q c w w' =
    (w'.issued ≡ w.issued)
    ⊎ (w'.issued ≡ (record { queue = q; command = c; srcu_held = w.srcu }) ∷ w.issued)

module _ (env : Env) where
  metadata_keeps :
      (req : Req) (ubuf len : ℕ) (w : World) → Quiet w (nvme_add_user_metadata env req ubuf len w).1
  unfolding nvme_add_user_metadata
  metadata_keeps req ubuf len w = ground arith

  after_map_keeps :
      (req : Req) (meta_buffer meta_len : ℕ) (ret : ℤ) (has_bio : Bool) (w : World)
      → Quiet w (after_map env req meta_buffer meta_len ret has_bio w).world
  unfolding after_map give_up
  after_map_keeps req meta_buffer meta_len ret has_bio w = ground (
    arith,
    metadata_keeps req meta_buffer meta_len w,
    metadata_keeps req meta_buffer meta_len (record w { mappings = w.mappings + 1 }),
  )

  map_keeps :
      (req : Req) (ubuffer bufflen meta_buffer meta_len : ℕ) (fixed : Bool) (flags : CmdFlags)
      (w : World)
      → Quiet w
          (nvme_map_user_request env req ubuffer bufflen meta_buffer meta_len fixed flags w).world
  unfolding nvme_map_user_request give_up
  map_keeps req ubuffer bufflen meta_buffer meta_len fixed flags w = ground (
    arith,
    after_map_keeps req meta_buffer meta_len (env.map_iov w req).0 (env.map_iov w req).1 w,
    after_map_keeps req meta_buffer meta_len
        (env.map_io w req (nvme_to_user_ptr env ubuffer) bufflen flags.vec).0
        (env.map_io w req (nvme_to_user_ptr env ubuffer) bufflen flags.vec).1 w,
  )

  execute_keeps :
      (req : Req) (c : Command) (meta_buffer meta_len : ℕ) (has_bio has_meta : Bool) (w : World)
      → let w' = (execute_and_finish env req c meta_buffer meta_len has_bio has_meta w).2 in
        SameLocks w w'
        × (w'.issued ≡ (record { queue = req.queue; command = c; srcu_held = w.srcu }) ∷ w.issued)
  unfolding execute_and_finish nvme_finish_user_metadata issue
  execute_keeps req c meta_buffer meta_len has_bio has_meta w = ground arith

  pub nvme_submit_user_cmd-issues :
      (q : ℕ) (has_ns : Bool) (c : Command) (ubuffer bufflen meta_buffer meta_len : ℕ)
      (flags : CmdFlags) (w : World)
      → let w' =
          (nvme_submit_user_cmd env q has_ns c ubuffer bufflen meta_buffer meta_len flags w).2 in
        SameLocks w w' × AtMostOnce q c w w'
  unfolding nvme_submit_user_cmd nvme_alloc_user_request
  nvme_submit_user_cmd-issues q has_ns c ubuffer bufflen meta_buffer meta_len flags w =
      let req : Req = record {
        queue = q;
        has_ns = has_ns;
        write = env.is_write c;
        polled = false;
        nowait = false;
      } in
      let w₁ = record w { requests = w.requests + 1 } in
      let m = nvme_map_user_request env req ubuffer bufflen meta_buffer meta_len false flags w₁ in
      ground (
        arith,
        map_keeps req ubuffer bufflen meta_buffer meta_len false flags w₁,
        execute_keeps req c meta_buffer meta_len m.has_bio m.has_meta m.world,
        execute_keeps req c meta_buffer meta_len false false w₁,
      )

  store_keeps :
      (w : World) (r : ℤ × Option ℕ × World)
      → SameLocks w r.2
      → SameLocks w (store_result env r).1 × ((store_result env r).1.issued ≡ r.2.issued)
  unfolding store_result
  store_keeps w (status, none, w') h = (h, refl)
  store_keeps w (status, some x, w') h = ground arith

-- The command of a user's struct: an NVMe command has the fields of the struct, each in its place.
abbrev pub own_command : PassthruCmd → Command
own_command cmd = common (record {
  opcode = cmd.opcode;
  flags = 0;
  nsid = cmd.nsid;
  cdw2 = cmd.cdw2;
  cdw3 = cmd.cdw3;
  cdw10 = cmd.cdw10;
  cdw11 = cmd.cdw11;
  cdw12 = cmd.cdw12;
  cdw13 = cmd.cdw13;
  cdw14 = cmd.cdw14;
  cdw15 = cmd.cdw15;
})

-- A command on the file of a namespace is for this one; the controller takes those for any.
abbrev pub ForNs : Option Ns → ℕ → Type 0
ForNs none nsid = Unit
ForNs (some n) nsid = nsid ≡ n.ns_id

-- The queue of the namespace, or the controller's own.
abbrev pub own_queue : Ctrl → Option Ns → ℕ
own_queue ctrl none = ctrl.admin_q
own_queue ctrl (some n) = n.queue

-- A command that has left is the user's own, for the namespace of the file, permitted, and left once.
abbrev pub Sends :
    Env → Ctrl → Option Ns → Option PassthruCmd → CmdFlags → Bool → World → World → Type 0
Sends env ctrl ns none checked writable w w' = w'.issued ≡ w.issued
Sends env ctrl ns (some cmd) checked writable w w' =
    (w'.issued ≡ w.issued)
    ⊎ ((cmd.flags ≡ 0)
        × ForNs ns cmd.nsid
        × Permitted env (own_command cmd) checked writable ns
        × (w'.issued
            ≡ (record { queue = own_queue ctrl ns; command = own_command cmd; srcu_held = w.srcu })
              ∷ w.issued))

validate-ForNs :
    (ns : Option Ns) (nsid : ℕ) → nvme_validate_passthru_nsid ns nsid ≡ true → ForNs ns nsid
unfolding nvme_validate_passthru_nsid
validate-ForNs none nsid h = tt
validate-ForNs (some n) nsid h = ground arith

command_of-own : (cmd : PassthruCmd) → cmd.flags ≡ 0 → command_of cmd ≡ own_command cmd
unfolding command_of
command_of-own cmd e =
    ap
      (λ f. common (record {
        opcode = cmd.opcode;
        flags = f;
        nsid = cmd.nsid;
        cdw2 = cmd.cdw2;
        cdw3 = cmd.cdw3;
        cdw10 = cmd.cdw10;
        cdw11 = cmd.cdw11;
        cdw12 = cmd.cdw12;
        cdw13 = cmd.cdw13;
        cdw14 = cmd.cdw14;
        cdw15 = cmd.cdw15;
      }))
      e

module _ (env : Env) where
  queue_for-own : (ctrl : Ctrl) (ns : Option Ns) → queue_for env ctrl ns ≡ own_queue ctrl ns
  unfolding queue_for
  queue_for-own ctrl none = refl
  queue_for-own ctrl (some n) = refl

  allowed_own :
      (ns : Option Ns) (cmd : PassthruCmd) (checked : CmdFlags) (writable : Bool)
      → cmd.flags ≡ 0
      → nvme_cmd_allowed env ns (command_of cmd) checked writable ≡ true
      → Permitted env (own_command cmd) checked writable ns
  allowed_own ns cmd checked writable e h =
      subst (λ c. Permitted env c checked writable ns) (command_of-own cmd e)
        ((nvme_cmd_allowed_iff env ns (command_of cmd) checked writable).0 h)

  pub user_cmd_with-Sends :
      (ctrl : Ctrl) (ns : Option Ns) (ucmd : Option PassthruCmd) (checked used : CmdFlags)
      (writable : Bool) (w : World)
      → let w' = (user_cmd_with env ctrl ns ucmd checked used writable w).1 in
        SameLocks w w' × Sends env ctrl ns ucmd checked writable w w'
  unfolding user_cmd_with
  user_cmd_with-Sends ctrl ns none checked used writable w = ground arith
  user_cmd_with-Sends ctrl ns (some cmd) checked used writable w =
      let c = command_of cmd in
      let q = queue_for env ctrl ns in
      let meta = nvme_to_user_ptr env cmd.metadata in
      let sent =
        nvme_submit_user_cmd env q (is_some ns) c cmd.addr cmd.data_len meta cmd.metadata_len used
          w in
      ground (
        arith,
        store_keeps env w sent,
        nvme_submit_user_cmd-issues env q (is_some ns) c cmd.addr cmd.data_len meta cmd.metadata_len
            used w,
        validate-ForNs ns cmd.nsid,
        command_of-own cmd,
        queue_for-own ctrl ns,
        allowed_own ns cmd checked writable,
      )

  -- What nvme_user_cmd() sends is the command of the user's struct, which has no flags set, goes to the
  -- queue of the file's namespace and names it, is permitted without flags, and is sent once at most;
  -- the locks and references stay as they were.
  pub nvme_user_cmd-Sends :
      (ctrl : Ctrl) (ns : Option Ns) (ucmd : Option PassthruCmd) (flags : CmdFlags)
      (writable : Bool) (w : World)
      → let w' = (nvme_user_cmd env ctrl ns ucmd flags writable w).1 in
        SameLocks w w' × Sends env ctrl ns ucmd no_flags writable w w'
  unfolding nvme_user_cmd
  nvme_user_cmd-Sends ctrl ns ucmd flags writable w =
      user_cmd_with-Sends ctrl ns ucmd no_flags no_flags writable w

  -- What nvme_user_cmd64() sends is the command of the user's struct, each field in its place. Its struct
  -- has no flags set, it goes to the queue of the file's namespace and names it (or to the controller),
  -- one of the rules of `Permitted` gives the right to it under the flags of the call, and it is sent
  -- once at most. The locks and references stay as they were.
  pub nvme_user_cmd64-Sends :
      (ctrl : Ctrl) (ns : Option Ns) (ucmd : Option PassthruCmd) (flags : CmdFlags)
      (writable : Bool) (w : World)
      → let w' = (nvme_user_cmd64 env ctrl ns ucmd flags writable w).1 in
        SameLocks w w' × Sends env ctrl ns ucmd flags writable w w'
  unfolding nvme_user_cmd64
  nvme_user_cmd64-Sends ctrl ns ucmd flags writable w =
      user_cmd_with-Sends ctrl ns ucmd flags flags writable w

  pub nvme_submit_io-SameLocks :
      (ns : Ns) (io : Option UserIo) (w : World) → SameLocks w (nvme_submit_io env ns io w).1
  unfolding nvme_submit_io
  nvme_submit_io-SameLocks ns none w = ground arith
  nvme_submit_io-SameLocks ns (some io) w = elim (Option-cases (plan_io env ns io)) [
    | inl bad ↦ ground arith
    | inr (p, good) ↦ ground (
      arith,
      nvme_submit_user_cmd-issues env ns.queue true p.command io.addr p.length p.metadata p.meta_len
          no_flags w,
    )
  ]
