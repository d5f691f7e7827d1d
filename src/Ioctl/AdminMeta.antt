-- ===== src/Ioctl/AdminMeta.antt =====
-- kernel_modification/ioctl.c: the metadata of io_uring commands to the controller, whose queue has
-- no namespace.
use nvme_ioctl.Prelude.{
  ℕ, suc, zero, ◌≡◌, refl, Bool, false, Option, none, some, ◌⊎◌, inl, inr, ℤ, arith, Option-cases,
}
use nvme_ioctl.Ioctl.{Ctrl, PassthruCmd, CmdFlags, World, Req, Env, free_request}
use nvme_ioctl.Ioctl.Permission.{nvme_to_user_ptr}
use nvme_ioctl.Ioctl.Map.{nvme_alloc_user_request, after_map, give_up, nvme_map_user_request}
use nvme_ioctl.Ioctl.Submit.{no_flags, command_of, queue_for}
use nvme_ioctl.Ioctl.Uring.{
  IssueFlags, UringCmd, Pending, start_request, execute_nowait, nvme_uring_cmd_io,
}

-- A command under way has the user's metadata length, but no metadata buffer.
abbrev pub NoBuffer : ℕ → ℤ × Option Pending × World → Type 0
NoBuffer len (ret, none, w) = Unit
NoBuffer len (ret, some p, w) = (p.has_meta ≡ false) × (p.meta_len ≡ len)

abbrev Bare : ℕ → (ℤ × World) ⊎ (Pending × World) → Type 0
Bare len (inl (e, w)) = Unit
Bare len (inr (p, w)) = (p.has_meta ≡ false) × (p.meta_len ≡ len)

module _ (env : Env) where
  map-no_meta :
      (req : Req) (ubuffer bufflen meta_buffer meta_len : ℕ) (fixed : Bool) (flags : CmdFlags)
      (w : World)
      → req.has_ns ≡ false
      → (nvme_map_user_request env req ubuffer bufflen meta_buffer meta_len fixed flags w).has_meta
        ≡ false
  unfolding nvme_map_user_request after_map give_up
  map-no_meta req ubuffer bufflen meta_buffer meta_len fixed flags w h = ground arith

  start-Bare :
      (pass : ℕ) (req : Req) (cmd : PassthruCmd) (fixed vec iopoll : Bool) (w : World)
      → req.has_ns ≡ false
      → Bare cmd.metadata_len (start_request env pass req cmd fixed vec iopoll w)
  unfolding start_request
  start-Bare zero req cmd fixed vec iopoll w h = ground arith
  start-Bare (suc pass) req cmd fixed vec iopoll w h =
      let meta = nvme_to_user_ptr env cmd.metadata in
      let flags = record no_flags { vec = vec } in
      let unpolled = record req { polled = false } in
      let r = nvme_alloc_user_request env req w in
      let m =
        nvme_map_user_request env req cmd.addr cmd.data_len meta cmd.metadata_len fixed flags r.1 in
      elim (Option-cases r.0) [
        | inl fine ↦ ground (
          arith,
          fine,
          map-no_meta req cmd.addr cmd.data_len meta cmd.metadata_len fixed flags r.1 h,
          start-Bare pass unpolled cmd fixed vec iopoll (free_request m.world) h,
          start-Bare pass unpolled cmd fixed vec iopoll (free_request r.1) h,
        )
        | inr (e, bad) ↦ ground (arith, bad)
      ]

  -- An io_uring command to the controller that is under way keeps the user's metadata length, and
  -- has no metadata buffer.
  pub nvme_uring_cmd_io-NoBuffer :
      (ctrl : Ctrl) (u : UringCmd) (flags : IssueFlags) (vec : Bool) (w : World)
      → NoBuffer u.cmd.metadata_len (nvme_uring_cmd_io env ctrl none u flags vec w)
  unfolding nvme_uring_cmd_io execute_nowait
  nvme_uring_cmd_io-NoBuffer ctrl u flags vec w =
      let req : Req = record {
        queue = queue_for env ctrl none;
        has_ns = false;
        write = env.is_write (command_of u.cmd);
        polled = flags.iopoll;
        nowait = flags.nonblock;
      } in
      ground (arith, start-Bare 2 req u.cmd u.fixed vec flags.iopoll w refl)
