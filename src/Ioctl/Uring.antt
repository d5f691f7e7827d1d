-- ===== src/Ioctl/Uring.antt =====
-- kernel_modification/ioctl.c: the commands that come through io_uring and end later.
use nvme_ioctl.Prelude.{
  ℕ, zero, suc, Bool, true, false, not, ◌&&◌, Option, none, some, ◌⊎◌, inl, inr, ℤ, is_zero, einval,
  eacces, eintr, eiocbqueued, ◌==◌, if◌then◌else◌, is_some,
}
use nvme_ioctl.Ioctl.{Ctrl, Ns, PassthruCmd, Command, World, Req, Env, free_request, unmap_user}
use nvme_ioctl.Ioctl.Permission.{nvme_cmd_allowed, nvme_to_user_ptr, nvme_validate_passthru_nsid}
use nvme_ioctl.Ioctl.Map.{nvme_alloc_user_request, nvme_map_user_request, nvme_finish_user_metadata}
use nvme_ioctl.Ioctl.Submit.{command_of, queue_for, no_flags, issue}

-- The flags of a call that the file tests.
pub record IssueFlags : Type 0 where
  pub sqe128 : Bool
  pub cqe32 : Bool
  pub nonblock : Bool
  pub iopoll : Bool

-- `struct io_uring_cmd`: the command, IORING_URING_CMD_FIXED, and FMODE_WRITE of the file.
pub record UringCmd : Type 0 where
  pub cmd : PassthruCmd
  pub fixed : Bool
  pub writable : Bool

-- A command under way, with what the pdu keeps: the bio, the metadata and its user address.
-- `polls` says that the cookie was set, and `with_meta` that end_io is the metadata variant.
pub record Pending : Type 0 where
  pub req : Req
  pub has_bio : Bool
  pub has_meta : Bool
  pub meta_len : ℕ
  pub meta_buffer : ℕ
  pub polls : Bool

-- What the device says at the end of a request: NVME_REQ_CANCELLED, the status and the result.
pub record Completion : Type 0 where
  pub cancelled : Bool
  pub status : ℤ
  pub result : ℕ

-- io_uring_cmd_done(): the status and the result that user space sees.
pub record Done : Type 0 where
  pub status : ℤ
  pub result : ℕ

-- How an end_io function leaves the request: RQ_END_IO_FREE or RQ_END_IO_NONE.
pub data EndIo : Type 0 where
  end_free end_none : EndIo

module _ (env : Env) where
  -- A request mapped, or the code of an early return; `pass` bounds the way back to `retry`, which
  -- is taken at most once, as it clears REQ_POLLED.
  unfoldable pub start_request :
      ℕ → Req → PassthruCmd → Bool → Bool → Bool → World → (ℤ × World) ⊎ (Pending × World)
  start_request zero req cmd fixed vec iopoll w = inl (einval, w)
  start_request (suc pass) req cmd fixed vec iopoll w =
      let meta = nvme_to_user_ptr env cmd.metadata in
      let flags = record no_flags { vec = vec } in
      let (failed, w₁) = nvme_alloc_user_request env req w in
      let m =
        nvme_map_user_request env req cmd.addr cmd.data_len meta cmd.metadata_len fixed flags w₁ in
      let pending : Bool → Bool → Pending = λ b h. record {
        req = req;
        has_bio = b;
        has_meta = h;
        meta_len = cmd.metadata_len;
        meta_buffer = meta;
        polls = iopoll && req.polled;
      } in
      let again = start_request pass (record req { polled = false }) cmd fixed vec iopoll in
      let maps = not (cmd.addr == 0) && not (cmd.data_len == 0) in
      elim failed [
        | some e ↦ inl (e, w₁)
        | none ↦ elim maps [
          | true ↦ elim (is_zero m.ret) [
            | false ↦ inl (m.ret, m.world)
            | true ↦ elim (iopoll && req.polled && not m.has_bio) [
              | true ↦ again (free_request m.world)
              | false ↦ inr (pending m.has_bio m.has_meta, m.world)
            ]
          ]
          | false ↦ elim (iopoll && req.polled) [
            | true ↦ again (free_request w₁)
            | false ↦ inr (pending false false, w₁)
          ]
        ]
      ]

  -- The code, and the command under way that blk_execute_rq_nowait() has taken.
  unfoldable pub execute_nowait :
      Command → (ℤ × World) ⊎ (Pending × World) → ℤ × Option Pending × World
  execute_nowait c (inl (e, w)) = (e, none, w)
  execute_nowait c (inr (p, w)) = (eiocbqueued, some p, issue env p.req c w)

  unfoldable pub nvme_uring_cmd_io :
      Ctrl → Option Ns → UringCmd → IssueFlags → Bool → World → ℤ × Option Pending × World
  nvme_uring_cmd_io ctrl ns u flags vec w =
      let c = command_of u.cmd in
      let req : Req = record {
        queue = queue_for env ctrl ns;
        has_ns = is_some ns;
        write = env.is_write c;
        polled = flags.iopoll;
        nowait = flags.nonblock;
      } in
      if not (u.cmd.flags == 0)
      then (einval, none, w)
      else if not (nvme_validate_passthru_nsid ns u.cmd.nsid)
      then (einval, none, w)
      else if not (nvme_cmd_allowed env ns c no_flags u.writable)
      then (eacces, none, w)
      else execute_nowait c (start_request 2 req u.cmd u.fixed vec flags.iopoll w)

  -- The status that the end_io functions report.
  unfoldable pub final_status : Completion → ℤ
  final_status d = if d.cancelled then eintr else d.status

  -- nvme_uring_task_cb(), for a request without metadata.
  unfoldable pub nvme_uring_task_cb : Pending → Completion → World → Done × World
  nvme_uring_task_cb p d w =
      (record { status = final_status d; result = d.result }, if p.has_bio then unmap_user w else w)

  -- nvme_uring_task_meta_cb(); the request is freed here.
  unfoldable pub nvme_uring_task_meta_cb : Pending → Completion → World → Done × World
  nvme_uring_task_meta_cb p d w =
      let (status, w₁) =
        if p.meta_len == 0
        then (final_status d, w)
        else nvme_finish_user_metadata env p.req p.has_meta p.meta_buffer p.meta_len
            (final_status d) w in
      (
        record { status = status; result = d.result },
        free_request (if p.has_bio then unmap_user w₁ else w₁),
      )

  -- The end of a request: end_io runs the callback at once when polling or leaves it to the task,
  -- and the block layer frees the request on RQ_END_IO_FREE.
  unfoldable pub end_io_of : Pending → EndIo
  end_io_of p = if p.meta_len == 0 then end_free else end_none

  unfoldable pub complete : Pending → Completion → World → Done × World
  complete p d w = elim (end_io_of p) [
    | end_free ↦ let (r, w') = nvme_uring_task_cb p d w in (r, free_request w')
    | end_none ↦ nvme_uring_task_meta_cb p d w
  ]
