-- ===== src/Ioctl/Async.antt =====
-- kernel_modification/ioctl.c: what a command of io_uring takes it gives back when it ends.
use nvme_ioctl.Prelude.{
  ℕ, suc, ◌+◌, ◌≡◌, ◌⊎◌, inl, inr, Bool, true, false, not, ◌&&◌, Option, none, some, ℤ, is_zero,
  arith, Option-cases, is_some, eiocbqueued, ◌==◌, ◌≢◌, einval,
}
use nvme_ioctl.Prelude.{zero, if◌then◌else◌}
use nvme_ioctl.Ioctl.{Ctrl, Ns, PassthruCmd, CmdFlags, World, Req, Env, free_request}
use nvme_ioctl.Ioctl.Permission.{nvme_to_user_ptr, nvme_cmd_allowed, nvme_validate_passthru_nsid}
use nvme_ioctl.Ioctl.Map.{
  nvme_add_user_metadata, nvme_alloc_user_request, nvme_map_user_request, nvme_finish_user_metadata,
  give_up, after_map,
}
use nvme_ioctl.Ioctl.Submit.{no_flags, issue, command_of, queue_for}
use nvme_ioctl.Ioctl.Holding.{
  Held, SameHeld, bit, Errors, add_metadata-holds, nvme_map_user_request-Accounts,
}
use nvme_ioctl.Ioctl.Uring.{
  UringCmd, IssueFlags, Pending, Completion, start_request, execute_nowait, nvme_uring_cmd_io,
  nvme_uring_task_cb, nvme_uring_task_meta_cb, end_io_of, complete,
}

-- A start that fails holds nothing; one that succeeds holds the request, its mapping and its
-- metadata, and polls only where it has a bio to poll.
abbrev pub Started : World → (ℤ × World) ⊎ (Pending × World) → Type 0
Started w (inl (e, w')) = (is_zero e ≡ false) × SameHeld w w'
Started w (inr (p, w')) =
    Held w' (w.requests + 1) (w.mappings + bit p.has_bio) (w.buffers + bit p.has_meta)
    × ((p.polls && not p.has_bio) ≡ false)
    × ((p.has_meta && (p.meta_len == 0)) ≡ false)

-- The same of a call: EIOCBQUEUED is the answer exactly where a command is under way.
abbrev pub Queued : World → ℤ × Option Pending × World → Type 0
Queued w (ret, none, w') = (ret ≢ eiocbqueued) × (is_zero ret ≡ false) × SameHeld w w'
Queued w (ret, some p, w') = (ret ≡ eiocbqueued) × Started w (inr (p, w'))

-- EIOCBQUEUED is the answer of io_uring's own files: no function that allocates or maps gives it.
pub record OwnCodes (env : Env) : Type 0 where
  pub alloc_lem : (w : World) (r : Req) (e : ℤ) → env.alloc w r ≡ some e → e ≢ eiocbqueued
  pub integrity_lem : (w : World) (e : ℤ) → env.integrity_alloc w ≡ some e → e ≢ eiocbqueued
  pub import_lem : (w : World) (a n : ℕ) → env.import_fixed w a n ≢ eiocbqueued
  pub iov_lem : (w : World) (r : Req) → (env.map_iov w r).0 ≢ eiocbqueued
  pub io_lem :
      (w : World) (r : Req) (a n : ℕ) (vec : Bool) → (env.map_io w r a n vec).0 ≢ eiocbqueued

-- blk-map.c leaves a bio behind where it reports success for a buffer that is not empty.
pub record MapsBio (env : Env) : Type 0 where
  pub iov_lem :
      (w : World) (r : Req) → (is_zero (env.map_iov w r).0 && not (env.map_iov w r).1) ≡ false
  pub io_lem :
      (w : World) (r : Req) (ubuffer bufflen : ℕ) (vec : Bool)
      → bufflen ≢ 0
      → let (ret, has_bio) = env.map_io w r ubuffer bufflen vec in
        (is_zero ret && not has_bio) ≡ false

cast-Started :
    (w v : World) (r : (ℤ × World) ⊎ (Pending × World)) → SameHeld w v → Started v r → Started w r
cast-Started w v (inl (e, w')) same h = ground arith
cast-Started w v (inr (p, w')) same h = ground arith

module _ (env : Env) where
  after_map-has_meta :
      (req : Req) (meta_buffer meta_len : ℕ) (ret : ℤ) (has_bio : Bool) (w : World)
      → ((after_map env req meta_buffer meta_len ret has_bio w).has_meta && (meta_len == 0)) ≡ false
  unfolding after_map give_up
  after_map-has_meta req meta_buffer meta_len ret has_bio w = ground arith

  map-has_meta :
      (req : Req) (ubuffer bufflen meta_buffer meta_len : ℕ) (fixed : Bool) (flags : CmdFlags)
      (w : World)
      → let m = nvme_map_user_request env req ubuffer bufflen meta_buffer meta_len fixed flags w in
        (m.has_meta && (meta_len == 0)) ≡ false
  unfolding nvme_map_user_request give_up
  map-has_meta req ubuffer bufflen meta_buffer meta_len fixed flags w = ground (
    arith,
    after_map-has_meta req meta_buffer meta_len (env.map_iov w req).0 (env.map_iov w req).1 w,
    after_map-has_meta req meta_buffer meta_len
        (env.map_io w req (nvme_to_user_ptr env ubuffer) bufflen flags.vec).0
        (env.map_io w req (nvme_to_user_ptr env ubuffer) bufflen flags.vec).1 w,
  )

module _ (env : Env) (codes : OwnCodes env) where
  metadata-code :
      (req : Req) (ubuf len : ℕ) (w : World) (e : ℤ)
      → (nvme_add_user_metadata env req ubuf len w).0 ≡ some e
      → e ≢ eiocbqueued
  unfolding nvme_add_user_metadata
  metadata-code req ubuf len w e h =
      ground (arith, codes.integrity_lem (record w { buffers = w.buffers + 1 }) e)

  after_map-code :
      (req : Req) (meta_buffer meta_len : ℕ) (ret : ℤ) (has_bio : Bool) (w : World)
      → ret ≢ eiocbqueued
      → (after_map env req meta_buffer meta_len ret has_bio w).ret ≢ eiocbqueued
  unfolding after_map give_up
  after_map-code req meta_buffer meta_len ret has_bio w h =
      let mapped = if has_bio then record w { mappings = w.mappings + 1 } else w in
      elim (Option-cases (nvme_add_user_metadata env req meta_buffer meta_len mapped).0) [
        | inl fine ↦ ground (arith, fine)
        | inr (e, failed) ↦
            ground (arith, failed, metadata-code req meta_buffer meta_len mapped e failed)
      ]

  map-code :
      (req : Req) (ubuffer bufflen meta_buffer meta_len : ℕ) (fixed : Bool) (flags : CmdFlags)
      (w : World)
      → (nvme_map_user_request env req ubuffer bufflen meta_buffer meta_len fixed flags w).ret
        ≢ eiocbqueued
  unfolding nvme_map_user_request give_up
  map-code req ubuffer bufflen meta_buffer meta_len fixed flags w =
      let addr = nvme_to_user_ptr env ubuffer in
      let (ret, has_bio) = env.map_io w req addr bufflen flags.vec in
      let (ret_iov, bio_iov) = env.map_iov w req in
      ground (
        arith,
        codes.import_lem w ubuffer bufflen,
        after_map-code req meta_buffer meta_len ret_iov bio_iov w (codes.iov_lem w req),
        after_map-code req meta_buffer meta_len ret has_bio w
            (codes.io_lem w req addr bufflen flags.vec),
      )

  -- The answer of a start that fails.
  abbrev Answers : (ℤ × World) ⊎ (Pending × World) → Type 0
  Answers (inl (e, w)) = e ≢ eiocbqueued
  Answers (inr r) = Unit

  start-Answers :
      (pass : ℕ) (req : Req) (cmd : PassthruCmd) (fixed vec iopoll : Bool) (w : World)
      → Answers (start_request env pass req cmd fixed vec iopoll w)
  unfolding start_request nvme_alloc_user_request
  start-Answers zero req cmd fixed vec iopoll w = ground arith
  start-Answers (suc pass) req cmd fixed vec iopoll w =
      let meta = nvme_to_user_ptr env cmd.metadata in
      let w₁ = record w { requests = w.requests + 1 } in
      let flags = record no_flags { vec = vec } in
      let m =
        nvme_map_user_request env req cmd.addr cmd.data_len meta cmd.metadata_len fixed flags w₁ in
      let again = start-Answers pass (record req { polled = false }) cmd fixed vec iopoll in
      elim (Option-cases (env.alloc w req)) [
        | inl fine ↦ ground (
          arith,
          fine,
          map-code req cmd.addr cmd.data_len meta cmd.metadata_len fixed flags w₁,
          again (free_request w₁),
          again (free_request m.world),
        )
        | inr (e, failed) ↦ ground (arith, failed, codes.alloc_lem w req e failed)
      ]

module _ (env : Env) (ok : Errors env) (maps : MapsBio env) where
  after_map-has_bio :
      (req : Req) (meta_buffer meta_len : ℕ) (ret : ℤ) (has_bio : Bool) (w : World)
      → (is_zero ret && not has_bio) ≡ false
      → let m = after_map env req meta_buffer meta_len ret has_bio w in
        (is_zero m.ret && not m.has_bio) ≡ false
  unfolding after_map give_up
  after_map-has_bio req meta_buffer meta_len ret has_bio w h = ground (
    arith,
    add_metadata-holds env ok req meta_buffer meta_len w,
    add_metadata-holds env ok req meta_buffer meta_len (record w { mappings = w.mappings + 1 }),
  )

  map-has_bio :
      (req : Req) (ubuffer bufflen meta_buffer meta_len : ℕ) (fixed : Bool) (flags : CmdFlags)
      (w : World)
      → bufflen ≢ 0
      → let m = nvme_map_user_request env req ubuffer bufflen meta_buffer meta_len fixed flags w in
        (is_zero m.ret && not m.has_bio) ≡ false
  unfolding nvme_map_user_request give_up
  map-has_bio req ubuffer bufflen meta_buffer meta_len fixed flags w h =
      let (ret, has_bio) = env.map_io w req (nvme_to_user_ptr env ubuffer) bufflen flags.vec in
      let (ret_iov, bio_iov) = env.map_iov w req in
      ground (
        arith,
        after_map-has_bio req meta_buffer meta_len ret_iov bio_iov w (maps.iov_lem w req),
        after_map-has_bio req meta_buffer meta_len ret has_bio w
            (maps.io_lem w req (nvme_to_user_ptr env ubuffer) bufflen flags.vec h),
      )

  start_unpolled :
      (pass : ℕ) (req : Req) (cmd : PassthruCmd) (fixed vec iopoll : Bool) (w : World)
      → (fixed && vec) ≡ false
      → (iopoll && req.polled) ≡ false
      → Started w (start_request env (suc pass) req cmd fixed vec iopoll w)
  unfolding start_request nvme_alloc_user_request
  start_unpolled pass req cmd fixed vec iopoll w h unpolled =
      let meta = nvme_to_user_ptr env cmd.metadata in
      let w₁ = record w { requests = w.requests + 1 } in
      elim (Option-cases (env.alloc w req)) [
        | inl fine ↦ ground (
          arith,
          nvme_map_user_request-Accounts env ok req cmd.addr cmd.data_len meta cmd.metadata_len
              fixed (record no_flags { vec = vec }) w₁ h,
          map-has_meta env req cmd.addr cmd.data_len meta cmd.metadata_len fixed
              (record no_flags { vec = vec }) w₁,
        )
        | inr (e, failed) ↦ ground (arith, ok.alloc_negative w req e failed)
      ]

  -- Two passes of the start of a command, the second only after `retry`, end with its request,
  -- mapping and metadata held and no poll without a bio, or with an error and nothing held, for a
  -- buffer that is not both fixed and vectored. ERR_PTR() values carry negative codes, and a
  -- mapping that succeeds has a bio.
  start_request-Started :
      (req : Req) (cmd : PassthruCmd) (fixed vec iopoll : Bool) (w : World)
      → (fixed && vec) ≡ false
      → Started w (start_request env 2 req cmd fixed vec iopoll w)
  unfolding start_request nvme_alloc_user_request
  start_request-Started req cmd fixed vec iopoll w h =
      let meta = nvme_to_user_ptr env cmd.metadata in
      let w₁ = record w { requests = w.requests + 1 } in
      let flags = record no_flags { vec = vec } in
      let bare = free_request w₁ in
      let unpolled = record req { polled = false } in
      let again = start_request env 1 unpolled cmd fixed vec iopoll bare in
      elim (Option-cases (env.alloc w req)) [
        | inl fine ↦ ground (
          arith,
          nvme_map_user_request-Accounts env ok req cmd.addr cmd.data_len meta cmd.metadata_len
              fixed flags w₁ h,
          map-has_meta env req cmd.addr cmd.data_len meta cmd.metadata_len fixed flags w₁,
          map-has_bio req cmd.addr cmd.data_len meta cmd.metadata_len fixed flags w₁,
          cast-Started w bare again,
          start_unpolled 0 unpolled cmd fixed vec iopoll bare h,
        )
        | inr (e, failed) ↦ ground (arith, ok.alloc_negative w req e failed)
      ]

  -- A call through io_uring, but for a vectored fixed buffer, answers EIOCBQUEUED exactly where a
  -- command is under way, which then holds its request, mapping and metadata; with any other answer,
  -- which is not 0, nothing is held. ERR_PTR() values carry negative codes, a mapping that succeeds
  -- has a bio, and EIOCBQUEUED is no answer of the functions that allocate and map.
  pub nvme_uring_cmd_io-Queued :
      (codes : OwnCodes env) (ctrl : Ctrl) (ns : Option Ns) (u : UringCmd) (flags : IssueFlags)
      (vec : Bool) (w : World)
      → (u.fixed && vec) ≡ false
      → Queued w (nvme_uring_cmd_io env ctrl ns u flags vec w)
  unfolding nvme_uring_cmd_io execute_nowait issue
  nvme_uring_cmd_io-Queued codes ctrl ns u flags vec w h =
      let req : Req = record {
        queue = queue_for env ctrl ns;
        has_ns = is_some ns;
        write = env.is_write (command_of u.cmd);
        polled = flags.iopoll;
        nowait = flags.nonblock;
      } in
      ground (
        arith,
        start_request-Started req u.cmd u.fixed vec flags.iopoll w h,
        start-Answers env codes 2 req u.cmd u.fixed vec flags.iopoll w,
      )

  -- A command under way that ends gives back what its start took: behind its end the world holds
  -- what it held before the start, whatever the device answers.
  pub complete-SameHeld :
      (w v : World) (p : Pending) (d : Completion)
      → Started w (inr (p, v))
      → SameHeld w (complete env p d v).1
  unfolding complete end_io_of nvme_uring_task_cb nvme_uring_task_meta_cb nvme_finish_user_metadata
  complete-SameHeld w v p d h = ground arith

module _ (env : Env) where
  -- A vectored command with a fixed buffer that passes the checks and gets a request answers
  -- EINVAL, has no command under way, and leaves the world with one request more.
  pub nvme_uring_cmd_io-leaks :
      (ctrl : Ctrl) (ns : Option Ns) (u : UringCmd) (flags : IssueFlags) (w : World)
      → (u.cmd.flags ≡ 0) × (nvme_validate_passthru_nsid ns u.cmd.nsid ≡ true)
      → nvme_cmd_allowed env ns (command_of u.cmd) no_flags u.writable ≡ true
      → ((r : Req) → env.alloc w r ≡ none)
      → (u.fixed ≡ true) × (u.cmd.addr ≢ 0) × (u.cmd.data_len ≢ 0)
      → nvme_uring_cmd_io env ctrl ns u flags true w
        ≡ (einval, none, record w { requests = w.requests + 1 })
  unfolding nvme_uring_cmd_io execute_nowait start_request nvme_alloc_user_request
      nvme_map_user_request
  nvme_uring_cmd_io-leaks ctrl ns u flags w checked allowed had fixed =
      let req : Req = record {
        queue = queue_for env ctrl ns;
        has_ns = is_some ns;
        write = env.is_write (command_of u.cmd);
        polled = flags.iopoll;
        nowait = flags.nonblock;
      } in
      ground (arith, had req)
