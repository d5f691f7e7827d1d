-- ===== src/Ioctl/Holding.antt =====
-- kernel_modification/ioctl.c: what a passthrough command takes it gives back, on every path.
use nvme_ioctl.Prelude.{
  ℕ, ◌+◌, ◌-◌, ◌≡◌, refl, ◌⊎◌, inl, inr, Bool, true, false, ◌&&◌, Option, none, some, ℤ, is_zero,
  is_neg, arith, Option-cases, is_some,
}
use nvme_ioctl.Ioctl.{Ctrl, Ns, PassthruCmd, UserIo, Command, CmdFlags, World, Req, Env}
use nvme_ioctl.Ioctl.Permission.{nvme_to_user_ptr}
use nvme_ioctl.Ioctl.Map.{
  Mapping, nvme_add_user_metadata, nvme_finish_user_metadata, nvme_alloc_user_request, give_up,
  after_map, nvme_map_user_request,
}
use nvme_ioctl.Ioctl.Submit.{
  no_flags, command_of, queue_for, issue, execute_and_finish, nvme_submit_user_cmd, plan_io,
  nvme_submit_io, store_result, user_cmd_with, nvme_user_cmd, nvme_user_cmd64,
}

-- The requests, mappings and metadata buffers that a world holds.
pub record Held (w : World) (requests mappings buffers : ℕ) : Type 0 where
  pub requests_lem : w.requests ≡ requests
  pub mappings_lem : w.mappings ≡ mappings
  pub buffers_lem : w.buffers ≡ buffers

abbrev pub SameHeld : World → World → Type 0
SameHeld w w' = Held w' w.requests w.mappings w.buffers

abbrev pub bit : Bool → ℕ
bit true = 1
bit false = 0

-- An ERR_PTR() carries a negative code.
pub record Errors (env : Env) : Type 0 where
  pub alloc_negative : (w : World) (r : Req) (e : ℤ) → env.alloc w r ≡ some e → is_neg e ≡ true
  pub integrity_negative : (w : World) (e : ℤ) → env.integrity_alloc w ≡ some e → is_neg e ≡ true

-- What holds behind a mapping: with code 0 the request, its bio and its metadata are held;
-- otherwise the request has been given back and nothing else is held.
abbrev pub Accounts : World → Mapping → Type 0
Accounts w m =
    ((is_zero m.ret ≡ true)
      × Held m.world w.requests (w.mappings + bit m.has_bio) (w.buffers + bit m.has_meta))
    ⊎ ((is_zero m.ret ≡ false) × Held m.world (w.requests - 1) w.mappings w.buffers)

-- What holds behind the metadata: with no error one more buffer, else nothing more.
abbrev pub MetaHeld : World → Option ℤ × World → Type 0
MetaHeld w (none, w') = Held w' w.requests w.mappings (w.buffers + 1)
MetaHeld w (some e, w') = (is_neg e ≡ true) × SameHeld w w'

module _ (env : Env) (ok : Errors env) where
  pub add_metadata-holds :
      (req : Req) (ubuf len : ℕ) (w : World)
      → MetaHeld w (nvme_add_user_metadata env req ubuf len w)
  unfolding nvme_add_user_metadata
  add_metadata-holds req ubuf len w =
      let held = record w { buffers = w.buffers + 1 } in
      elim (Option-cases (env.integrity_alloc held)) [
        | inl fine ↦ ground arith
        | inr (e, failed) ↦ ground (arith, ok.integrity_negative held e failed)
      ]

  after_map-Accounts :
      (req : Req) (meta_buffer meta_len : ℕ) (ret : ℤ) (has_bio : Bool) (w : World)
      → Accounts w (after_map env req meta_buffer meta_len ret has_bio w)
  unfolding after_map give_up
  after_map-Accounts req meta_buffer meta_len ret has_bio w = ground (
    arith,
    add_metadata-holds req meta_buffer meta_len w,
    add_metadata-holds req meta_buffer meta_len (record w { mappings = w.mappings + 1 }),
  )

  -- Unless it is asked for a vectored fixed buffer, nvme_map_user_request() holds the request,
  -- its mapping and its metadata if it returns 0, and gives the request back and holds nothing
  -- else if it fails, if ERR_PTR() values carry negative codes.
  pub nvme_map_user_request-Accounts :
      (req : Req) (ubuffer bufflen meta_buffer meta_len : ℕ) (fixed : Bool) (flags : CmdFlags)
      (w : World)
      → (fixed && flags.vec) ≡ false
      → Accounts w
          (nvme_map_user_request env req ubuffer bufflen meta_buffer meta_len fixed flags w)
  unfolding nvme_map_user_request give_up
  nvme_map_user_request-Accounts req ubuffer bufflen meta_buffer meta_len fixed flags w h = ground (
    arith,
    after_map-Accounts req meta_buffer meta_len (env.map_iov w req).0 (env.map_iov w req).1 w,
    after_map-Accounts req meta_buffer meta_len
        (env.map_io w req (nvme_to_user_ptr env ubuffer) bufflen flags.vec).0
        (env.map_io w req (nvme_to_user_ptr env ubuffer) bufflen flags.vec).1 w,
  )

  execute-Held :
      (req : Req) (c : Command) (meta_buffer meta_len : ℕ) (has_bio has_meta : Bool) (w : World)
      (r m b : ℕ)
      → Held w (r + 1) (m + bit has_bio) (b + bit has_meta)
      → Held (execute_and_finish env req c meta_buffer meta_len has_bio has_meta w).2 r m b
  unfolding execute_and_finish nvme_finish_user_metadata issue
  execute-Held req c meta_buffer meta_len has_bio has_meta w r m b h = ground arith

  -- nvme_submit_user_cmd() ends with the requests, mappings and metadata buffers it began with,
  -- whatever fails on the way, if ERR_PTR() values carry negative codes.
  pub nvme_submit_user_cmd-SameHeld :
      (q : ℕ) (has_ns : Bool) (c : Command) (ubuffer bufflen meta_buffer meta_len : ℕ)
      (flags : CmdFlags) (w : World)
      → SameHeld w
          (nvme_submit_user_cmd env q has_ns c ubuffer bufflen meta_buffer meta_len flags w).2
  unfolding nvme_submit_user_cmd nvme_alloc_user_request
  nvme_submit_user_cmd-SameHeld q has_ns c ubuffer bufflen meta_buffer meta_len flags w =
      let req : Req = record {
        queue = q;
        has_ns = has_ns;
        write = env.is_write c;
        polled = false;
        nowait = false;
      } in
      let w₁ = record w { requests = w.requests + 1 } in
      let m = nvme_map_user_request env req ubuffer bufflen meta_buffer meta_len false flags w₁ in
      ground (
        arith,
        nvme_map_user_request-Accounts req ubuffer bufflen meta_buffer meta_len false flags w₁ refl,
        execute-Held req c meta_buffer meta_len m.has_bio m.has_meta m.world w.requests w.mappings
            w.buffers,
        execute-Held req c meta_buffer meta_len false false w₁ w.requests w.mappings w.buffers,
      )

  store_result-SameHeld :
      (w : World) (r : ℤ × Option ℕ × World) → SameHeld w r.2 → SameHeld w (store_result env r).1
  unfolding store_result
  store_result-SameHeld w (status, none, w') h = h
  store_result-SameHeld w (status, some x, w') h = ground arith

  -- nvme_submit_io() ends with the requests, mappings and metadata buffers it began with, for any
  -- struct and also where the copy of the struct faults, if ERR_PTR() values carry negative
  -- codes.
  pub nvme_submit_io-SameHeld :
      (ns : Ns) (io : Option UserIo) (w : World) → SameHeld w (nvme_submit_io env ns io w).1
  unfolding nvme_submit_io
  nvme_submit_io-SameHeld ns none w = record {
    requests_lem = refl;
    mappings_lem = refl;
    buffers_lem = refl;
  }
  nvme_submit_io-SameHeld ns (some io) w = elim (Option-cases (plan_io env ns io)) [
    | inl bad ↦ ground arith
    | inr (p, good) ↦ ground (
      arith,
      nvme_submit_user_cmd-SameHeld ns.queue true p.command io.addr p.length p.metadata p.meta_len
          no_flags w,
    )
  ]

  user_cmd_with-SameHeld :
      (ctrl : Ctrl) (ns : Option Ns) (cmd : Option PassthruCmd) (checked used : CmdFlags)
      (writable : Bool) (w : World)
      → SameHeld w (user_cmd_with env ctrl ns cmd checked used writable w).1
  unfolding user_cmd_with
  user_cmd_with-SameHeld ctrl ns none checked used writable w = record {
    requests_lem = refl;
    mappings_lem = refl;
    buffers_lem = refl;
  }
  user_cmd_with-SameHeld ctrl ns (some cmd) checked used writable w =
      let c = command_of cmd in
      let q = queue_for env ctrl ns in
      let meta = nvme_to_user_ptr env cmd.metadata in
      let sent =
        nvme_submit_user_cmd env q (is_some ns) c cmd.addr cmd.data_len meta cmd.metadata_len used
          w in
      ground (
        arith,
        store_result-SameHeld w sent,
        nvme_submit_user_cmd-SameHeld q (is_some ns) c cmd.addr cmd.data_len meta cmd.metadata_len
            used w,
      )

  -- nvme_user_cmd() and nvme_user_cmd64() end with the requests, mappings and metadata buffers
  -- they began with, whether the command is copied, allowed, sent and its result stored or not,
  -- if ERR_PTR() values carry negative codes.
  pub nvme_user_cmd-SameHeld :
      (ctrl : Ctrl) (ns : Option Ns) (cmd : Option PassthruCmd) (flags : CmdFlags) (writable : Bool)
      (w : World)
      → SameHeld w (nvme_user_cmd env ctrl ns cmd flags writable w).1
        × SameHeld w (nvme_user_cmd64 env ctrl ns cmd flags writable w).1
  unfolding nvme_user_cmd nvme_user_cmd64
  nvme_user_cmd-SameHeld ctrl ns cmd flags writable w = (
    user_cmd_with-SameHeld ctrl ns cmd no_flags no_flags writable w,
    user_cmd_with-SameHeld ctrl ns cmd flags flags writable w,
  )
