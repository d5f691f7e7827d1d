-- ===== src/Ioctl/Map.antt =====
-- kernel_modification/ioctl.c: a user request is allocated, its buffer mapped and its metadata
-- brought along.
use nvme_ioctl.Prelude.{
  ℕ, ◌+◌, Bool, true, false, not, ◌&&◌, Option, none, some, ℤ, pos, is_zero, is_neg, einval, efault,
  enomem, ◌==◌, if◌then◌else◌,
}
use nvme_ioctl.Ioctl.Permission.{nvme_to_user_ptr}
use nvme_ioctl.Ioctl.{CmdFlags, World, Req, Env, free_request, unmap_user, free_buffer}

-- What nvme_map_user_request() hands back: the code, whether the request has a bio, and whether
-- `*metap` has a metadata buffer.
pub record Mapping : Type 0 where
  pub ret : ℤ
  pub has_bio : Bool
  pub has_meta : Bool
  pub world : World

module _ (env : Env) where
  -- nvme_add_user_metadata(): none, or the error.
  unfoldable pub nvme_add_user_metadata : Req → ℕ → ℕ → World → Option ℤ × World
  nvme_add_user_metadata req ubuf len w =
      let held = record w { buffers = w.buffers + 1 } in
      if not (env.kmalloc w len)
      then (some enomem, w)
      else if req.write && env.meta_in_faults held ubuf len
      then (some efault, free_buffer held)
      else elim (env.integrity_alloc held) [
        | some e ↦ (some e, free_buffer held)
        | none ↦
            if not (env.integrity_add held len == len)
            then (some enomem, free_buffer held)
            else (none, held)
      ]

  -- nvme_finish_user_metadata(); `has_meta` says that `meta` is a buffer and no NULL, which
  -- kfree() lets pass.
  unfoldable pub nvme_finish_user_metadata : Req → Bool → ℕ → ℕ → ℤ → World → ℤ × World
  nvme_finish_user_metadata req has_meta ubuf len ret w =
      let faults = is_zero ret && not req.write && env.meta_out_faults w ubuf len in
      (if faults then efault else ret, if has_meta then free_buffer w else w)

  -- nvme_alloc_user_request(): the request, or the error.
  unfoldable pub nvme_alloc_user_request : Req → World → Option ℤ × World
  nvme_alloc_user_request req w = elim (env.alloc w req) [
    | some e ↦ (some e, w)
    | none ↦ (none, record w { requests = w.requests + 1 })
  ]

  -- The label out.
  unfoldable pub give_up : ℤ → World → Mapping
  give_up ret w = record { ret = ret; has_bio = false; has_meta = false; world = free_request w }

  -- The part behind a mapping that has returned `ret`.
  unfoldable pub after_map : Req → ℕ → ℕ → ℤ → Bool → World → Mapping
  after_map req meta_buffer meta_len ret has_bio w =
      let mapped = if has_bio then record w { mappings = w.mappings + 1 } else w in
      let with_meta = req.has_ns && not (meta_buffer == 0) && not (meta_len == 0) in
      if not (is_zero ret)
      then give_up ret w
      else if not with_meta
      then record { ret = pos 0; has_bio = has_bio; has_meta = false; world = mapped }
      else let (failed, w') = nvme_add_user_metadata req meta_buffer meta_len mapped in
        elim failed [
          | none ↦ record { ret = pos 0; has_bio = has_bio; has_meta = true; world = w' }
          | some e ↦ give_up e (if has_bio then unmap_user w' else w')
        ]

  -- nvme_map_user_request(); `fixed` says that an io_uring command has IORING_URING_CMD_FIXED.
  unfoldable pub nvme_map_user_request : Req → ℕ → ℕ → ℕ → ℕ → Bool → CmdFlags → World → Mapping
  nvme_map_user_request req ubuffer bufflen meta_buffer meta_len fixed flags w =
      let imported = env.import_fixed w ubuffer bufflen in
      let (ret_iov, bio_iov) = env.map_iov w req in
      let (ret_io, bio_io) = env.map_io w req (nvme_to_user_ptr env ubuffer) bufflen flags.vec in
      if fixed
      then if flags.vec
        then record { ret = einval; has_bio = false; has_meta = false; world = w }
        else if is_neg imported
        then give_up imported w
        else after_map req meta_buffer meta_len ret_iov bio_iov w
      else after_map req meta_buffer meta_len ret_io bio_io w
