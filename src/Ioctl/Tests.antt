-- ===== src/Ioctl/Tests.antt =====
-- Concrete calls of kernel_modification/ioctl.c: the theorems at work.
use nvme_ioctl.Prelude.{◌≡◌, ◌↔◌, refl, Bool, true, false, none, some, [], arith, pos, einval}
use nvme_ioctl.Ioctl.{Ctrl, Ns, PassthruCmd, UserIo, rw_cmd, World, Req, Env, ctrl_cns, Effects}
use nvme_ioctl.Ioctl.Permission.{nvme_cmd_allowed, nvme_validate_passthru_nsid, nvme_to_user_ptr}
use nvme_ioctl.Ioctl.Submit.{
  no_flags, command_of, nvme_submit_user_cmd, nvme_user_cmd64, plan_io, IoPlan,
}
use nvme_ioctl.Ioctl.Uring.{IssueFlags, UringCmd, Pending, nvme_uring_cmd_io, complete}
use nvme_ioctl.Ioctl.Dispatch.{admin_cmd, Arg, Services, is_ctrl_ioctl, head_ioctl_with}
use nvme_ioctl.Ioctl.Access.{Permitted, nvme_cmd_allowed_iff}
use nvme_ioctl.Ioctl.Holding.{SameHeld, Errors, nvme_submit_user_cmd-SameHeld}
use nvme_ioctl.Ioctl.Locks.{SameLocks, Sends, nvme_user_cmd64-Sends}
use nvme_ioctl.Ioctl.Entry.{SentUnder, head_ioctl_with-SentUnder}
use nvme_ioctl.Ioctl.Async.{
  MapsBio, OwnCodes, Queued, nvme_uring_cmd_io-Queued, complete-SameHeld, nvme_uring_cmd_io-leaks,
}
use nvme_ioctl.BlkMap.Tests.{box, two_pages, nothing}
use nvme_ioctl.Ioctl.Bridge.{with_blk_map, with_blk_map-MapsBio}
use nvme_ioctl.Ioctl.AdminMeta.{NoBuffer, nvme_uring_cmd_io-NoBuffer}
use nvme_ioctl.Ioctl.Plan.{Planned, plan_io-Planned}

abbrev quiet : World
quiet = record {
  requests = 0;
  mappings = 0;
  buffers = 0;
  srcu = 0;
  rwsem = 0;
  ctrl_refs = 0;
  ns_refs = 0;
  issued = [];
  stored = [];
  ended = [];
  resets = 0;
  scans = 0;
}

abbrev no_effects : Effects
no_effects = record { csupp = true; lbcc = false; uuid_sel = false; scope = 0; rest = 0 }

-- A kernel that grants memory and faults nowhere; every command succeeds with the result 5.
abbrev pub kernel : Bool → Env
kernel is_admin = record {
  admin = is_admin;
  compat = false;
  vendor_start = 0x80;
  fabrics_command = 0x7f;
  admin_identify = 6;
  cns = λ _. ctrl_cns;
  is_write = λ _. false;
  effects = λ _ _. no_effects;
  pi_tuple_size = 8;
  jiffies = λ ms. ms;
  alloc = λ _ _. none;
  import_fixed = λ _ _ _. pos 0;
  map_iov = λ _ _. (pos 0, true);
  map_io = λ _ _ _ _ _. (pos 0, true);
  kmalloc = λ _ _. true;
  meta_in_faults = λ _ _ _. false;
  meta_out_faults = λ _ _ _. false;
  integrity_alloc = λ _. none;
  integrity_add = λ _ len. len;
  execute = λ _ _ _. (pos 0, 5, no_effects);
  result_faults = λ _. false;
}

kernel-Errors : (is_admin : Bool) → Errors (kernel is_admin)
kernel-Errors is_admin = record {
  alloc_negative = λ w r e h. ground arith;
  integrity_negative = λ w e h. ground arith;
}

kernel-MapsBio : (is_admin : Bool) → MapsBio (kernel is_admin)
kernel-MapsBio is_admin = record { iov_lem = λ w r. refl; io_lem = λ w r a b c h. refl }

kernel-OwnCodes : OwnCodes (kernel false)
kernel-OwnCodes = record {
  alloc_lem = λ w r e h. ground arith;
  integrity_lem = λ w e h. ground arith;
  import_lem = λ w a n. ground arith;
  iov_lem = λ w r. ground arith;
  io_lem = λ w r a n vec. ground arith;
}

abbrev services : Services
services = record {
  sed_ioctl = λ _. pos 0;
  reset_ctrl = λ _. pos 0;
  reset_subsystem = λ _. pos 0;
  bio_poll = λ _. pos 1;
  cookie_bio = true;
}

abbrev pub ctrl : Ctrl
ctrl = record { admin_q = 0 }

abbrev ns : Ns
ns = record {
  ctrl = ctrl;
  ns_id = 1;
  queue = 3;
  lba_shift = 9;
  ms = 8;
  ext_lbas = false;
  poll = true;
}

-- A read of a page with metadata.
abbrev read_cmd : PassthruCmd
read_cmd = record {
  opcode = 2;
  flags = 0;
  nsid = 1;
  cdw2 = 0;
  cdw3 = 0;
  metadata = 4096;
  addr = 8192;
  metadata_len = 64;
  data_len = 4096;
  cdw10 = 0;
  cdw11 = 0;
  cdw12 = 7;
  cdw13 = 0;
  cdw14 = 0;
  cdw15 = 0;
  timeout_ms = 0;
}

abbrev read_io : UserIo
read_io = record {
  opcode = 2;
  flags = 0;
  control = 0;
  pract = false;
  nblocks = 7;
  metadata = 4096;
  addr = 8192;
  slba = 0;
  dsmgmt = 0;
  reftag = 0;
  apptag = 0;
  appmask = 0;
}

abbrev arg : Arg
arg = record { cmd = some read_cmd; io = some read_io }

abbrev req : Req
req = record { queue = 3; has_ns = true; write = false; polled = true; nowait = false }

abbrev big_sqe : IssueFlags
big_sqe = record { sqe128 = true; cqe32 = true; nonblock = false; iopoll = true }

abbrev uring_read : Bool → UringCmd
uring_read is_fixed = record { cmd = read_cmd; fixed = is_fixed; writable = false }

nvme_cmd_allowed_iff_example :
    (nvme_cmd_allowed (kernel false) (some ns) (command_of read_cmd) no_flags false ≡ true)
    ↔ Permitted (kernel false) (command_of read_cmd) no_flags false (some ns)
nvme_cmd_allowed_iff_example =
    nvme_cmd_allowed_iff (kernel false) (some ns) (command_of read_cmd) no_flags false

nvme_submit_user_cmd-SameHeld_example :
    SameHeld quiet
      (nvme_submit_user_cmd
        (kernel false)
        3
        true
        (command_of read_cmd)
        8192
        4096
        4096
        64
        no_flags
        quiet).2
nvme_submit_user_cmd-SameHeld_example =
    nvme_submit_user_cmd-SameHeld (kernel false) (kernel-Errors false) 3 true (command_of read_cmd)
      8192 4096 4096 64 no_flags quiet

nvme_user_cmd64-Sends_example :
    let w' = (nvme_user_cmd64 (kernel false) ctrl (some ns) arg.cmd no_flags false quiet).1 in
    SameLocks quiet w' × Sends (kernel false) ctrl (some ns) arg.cmd no_flags false quiet w'
nvme_user_cmd64-Sends_example =
    nvme_user_cmd64-Sends (kernel false) ctrl (some ns) arg.cmd no_flags false quiet

head_ioctl_with-SentUnder_example :
    SentUnder 0 quiet
      (head_ioctl_with (kernel true) services (some ns) no_flags false admin_cmd arg quiet).1
unfolding is_ctrl_ioctl
head_ioctl_with-SentUnder_example =
    head_ioctl_with-SentUnder (kernel true) services (some ns) no_flags false admin_cmd arg quiet
      refl

nvme_uring_cmd_io-Queued_example :
    Queued quiet
      (nvme_uring_cmd_io (kernel false) ctrl (some ns) (uring_read false) big_sqe true quiet)
nvme_uring_cmd_io-Queued_example =
    nvme_uring_cmd_io-Queued (kernel false) (kernel-Errors false) (kernel-MapsBio false)
      kernel-OwnCodes ctrl (some ns) (uring_read false) big_sqe true quiet refl

-- A command under way with a bio and metadata.
abbrev under_way : Pending
under_way = record {
  req = req;
  has_bio = true;
  has_meta = true;
  meta_len = 64;
  meta_buffer = 4096;
  polls = true;
}

complete-SameHeld_example :
    SameHeld quiet
      (complete
        (kernel false)
        under_way
        (record { cancelled = false; status = pos 0; result = 5 })
        (record quiet { requests = 1; mappings = 1; buffers = 1 })).1
complete-SameHeld_example =
    complete-SameHeld (kernel false) (kernel-Errors false) (kernel-MapsBio false) quiet
      (record quiet { requests = 1; mappings = 1; buffers = 1 }) under_way
      (record { cancelled = false; status = pos 0; result = 5 })
      (record { requests_lem = refl; mappings_lem = refl; buffers_lem = refl }, refl, refl)

nvme_uring_cmd_io-leaks_example :
    nvme_uring_cmd_io (kernel false) ctrl (some ns) (uring_read true) big_sqe true quiet
    ≡ (einval, none, record quiet { requests = 1 })
unfolding nvme_validate_passthru_nsid nvme_cmd_allowed command_of
nvme_uring_cmd_io-leaks_example =
    nvme_uring_cmd_io-leaks (kernel false) ctrl (some ns) (uring_read true) big_sqe quiet
      (refl, refl) refl (λ r. refl) (refl, ground arith, ground arith)

-- Eight blocks of 512 bytes with eight bytes of metadata each.
abbrev eight_blocks : IoPlan
eight_blocks = record {
  command = rw_cmd (record {
    opcode = 2;
    flags = 0;
    nsid = 1;
    slba = 0;
    length = 7;
    control = 0;
    dsmgmt = 0;
    reftag = 0;
    apptag = 0;
    appmask = 0;
  });
  length = 4096;
  meta_len = 64;
  metadata = 4096;
}

plan_io-Planned_example : Planned (kernel false) ns read_io eight_blocks
unfolding plan_io nvme_to_user_ptr
plan_io-Planned_example = plan_io-Planned (kernel false) ns read_io eight_blocks (omega arith) refl

with_blk_map-MapsBio_example : MapsBio (with_blk_map box two_pages nothing (kernel false))
with_blk_map-MapsBio_example = with_blk_map-MapsBio box two_pages nothing (kernel false)

nvme_uring_cmd_io-NoBuffer_example :
    NoBuffer 64 (nvme_uring_cmd_io (kernel true) ctrl none (uring_read false) big_sqe false quiet)
nvme_uring_cmd_io-NoBuffer_example =
    nvme_uring_cmd_io-NoBuffer (kernel true) ctrl (uring_read false) big_sqe false quiet
