-- ===== src/Ioctl.antt =====
-- kernel_modification/ioctl.c: the data of the NVMe passthrough interface, and the kernel around
-- it, which the functions of the file call.
pub mod Permission
pub mod Map
pub mod Submit
pub mod Uring
pub mod Dispatch
pub mod Holding
pub mod Access
pub mod Async
pub mod Plan
pub mod Bridge
pub mod AdminMeta
pub mod Locks
pub mod Entry
pub mod Tests
use nvme_ioctl.Prelude.{ℕ, ◌+◌, ◌-◌, Bool, Option, List, ℤ}

-- `struct nvme_ctrl` and `struct nvme_ns` as far as the file reads them. A queue is a number;
-- `poll` is QUEUE_FLAG_POLL of the namespace's queue, and `ext_lbas` is NVME_NS_EXT_LBAS.
pub record Ctrl : Type 0 where
  pub admin_q : ℕ

pub record Ns : Type 0 where
  pub ctrl : Ctrl
  pub ns_id : ℕ
  pub queue : ℕ
  pub lba_shift : ℕ
  pub ms : ℕ
  pub ext_lbas : Bool
  pub poll : Bool

-- `struct nvme_passthru_cmd`, which nvme_passthru_cmd64 and nvme_uring_cmd follow.
pub record PassthruCmd : Type 0 where
  pub opcode : ℕ
  pub flags : ℕ
  pub nsid : ℕ
  pub cdw2 : ℕ
  pub cdw3 : ℕ
  pub metadata : ℕ
  pub addr : ℕ
  pub metadata_len : ℕ
  pub data_len : ℕ
  pub cdw10 : ℕ
  pub cdw11 : ℕ
  pub cdw12 : ℕ
  pub cdw13 : ℕ
  pub cdw14 : ℕ
  pub cdw15 : ℕ
  pub timeout_ms : ℕ

-- `struct nvme_user_io`. `pract` is the bit NVME_RW_PRINFO_PRACT of `control`.
pub record UserIo : Type 0 where
  pub opcode : ℕ
  pub flags : ℕ
  pub control : ℕ
  pub pract : Bool
  pub nblocks : ℕ
  pub metadata : ℕ
  pub addr : ℕ
  pub slba : ℕ
  pub dsmgmt : ℕ
  pub reftag : ℕ
  pub apptag : ℕ
  pub appmask : ℕ

-- `struct nvme_command` as the file fills it: the member `common` or the member `rw`. What it
-- leaves zero is left out, and so is the byte order.
pub record Common : Type 0 where
  pub opcode : ℕ
  pub flags : ℕ
  pub nsid : ℕ
  pub cdw2 : ℕ
  pub cdw3 : ℕ
  pub cdw10 : ℕ
  pub cdw11 : ℕ
  pub cdw12 : ℕ
  pub cdw13 : ℕ
  pub cdw14 : ℕ
  pub cdw15 : ℕ

pub record Rw : Type 0 where
  pub opcode : ℕ
  pub flags : ℕ
  pub nsid : ℕ
  pub slba : ℕ
  pub length : ℕ
  pub control : ℕ
  pub dsmgmt : ℕ
  pub reftag : ℕ
  pub apptag : ℕ
  pub appmask : ℕ

pub data Command : Type 0 where
  common : Common → Command
  rw_cmd : Rw → Command

abbrev pub opcode_of : Command → ℕ
opcode_of (common c) = c.opcode
opcode_of (rw_cmd c) = c.opcode

-- The CNS field of an identify command, as far as the switch of nvme_cmd_allowed() tells.
pub data Cns : Type 0 where
  ns_cns cs_ns ns_cs_indep cs_ctrl ctrl_cns other_cns : Cns

-- The command effects as flag bits; `scope` and `rest` are the bits of NVME_CMD_EFFECTS_SCOPE_MASK
-- and the bits that the file does not name.
pub record Effects : Type 0 where
  pub csupp : Bool
  pub lbcc : Bool
  pub uuid_sel : Bool
  pub scope : ℕ
  pub rest : ℕ

-- The file's own flags NVME_IOCTL_VEC and NVME_IOCTL_PARTITION.
pub record CmdFlags : Type 0 where
  pub vec : Bool
  pub partition : Bool

-- A command as it went to a queue, with the SRCU read locks that were held.
pub record Issue : Type 0 where
  pub queue : ℕ
  pub command : Command
  pub srcu_held : ℕ

-- What the functions change: the requests, user mappings and metadata buffers that they hold; the
-- read locks and references; what went to the device, the results stored in user memory and the
-- calls of nvme_passthru_end(), resets and scans, the newest first.
pub record World : Type 0 where
  pub requests : ℕ
  pub mappings : ℕ
  pub buffers : ℕ
  pub srcu : ℕ
  pub rwsem : ℕ
  pub ctrl_refs : ℕ
  pub ns_refs : ℕ
  pub issued : List Issue
  pub stored : List ℕ
  pub ended : List Effects
  pub resets : ℕ
  pub scans : ℕ

-- A request to map: its queue, whether that queue has a namespace, and its direction and flags.
pub record Req : Type 0 where
  pub queue : ℕ
  pub has_ns : Bool
  pub write : Bool
  pub polled : Bool
  pub nowait : Bool

-- The rest of the kernel, which may answer differently as the world changes.
-- `admin` is capable(CAP_SYS_ADMIN) and `compat` in_compat_syscall(). `alloc` is
-- blk_mq_alloc_request(): none, or the error. `map_io` and `map_iov` are blk_rq_map_user_io() and
-- blk_rq_map_user_iov() of blk-map.c: the return code, and whether the request then has a bio.
-- `execute` is nvme_execute_passthru_rq(): status, result and effects.
pub record Env : Type 0 where
  pub admin : Bool
  pub compat : Bool
  pub vendor_start : ℕ
  pub fabrics_command : ℕ
  pub admin_identify : ℕ
  pub cns : Command → Cns
  pub is_write : Command → Bool
  pub effects : Ns → ℕ → Effects
  pub pi_tuple_size : ℕ
  pub jiffies : ℕ → ℕ
  pub alloc : World → Req → Option ℤ
  pub import_fixed : World → ℕ → ℕ → ℤ
  pub map_iov : World → Req → ℤ × Bool
  pub map_io : World → Req → ℕ → ℕ → Bool → ℤ × Bool
  pub kmalloc : World → ℕ → Bool
  pub meta_in_faults : World → ℕ → ℕ → Bool
  pub meta_out_faults : World → ℕ → ℕ → Bool
  pub integrity_alloc : World → Option ℤ
  pub integrity_add : World → ℕ → ℕ
  pub execute : World → Req → Command → ℤ × ℕ × Effects
  pub result_faults : World → Bool

-- blk_mq_free_request()
abbrev pub free_request : World → World
free_request w = record w { requests = w.requests - 1 }

-- blk_rq_unmap_user()
abbrev pub unmap_user : World → World
unmap_user w = record w { mappings = w.mappings - 1 }

-- kfree() of a metadata buffer
abbrev pub free_buffer : World → World
free_buffer w = record w { buffers = w.buffers - 1 }
