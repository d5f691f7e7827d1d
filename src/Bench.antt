-- ===== src/Bench.antt =====
-- my_version/ioctl_thread/ioctl_thread_pool.cpp and my_version/ioctl/ioctl_single_thread.cpp: the
-- benchmarks, which cut a buffer into commands of 896 blocks.
pub mod Split
pub mod Report
mod Tests
use nvme_ioctl.Prelude.{
  ℕ, zero, suc, ◌+◌, ◌-◌, ◌*◌, ◌/◌, ◌%◌, Bool, false, List, [], ◌∷◌, ℤ, is_neg, u64, ltb, ◌==◌,
  if◌then◌else◌,
}
use nvme_ioctl.Ioctl.{UserIo}
use nvme_ioctl.Transfer.{Opcode, get_opcode, u16, nvme_sector_size}

abbrev pub max_block_num : ℕ
max_block_num = 896

-- On `size_t`, which wraps.
unfoldable pub div_round_up : ℕ → ℕ → ℕ
div_round_up numerator denominator = (numerator + denominator - 1) % u64 / denominator

unfoldable pub get_operate_block : ℕ → ℕ
get_operate_block remain_blocks =
    if ltb remain_blocks max_block_num then remain_blocks else max_block_num

-- The struct that _nvme_io() of the thread pool hands to the ioctl for its parameters, and that
-- nvme_io() of the single thread fills.
unfoldable pub user_io : ℕ → ℕ → ℕ → ℕ → UserIo
user_io opcode nblocks addr slba = record {
  opcode = opcode;
  flags = 0;
  control = 0;
  pract = false;
  nblocks = nblocks;
  metadata = 0;
  addr = addr;
  slba = slba;
  dsmgmt = 0;
  reftag = 0;
  apptag = 0;
  appmask = 0;
}

-- The loop of nvme_io(), on fuel: what it fills in, round by round. Every round takes a block or
-- more, so as much fuel as blocks is enough.
unfoldable pub split : ℕ → ℕ → ℕ → ℕ → ℕ → ℕ → List UserIo
split zero opcode buffer remain offset_bytes lba = []
split (suc fuel) opcode buffer zero offset_bytes lba = []
split (suc fuel) opcode buffer (suc r) offset_bytes lba =
    let n = get_operate_block (suc r) in
    user_io opcode ((n + u16 - 1) % u16) (buffer + offset_bytes) lba
    ∷ split fuel opcode buffer (suc r - n) (offset_bytes + n * nvme_sector_size) (lba + n)

-- nvme_io() up to the calls: the length of the arrays, and the commands.
unfoldable pub thread_nums : ℕ → ℕ
thread_nums buffer_size = div_round_up buffer_size (max_block_num * nvme_sector_size)

unfoldable pub commands : Opcode → ℕ → ℕ → List UserIo
commands io_type buffer buffer_size =
    let blocks = div_round_up buffer_size nvme_sector_size in
    split blocks (get_opcode io_type) buffer blocks 0 0

-- `error` after the loop over the results, which starts with it.
unfoldable pub error_after : Bool → List ℤ → Bool
error_after error [] = error
error_after error (result ∷ results) = error_after (is_neg result) results

module _ {State : Type 0} (ioctl : UserIo → State → ℤ × State) where
  -- The commands one after another: their results.
  unfoldable pub run : List UserIo → State → List ℤ × State
  run [] s = ([], s)
  run (io ∷ ios) s =
      let (result, s') = ioctl io s in let (results, s'') = run ios s' in (result ∷ results, s'')

  -- nvme_io() of the single thread, and of the pool where the threads run in the order of their
  -- creation: whether it ends the program with its message, and the state.
  unfoldable pub nvme_io : Opcode → ℕ → ℕ → State → Bool × State
  nvme_io io_type buffer buffer_size s =
      let (results, s') = run (commands io_type buffer buffer_size) s in
      (error_after false results, s')
