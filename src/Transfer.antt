-- ===== src/Transfer.antt =====
-- my_version/nvme_transfer: the tool that writes a file to the device by NVME_IOCTL_SUBMIT_IO, reads
-- it back and compares. Values of type `int` are not negative here.
pub mod Device
pub mod Order
pub mod Runs
pub mod Whole
pub mod Rounds
pub mod Kernel
pub mod Tests
use nvme_ioctl.Prelude.{
  ℕ, zero, suc, ◌+◌, ◌-◌, ◌*◌, ◌/◌, ◌%◌, ◌^◌, Bool, true, false, not, ◌&&◌, Option, none, some,
  List, [], ◌∷◌, bit_and, ltb, ◌==◌, if◌then◌else◌,
}
use nvme_ioctl.Ioctl.{UserIo}

-- config.h
abbrev pub nvme_sector_size : ℕ
nvme_sector_size = 512

abbrev pub chunk_size : ℕ
chunk_size = 4096 * nvme_sector_size

abbrev pub huge_page_strategy : Bool
huge_page_strategy = true

abbrev pub huge_page_size : ℕ
huge_page_size = 2097152

abbrev pub u16 : ℕ
u16 = 2 ^ 16

-- get_aligned_size() of utils.h: `size & ~(alignment - 1)` clears digits. Nothing is returned where
-- the assertion ends the program, or where the sum overflows `int`.
unfoldable pub get_aligned_size : ℕ → ℕ → Option ℕ
get_aligned_size alignment size =
    let top = size + alignment - 1 in
    if not (bit_and alignment (alignment - 1) == 0)
    then none
    else if ltb top (2 ^ 31)
    then some (top - bit_and top (alignment - 1))
    else none

-- get_aligned_file_bytes() of allocator.h
unfoldable pub get_aligned_file_bytes : ℕ → Option ℕ
get_aligned_file_bytes file_bytes =
    if huge_page_strategy
    then get_aligned_size huge_page_size file_bytes
    else get_aligned_size nvme_sector_size file_bytes

-- `enum OPCODE` of nvme_ioctl.h
pub data Opcode : Type 0 where
  write read : Opcode

unfoldable pub get_opcode : Opcode → ℕ
get_opcode write = 1
get_opcode read = 2

-- The struct that submit_io() fills. `nblocks` arrives as an `unsigned short`.
unfoldable pub submit_io : ℕ → Opcode → ℕ → ℕ → UserIo
submit_io buffer io_type nblocks current_lba =
    let control = 2 ^ 14 in
    record {
      opcode = get_opcode io_type;
      flags = 0;
      control = control;
      pract = not (bit_and control (2 ^ 13) == 0);
      nblocks = (nblocks % u16 + u16 - 1) % u16;
      metadata = 0;
      addr = buffer;
      slba = current_lba;
      dsmgmt = 0;
      reftag = 0;
      apptag = 0;
      appmask = 0;
    }

-- The loops of submit_test(), which are alike, on fuel: the commands in the order of submission.
-- Every round takes a block or more, and `each` only shrinks.
unfoldable pub cut : ℕ → Opcode → ℕ → ℕ → ℕ → ℕ → List UserIo
cut zero io_type remain each lba buffer = []
cut (suc fuel) io_type zero each lba buffer = []
cut (suc fuel) io_type (suc r) each lba buffer =
    let n = if ltb (suc r) each then suc r else each in
    submit_io buffer io_type n lba
    ∷ cut fuel io_type (suc r - n) n (lba + n) (buffer + n * nvme_sector_size)

-- The commands of one direction for so many blocks.
unfoldable pub commands : Opcode → ℕ → ℕ → ℕ → List UserIo
commands io_type nblocks lba buffer =
    cut nblocks io_type nblocks (chunk_size / nvme_sector_size) lba buffer
