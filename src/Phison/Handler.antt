-- ===== src/Phison/Handler.antt =====
-- phison_version/nvme_transfer/nvme-ioctl.cpp: nvme_operation_handler(), with asyncFeat 1 and
-- posixMemalignFeat 0. A thread runs its command where std::async() starts it. Nothing is returned
-- where an assertion fails, or where the code reads behind the end of `data_pointers`.
use nvme_ioctl.Prelude.{
  ℕ, zero, suc, ◌+◌, ◌-◌, ◌*◌, ◌/◌, ◌%◌, ◌^◌, Bool, true, not, ◌&&◌, Option, none, some, List, [],
  ◌∷◌, ℤ, is_zero, bit_and, ltb, leb, ◌==◌, if◌then◌else◌, u32, u64,
}
use mathlib.Core.Option
use nvme_ioctl.Ioctl.{UserIo}
use nvme_ioctl.Transfer.{u16}
use nvme_ioctl.Transfer.Device.{Machine, Device}

abbrev pub chunk_size : ℕ
chunk_size = 4096

abbrev pub nvme_cmd_write : ℕ
nvme_cmd_write = 1

abbrev pub nvme_cmd_read : ℕ
nvme_cmd_read = 2

-- The struct of nvme_io(), as nvme_write() and nvme_read() have it filled.
unfoldable pub nvme_io : ℕ → ℕ → ℕ → ℕ → ℕ → UserIo
nvme_io opcode slba nblocks control addr = record {
  opcode = opcode;
  flags = 0;
  control = control;
  pract = not (bit_and control (2 ^ 13) == 0);
  nblocks = (nblocks + u16 - 1) % u16;
  metadata = 0;
  addr = addr;
  slba = slba;
  dsmgmt = 0;
  reftag = 0;
  apptag = 0;
  appmask = 0;
}

-- memcpy()
unfoldable pub copy : (ℕ → ℕ) → ℕ → ℕ → ℕ → (ℕ → ℕ)
copy mem to from n a = if leb to a && ltb a (to + n) then mem (from + (a - to)) else mem a

-- The `nblock` of a round, and the `size` behind it.
unfoldable pub next_chunk : ℕ → ℕ × ℕ
next_chunk size =
    if ltb chunk_size (size / 512) then (chunk_size, size - chunk_size * 512) else (size / 512, 0)

-- The buffers from the i-th mmap() on, which says where they are.
unfoldable pub map_buffers : (ℕ → Option ℕ) → ℕ → ℕ → Option (List ℕ)
map_buffers mmap i zero = some []
map_buffers mmap i (suc n) = elim (mmap i) [
  | none ↦ none
  | some b ↦ Option.map (λ bs. b ∷ bs) (map_buffers mmap (i + 1) n)
]

-- `int num_buffers`: the low word of the count, and none where its top bit is set.
unfoldable pub num_buffers : ℕ → ℕ
num_buffers size = let n = size / 512 / chunk_size % u32 in if ltb n (2 ^ 31) then n else 0

-- The last loop: the buffers go back to the start of `data` one by one.
unfoldable pub copy_back :
    {State : Type 0} → ℕ → ℕ → List ℕ → ℕ → Machine State → Option (Machine State)
copy_back op data_ptr [] backup_size m = some m
copy_back op data_ptr (b ∷ bs) backup_size m =
    let (nblock, left) = next_chunk backup_size in
    let m' = if op == 0 then record m { mem = copy m.mem data_ptr b (nblock * 512) } else m in
    let rest = copy_back op data_ptr bs left m' in if backup_size == 0 then none else rest

module _ (d : Device) where
  -- The command of a round: its result, and what it leaves.
  unfoldable pub command : ℕ → ℕ → ℕ → ℕ → ℕ → Machine d.State → Option (ℤ × Machine d.State)
  command op slba nblock data_ptr b m =
      let control = 2 ^ 14 in
      let filled = record m { mem = copy m.mem b data_ptr (nblock * 512) } in
      if op == 1
      then some (d.ioctl (nvme_io nvme_cmd_write slba nblock control b) filled)
      else if op == 0
      then some (d.ioctl (nvme_io nvme_cmd_read slba nblock control b) m)
      else none

  -- STEP2, on fuel: a round takes a byte or more. `buffers` are those from `pointer_idx` on; the
  -- answer says whether every result is 0.
  unfoldable pub submit_rounds :
      ℕ → ℕ → ℕ → ℕ → ℕ → List ℕ → Machine d.State → Option (Bool × Machine d.State)
  submit_rounds fuel op slba zero data_ptr buffers m = some (true, m)
  submit_rounds zero op slba (suc n) data_ptr buffers m = none
  submit_rounds (suc fuel) op slba (suc n) data_ptr [] m = none
  submit_rounds (suc fuel) op slba (suc n) data_ptr (b ∷ bs) m =
      let (nblock, left) = next_chunk (suc n) in
      elim (command op slba nblock data_ptr b m) [
        | none ↦ none
        | some (result, m') ↦
            Option.map (λ (r : Bool × Machine d.State). (is_zero result && r.0, r.1))
              (submit_rounds fuel op ((slba + nblock) % u64) left data_ptr bs m')
      ]

  -- nvme_operation_handler(): `opened` says whether open() has worked. Its result is 0.
  unfoldable pub nvme_operation_handler :
      (ℕ → Option ℕ) → Bool → ℕ → ℕ → ℕ → ℕ → Machine d.State → Option (Machine d.State)
  nvme_operation_handler mmap opened slba size op data_ptr m =
      elim (map_buffers mmap 0 (num_buffers size)) [
        | none ↦ none
        | some buffers ↦
            if not opened then none else elim (submit_rounds size op slba size data_ptr buffers m) [
              | none ↦ none
              | some (fine, m') ↦ if fine then copy_back op data_ptr buffers size m' else none
            ]
      ]
