-- ===== src/Transfer/Device.antt =====
-- my_version/nvme_transfer/include/submit_handler.h: a test on a device.
use nvme_ioctl.Prelude.{
  ℕ, zero, suc, ◌+◌, ◌-◌, ◌*◌, ◌/◌, ◌≡◌, Bool, true, false, not, ◌&&◌, Option, List, [], ◌∷◌, ℤ,
  is_neg, ltb, leb, ◌==◌, if◌then◌else◌,
}
use mathlib.Core.Option
use nvme_ioctl.Ioctl.{UserIo}
use nvme_ioctl.Transfer.{nvme_sector_size, get_aligned_size, write, read, commands, get_opcode}

-- The device and the memory of the process. A byte has an address; a byte of the device is counted
-- from its first sector.
pub record Machine (State : Type 0) : Type 0 where
  pub disk : State
  pub mem : ℕ → ℕ

-- ioctl(fd, NVME_IOCTL_SUBMIT_IO, io), with a way to look at the device.
pub record Device : Type 1 where
  pub State : Type 0
  pub byte : State → ℕ → ℕ
  pub ioctl : UserIo → Machine State → ℤ × Machine State

-- A byte of the device, or an address of memory, that a command reaches.
abbrev pub on_disk : UserIo → ℕ → Bool
on_disk io k =
    leb (io.slba * nvme_sector_size) k
    && ltb k (io.slba * nvme_sector_size + (io.nblocks + 1) * nvme_sector_size)

abbrev pub in_buffer : UserIo → ℕ → Bool
in_buffer io a = leb io.addr a && ltb a (io.addr + (io.nblocks + 1) * nvme_sector_size)

-- What NVMe says of the two commands where they succeed: a write stores the buffer in its blocks,
-- a read fetches its blocks into the buffer, and neither changes anything else.
pub record Behaves (d : Device) : Type 0 where
  pub write_disk :
      (io : UserIo) (m : Machine d.State) (k : ℕ)
      → io.opcode ≡ get_opcode write
      → is_neg (d.ioctl io m).0 ≡ false
      → d.byte (d.ioctl io m).1.disk k ≡ (
          if on_disk io k
          then m.mem (io.addr + (k - io.slba * nvme_sector_size))
          else d.byte m.disk k)
  pub write_mem :
      (io : UserIo) (m : Machine d.State) (a : ℕ)
      → io.opcode ≡ get_opcode write
      → (d.ioctl io m).1.mem a ≡ m.mem a
  pub read_mem :
      (io : UserIo) (m : Machine d.State) (a : ℕ)
      → io.opcode ≡ get_opcode read
      → is_neg (d.ioctl io m).0 ≡ false
      → (d.ioctl io m).1.mem a ≡ (
          if in_buffer io a
          then d.byte m.disk (io.slba * nvme_sector_size + (a - io.addr))
          else m.mem a)
  pub read_disk :
      (io : UserIo) (m : Machine d.State) (k : ℕ)
      → io.opcode ≡ get_opcode read
      → d.byte (d.ioctl io m).1.disk k ≡ d.byte m.disk k

-- memcmp() == 0
unfoldable pub same_bytes : (ℕ → ℕ) → ℕ → ℕ → ℕ → Bool
same_bytes mem a b zero = true
same_bytes mem a b (suc n) = mem a == mem b && same_bytes mem (a + 1) (b + 1) n

module _ (d : Device) where
  -- The commands of one direction run, one after another in the order in which the threads get
  -- there; all of them run, and the answer says whether every submit_io() has returned 0.
  unfoldable pub run_all : List UserIo → Machine d.State → Bool × Machine d.State
  run_all [] m = (true, m)
  run_all (io ∷ ios) m =
      let (ret, m') = d.ioctl io m in
      let (fine, m'') = run_all ios m' in (not (is_neg ret) && fine, m'')

  -- submit_test() with ASYNC_IOCTL from where `nblocks` is known: `order_w` and `order_r` are the
  -- orders in which the commands of the two directions run.
  unfoldable pub transfer :
      (List UserIo → List UserIo)
      → (List UserIo → List UserIo)
      → ℕ
      → ℕ
      → ℕ
      → ℕ
      → ℕ
      → Machine d.State
      → ℕ × Machine d.State
  transfer order_w order_r write_buffer read_buffer file_bytes nblocks start_lba m =
      let (wrote, m₁) = run_all (order_w (commands write nblocks start_lba write_buffer)) m in
      let (fetched, m₂) = run_all (order_r (commands read nblocks start_lba read_buffer)) m₁ in
      if not wrote
      then (1, m₁)
      else if not fetched
      then (1, m₂)
      else if same_bytes m₂.mem write_buffer read_buffer file_bytes
      then (0, m₂)
      else (1, m₂)

  -- submit_test(). `none` is the exit of an assertion, or an overflow.
  unfoldable pub submit_test :
      (List UserIo → List UserIo)
      → (List UserIo → List UserIo)
      → ℕ
      → ℕ
      → ℕ
      → ℕ
      → Machine d.State
      → Option (ℕ × Machine d.State)
  submit_test order_w order_r write_buffer read_buffer file_bytes start_lba m =
      Option.map
        (λ aligned.
          transfer order_w order_r write_buffer read_buffer file_bytes (aligned / nvme_sector_size)
            start_lba m)
        (get_aligned_size nvme_sector_size file_bytes)
