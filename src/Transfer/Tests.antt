-- ===== src/Transfer/Tests.antt =====
-- Concrete runs of my_version/nvme_transfer: the theorems at work.
use nvme_ioctl.Prelude.{
  ℕ, ◌+◌, ◌-◌, ◌*◌, ◌<◌, ◌≡◌, refl, ap, is_neg, true, false, some, List, [], ◌∷◌, arith, ℤ, pos,
  ◌==◌, if◌then◌else◌, All, inl,
}
use mathlib.Core.List.{Permᴰ}
use mathlib.Core.List.Permᴰ
use nvme_ioctl.Ioctl.{Ns, UserIo}
use nvme_ioctl.Ioctl.Tests.{kernel, ctrl}
use nvme_ioctl.Transfer.{write, get_opcode, commands}
use nvme_ioctl.Transfer.Device.{Machine, Device, Behaves, on_disk, in_buffer, submit_test}
use nvme_ioctl.Transfer.Whole.{submit_test-succeeds}
use nvme_ioctl.Transfer.Kernel.{Taken, commands-Taken}

-- A device that keeps its bytes in a function.
abbrev pub plain_ioctl : UserIo → Machine (ℕ → ℕ) → ℤ × Machine (ℕ → ℕ)
plain_ioctl io m =
    if io.opcode == 1
    then (
      pos 0,
      record m {
        disk = λ k. if on_disk io k then m.mem (io.addr + (k - io.slba * 512)) else m.disk k;
      },
    )
    else if io.opcode == 2
    then (
      pos 0,
      record m {
        mem = λ a. if in_buffer io a then m.disk (io.slba * 512 + (a - io.addr)) else m.mem a;
      },
    )
    else (pos 0, m)

abbrev pub plain_device : Device
plain_device = record { State = ℕ → ℕ; byte = λ s k. s k; ioctl = plain_ioctl }

pub plain_device-Behaves : Behaves plain_device
unfolding get_opcode
plain_device-Behaves = record {
  write_disk = λ io m k h f. ground arith;
  write_mem = λ io m a h. ground arith;
  read_mem = λ io m a h f. ground arith;
  read_disk = λ io m k h. ground arith;
}

pub plain_device_accepts : (io : UserIo) (m : Machine (ℕ → ℕ)) → (plain_device.ioctl io m).0 ≡ pos 0
plain_device_accepts io m = ground arith

-- The second thread before the first.
abbrev swap_two : List UserIo → List UserIo
swap_two (x ∷ y ∷ l) = y ∷ x ∷ l
swap_two (x ∷ []) = x ∷ []
swap_two [] = []

swap_two-perm : (ios : List UserIo) → Permᴰ ios (swap_two ios)
swap_two-perm (x ∷ y ∷ l) = Permᴰ.swap refl refl
swap_two-perm (x ∷ []) = Permᴰ.refl (x ∷ [])
swap_two-perm [] = Permᴰ.nil

abbrev same_order : List UserIo → List UserIo
same_order ios = ios

-- A memory that holds its own addresses, and an empty device.
abbrev fresh : Machine (ℕ → ℕ)
fresh = record { disk = λ k. 0; mem = λ a. a }

submit_test-succeeds_example :
    (m' : Machine (ℕ → ℕ)) × ((submit_test plain_device swap_two same_order 4096 8192 700 3 fresh
        ≡ some (0, m'))
      × ((i : ℕ) → i < 700 → plain_device.byte m'.disk (3 * 512 + i) ≡ fresh.mem (4096 + i)))
submit_test-succeeds_example =
    submit_test-succeeds plain_device plain_device-Behaves
      (λ io m. ap is_neg (plain_device_accepts io m)) swap_two same_order swap_two-perm
      (λ ios. Permᴰ.refl ios) 4096 8192 700 3 fresh (omega arith) (inl (omega arith))

-- A namespace without metadata.
abbrev plain_ns : Ns
plain_ns = record {
  ctrl = ctrl;
  ns_id = 1;
  queue = 3;
  lba_shift = 9;
  ms = 0;
  ext_lbas = false;
  poll = true;
}

-- Two commands: 4096 blocks, and four more.
commands-Taken_example : All (Taken (kernel false) plain_ns) (commands write 4100 0 8192)
commands-Taken_example =
    commands-Taken (kernel false) plain_ns (record { shift_lem = refl; ms_lem = refl }) write 4100 0
      8192
