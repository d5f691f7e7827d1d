-- ===== src/Transfer/Rounds.antt =====
-- my_version/nvme_transfer/include/submit_handler.h: submit_tests(), with the buffers that
-- allocate_buffer() has given it.
use nvme_ioctl.Prelude.{
  ℕ, zero, suc, ◌+◌, ◌*◌, ◌/◌, ◌%◌, ◌^◌, ◌≡◌, refl, ◌≤◌, ◌<◌, true, false, ◌&&◌, Option, none, some,
  List, arith, ltb, leb, ◌==◌, not, if◌then◌else◌, ◌⊎◌,
}
use mathlib.Core.List.{Permᴰ}
use nvme_ioctl.Ioctl.{UserIo}
use nvme_ioctl.Transfer.{huge_page_size}
use nvme_ioctl.Transfer.Device.{Machine, Device, Behaves, submit_test}
use nvme_ioctl.Transfer.Whole.{Accepts, submit_test-succeeds}

-- init_empty_buffer()
unfoldable pub init_empty_buffer : ℕ → ℕ → (ℕ → ℕ) → ℕ → ℕ
init_empty_buffer size buffer mem a = if leb buffer a && ltb a (buffer + size) then 0 else mem a

module _ (d : Device) (order_w order_r : List UserIo → List UserIo) where
  -- The loop over the rounds; `none` is the exit of an assertion.
  unfoldable pub test_rounds : ℕ → ℕ → ℕ → ℕ → ℕ → Machine d.State → Option (ℕ × Machine d.State)
  test_rounds zero write_buffer read_buffer file_bytes aligned m = some (0, m)
  test_rounds (suc n) write_buffer read_buffer file_bytes aligned m =
      let emptied = record m { mem = init_empty_buffer aligned read_buffer m.mem } in
      if not (aligned % huge_page_size == 0)
      then none
      else elim (submit_test d order_w order_r write_buffer read_buffer file_bytes 0 emptied) [
        | none ↦ none
        | some (ret, m') ↦ elim (ret == 0) [
          | true ↦ test_rounds n write_buffer read_buffer file_bytes aligned m'
          | false ↦ some (1, m')
        ]
      ]

  module _ (behaves : Behaves d) (ok : Accepts d)
      (perm_w : (ios : List UserIo) → Permᴰ ios (order_w ios))
      (perm_r : (ios : List UserIo) → Permᴰ ios (order_r ios)) where
    -- On a device that works and accepts every command, submit_tests() returns 0 for any number of
    -- rounds, for buffers of whole huge pages that do not overlap.
    pub test_rounds-succeeds :
        (rounds wb rb file_bytes aligned : ℕ) (m : Machine d.State)
        → file_bytes + 511 < 2 ^ 31
        → aligned % huge_page_size ≡ 0
        → (wb + (file_bytes + 511) / 512 * 512 ≤ rb) ⊎ (rb + (file_bytes + 511) / 512 * 512 ≤ wb)
        → (m' : Machine d.State) × (test_rounds rounds wb rb file_bytes aligned m ≡ some (0, m'))
    unfolding test_rounds
    test_rounds-succeeds zero wb rb file_bytes aligned m small whole apart = (m, refl)
    test_rounds-succeeds (suc n) wb rb file_bytes aligned m small whole apart =
        let emptied : Machine d.State = record m { mem = init_empty_buffer aligned rb m.mem } in
        let one =
          submit_test-succeeds d behaves ok order_w order_r perm_w perm_r wb rb file_bytes 0 emptied
            small apart in
        let rest = test_rounds-succeeds n wb rb file_bytes aligned one.0 small whole apart in
        (rest.0, ground (arith, whole, one.1.0, rest.1))
