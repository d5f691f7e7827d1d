-- ===== src/Phison/Ranges.antt =====
-- phison_version/nvme_transfer/nvme-ioctl.cpp: sizes that are not whole chunks.
use nvme_ioctl.Prelude.{ℕ, ◌/◌, ◌%◌, ◌≡◌, ◌≢◌, ◌<◌, ◌⊎◌}
use nvme_ioctl.Transfer.Device.{Device}

-- A size that is not a number of whole chunks.
abbrev pub Ragged : ℕ → Type 0
Ragged size = (0 < size) × ((size / 512 % 4096 ≢ 0) ⊎ (size / 512 ≡ 0))
