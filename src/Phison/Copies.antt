-- ===== src/Phison/Copies.antt =====
-- phison_version/nvme_transfer/nvme-ioctl.cpp: what a write of whole chunks puts on the device.
use nvme_ioctl.Prelude.{
  ◌^◌, u32, u64, ℕ, zero, suc, ◌+◌, ◌-◌, ◌*◌, ◌/◌, ◌%◌, ◌≡◌, refl, sym, ◌∙◌, ap, ◌≤◌, ◌<◌, true,
  false, Option, some, List, [], ◌∷◌, All, length, arith, pos, is_neg, ltb, ◌⊎◌, inl, inr,
  Bool-cases,
}
use nvme_ioctl.Ioctl.{UserIo}
use nvme_ioctl.Transfer.{get_opcode}
use nvme_ioctl.Transfer.Device.{Machine, Device, Behaves}
use nvme_ioctl.Phison.Handler.{
  nvme_io, copy, next_chunk, num_buffers, map_buffers, copy_back, command, submit_rounds,
  nvme_operation_handler,
}

-- A chunk's bytes.
abbrev pub chunk : ℕ
chunk = 2097152

-- A buffer that does not overlap the first chunk of the data.
abbrev pub Away : ℕ → ℕ → Type 0
Away data_ptr b = (b + chunk ≤ data_ptr) ⊎ (data_ptr + chunk ≤ b)

next_chunk-whole : (k : ℕ) → next_chunk (suc k * chunk) ≡ (4096, k * chunk)
unfolding next_chunk
next_chunk-whole k = elim (Bool-cases (ltb 4096 (suc k * chunk / 512))) [
  | inl h ↦ ground (arith, (let left : suc k * chunk - 2097152 ≡ k * chunk = omega arith in left))
  | inr h ↦
      let none_left : k * chunk ≡ 0 = ground arith in
      let full : suc k * chunk / 512 ≡ 4096 = omega (arith, none_left) in
      ground (arith, h, none_left, full)
]

-- A write gives nothing back to the data.
copy_back-write :
    {State : Type 0} (k data_ptr : ℕ) (bs : List ℕ) (m : Machine State)
    → length bs ≡ k
    → copy_back 1 data_ptr bs (k * chunk) m ≡ some m
unfolding copy_back
copy_back-write k data_ptr [] m l = refl
copy_back-write zero data_ptr (b ∷ bs) m l = absurd (omega arith)
copy_back-write (suc k) data_ptr (b ∷ bs) m l =
    ground (arith, next_chunk-whole k, copy_back-write k data_ptr bs m (omega (arith, l)))

-- mmap() works, away from the data.
abbrev pub Grants : (ℕ → Option ℕ) → ℕ → Type 0
Grants mmap data_ptr = (i : ℕ) → (b : ℕ) × ((mmap i ≡ some b) × Away data_ptr b)

granted :
    (mmap : ℕ → Option ℕ) (data_ptr i n : ℕ)
    → Grants mmap data_ptr
    → (bs : List ℕ) × ((map_buffers mmap i n ≡ some bs)
        × ((length bs ≡ n) × All (Away data_ptr) bs))
unfolding map_buffers
granted mmap data_ptr i zero g = ([], (refl, (refl, tt)))
granted mmap data_ptr i (suc n) g =
    let b = g i in
    let rest = granted mmap data_ptr (i + 1) n g in
    (
      b.0 ∷ rest.0,
      (ground (arith, b.1.0, rest.1.0), (omega (arith, rest.1.1.0), (b.1.1, rest.1.1.1))),
    )

module _ (d : Device) (behaves : Behaves d)
    (ok : (io : UserIo) (m : Machine d.State) → (d.ioctl io m).0 ≡ pos 0) (data_ptr : ℕ) where
  -- One command of a write.
  wrote : ℕ → ℕ → Machine d.State → Machine d.State
  wrote slba b m =
      (d.ioctl (nvme_io 1 slba 4096 16384 b) (record m { mem = copy m.mem b data_ptr chunk })).1

  wrote_mem :
      (slba b : ℕ) (m : Machine d.State) (i : ℕ)
      → Away data_ptr b
      → i < chunk
      → (wrote slba b m).mem (data_ptr + i) ≡ m.mem (data_ptr + i)
  unfolding wrote nvme_io copy get_opcode
  wrote_mem slba b m i away p =
      let m' : Machine d.State = record m { mem = copy m.mem b data_ptr chunk } in
      behaves.write_mem (nvme_io 1 slba 4096 16384 b) m' (data_ptr + i) refl
      ∙ elim away [ inl h ↦ ground arith | inr h ↦ ground arith ]

  wrote_disk :
      (slba b : ℕ) (m : Machine d.State) (i : ℕ)
      → i < chunk
      → d.byte (wrote slba b m).disk (slba * 512 + i) ≡ m.mem (data_ptr + i)
  unfolding wrote nvme_io copy get_opcode
  wrote_disk slba b m i p =
      let m' : Machine d.State = record m { mem = copy m.mem b data_ptr chunk } in
      let io = nvme_io 1 slba 4096 16384 b in
      let fine : is_neg (d.ioctl io m').0 ≡ false = ap is_neg (ok io m') in
      let from : b + (slba * 512 + i - slba * 512) - b ≡ i = omega arith in
      behaves.write_disk io m' (slba * 512 + i) refl fine
      ∙ ground (arith, ap (λ x. m.mem (data_ptr + x)) from, from)

  wrote_below :
      (slba b : ℕ) (m : Machine d.State) (j : ℕ)
      → j < slba * 512
      → d.byte (wrote slba b m).disk j ≡ d.byte m.disk j
  unfolding wrote nvme_io copy get_opcode
  wrote_below slba b m j p =
      let m' : Machine d.State = record m { mem = copy m.mem b data_ptr chunk } in
      let io = nvme_io 1 slba 4096 16384 b in
      let fine : is_neg (d.ioctl io m').0 ≡ false = ap is_neg (ok io m') in
      behaves.write_disk io m' j refl fine ∙ ground arith

  -- A round of the loop for a full chunk.
  write_round :
      (fuel slba size left b : ℕ) (bs : List ℕ) (m r : Machine d.State)
      → 0 < size
      → next_chunk size ≡ (4096, left)
      → slba + 4096 < u64
      → submit_rounds d fuel 1 (slba + 4096) left data_ptr bs (wrote slba b m) ≡ some (true, r)
      → submit_rounds d (suc fuel) 1 slba size data_ptr (b ∷ bs) m ≡ some (true, r)
  unfolding submit_rounds command wrote
  write_round fuel slba zero left b bs m r p e fits h = absurd (omega arith)
  write_round fuel slba (suc n) left b bs m r p e fits h =
      let m' : Machine d.State = record m { mem = copy m.mem b data_ptr (4096 * 512) } in
      let next : (slba + 4096) % u64 ≡ slba + 4096 = omega (arith, fits) in
      ground (arith, e, h, next, ok (nvme_io 1 slba 4096 16384 b) m')

  -- The outcome of `k` rounds.
  record Stored (slba k : ℕ) (m m' : Machine d.State) : Type 0 where
    data_lem : (i : ℕ) → i < chunk → m'.mem (data_ptr + i) ≡ m.mem (data_ptr + i)
    disk_lem :
        (i : ℕ) → i < k * chunk → d.byte m'.disk (slba * 512 + i) ≡ m.mem (data_ptr + i % chunk)
    below_lem : (j : ℕ) → j < slba * 512 → d.byte m'.disk j ≡ d.byte m.disk j

  Stored-more :
      (slba b k : ℕ) (m m' : Machine d.State)
      → Away data_ptr b
      → Stored (slba + 4096) k (wrote slba b m) m'
      → Stored slba (suc k) m m'
  Stored-more slba b k m m' away s = record {
    data_lem = λ i p. s.data_lem i p ∙ wrote_mem slba b m i away p;
    disk_lem = λ i p. elim (Bool-cases (ltb i chunk)) [
      | inl h ↦
          let small : i < chunk = ground (arith, h) in
          let same : i % chunk ≡ i = omega (arith, small) in
          s.below_lem (slba * 512 + i) (omega (arith, small))
          ∙ (wrote_disk slba b m i small ∙ ap (λ x. m.mem (data_ptr + x)) (sym same))
      | inr h ↦
          let big : chunk ≤ i = ground (arith, h) in
          let at : (slba + 4096) * 512 + (i - chunk) ≡ slba * 512 + i = omega (arith, big) in
          let same : (i - chunk) % chunk ≡ i % chunk = omega (arith, big) in
          ap (d.byte m'.disk) (sym at)
          ∙ (s.disk_lem (i - chunk) (omega (arith, big, p))
              ∙ (wrote_mem slba b m ((i - chunk) % chunk) away (omega arith)
                  ∙ ap (λ x. m.mem (data_ptr + x)) same))
    ];
    below_lem = λ j p. s.below_lem j (omega (arith, p)) ∙ wrote_below slba b m j p;
  }

  write_rounds :
      (k fuel slba : ℕ) (bs : List ℕ) (m : Machine d.State)
      → k * chunk ≤ fuel
      → slba + k * 4096 < u64
      → length bs ≡ k
      → All (Away data_ptr) bs
      → (m' : Machine d.State) × ((submit_rounds d fuel 1 slba (k * chunk) data_ptr bs m
            ≡ some (true, m'))
          × Stored slba k m m')
  unfolding submit_rounds
  write_rounds zero fuel slba bs m f fits l a = (
    m,
    (
      refl,
      record {
        data_lem = λ i p. refl;
        disk_lem = λ i p. absurd (omega (arith, p));
        below_lem = λ j p. refl;
      },
    ),
  )
  write_rounds (suc k) fuel slba [] m f fits l a = absurd (omega (arith, l))
  write_rounds (suc k) zero slba (b ∷ bs) m f fits l a = absurd (omega (arith, f))
  write_rounds (suc k) (suc fuel) slba (b ∷ bs) m f fits l a =
      let rest =
        write_rounds k fuel (slba + 4096) bs (wrote slba b m) (omega (arith, f))
          (omega (arith, fits)) (omega (arith, l)) a.1 in
      (
        rest.0,
        (
          write_round fuel slba (suc k * chunk) (k * chunk) b bs m rest.0 (omega arith)
              (next_chunk-whole k) (omega (arith, fits)) rest.1.0,
          Stored-more slba b k m rest.0 a.0 rest.1.1,
        ),
      )

  -- A write of `k` chunks of 2 MiB, fewer than 2^31, to blocks below 2^64, where the device works and
  -- accepts every command, and open() and mmap() work: nvme_operation_handler() comes back, and every
  -- chunk on the device is a copy of the first chunk of the data.
  pub nvme_operation_handler-write :
      (mmap : ℕ → Option ℕ) (k slba : ℕ) (m : Machine d.State)
      → k < 2 ^ 31
      → slba + k * 4096 < u64
      → Grants mmap data_ptr
      → (m' : Machine d.State) × ((nvme_operation_handler d mmap true slba (k * chunk) 1 data_ptr m
            ≡ some m')
          × ((i : ℕ)
              → i < k * chunk
              → d.byte m'.disk (slba * 512 + i) ≡ m.mem (data_ptr + i % chunk)))
  unfolding nvme_operation_handler num_buffers
  nvme_operation_handler-write mmap k slba m few fits grants =
      let n = num_buffers (k * chunk) in
      let whole : k * chunk / 512 / 4096 ≡ k = omega arith in
      let word : k % u32 ≡ k = omega (arith, few) in
      let count : n ≡ k = ground (arith, whole, word, few) in
      let bs = granted mmap data_ptr 0 n grants in
      let l : length bs.0 ≡ k = omega (arith, bs.1.1.0, count) in
      let run = write_rounds k (k * chunk) slba bs.0 m (omega arith) fits l bs.1.1.1 in
      let done = copy_back-write k data_ptr bs.0 run.0 l in
      (run.0, (ground (arith, bs.1.0, run.1.0, done), run.1.1.disk_lem))
