-- ===== src/Uio/Shape.antt =====
-- kernel_modification/iov_iter.c: what an iterator says of the addresses and sizes ahead of it.
use nvme_ioctl.Prelude.{
  ℕ, ◌+◌, ◌-◌, ◌%◌, Option, none, some, List, [], ◌∷◌, bit_or, min, u32, u64, page_size, sub64,
  pages_of, ltb, leb, ◌==◌, if◌then◌else◌,
}
use nvme_ioctl.Bio.{BioVec}
use nvme_ioctl.Uio.{Iovec, ubuf, iovec, kvec, bvec, discard, IovIter}

-- iov_iter_alignment_iovec(), from a segment on: `res` and `size` so far, `skip` of this segment.
unfoldable pub alignment_iovec : List Iovec → ℕ → ℕ → ℕ → ℕ
alignment_iovec [] skip size res = res
alignment_iovec (v ∷ r) skip size res =
    let len = sub64 v.len skip in
    let used = min len size in
    let res' = bit_or (bit_or res ((v.base + skip) % u64)) used in
    let over = alignment_iovec r 0 size res in
    let on = alignment_iovec r 0 (size - used) res' in
    if len == 0 then over else if size - used == 0 then res' else on

-- iov_iter_alignment_bvec(): `res` is an `unsigned`, and empty segments count.
unfoldable pub alignment_bvec : List BioVec → ℕ → ℕ → ℕ → ℕ
alignment_bvec [] skip size res = res
alignment_bvec (v ∷ r) skip size res =
    let used = min (sub64 v.len skip) size in
    let res' = bit_or (bit_or res (v.offset + skip)) used % u32 in
    let on = alignment_bvec r 0 (size - used) res' in if size - used == 0 then res' else on

unfoldable pub iov_iter_alignment : IovIter → ℕ
iov_iter_alignment i = elim i.source [
  | ubuf base ↦ if i.count == 0 then 0 else bit_or ((base + i.iov_offset) % u64) i.count
  | iovec _ a ↦ alignment_iovec a i.iov_offset i.count 0
  | kvec _ a ↦ alignment_iovec a i.iov_offset i.count 0
  | bvec _ a ↦ alignment_bvec a i.iov_offset i.count 0
  | discard ↦ 0
]

-- The loop of iov_iter_gap_alignment(): `v` is the end of the previous segment, 0 before the first.
unfoldable pub gap_alignment_from : List Iovec → ℕ → ℕ → ℕ → ℕ
gap_alignment_from [] size v res = res
gap_alignment_from (s ∷ r) size v res =
    let res' = if v == 0 then res else bit_or res (bit_or s.base v) in
    let over = gap_alignment_from r size v res in
    let on = gap_alignment_from r (size - s.len) ((s.base + s.len) % u64) res' in
    if s.len == 0 then over else if leb size s.len then res' else on

unfoldable pub iov_iter_gap_alignment : IovIter → ℕ
iov_iter_gap_alignment i = elim i.source [
  | ubuf _ ↦ 0
  | iovec _ a ↦ gap_alignment_from a i.count 0 0
  | _ ↦ u32 - 1
]

-- iov_npages() from a segment on; `none` is a read past the end of the array.
unfoldable pub iov_npages : List Iovec → ℕ → ℕ → ℕ → ℕ → Option ℕ
iov_npages [] skip size npages maxpages = if size == 0 then some npages else none
iov_npages (v ∷ r) skip size npages maxpages =
    let len = min (sub64 v.len skip) size in
    let offs = (v.base + skip) % page_size in
    let npages' = npages + pages_of (offs + len) in
    let over = iov_npages r 0 size npages maxpages in
    let on = iov_npages r 0 (size - len) npages' maxpages in
    if size == 0
    then some npages
    else if len == 0
    then over
    else if ltb maxpages npages'
    then some maxpages
    else on

unfoldable pub bvec_npages : List BioVec → ℕ → ℕ → ℕ → ℕ → Option ℕ
bvec_npages [] skip size npages maxpages = if size == 0 then some npages else none
bvec_npages (v ∷ r) skip size npages maxpages =
    let len = min (sub64 v.len skip) size in
    let offs = (v.offset + skip) % page_size in
    let npages' = npages + pages_of (offs + len) in
    let on = bvec_npages r 0 (size - len) npages' maxpages in
    if size == 0 then some npages else if ltb maxpages npages' then some maxpages else on

unfoldable pub iov_iter_npages : IovIter → ℕ → Option ℕ
iov_iter_npages i maxpages = if i.count == 0 then some 0 else elim i.source [
  | ubuf base ↦ some (min (pages_of ((base + i.iov_offset) % page_size + i.count)) maxpages)
  | iovec _ a ↦ iov_npages a i.iov_offset i.count 0 maxpages
  | kvec _ a ↦ iov_npages a i.iov_offset i.count 0 maxpages
  | bvec _ a ↦ bvec_npages a i.iov_offset i.count 0 maxpages
  | discard ↦ some 0
]
