-- ===== src/Uio.antt =====
-- kernel_modification/uio.h and iov_iter.c: the iterator over a caller's memory, and the functions
-- that move it. ITER_PIPE and ITER_XARRAY are
-- left out: no passthrough call makes one.
pub mod Shape
pub mod Pages
pub mod Import
pub mod Stream
pub mod Moves
pub mod Rewind
pub mod Grab
pub mod Located
pub mod Clip
pub mod Copy
pub mod Position
pub mod Back
pub mod Steady
pub mod Tests
use nvme_ioctl.Prelude.{
  ℕ, ◌+◌, ◌-◌, ◌*◌, ◌/◌, ◌%◌, ◌^◌, Bool, true, false, Option, none, some, List, [], ◌∷◌, u64, ltb,
  leb, ◌==◌, if◌then◌else◌, length,
}
use mathlib.Core.Option
use nvme_ioctl.Bio.{BioVec}

-- `struct iovec`, and `struct kvec`, which is laid out alike.
pub record Iovec : Type 0 where
  pub base : ℕ
  pub len : ℕ

-- `iter_type` with the union behind it. An array of segments is cut at the pointer: first the
-- segments before it, the nearest first, then the `nr_segs` segments from it on.
pub data Source : Type 0 where
  ubuf : ℕ → Source
  iovec kvec : List Iovec → List Iovec → Source
  bvec : List BioVec → List BioVec → Source
  discard : Source

-- `struct iov_iter`. `data_source` is true for WRITE.
pub record IovIter : Type 0 where
  pub source : Source
  pub data_source : Bool
  pub nofault : Bool
  pub iov_offset : ℕ
  pub count : ℕ

-- INT_MAX & PAGE_MASK
abbrev pub max_rw_count : ℕ
max_rw_count = 0x7ffff000

module _ {A : Type 0} (len : A → ℕ) where
  -- The loop of iov_iter_iovec_advance() and iov_iter_bvec_advance(): the segments before and
  -- from the pointer, and what is left of `size`.
  unfoldable pub skip_segs : List A → List A → ℕ → List A × List A × ℕ
  skip_segs before [] size = (before, [], size)
  skip_segs before (s ∷ r) size =
      let rest = skip_segs (s ∷ before) r (size - len s) in
      if ltb size (len s) then (before, s ∷ r, size) else rest

  -- The loop of iov_iter_revert(). `none` is a read before the start of the array.
  unfoldable pub back_segs : List A → List A → ℕ → Option (List A × List A × ℕ)
  back_segs [] ahead unroll = none
  back_segs (s ∷ b) ahead unroll =
      let rest = back_segs b (s ∷ ahead) (unroll - len s) in
      if leb unroll (len s) then some (b, s ∷ ahead, len s - unroll) else rest

module _ {A : Type 0} (len : A → ℕ) (make : List A → List A → Source) where
  -- An array pointer moved to where a loop ended.
  unfoldable pub moved : IovIter → ℕ → List A × List A × ℕ → IovIter
  moved i count (b, a, o) = record i { source = make b a; iov_offset = o; count = count }

  -- iov_iter_iovec_advance() and iov_iter_bvec_advance()
  unfoldable pub vec_advance : List A → List A → IovIter → ℕ → IovIter
  vec_advance b a i size =
      if i.count == 0
      then i
      else moved i (i.count - size) (skip_segs len b a ((size + i.iov_offset) % u64))

  -- The last part of iov_iter_revert(), for an array.
  unfoldable pub vec_revert : List A → List A → IovIter → ℕ → Option IovIter
  vec_revert b a i left = Option.map (moved i i.count) (back_segs len b a left)

unfoldable pub iov_iter_advance : IovIter → ℕ → IovIter
iov_iter_advance i n =
    let size = if ltb i.count n then i.count else n in
    let linear = record i { iov_offset = (i.iov_offset + size) % u64; count = i.count - size } in
    elim i.source [
      | ubuf _ ↦ linear
      | iovec b a ↦ vec_advance (λ v. v.len) iovec b a i size
      | kvec b a ↦ vec_advance (λ v. v.len) kvec b a i size
      | bvec b a ↦ vec_advance (λ v. v.len) bvec b a i size
      | discard ↦ record i { count = i.count - size }
    ]

-- iov_iter_revert(): `none` is BUG() or a read before the array, and an `unroll` past MAX_RW_COUNT
-- only warns.
unfoldable pub iov_iter_revert : IovIter → ℕ → Option IovIter
iov_iter_revert i unroll =
    if unroll == 0
    then some i
    else if ltb max_rw_count unroll
    then some i
    else let back = record i { count = (i.count + unroll) % u64 } in
      let within = leb unroll i.iov_offset in
      let near = some (record back { iov_offset = i.iov_offset - unroll }) in
      let left = unroll - i.iov_offset in
      elim i.source [
        | discard ↦ some back
        | ubuf _ ↦ if within then near else none
        | iovec b a ↦ if within then near else vec_revert (λ v. v.len) iovec b a back left
        | kvec b a ↦ if within then near else vec_revert (λ v. v.len) kvec b a back left
        | bvec b a ↦ if within then near else vec_revert (λ v. v.len) bvec b a back left
      ]

-- iov_iter_truncate() of uio.h
unfoldable pub iov_iter_truncate : IovIter → ℕ → IovIter
iov_iter_truncate i n = if ltb n i.count then record i { count = n } else i

-- iov_iter_init() of an array that the caller has checked.
unfoldable pub iov_iter_init : Bool → List Iovec → ℕ → IovIter
iov_iter_init write iov count = record {
  source = iovec [] iov;
  data_source = write;
  nofault = false;
  iov_offset = 0;
  count = count;
}
