-- ===== src/Uio/Copy.antt =====
-- kernel_modification/iov_iter.c: iterate_and_advance() and the functions that copy through it. A
-- memory maps addresses to bytes; what a copy writes, it writes byte by byte, in order.
pub mod Walk
pub mod Vectors
pub mod Subpages
pub mod Whole
pub mod Bytes
pub mod Copied
use nvme_ioctl.Prelude.{
  ℕ, zero, suc, ◌+◌, ◌-◌, ◌*◌, ◌/◌, ◌%◌, Bool, true, false, not, ◌||◌, ◌&&◌, Option, none, some,
  List, [], ◌∷◌, u32, u64, page_size, sub64, ltb, leb, ◌==◌, if◌then◌else◌, length, min,
}
use nvme_ioctl.Prelude.Bytes.{run}
use nvme_ioctl.Bio.{BioVec, page_to_phys}
use nvme_ioctl.Uio.{Iovec, Source, ubuf, iovec, kvec, bvec, discard, IovIter}

abbrev pub Mem : Type 0
Mem = ℕ → ℕ

-- What a loop leaves: the segments before and from the pointer, the bytes passed, the offset in the
-- segment, and the state of the steps.
abbrev pub Walked : Type 0 → Type 0 → Type 0
Walked A S = Option (List A × List A × ℕ × ℕ × S)

-- `STEP` is given base, off and len; it returns the bytes that are left over.
module _ {S : Type 0} (step : ℕ → ℕ → ℕ → S → ℕ × S) where
  -- iterate_iovec(); `none` is a read behind the array.
  unfoldable pub iterate_iovec : List Iovec → List Iovec → ℕ → ℕ → ℕ → S → Walked Iovec S
  iterate_iovec before [] n off skip s = none
  iterate_iovec before (v ∷ r) n off skip s =
      let len = min n (sub64 v.len skip) in
      let (left, s') = step (v.base + skip) off len s in
      let passed = sub64 len left in
      let skipped = iterate_iovec (v ∷ before) r n off 0 s in
      let rest = iterate_iovec (v ∷ before) r (n - passed) (off + passed) 0 s' in
      if len == 0
      then if n == 0 then some (v ∷ before, r, off, 0, s) else skipped
      else if ltb (skip + passed) v.len
      then some (before, v ∷ r, off + passed, skip + passed, s')
      else if n - passed == 0
      then some (v ∷ before, r, off + passed, 0, s')
      else rest

  -- iterate_bvec(), page by page; `none` is a read behind the array or the end of the fuel.
  unfoldable pub iterate_bvec : ℕ → List BioVec → List BioVec → ℕ → ℕ → ℕ → S → Walked BioVec S
  iterate_bvec zero before ahead n off skip s = none
  iterate_bvec (suc fuel) before [] n off skip s =
      if n == 0 then some (before, [], off, skip, s) else none
  iterate_bvec (suc fuel) before (v ∷ r) n off skip s =
      let offset = (v.offset + skip) % u32 in
      let in_page = offset % page_size in
      let base = page_to_phys (v.page + offset / page_size) + in_page in
      let len = min (min n ((v.len + u32 - skip) % u32)) (page_size - in_page) in
      let (left, s') = step base off len s in
      let passed = sub64 len left in
      let skip' = (skip + passed) % u32 in
      let stay = iterate_bvec fuel before (v ∷ r) (n - passed) (off + passed) skip' s' in
      let next = iterate_bvec fuel (v ∷ before) r (n - passed) (off + passed) 0 s' in
      if n == 0
      then some (before, v ∷ r, off, skip, s)
      else if skip' == v.len
      then if not (left == 0) then some (v ∷ before, r, off + passed, 0, s') else next
      else if not (left == 0)
      then some (before, v ∷ r, off + passed, skip', s')
      else stay

  module _ {A : Type 0} (make : List A → List A → Source) where
    -- The iterator behind a loop over an array.
    unfoldable pub settled : IovIter → Walked A S → Option (ℕ × IovIter × S)
    settled i w = elim w [
      | none ↦ none
      | some (b, a, off, skip, s) ↦
          some
            (off, record i { source = make b a; iov_offset = skip; count = sub64 i.count off }, s)
    ]

  -- __iterate_and_advance() with `step` for the kind of memory that `i` is over: the bytes passed, the
  -- iterator and the state.
  unfoldable pub iterate_and_advance : IovIter → ℕ → S → Option (ℕ × IovIter × S)
  unfolding iterate_iovec iterate_bvec settled
  iterate_and_advance i bytes s =
      let n = min i.count bytes in
      if n == 0 then some (0, i, s) else elim i.source [
        | ubuf p ↦
            let (left, s') = step (p + i.iov_offset) 0 n s in
            let len = sub64 n left in
            let i' = record i {
              iov_offset = (i.iov_offset + len) % u64;
              count = sub64 i.count len;
            } in
            some (len, i', s')
        | iovec b a ↦ settled iovec i (iterate_iovec b a n 0 i.iov_offset s)
        | kvec b a ↦ settled kvec i (iterate_iovec b a n 0 i.iov_offset s)
        | bvec b a ↦ settled bvec i (iterate_bvec (n + length a + 1) b a n 0 i.iov_offset s)
        | discard ↦ some (n, record i { count = i.count - n }, s)
      ]

-- user_backed_iter(): whether the step I is taken, or K.
abbrev pub user_backed_iter : IovIter → Bool
user_backed_iter i = elim i.source [ ubuf _ ↦ true | iovec _ _ ↦ true | _ ↦ false ]

-- memcpy(): the bytes at some addresses go to others.
unfoldable pub copy_bytes : List ℕ → List ℕ → Mem → Mem
copy_bytes [] from m = m
copy_bytes (d ∷ to) [] m = m
copy_bytes (d ∷ to) (a ∷ from) m = copy_bytes to from (λ x. if x == d then m a else m x)

-- memset() to 0
unfoldable pub clear_bytes : List ℕ → Mem → Mem
clear_bytes [] m = m
clear_bytes (d ∷ to) m = clear_bytes to (λ x. if x == d then 0 else m x)

-- The architecture's access to user memory. A copy takes the destination, the source and the number
-- of bytes, and returns how many it has not copied.
pub record UserAccess : Type 0 where
  pub fails : ℕ → ℕ → Bool
  pub access_ok : ℕ → ℕ → Bool
  pub raw_copy : ℕ → ℕ → ℕ → Mem → ℕ × Mem
  pub clear_user : ℕ → ℕ → Mem → ℕ × Mem

module _ (u : UserAccess) where
  -- copyout() and copyin(): the user's address decides.
  unfoldable pub copyout : ℕ → ℕ → ℕ → Mem → ℕ × Mem
  copyout to from n m =
      if u.fails to n then (n, m) else if u.access_ok to n then u.raw_copy to from n m else (n, m)

  unfoldable pub copyin : ℕ → ℕ → ℕ → Mem → ℕ × Mem
  copyin to from n m =
      if u.fails from n
      then (n, m)
      else if u.access_ok from n
      then u.raw_copy to from n m
      else (n, m)

  -- The steps I and K of _copy_to_iter(), of _copy_from_iter() and of iov_iter_zero(). What the
  -- kernel copies for itself is copied whole.
  unfoldable pub to_step : Bool → ℕ → ℕ → ℕ → ℕ → Mem → ℕ × Mem
  unfolding copyout copy_bytes
  to_step true addr base off len m = copyout base (addr + off) len m
  to_step false addr base off len m = (0, copy_bytes (run base len) (run (addr + off) len) m)

  unfoldable pub from_step : Bool → ℕ → ℕ → ℕ → ℕ → Mem → ℕ × Mem
  unfolding copyin copy_bytes
  from_step true addr base off len m = copyin (addr + off) base len m
  from_step false addr base off len m = (0, copy_bytes (run (addr + off) len) (run base len) m)

  unfoldable pub zero_step : Bool → ℕ → ℕ → ℕ → Mem → ℕ × Mem
  unfolding clear_bytes
  zero_step true base off len m = u.clear_user base len m
  zero_step false base off len m = (0, clear_bytes (run base len) m)

  -- _copy_to_iter()
  unfoldable pub copy_to_iter : ℕ → ℕ → IovIter → Mem → Option (ℕ × IovIter × Mem)
  unfolding to_step
  copy_to_iter addr bytes i m =
      if i.data_source
      then some (0, i, m)
      else iterate_and_advance (to_step (user_backed_iter i) addr) i bytes m

  -- _copy_from_iter()
  unfoldable pub copy_from_iter : ℕ → ℕ → IovIter → Mem → Option (ℕ × IovIter × Mem)
  unfolding from_step
  copy_from_iter addr bytes i m =
      if not i.data_source
      then some (0, i, m)
      else iterate_and_advance (from_step (user_backed_iter i) addr) i bytes m

  unfoldable pub iov_iter_zero : ℕ → IovIter → Mem → Option (ℕ × IovIter × Mem)
  unfolding zero_step
  iov_iter_zero bytes i m = iterate_and_advance (zero_step (user_backed_iter i)) i bytes m
