-- ===== src/Uio/Tests.antt =====
-- Concrete iterators of kernel_modification/iov_iter.c: the theorems at work.
use nvme_ioctl.Prelude.{◌+◌, ◌≡◌, refl, true, false, none, [], ◌∷◌, arith, drop, pos, ltb}
use nvme_ioctl.Uio.{iovec, IovIter, iov_iter_advance, iov_iter_revert}
use nvme_ioctl.Uio.Stream.{stream}
use nvme_ioctl.Uio.Moves.{stream-iov_iter_advance}
use nvme_ioctl.Uio.Rewind.{Restores, iov_iter_revert-iov_iter_advance}
use nvme_ioctl.Uio.Pages.{Memory, get_pages_with}
use nvme_ioctl.Uio.Grab.{Pins}
use nvme_ioctl.Uio.Located.{Located, get_pages_with-Located}
use nvme_ioctl.Prelude.{◌-◌, false}
use nvme_ioctl.Prelude.Bytes.{run}
use nvme_ioctl.Uio.Copy.{UserAccess, copy_bytes, clear_bytes, copy_to_iter, copy_from_iter}
use nvme_ioctl.Uio.Copy.Bytes.{Copies}
use nvme_ioctl.Uio.Copy.Whole.{Ready}
use nvme_ioctl.Uio.Copy.Copied.{Copied, copy_from_iter-Copied, copy_to_iter-Copied}
use nvme_ioctl.Uio.Import.{Access, clip_vecs}
use nvme_ioctl.Uio.Clip.{Clipped, clip_vecs-Clipped}

-- Two segments of 100 and 50 bytes, 10 bytes passed.
abbrev pub two_segments : IovIter
two_segments = record {
  source = iovec [] ((record { base = 4096; len = 100 }) ∷ (record { base = 9000; len = 50 }) ∷ []);
  data_source = true;
  nofault = false;
  iov_offset = 10;
  count = 140;
}

-- A memory manager that pins all it is asked for.
abbrev pub all_there : Memory
all_there = record {
  gup = λ addr n write nofault p2pdma. pos n;
  page_at = λ p. p + 1000;
  kvmalloc = λ _. true;
  kmalloc = λ n. ltb n 1025;
}

pub all_there-Pins : Pins all_there
all_there-Pins = record { few = λ addr n write nofault p2pdma k e. ground arith }

abbrev pub flat_user : Access
flat_user = record {
  access_ok = λ _ _. true;
  copy_vecs = λ _ _. none;
  compat_begin = λ _ _. false;
  compat_vec = λ _ _. none;
  kmalloc_vecs = λ _. true;
  in_compat = false;
}

stream-iov_iter_advance_example :
    stream (iov_iter_advance two_segments 95) ≡ drop 95 (stream two_segments)
stream-iov_iter_advance_example = stream-iov_iter_advance two_segments 95 (omega arith)

iov_iter_revert-iov_iter_advance_example :
    Restores two_segments (iov_iter_revert (iov_iter_advance two_segments 95) 95)
iov_iter_revert-iov_iter_advance_example =
    iov_iter_revert-iov_iter_advance two_segments 95 (omega arith) (omega arith) (omega arith)
      (omega arith)

get_pages_with-Located_example :
    Located all_there two_segments
      (get_pages_with all_there (λ _. true) (λ _. true) two_segments 8192 4 false)
get_pages_with-Located_example =
    get_pages_with-Located all_there all_there-Pins (λ _. true) (λ _. true) two_segments 8192 4
      false refl (omega arith, omega arith, omega arith) (omega arith, (omega arith, tt))

clip_vecs-Clipped_example :
    Clipped ((record { base = 64; len = 3 }) ∷ (record { base = 80; len = 2 }) ∷ []) 0 (
      clip_vecs flat_user
        ((record { base = 64; len = 3 }) ∷ (record { base = 80; len = 2 }) ∷ [])
        0)
clip_vecs-Clipped_example =
    clip_vecs-Clipped flat_user
      ((record { base = 64; len = 3 }) ∷ (record { base = 80; len = 2 }) ∷ []) 0 (omega arith)

-- An architecture that copies and clears 20 bytes at most at a time, and has no faults of its own.
abbrev slow_access : UserAccess
slow_access = record {
  fails = λ _ _. false;
  access_ok = λ _ _. true;
  raw_copy =
      λ to from n m. (n - 20, copy_bytes (run to (n - (n - 20))) (run from (n - (n - 20))) m);
  clear_user = λ a n m. (n - 20, clear_bytes (run a (n - (n - 20))) m);
}

slow_access-Copies : Copies slow_access
slow_access-Copies = record {
  raw_le = λ to from n m. omega arith;
  raw_bytes = λ to from n m. refl;
  clear_le = λ a n m. omega arith;
  clear_lem = λ a n m. refl;
}

abbrev for_reading : IovIter
for_reading = record two_segments { data_source = false }

for_reading-Ready : Ready for_reading
for_reading-Ready = (omega arith, omega arith, omega arith)

copy_to_iter-Copied_example :
    Copied for_reading 120
      (λ ahead k. copy_bytes ahead (run 70000 k) (λ a. a))
      (copy_to_iter slow_access 70000 120 for_reading (λ a. a))
copy_to_iter-Copied_example =
    copy_to_iter-Copied slow_access slow_access-Copies 70000 120 for_reading (λ a. a) refl
      for_reading-Ready

two_segments-Ready : Ready two_segments
two_segments-Ready = (omega arith, omega arith, omega arith)

copy_from_iter-Copied_example :
    Copied two_segments 120
      (λ ahead k. copy_bytes (run 70000 k) ahead (λ a. a))
      (copy_from_iter slow_access 70000 120 two_segments (λ a. a))
copy_from_iter-Copied_example =
    copy_from_iter-Copied slow_access slow_access-Copies 70000 120 two_segments (λ a. a) refl
      two_segments-Ready
