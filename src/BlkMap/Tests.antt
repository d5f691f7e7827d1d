-- ===== src/BlkMap/Tests.antt =====
-- Concrete calls of kernel_modification/blk-map.c: the theorems at work.
use nvme_ioctl.Prelude.{
  ◌+◌, ◌/◌, ◌<◌, ◌≡◌, refl, true, false, none, some, [], ◌∷◌, arith, is_zero, min,
}
use nvme_ioctl.Bio.{
  BioVec, Bio, bio_init, bio_add_pc_page, bio_add_hw_page, add_hw_segment, bio_full, push_page,
}
use nvme_ioctl.Bio.Tests.{pc, disk}
use nvme_ioctl.Uio.{ubuf, bvec, IovIter}
use nvme_ioctl.Uio.Tests.{all_there, all_there-Pins, flat_user}
use nvme_ioctl.Prelude.{◌≢◌}
use nvme_ioctl.BlkMap.Direct.{out_of_fuel}
use nvme_ioctl.BlkMap.{Request, Pool, Host, fresh_bio, bio_kmalloc, blk_rq_append_bio}
use nvme_ioctl.BlkMap.Kern.{
  KernelMemory, made, failed, bio_copy_kern, copy_kern_pages, blk_rq_map_kern,
}
use nvme_ioctl.BlkMap.Kept.{blk_rq_map_kern-leaks}
use nvme_ioctl.BlkMap.Direct.{map_loop}
use nvme_ioctl.BlkMap.Route.{blk_rq_map_user_iov}
use nvme_ioctl.BlkMap.Fuel.{map_loop-enough}
use nvme_ioctl.BlkMap.Rounds.{Balanced, blk_rq_map_user_iov-Balanced}

abbrev pub box : Host
box = record {
  mm = all_there;
  user = flat_user;
  platform = pc;
  queue = disk;
  dma_alignment = 3;
  dma_pad_mask = 3;
  virt_boundary = 4095;
  may_bounce = false;
  p2pdma = false;
  has_mm = true;
  bio_alloc = λ _. true;
  data_alloc = λ _. true;
  page_alloc = λ n. some (n + 500);
  back_merge = λ _ _ _. true;
  prep_len = λ b. b.size;
  copy_in = λ i n. min i.count n;
  copy_out = λ i n. min i.count n;
}

abbrev idle : Request
idle = record { bios = []; data_len = 0; write = true; polled = false }

abbrev pub nothing : Pool
nothing = record { pins = 0; pages = 0; bios = 0; datas = 0 }

-- Two pages of a user from the start of a page on.
abbrev pub two_pages : IovIter
two_pages = record {
  source = ubuf 8192;
  data_source = true;
  nofault = false;
  iov_offset = 0;
  count = 8192;
}

abbrev one_page : BioVec
one_page = record { page = 40; len = 4096; offset = 0 }

abbrev vector_iter : IovIter
vector_iter = record two_pages { source = bvec [] (one_page ∷ one_page ∷ []) }

map_loop-enough_example :
    (map_loop box 9000 (bio_init 2 false) two_pages nothing ≢ out_of_fuel)
    × (map_loop box 9000 (bio_init 2 false) two_pages nothing
        ≡ map_loop box 8193 (bio_init 2 false) two_pages nothing)
map_loop-enough_example =
    map_loop-enough box all_there-Pins 9000 8193 (bio_init 2 false) two_pages nothing refl
      (omega arith) (omega arith)

blk_rq_map_user_iov-Balanced_example :
    Balanced 0 (blk_rq_map_user_iov box idle none two_pages nothing)
blk_rq_map_user_iov-Balanced_example =
    blk_rq_map_user_iov-Balanced box idle none two_pages nothing refl refl

-- A kernel memory where frame and address go together, and one of buffers that are not aligned.
abbrev straight : KernelMemory
straight = record { page_of = λ a. a / 4096; aligned = λ a n. true; on_stack = λ a. false }

abbrev unaligned : KernelMemory
unaligned = record straight { aligned = λ a n. false }

-- A queue that merges nothing, and a request that has a bio.
abbrev closed : Host
closed = record box { back_merge = λ _ _ _. false }

abbrev busy : Request
busy = record idle { bios = fresh_bio false (bio_init 1 false) ∷ [] }

abbrev copied : Bio × Pool
copied = elim (bio_copy_kern closed unaligned 8192 512 nothing) [
  | made b p ↦ (b, p)
  | failed e p ↦ (bio_init 0 false, p)
]

copied_lem : bio_copy_kern closed unaligned 8192 512 nothing ≡ made copied.0 copied.1
unfolding bio_copy_kern copy_kern_pages bio_kmalloc bio_add_pc_page bio_add_hw_page add_hw_segment
    bio_full push_page
copied_lem = refl

blk_rq_map_kern-leaks_example :
    (is_zero (blk_rq_map_kern closed unaligned busy 8192 512 nothing).0 ≡ false)
    × (nothing.pages < (blk_rq_map_kern closed unaligned busy 8192 512 nothing).2.pages)
unfolding blk_rq_append_bio
blk_rq_map_kern-leaks_example =
    blk_rq_map_kern-leaks closed unaligned busy 8192 512 nothing copied.1 copied.0 refl
      (omega arith) (omega arith) (omega arith) copied_lem refl
