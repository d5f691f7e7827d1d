-- ===== src/BlkMap/Vectors.antt =====
-- kernel_modification/blk-map.c: blk_rq_map_user_bvec(), which maps an array of vectors as it is.
use nvme_ioctl.Prelude.{
  ℕ, ◌+◌, ◌%◌, ◌≡◌, ◌<◌, ◌≤◌, ◌⊎◌, Bool, true, false, Option, none, some, List, [], ◌∷◌, is_zero,
  eremoteio, arith, u32, page_size, length, All, sum_by,
}
use nvme_ioctl.Bio.{BioVec, Queue}
use nvme_ioctl.Uio.{IovIter, max_rw_count}
use nvme_ioctl.BlkMap.{
  Mapped, Request, Pool, Host, blk_mq_map_bio_put, blk_rq_map_bio_alloc, bio_kmalloc,
}
use nvme_ioctl.BlkMap.Route.{sane, check_bvecs, blk_rq_map_user_bvec}

-- The fields of a vector are `unsigned int`s, and it starts in its page.
pub record Small (v : BioVec) : Type 0 where
  pub short : v.len < u32
  pub starts : v.offset < page_size

-- Vectors that the checks pass lie in a page each, and their bytes are together no more than the
-- iterator's count, if the count is within MAX_RW_COUNT and each vector starts in its page.
pub check_bvecs-sane :
    (q : Queue) (a : List BioVec) (prev : Option BioVec) (nr_iter bytes : ℕ)
    → All Small a
    → nr_iter ≤ max_rw_count
    → bytes ≤ nr_iter
    → check_bvecs q a prev nr_iter bytes ≡ sane
    → All (λ v. v.offset + v.len ≤ page_size) a × (bytes + sum_by (λ v. v.len) a ≤ nr_iter)
unfolding check_bvecs
check_bvecs-sane q [] prev nr_iter bytes small h le e = ground arith
check_bvecs-sane q (v ∷ r) prev nr_iter bytes (small, smalls) h le e =
    ground (arith, check_bvecs-sane q r (some v) nr_iter ((bytes + v.len) % u32) smalls h)

abbrev pub bit : Bool → ℕ
bit true = 1
bit false = 0

module _ (host : Host) where
  pub bio_alloc_holds :
      (rq : Request) (n : ℕ) (p : Pool)
      → (blk_rq_map_bio_alloc host rq n p ≡ none)
        ⊎ ((m : Mapped) × (blk_rq_map_bio_alloc host rq n p
              ≡ some (m, record p { bios = p.bios + 1 })))
  unfolding blk_rq_map_bio_alloc bio_kmalloc
  bio_alloc_holds rq n p = ground arith

  -- blk_rq_map_user_bvec() pins nothing, and holds one more bio where it returns 0 and none more
  -- with any error; where it asks for a copy, the request is left with a bio all the same.
  blk_rq_map_user_bvec-bios :
      (rq : Request) (i : IovIter) (a : List BioVec) (p : Pool)
      → let (ret, rq', p') = blk_rq_map_user_bvec host rq i a p in
        (p'.pins ≡ p.pins)
        × (p'.bios ≡ p.bios + bit (is_zero ret))
        × (ret ≡ eremoteio → length rq'.bios ≡ 1)
  unfolding blk_rq_map_user_bvec blk_mq_map_bio_put
  blk_rq_map_user_bvec-bios rq i a p = ground (arith, bio_alloc_holds rq 0 p)
