-- ===== src/BlkMap/Balance.antt =====
-- kernel_modification/blk-map.c: what a whole mapping call holds, by either way and over all its
-- rounds, and what the unmapping gives back.
use nvme_ioctl.Prelude.{
  ℕ, zero, suc, ◌+◌, ◌-◌, ◌≡◌, inl, inr, Bool, false, not, Option, none, some, List, [], ◌∷◌, arith,
  length, Option-cases, min, page_size, pages_of, u32, ◌%◌, ◌/◌, is_some,
}
use nvme_ioctl.Bio.{Bio, bio_init, bio_add_pc_page}
use nvme_ioctl.Uio.{IovIter}
use nvme_ioctl.BlkMap.{
  MapData, Mapped, Request, Pool, Host, bio_max_vecs, bio_release_pages, bio_free_pages,
  blk_mq_map_bio_put, bio_kmalloc, fresh_bio,
}
use nvme_ioctl.BlkMap.Direct.{Outcome, returned}
use nvme_ioctl.BlkMap.Bounce.{
  RqMapData, Bounced, Fill, filled, no_page, bio_alloc_map_data, bio_uncopy_user, bounce_page, fill,
  cleanup, finish_bounce, after_fill, bio_copy_user_iov, is_null_mapped,
}
use nvme_ioctl.BlkMap.Route.{unmap_one, blk_rq_unmap_user}
use nvme_ioctl.BlkMap.Holding.{Keeps, AddsOne, append_adds}

abbrev FillKeeps : Pool → Fill → Type 0
FillKeeps p (filled bio p') = Keeps p p'
FillKeeps p (no_page bio p') = Keeps p p'

-- The outcome of a copy, in the form of the direct way's.
abbrev pub as_outcome : Bounced → Outcome
as_outcome b = returned b.ret b.rq b.iter b.pool

module _ (host : Host) where
  bounce-Keeps :
      (md : Option RqMapData) (i : ℕ) (p : Pool) (page : ℕ) (q : Pool)
      → bounce_page host md i p ≡ some (page, q)
      → Keeps p q
  unfolding bounce_page
  bounce-Keeps none i p page q e = ground arith
  bounce-Keeps (some d) i p page q e = ground arith

  fill_keeps :
      (md : Option RqMapData) (f len offset i : ℕ) (bio : Bio) (p : Pool)
      → FillKeeps p (fill host md f len offset i bio p)
  unfolding fill
  fill_keeps md zero len offset i bio p = ground arith
  fill_keeps md (suc f) len offset i bio p = elim (Option-cases (bounce_page host md i p)) [
    | inl e ↦ ground (arith, e)
    | inr ((page, q), e) ↦
        let bytes = min (page_size - offset) len in
        let bio' = (bio_add_pc_page host.platform host.queue bio page bytes offset).1 in
        ground
          (arith, e, bounce-Keeps md i p page q e, fill_keeps md f (len - bytes) 0 (i + 1) bio' q)
  ]

  cleanup-Keeps :
      (md : Option RqMapData) (bio : Bio) (p q : Pool)
      → Keeps (record p { bios = p.bios + 1; datas = p.datas + 1 }) q
      → Keeps p (cleanup host md bio q)
  unfolding cleanup bio_free_pages
  cleanup-Keeps md bio p q h = ground arith

  after_fill-AddsOne :
      (rq : Request) (md : Option RqMapData) (i : IovIter) (d : MapData) (p : Pool) (w : Fill)
      → FillKeeps (record p { bios = p.bios + 1; datas = p.datas + 1 }) w
      → AddsOne rq p 1 (as_outcome (after_fill host rq md i d w))
  unfolding after_fill finish_bounce
  after_fill-AddsOne rq md i d p (no_page bio q) h = ground (arith, cleanup-Keeps md bio p q h)
  after_fill-AddsOne rq md i d p (filled bio q) h = ground (
    arith,
    cleanup-Keeps md bio p q h,
    append_adds host rq (record (fresh_bio false bio) { private = some d }),
  )

  -- bio_copy_user_iov() adds one bio with its struct bio_map_data to the request when it returns 0;
  -- with any error the request and what is held of the two are those of before.
  pub bio_copy_user_iov-AddsOne :
      (rq : Request) (md : Option RqMapData) (i : IovIter) (p : Pool)
      → AddsOne rq p 1 (as_outcome (bio_copy_user_iov host rq md i p))
  unfolding bio_copy_user_iov bio_alloc_map_data bio_kmalloc
  bio_copy_user_iov-AddsOne rq md i p =
      let len = i.count % u32 in
      let start : ℕ = elim md [ none ↦ 0 | some d ↦ d.offset ] in
      let offset = start % page_size in
      let d : MapData = record {
        our_pages = not (is_some md);
        null_mapped = is_null_mapped md;
        iter = i;
      } in
      let bio = bio_init (min (pages_of (offset + len)) bio_max_vecs) false in
      let q = record p { bios = p.bios + 1; datas = p.datas + 1 } in
      ground (
        arith,
        after_fill-AddsOne rq md i d p (fill host md len len offset (start / page_size) bio q)
            (fill_keeps md len len offset (start / page_size) bio q),
      )

  -- blk_rq_unmap_user() gives back every bio of the chain that it is given.
  pub blk_rq_unmap_user-bios :
      (reading : Bool) (ms : List Mapped) (p : Pool)
      → (blk_rq_unmap_user host reading ms p).1.bios ≡ p.bios - length ms
  unfolding blk_rq_unmap_user unmap_one blk_mq_map_bio_put bio_release_pages bio_uncopy_user
      bio_free_pages
  blk_rq_unmap_user-bios reading [] p = ground arith
  blk_rq_unmap_user-bios reading (m ∷ ms) p =
      ground (arith, blk_rq_unmap_user-bios reading ms (unmap_one host reading m p).1)
