-- ===== src/BlkMap/Kern.antt =====
-- kernel_modification/blk-map.c: bio_map_kern(), bio_copy_kern() and blk_rq_map_kern(), which map
-- the kernel's own buffers.
use nvme_ioctl.Prelude.{
  ℕ, zero, suc, ◌+◌, ◌-◌, ◌*◌, ◌/◌, ◌%◌, Bool, true, false, not, ◌||◌, Option, none, some, min, ℤ,
  is_zero, einval, enomem, u32, u64, page_size, ltb, ◌==◌, if◌then◌else◌,
}
use nvme_ioctl.Bio.{Bio, bio_add_pc_page}
use nvme_ioctl.BlkMap.{
  Request, Pool, Host, bio_free_pages, bio_kmalloc, fresh_bio, blk_rq_append_bio,
}

-- The kernel's memory: the page of an address, blk_rq_aligned() and object_is_on_stack().
pub record KernelMemory : Type 0 where
  pub page_of : ℕ → ℕ
  pub aligned : ℕ → ℕ → Bool
  pub on_stack : ℕ → Bool

-- A bio, or an error pointer, and what is held.
pub data MadeBio : Type 0 where
  made : Bio → Pool → MadeBio
  failed : ℤ → Pool → MadeBio

-- The pages from `start` to `end`, both of which stand in 64 bits.
abbrev pub kern_end : ℕ → ℕ → ℕ
kern_end kaddr len = (kaddr + len + page_size - 1) % u64 / page_size

-- bio_uninit() and kfree()
abbrev pub free_bio : Pool → Pool
free_bio p = record p { bios = p.bios - 1 }

module _ (host : Host) (km : KernelMemory) where
  -- The loop of bio_map_kern(), on the pages left; `none` is a page that was not added whole.
  unfoldable pub map_kern_pages : ℕ → ℕ → ℕ → ℕ → Bio → Option Bio
  map_kern_pages zero addr len offset bio = some bio
  map_kern_pages (suc n) addr len offset bio =
      let bytes = min (page_size - offset) len in
      let (added, bio') =
        bio_add_pc_page host.platform host.queue bio (km.page_of addr) bytes offset in
      let rest = map_kern_pages n (addr + bytes) (len - bytes) 0 bio' in
      if len == 0 then some bio else if ltb added bytes then none else rest

  -- bio_map_kern()
  unfoldable pub bio_map_kern : ℕ → ℕ → Pool → MadeBio
  bio_map_kern kaddr len p =
      let nr_pages = kern_end kaddr len - kaddr / page_size in
      elim (bio_kmalloc host nr_pages p) [
        | none ↦ failed enomem p
        | some (bio, p') ↦ elim (map_kern_pages nr_pages kaddr len (kaddr % page_size) bio) [
          | none ↦ failed einval (free_bio p')
          | some bio' ↦ made bio' p'
        ]
      ]

  -- The loop of bio_copy_kern(), on fuel: a round takes a byte or more. The flag says whether every
  -- page was had. A page that the bio does not take is not given back.
  unfoldable pub copy_kern_pages : ℕ → ℕ → Bio → Pool → Bool × Bio × Pool
  copy_kern_pages zero len bio p = (true, bio, p)
  copy_kern_pages (suc fuel) len bio p = elim (len == 0) [
    | true ↦ (true, bio, p)
    | false ↦ elim (host.page_alloc p.pages) [
      | none ↦ (false, bio, p)
      | some page ↦
          let bytes = min page_size len in
          let p' = record p { pages = p.pages + 1 } in
          let (added, bio') = bio_add_pc_page host.platform host.queue bio page bytes 0 in
          elim (ltb added bytes) [
            | true ↦ (true, bio', p')
            | false ↦ copy_kern_pages fuel (len - bytes) bio' p'
          ]
    ]
  ]

  -- bio_copy_kern(), without the bytes that it copies.
  unfoldable pub bio_copy_kern : ℕ → ℕ → Pool → MadeBio
  bio_copy_kern kaddr len p =
      let end_page = kern_end kaddr len in
      let start_page = kaddr / page_size in
      if ltb end_page start_page
      then failed einval p
      else elim (bio_kmalloc host (end_page - start_page) p) [
        | none ↦ failed enomem p
        | some (bio, p') ↦
            let (whole, bio', p'') = copy_kern_pages len len bio p' in
            if whole then made bio' p'' else failed enomem (free_bio (bio_free_pages bio' p''))
      ]

  -- bio_copy_kern_endio() and bio_copy_kern_endio_read(), which gives the bytes back before; and
  -- bio_map_kern_endio().
  unfoldable pub bio_copy_kern_endio : Bio → Pool → Pool
  bio_copy_kern_endio bio p = free_bio (bio_free_pages bio p)

  unfoldable pub bio_map_kern_endio : Bio → Pool → Pool
  bio_map_kern_endio bio p = free_bio p

  -- The end of blk_rq_map_kern().
  unfoldable pub append_kern : Request → MadeBio → ℤ × Request × Pool
  append_kern rq (failed e p) = (e, rq, p)
  append_kern rq (made bio p) =
      let (ret, rq') = blk_rq_append_bio host rq (fresh_bio false bio) in
      (ret, rq', if is_zero ret then p else free_bio p)

  -- blk_rq_map_kern()
  unfoldable pub blk_rq_map_kern : Request → ℕ → ℕ → Pool → ℤ × Request × Pool
  blk_rq_map_kern rq kbuf len p =
      let copies = not (km.aligned kbuf len) || km.on_stack kbuf || host.may_bounce in
      if ltb (host.queue.max_hw_sectors * 512 % u32) len
      then (einval, rq, p)
      else if len == 0 || kbuf == 0
      then (einval, rq, p)
      else append_kern rq (if copies then bio_copy_kern kbuf len p else bio_map_kern kbuf len p)
