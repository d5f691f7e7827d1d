-- ===== src/BlkMap.antt =====
-- kernel_modification/blk-map.c: the data that the mapping functions share, and the functions on a
-- single bio.
pub mod Direct
pub mod Bounce
pub mod Route
pub mod Kern
pub mod Kept
pub mod Fuel
pub mod Vectors
pub mod Holding
pub mod Balance
pub mod Rounds
pub mod Success
pub mod Tests
use nvme_ioctl.Prelude.{
  ℕ, zero, suc, ◌+◌, ◌-◌, ◌*◌, ◌/◌, ◌%◌, ◌^◌, Bool, true, false, not, Option, none, some, List, [],
  ◌∷◌, ◌++◌, min, ℤ, pos, einval, u32, page_size, ltb, ◌==◌, if◌then◌else◌, length, sum_by,
}
use nvme_ioctl.Bio.{BioVec, Bio, Queue, Platform, bio_init}
use nvme_ioctl.Uio.{IovIter}
use nvme_ioctl.Uio.Pages.{Memory}
use nvme_ioctl.Uio.Import.{Access, uio_maxiov}

-- `struct bio_map_data`
pub record MapData : Type 0 where
  pub our_pages : Bool
  pub null_mapped : Bool
  pub iter : IovIter

-- A bio of a request: bi_private as these functions set it, the flag BIO_NO_PAGE_REF, and whether
-- the bio came from a cache of bios (REQ_ALLOC_CACHE) or from bio_kmalloc().
pub record Mapped : Type 0 where
  pub bio : Bio
  pub private : Option MapData
  pub no_page_ref : Bool
  pub cached : Bool

-- `struct request`: its chain of bios in order, __data_len, the direction and REQ_POLLED.
pub record Request : Type 0 where
  pub bios : List Mapped
  pub data_len : ℕ
  pub write : Bool
  pub polled : Bool

-- What the mapping functions hold: references to pinned pages, pages of their own, bios and
-- structs bio_map_data.
pub record Pool : Type 0 where
  pub pins : ℕ
  pub pages : ℕ
  pub bios : ℕ
  pub datas : ℕ

-- The kernel around blk-map.c. `bio_alloc` says whether a bio for so many vectors is had,
-- `data_alloc` the same of a struct bio_map_data, and `page_alloc` gives the page that alloc_page()
-- returns when so many are held. `back_merge` is ll_back_merge_fn(), and `prep_len` the
-- __data_len that blk_rq_bio_prep() sets. `copy_in` and `copy_out` are the bytes that
-- copy_page_from_iter() and copy_page_to_iter() pass; `has_mm` is `current->mm != NULL`.
pub record Host : Type 0 where
  pub mm : Memory
  pub user : Access
  pub platform : Platform
  pub queue : Queue
  pub dma_alignment : ℕ
  pub dma_pad_mask : ℕ
  pub virt_boundary : ℕ
  pub may_bounce : Bool
  pub p2pdma : Bool
  pub has_mm : Bool
  pub bio_alloc : ℕ → Bool
  pub data_alloc : ℕ → Bool
  pub page_alloc : ℕ → Option ℕ
  pub back_merge : Request → Bio → ℕ → Bool
  pub prep_len : Bio → ℕ
  pub copy_in : IovIter → ℕ → ℕ
  pub copy_out : IovIter → ℕ → ℕ

-- BIO_MAX_VECS
abbrev pub bio_max_vecs : ℕ
bio_max_vecs = 256

-- The single-page pieces of a vector that bio_for_each_segment_all() visits. Every piece takes a
-- byte, so the length is fuel enough.
unfoldable pub pieces_from : ℕ → ℕ → ℕ → ℕ → List BioVec
pieces_from zero page off len = []
pieces_from (suc fuel) page off len =
    let used = min len (page_size - off) in
    let rest = pieces_from fuel (page + 1) 0 (len - used) in
    if len == 0 then [] else (record { page = page; len = used; offset = off }) ∷ rest

unfoldable pub pieces : BioVec → List BioVec
pieces v = pieces_from v.len (v.page + v.offset / page_size) (v.offset % page_size) v.len

-- The pieces of all vectors, in the order of the bio.
unfoldable pub all_pieces : List BioVec → List BioVec
all_pieces [] = []
all_pieces (v ∷ vs) = all_pieces vs ++ pieces v

-- bio_release_pages() of a bio: a put_page() for every piece, unless the bio holds no references.
unfoldable pub bio_release_pages : Mapped → Pool → Pool
bio_release_pages m p =
    if m.no_page_ref then p else record p { pins = p.pins - length (all_pieces m.bio.vecs) }

-- bio_free_pages()
unfoldable pub bio_free_pages : Bio → Pool → Pool
bio_free_pages bio p = record p { pages = p.pages - length (all_pieces bio.vecs) }

-- blk_mq_map_bio_put(): on both branches the bio is given back.
unfoldable pub blk_mq_map_bio_put : Mapped → Pool → Pool
blk_mq_map_bio_put m p = record p { bios = p.bios - 1 }

unfoldable pub fresh_bio : Bool → Bio → Mapped
fresh_bio cached bio = record { bio = bio; private = none; no_page_ref = false; cached = cached }

module _ (host : Host) where
  -- bio_kmalloc() with bio_init(), which take an `unsigned short`; and so do those for a cache.
  unfoldable pub bio_kmalloc : ℕ → Pool → Option (Bio × Pool)
  bio_kmalloc n p =
      let nr_vecs = n % 2 ^ 16 in
      if ltb uio_maxiov nr_vecs
      then none
      else if not (host.bio_alloc nr_vecs)
      then none
      else some (bio_init nr_vecs false, record p { bios = p.bios + 1 })

  -- blk_rq_map_bio_alloc(): a polled request takes its bio from a cache.
  unfoldable pub blk_rq_map_bio_alloc : Request → ℕ → Pool → Option (Mapped × Pool)
  blk_rq_map_bio_alloc rq n p =
      if rq.polled
      then if host.bio_alloc (n % 2 ^ 16)
        then some (fresh_bio true (bio_init (n % 2 ^ 16) false), record p { bios = p.bios + 1 })
        else none
      else elim (bio_kmalloc n p) [ none ↦ none | some (b, p') ↦ some (fresh_bio false b, p') ]

  -- blk_rq_append_bio(): the return code and the request.
  unfoldable pub blk_rq_append_bio : Request → Mapped → ℤ × Request
  blk_rq_append_bio rq m =
      let prepared = record rq { bios = m ∷ []; data_len = host.prep_len m.bio } in
      let merged = record rq {
        bios = rq.bios ++ (m ∷ []);
        data_len = (rq.data_len + m.bio.size) % u32;
      } in
      elim rq.bios [
        | [] ↦ (pos 0, prepared)
        | _ ∷ _ ↦
            if not (host.back_merge rq m.bio (length m.bio.vecs))
            then (einval, rq)
            else (pos 0, merged)
      ]
