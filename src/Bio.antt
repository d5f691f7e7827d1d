-- ===== src/Bio.antt =====
-- kernel_modification/bio.c: a bio and the functions that add pages to it. A page is the number of
-- its frame, so `page_to_phys` is a product and pointer arithmetic on pages is addition.
pub mod Invariant
pub mod Content
pub mod Limits
pub mod Truncate
pub mod Life
pub mod GetPages
pub mod Parts
pub mod Pool
pub mod Tests
use nvme_ioctl.Prelude.{
  ℕ, ◌+◌, ◌-◌, ◌*◌, ◌/◌, ◌%◌, Bool, true, false, not, ◌&&◌, ◌||◌, List, [], ◌∷◌, bit_or, ℤ, pos,
  einval, u32, u64, page_size, ltb, leb, ◌==◌, if◌then◌else◌, length,
}

-- `struct bio_vec`
pub record BioVec : Type 0 where
  pub page : ℕ
  pub len : ℕ
  pub offset : ℕ

-- What the add functions read and write of `struct bio`. `vecs` is bi_io_vec[0 .. bi_vcnt) with
-- the last one first, so bi_vcnt is its length; `cloned` is the flag BIO_CLONED and
-- `zone_append` says that bio_op() is REQ_OP_ZONE_APPEND.
pub record Bio : Type 0 where
  pub vecs : List BioVec
  pub max_vecs : ℕ
  pub size : ℕ
  pub cloned : Bool
  pub zone_append : Bool

-- The limits of the queue that the functions ask for. `gap_to_prev` is bvec_gap_to_prev() at the
-- queue's limits, and `zoned` is bdev_is_zoned() of the bio's device.
pub record Queue : Type 0 where
  pub max_hw_sectors : ℕ
  pub max_zone_append_sectors : ℕ
  pub max_segments : ℕ
  pub max_segment_size : ℕ
  pub segment_boundary : ℕ
  pub gap_to_prev : BioVec → ℕ → Bool
  pub zoned : Bool

-- What the rest of the kernel says about two pages: `xen` is xen_domain() without
-- xen_biovec_phys_mergeable(), and `kmsan` is CONFIG_KMSAN.
pub record Platform : Type 0 where
  pub xen_refuses : BioVec → ℕ → Bool
  pub same_pgmap : ℕ → ℕ → Bool
  pub kmsan : Bool

abbrev pub page_to_phys : ℕ → ℕ
page_to_phys page = page * page_size

-- bio_init(): an empty bio with room for `n` vectors.
abbrev pub bio_init : ℕ → Bool → Bio
bio_init n zone = record { vecs = []; max_vecs = n; size = 0; cloned = false; zone_append = zone }

unfoldable pub bio_full : Bio → ℕ → Bool
bio_full bio len = leb bio.max_vecs (length bio.vecs) || ltb (u32 - 1 - len) bio.size

-- __bio_add_page(): a new vector at the end.
unfoldable pub push_page : Bio → ℕ → ℕ → ℕ → Bio
push_page bio page len off = record bio {
  vecs = (record { page = page; len = len; offset = off }) ∷ bio.vecs;
  size = (bio.size + len) % u32;
}

-- The part of bio_add_hw_page() behind the merge: `same` is *same_page so far.
unfoldable pub add_hw_segment : Queue → Bio → ℕ → ℕ → ℕ → Bool → ℕ × Bool × Bio
add_hw_segment q bio page len off same =
    if bio_full bio len
    then (0, same, bio)
    else if leb q.max_segments (length bio.vecs)
    then (0, same, bio)
    else (len, same, push_page bio page len off)

module _ (pf : Platform) where
  -- The result, and *same_page, which the early returns leave as it was.
  unfoldable pub page_is_mergeable : BioVec → ℕ → ℕ → Bool → Bool × Bool
  page_is_mergeable bv page off same =
      let bv_end = (bv.offset + bv.len) % u32 in
      let vec_end_addr = (page_to_phys bv.page + bv_end + u64 - 1) % u64 in
      let page_addr = page_to_phys page in
      let in_page = vec_end_addr / page_size * page_size == page_addr in
      if not ((vec_end_addr + 1) % u64 == (page_addr + off) % u64)
      then (false, same)
      else if pf.xen_refuses bv page
      then (false, same)
      else if not (pf.same_pgmap bv.page page)
      then (false, same)
      else if in_page
      then (true, true)
      else if pf.kmsan
      then (false, false)
      else (bv.page + bv_end / page_size == page + off / page_size, false)

  -- __bio_try_merge_page(): the result, *same_page and the bio.
  unfoldable pub try_merge_page : Bio → ℕ → ℕ → ℕ → Bool → Bool × Bool × Bio
  try_merge_page bio page len off same = if bio.cloned then (false, same, bio) else elim bio.vecs [
    | [] ↦ (false, same, bio)
    | bv ∷ rest ↦
        let (merges, same') = page_is_mergeable bv page off same in
        if not merges
        then (false, same', bio)
        else if ltb (u32 - 1 - len) bio.size
        then (false, false, bio)
        else (
          true,
          same',
          record bio {
            vecs = (record bv { len = (bv.len + len) % u32 }) ∷ rest;
            size = (bio.size + len) % u32;
          },
        )
  ]

  -- bio_try_merge_hw_seg(), called with a vector in the bio.
  unfoldable pub try_merge_hw_seg : Queue → Bio → BioVec → ℕ → ℕ → ℕ → Bool → Bool × Bool × Bio
  try_merge_hw_seg q bio bv page len off same =
      let mask = q.segment_boundary in
      let addr1 = (page_to_phys bv.page + bv.offset) % u64 in
      let addr2 = (page_to_phys page + off + len + u64 - 1) % u64 in
      if not (bit_or addr1 mask == bit_or addr2 mask)
      then (false, same, bio)
      else if ltb q.max_segment_size ((bv.len + len) % u32)
      then (false, same, bio)
      else try_merge_page bio page len off same

  -- bio_add_hw_page(): the returned length, *same_page and the bio.
  unfoldable pub bio_add_hw_page : Queue → Bio → ℕ → ℕ → ℕ → ℕ → Bool → ℕ × Bool × Bio
  bio_add_hw_page q bio page len off max_sectors same =
      if bio.cloned
      then (0, same, bio)
      else if ltb max_sectors ((bio.size + len) % u32 / 512)
      then (0, same, bio)
      else elim bio.vecs [
        | [] ↦ add_hw_segment q bio page len off same
        | bv ∷ rest ↦
            let (merged, same', bio') = try_merge_hw_seg q bio bv page len off same in
            if merged
            then (len, same', bio')
            else if q.gap_to_prev bv off
            then (0, same', bio')
            else add_hw_segment q bio' page len off same'
      ]

  unfoldable pub bio_add_pc_page : Queue → Bio → ℕ → ℕ → ℕ → ℕ × Bio
  bio_add_pc_page q bio page len off =
      let (n, _, bio') = bio_add_hw_page q bio page len off q.max_hw_sectors false in (n, bio')

  unfoldable pub bio_add_zone_append_page : Queue → Bio → ℕ → ℕ → ℕ → ℕ × Bio
  bio_add_zone_append_page q bio page len off =
      if not bio.zone_append
      then (0, bio)
      else if not q.zoned
      then (0, bio)
      else let (n, _, bio') = bio_add_hw_page q bio page len off q.max_zone_append_sectors false in
        (n, bio')

  unfoldable pub bio_add_page : Bio → ℕ → ℕ → ℕ → ℕ × Bio
  bio_add_page bio page len off =
      let (merged, _, bio') = try_merge_page bio page len off false in
      if merged
      then (len, bio')
      else if bio_full bio' len
      then (0, bio')
      else (len, push_page bio' page len off)

  -- bio_add_folio(), the folio given by its first page. Its `size_t` arguments become `unsigned int`.
  unfoldable pub bio_add_folio : Bio → ℕ → ℕ → ℕ → Bool × Bio
  bio_add_folio bio page len off =
      if ltb (u32 - 1) len || ltb (u32 - 1) off
      then (false, bio)
      else let (n, bio') = bio_add_page bio page len off in (ltb 0 n, bio')

  -- bio_iov_add_page(): the bio, and whether the caller's reference to the page is put.
  unfoldable pub bio_iov_add_page : Bio → ℕ → ℕ → ℕ → Bool × Bio
  bio_iov_add_page bio page len off =
      let (merged, same, bio') = try_merge_page bio page len off false in
      if not merged then (false, push_page bio' page len off) else (same, bio')

  -- bio_iov_add_zone_append_page(): the return code, whether the reference is put, and the bio.
  unfoldable pub bio_iov_add_zone_append_page : Queue → Bio → ℕ → ℕ → ℕ → ℤ × Bool × Bio
  bio_iov_add_zone_append_page q bio page len off =
      let (n, same, bio') = bio_add_hw_page q bio page len off q.max_zone_append_sectors false in
      if not (n == len) then (einval, false, bio') else (pos 0, same, bio')
