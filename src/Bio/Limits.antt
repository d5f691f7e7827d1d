-- ===== src/Bio/Limits.antt =====
-- The hardware limits that bio_add_hw_page() keeps, and what it says of a shared page.
use nvme_ioctl.Prelude.{
  ℕ, ◌/◌, ◌≡◌, ◌≤◌, ◌<◌, Bool, false, arith, u32, length, All, List-cases, inl, inr,
}
use nvme_ioctl.Bio.{
  Bio, Queue, Platform, page_is_mergeable, try_merge_page, try_merge_hw_seg, push_page, bio_full,
  add_hw_segment, bio_add_hw_page,
}
use nvme_ioctl.Bio.Invariant.{IsValid}

-- No more segments, sectors and bytes in a segment than the queue takes.
pub record Fits (q : Queue) (max_sectors : ℕ) (bio : Bio) : Type 0 where
  pub segments : length bio.vecs ≤ q.max_segments
  pub sectors : bio.size / 512 ≤ max_sectors
  pub lengths : All (λ v. v.len ≤ q.max_segment_size) bio.vecs

module _ (pf : Platform) (q : Queue) (max_sectors : ℕ) (bio : Bio) (page len off : ℕ) where
  -- bio_add_hw_page() keeps a valid bio within the segments, sectors and segment size of the
  -- queue, if the added piece is within the segment size by itself.
  pub bio_add_hw_page-Fits :
      (same : Bool)
      → len < u32
      → len ≤ q.max_segment_size
      → IsValid bio
      → Fits q max_sectors bio
      → Fits q max_sectors (bio_add_hw_page pf q bio page len off max_sectors same).2
  unfolding bio_add_hw_page try_merge_hw_seg try_merge_page add_hw_segment push_page bio_full
  bio_add_hw_page-Fits same hl hs v f = elim (List-cases bio.vecs) [
    | inl e ↦ ground arith
    | inr (bv, rest, e) ↦ ground arith
  ]

  -- A piece of at least one byte that bio_add_hw_page() refuses is never reported as lying in a
  -- page of the bio.
  pub refused-not-same_page :
      0 < len
      → (bio_add_hw_page pf q bio page len off max_sectors false).0 ≡ 0
      → (bio_add_hw_page pf q bio page len off max_sectors false).1 ≡ false
  unfolding bio_add_hw_page try_merge_hw_seg try_merge_page add_hw_segment page_is_mergeable
  refused-not-same_page pos e = ground arith
