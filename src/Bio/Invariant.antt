-- ===== src/Bio/Invariant.antt =====
-- What holds of every bio that the add functions of bio.c build.
use nvme_ioctl.Prelude.{ℕ, ◌+◌, ◌≡◌, ◌≤◌, ◌<◌, Bool, arith, u32, length, sum_by}
use nvme_ioctl.Bio.{
  BioVec, Bio, Queue, Platform, try_merge_page, try_merge_hw_seg, push_page, bio_full,
  add_hw_segment, bio_add_hw_page, bio_add_page,
}

-- bi_size is the total of the vectors, an `unsigned int`, and they fit in the table.
pub record IsValid (bio : Bio) : Type 0 where
  pub total : bio.size ≡ sum_by (λ v. v.len) bio.vecs
  pub fits : bio.size < u32
  pub room : length bio.vecs ≤ bio.max_vecs

push_page-IsValid :
    (bio : Bio) (page len off : ℕ)
    → bio.size + len < u32
    → length bio.vecs < bio.max_vecs
    → IsValid bio
    → IsValid (push_page bio page len off)
unfolding push_page
push_page-IsValid bio page len off fits room v = ground arith

add_hw_segment-IsValid :
    (q : Queue) (bio : Bio) (page len off : ℕ) (same : Bool)
    → len < u32
    → IsValid bio
    → IsValid (add_hw_segment q bio page len off same).2
unfolding add_hw_segment bio_full
add_hw_segment-IsValid q bio page len off same hl v =
    ground (arith, push_page-IsValid bio page len off)

module _ (pf : Platform) where
  pub try_merge_page-IsValid :
      (bio : Bio) (page len off : ℕ) (same : Bool)
      → len < u32
      → IsValid bio
      → IsValid (try_merge_page pf bio page len off same).2
  unfolding try_merge_page
  try_merge_page-IsValid bio page len off same hl v = ground arith

  try_merge_hw_seg-IsValid :
      (q : Queue) (bio : Bio) (bv : BioVec) (page len off : ℕ) (same : Bool)
      → len < u32
      → IsValid bio
      → IsValid (try_merge_hw_seg pf q bio bv page len off same).2
  unfolding try_merge_hw_seg
  try_merge_hw_seg-IsValid q bio bv page len off same hl v =
      ground (arith, try_merge_page-IsValid bio page len off same hl v)

  -- bio_add_hw_page() keeps a bio valid, whether it merges, adds a vector or refuses: its size is
  -- the sum of its vectors and below 2^32, and its vectors are within their room.
  bio_add_hw_page-IsValid :
      (q : Queue) (bio : Bio) (page len off max_sectors : ℕ) (same : Bool)
      → len < u32
      → IsValid bio
      → IsValid (bio_add_hw_page pf q bio page len off max_sectors same).2
  unfolding bio_add_hw_page
  bio_add_hw_page-IsValid q bio page len off max_sectors same hl v =
      grind (arith, add_hw_segment-IsValid, try_merge_hw_seg-IsValid)

  -- bio_add_page() keeps a bio valid on every branch: its size is the sum of its vectors and
  -- below 2^32, and its vectors are within their room.
  pub bio_add_page-IsValid :
      (bio : Bio) (page len off : ℕ)
      → len < u32
      → IsValid bio
      → IsValid (bio_add_page pf bio page len off).1
  unfolding bio_add_page bio_full
  bio_add_page-IsValid bio page len off hl v =
      grind (arith, try_merge_page-IsValid, push_page-IsValid)
