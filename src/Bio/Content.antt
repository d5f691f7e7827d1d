-- ===== src/Bio/Content.antt =====
-- The bytes that a bio covers. Merging into the last vector and adding a vector both append the
-- same bytes, so no caller sees which of them the code chose.
use nvme_ioctl.Prelude.{
  ℕ, ◌+◌, ◌%◌, ◌≡◌, ◌<◌, ◌≤◌, ◌⊎◌, inl, inr, Bool, true, false, List, [], ◌∷◌, ◌++◌, sym,
  append_assoc, arith, u32, u64, All, List-cases,
}
use nvme_ioctl.Prelude.Bytes.{run, run-append}
use nvme_ioctl.Bio.Invariant.{IsValid}
use nvme_ioctl.Bio.{
  BioVec, Bio, Queue, Platform, page_is_mergeable, page_to_phys, try_merge_page, try_merge_hw_seg,
  push_page, add_hw_segment, bio_add_hw_page, bio_add_page,
}

-- The physical addresses of the bytes of a vector, and of the vectors of a bio in order.
abbrev pub vec_start : BioVec → ℕ
vec_start v = page_to_phys v.page + v.offset

abbrev pub vecs_bytes : List BioVec → List ℕ
vecs_bytes [] = []
vecs_bytes (v ∷ vs) = vecs_bytes vs ++ run (vec_start v) v.len

abbrev pub bytes : Bio → List ℕ
bytes bio = vecs_bytes bio.vecs

-- The bytes of a vector end at 2^64 at most, `unsigned int` holds the offset of their end in the
-- page, and there is one.
pub record InMemory (v : BioVec) : Type 0 where
  pub below : page_to_phys v.page + v.offset + v.len ≤ u64
  pub one_word : v.offset + v.len < u32
  pub some_bytes : 0 < v.len

-- What an add function that may refuse has done: nothing, or it has appended the run.
abbrev pub Appends : Bio → ℕ → ℕ → ℕ → ℕ × Bio → Type 0
Appends bio page len off (n, bio') =
    ((n ≡ 0) × (bio' ≡ bio))
    ⊎ ((n ≡ len) × (bytes bio' ≡ bytes bio ++ run (page_to_phys page + off) len))

vecs_bytes-grown :
    (bv : BioVec) (rest : List BioVec) (addr len : ℕ)
    → bv.len + len < u32
    → vec_start bv + bv.len ≡ addr
    → vecs_bytes ((record bv { len = (bv.len + len) % u32 }) ∷ rest)
      ≡ vecs_bytes (bv ∷ rest) ++ run addr len
vecs_bytes-grown bv rest addr len fits adj =
    let e : (bv.len + len) % u32 ≡ bv.len + len = omega arith in
    rw (e, ← run-append (vec_start bv) addr bv.len len adj)
      (sym (append_assoc (vecs_bytes rest) _ _))

module _ (pf : Platform) where
  mergeable-adjoins :
      (bv : BioVec) (page off : ℕ) (same : Bool)
      → InMemory bv
      → page_to_phys page + off < u64
      → (page_is_mergeable pf bv page off same).0 ≡ true
      → vec_start bv + bv.len ≡ page_to_phys page + off
  unfolding page_is_mergeable
  mergeable-adjoins bv page off same m h e = ground arith

  try_merge_page-bytes :
      (bio : Bio) (page len off : ℕ) (same : Bool)
      → All InMemory bio.vecs
      → IsValid bio
      → len < u32
      → page_to_phys page + off < u64
      → (try_merge_page pf bio page len off same).0 ≡ true
      → bytes (try_merge_page pf bio page len off same).2
        ≡ bytes bio ++ run (page_to_phys page + off) len
  unfolding try_merge_page
  try_merge_page-bytes bio page len off same m v hl h e = elim (List-cases bio.vecs) [
    | inl empty ↦ ground arith
    | inr (bv, rest, split) ↦ ground (
      arith,
      mergeable-adjoins bv page off same,
      vecs_bytes-grown bv rest (page_to_phys page + off) len,
    )
  ]

  add_hw_segment-Appends :
      (q : Queue) (bio : Bio) (page len off : ℕ) (same : Bool)
      → let (n, _, bio') = add_hw_segment q bio page len off same in
        Appends bio page len off (n, bio')
  unfolding add_hw_segment push_page
  add_hw_segment-Appends q bio page len off same = ground arith

  try_merge_page-refused :
      (bio : Bio) (page len off : ℕ) (same : Bool)
      → (try_merge_page pf bio page len off same).0 ≡ false
      → (try_merge_page pf bio page len off same).2 ≡ bio
  unfolding try_merge_page
  try_merge_page-refused bio page len off same e = ground arith

  module _ (bio : Bio) (page len off : ℕ) (m : All InMemory bio.vecs) (v : IsValid bio)
      (hl : len < u32) (h : page_to_phys page + off < u64) where
    -- bio_add_hw_page() returns 0 and leaves the bio alone, or returns `len` and the bio covers
    -- exactly the added bytes behind those that it covered before, if the bio is valid, its
    -- vectors and the added bytes lie in memory, and every vector ends at an offset below 2^32.
    pub bio_add_hw_page-Appends :
        (q : Queue) (max_sectors : ℕ) (same : Bool)
        → let (n, _, bio') = bio_add_hw_page pf q bio page len off max_sectors same in
          Appends bio page len off (n, bio')
    unfolding bio_add_hw_page try_merge_hw_seg
    bio_add_hw_page-Appends q max_sectors same = ground (
      arith,
      add_hw_segment-Appends q bio page len off same,
      add_hw_segment-Appends q bio page len off (try_merge_page pf bio page len off same).1,
      try_merge_page-refused bio page len off same,
      try_merge_page-bytes bio page len off same m v hl h,
    )

    -- bio_add_page() returns 0 and leaves the bio alone, or returns `len` and the bio covers
    -- exactly the added bytes behind those that it covered before, if the bio is valid and its
    -- vectors and the added bytes lie in memory.
    pub bio_add_page-Appends : Appends bio page len off (bio_add_page pf bio page len off)
    unfolding bio_add_page push_page
    bio_add_page-Appends = ground (
      arith,
      try_merge_page-refused bio page len off false,
      try_merge_page-bytes bio page len off false m v hl h,
    )
