-- ===== src/Bio/GetPages.antt =====
-- kernel_modification/bio.c: bio_iov_iter_get_pages(), which pins the pages behind an iterator and puts
-- them into a bio. The array of pages, which lies in the vectors' own room, is a list of its own.
pub mod Pages
pub mod Round
pub mod Loop
use nvme_ioctl.Prelude.{
  ℕ, zero, suc, ◌+◌, ◌-◌, ◌^◌, Bool, true, false, not, ◌&&◌, ◌||◌, Option, none, some, List, [],
  ◌∷◌, bit_and, min, ℤ, pos, is_zero, efault, u32, page_size, pages_of, ltb, ◌==◌, if◌then◌else◌,
  length, take,
}
use nvme_ioctl.Bio.{Bio, Queue, Platform, bio_full, bio_iov_add_page, bio_iov_add_zone_append_page}
use nvme_ioctl.Uio.{ubuf, iovec, kvec, bvec, discard, IovIter, iov_iter_advance, iov_iter_revert}
use nvme_ioctl.Uio.Pages.{Memory, Grab, got, error, bug, iov_iter_get_pages}
use nvme_ioctl.BlkMap.{Mapped}
use nvme_ioctl.BlkMap.Route.{bio_iov_bvec_set, reversed}

-- What the loop over the pages has done: the return code, the bio, the bytes left, the pages from
-- where it stopped and the references that it has put.
pub record Added : Type 0 where
  pub ret : ℤ
  pub bio : Bio
  pub left : ℕ
  pub rest : List ℕ
  pub puts : ℕ

-- What a call came to: the return code, the bio, the iterator and the references to pages.
pub record Got : Type 0 where
  pub ret : ℤ
  pub bio : Bio
  pub iter : IovIter
  pub refs : ℕ

module _ (pf : Platform) (q : Queue) where
  -- One page: the return code, whether its reference is put, and the bio.
  unfoldable pub add_one : Bio → ℕ → ℕ → ℕ → ℤ × Bool × Bio
  unfolding bio_iov_add_page bio_iov_add_zone_append_page
  add_one bio page len off =
      if bio.zone_append
      then bio_iov_add_zone_append_page pf q bio page len off
      else let (put, bio') = bio_iov_add_page pf bio page len off in (pos 0, put, bio')

  -- The loop of __bio_iov_iter_get_pages(); `none` is a read behind the pages.
  unfoldable pub add_pages : List ℕ → ℕ → ℕ → Bio → ℕ → Option Added
  unfolding add_one
  add_pages [] offset left bio puts =
      if left == 0
      then some (record { ret = pos 0; bio = bio; left = 0; rest = []; puts = puts })
      else none
  add_pages (page ∷ pages) offset left bio puts =
      let len = min (page_size - offset) left in
      let (ret, put, bio') = add_one bio page len offset in
      let next = add_pages pages 0 (left - len) bio' (if put then puts + 1 else puts) in
      if left == 0
      then some (record { ret = pos 0; bio = bio; left = 0; rest = page ∷ pages; puts = puts })
      else if not (is_zero ret)
      then some (record { ret = ret; bio = bio'; left = left; rest = page ∷ pages; puts = puts })
      else next

-- The part behind the loop, with `pinned` pages pinned and `refs` references held before.
unfoldable pub settle : ℕ → ℕ → IovIter → Option Added → Option Got
settle refs pinned i none = none
settle refs pinned i (some a) = elim (iov_iter_revert i a.left) [
  | none ↦ none
  | some i' ↦ some (record {
    ret = a.ret;
    bio = a.bio;
    iter = i';
    refs = refs + pinned - a.puts - length a.rest;
  })
]

-- With the logical block size of the device.
module _ (pf : Platform) (q : Queue) (mm : Memory) (p2pdma : Bool) (lbs : ℕ) where
  -- The part of __bio_iov_iter_get_pages() behind the page call; `none` is a BUG() or a read outside
  -- an array.
  unfoldable pub take_grab : Bio → IovIter → ℕ → Grab → Option Got
  unfolding add_pages settle
  take_grab bio i refs bug = none
  take_grab bio i refs (error e) =
      some (record { ret = if is_zero e then efault else e; bio = bio; iter = i; refs = refs })
  take_grab bio i refs (got offset pages size i') =
      let trim = bit_and size (lbs - 1) in
      let used = take (pages_of (offset + size)) pages in
      elim (iov_iter_revert i' trim) [
        | none ↦ none
        | some i₁ ↦
            if size - trim == 0
            then some (record {
              ret = efault;
              bio = bio;
              iter = i₁;
              refs = refs + length pages - length used;
            })
            else settle refs (length pages) i₁ (add_pages pf q used offset (size - trim) bio 0)
      ]

  -- __bio_iov_iter_get_pages()
  unfoldable pub get_pages : Bio → IovIter → ℕ → Option Got
  unfolding take_grab
  get_pages bio i refs =
      take_grab bio i refs
        (iov_iter_get_pages mm i (u32 - 1 - bio.size) (bio.max_vecs - length bio.vecs) p2pdma)

  -- The do-while loop of bio_iov_iter_get_pages(), on fuel.
  unfoldable pub get_all : ℕ → Bio → IovIter → ℕ → Option Got
  unfolding get_pages
  get_all zero bio i refs = none
  get_all (suc fuel) bio i refs = elim (get_pages bio i refs) [
    | none ↦ none
    | some g ↦ elim (is_zero g.ret && (not (g.iter.count == 0) && not (bio_full g.bio 0))) [
      | true ↦ get_all fuel g.bio g.iter g.refs
      | false ↦ some (if length g.bio.vecs == 0 then g else record g { ret = pos 0 })
    ]
  ]

  -- bio_iov_iter_get_pages() of a bio that may borrow the vectors of the iterator. Each round takes a
  -- byte or ends the loop.
  unfoldable pub bio_iov_iter_get_pages : Mapped → IovIter → ℕ → Option (ℤ × Mapped × IovIter × ℕ)
  unfolding get_all bio_iov_bvec_set
  bio_iov_iter_get_pages m i refs =
      let pinned : Option (ℤ × Mapped × IovIter × ℕ) = elim (get_all (i.count + 1) m.bio i refs) [
        | none ↦ none
        | some g ↦ some (g.ret, record m { bio = g.bio }, g.iter, g.refs)
      ] in
      elim i.source [
        | bvec b a ↦
            let m' = bio_iov_bvec_set q m i (reversed a []) in
            some (pos 0, m', iov_iter_advance i m'.bio.size, refs)
        | ubuf p ↦ pinned
        | iovec b a ↦ pinned
        | kvec b a ↦ pinned
        | discard ↦ pinned
      ]
