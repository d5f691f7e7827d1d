-- ===== src/Bio/GetPages/Pages.antt =====
-- kernel_modification/bio.c: the page call and the loop over the pages in bio_iov_iter_get_pages().
use nvme_ioctl.Prelude.{
  ℕ, ◌+◌, ◌-◌, ◌%◌, ◌≡◌, refl, ◌≤◌, ◌<◌, inl, inr, Bool, true, false, some, List, [], ◌∷◌, arith,
  min, pos, u32, u64, page_size, pages_of, ◌==◌, if◌then◌else◌, length, sum_by, List-cases,
  Bool-cases, sub64,
}
use nvme_ioctl.Bio.{Bio, Queue, Platform, bio_iov_add_page, try_merge_page, push_page}
use nvme_ioctl.Uio.{Iovec, Source, ubuf, iovec, kvec, bvec, discard, IovIter, max_rw_count}
use nvme_ioctl.Uio.Pages.{
  Memory, Grab, got, error, bug, iov_iter_get_pages, get_pages_with, first_segment,
  first_iovec_segment, pin_user,
}
use nvme_ioctl.Uio.Grab.{Pins, Progress, user_backed, get_pages_with-Progress}
use nvme_ioctl.Uio.Copy.Walk.{InFirst, InFirst-zero, len_of}
use nvme_ioctl.Uio.Copy.Whole.{ReadyOf}
use nvme_ioctl.Bio.GetPages.{Added, add_one, add_pages}

-- Where bytes are ahead, there is a segment with one.
first_segment-found :
    (l : List Iovec) (skip size : ℕ)
    → skip < sum_by len_of l
    → InFirst len_of l skip
    → sum_by len_of l < u64
    → (s : ℕ × ℕ) × (first_segment l skip size ≡ some s) × (s.1 ≤ size)
unfolding first_segment
first_segment-found [] skip size h first small = absurd (omega arith)
first_segment-found (v ∷ r) skip size h first small =
    let exact : sub64 v.len skip ≡ v.len - skip = omega arith in
    elim (Bool-cases (sub64 v.len skip == 0)) [
      | inl empty ↦
          let done : v.len ≡ skip = ground (arith, empty, exact, first) in
          let (s, e, le) =
            first_segment-found r 0 size (omega (arith, done)) (InFirst-zero len_of r)
              (omega arith) in
          (s, rw empty e, le)
      | inr here ↦ (((v.base + skip) % u64, min size (sub64 v.len skip)), rw here refl, omega arith)
    ]

-- A page call that neither meets a BUG() nor takes more bytes than it may.
abbrev pub Proper : ℕ → Grab → Type 0
Proper maxsize (got offs pages bytes i') = (bytes ≤ maxsize) × (bytes ≤ max_rw_count)
Proper maxsize (error e) = Unit
Proper maxsize bug = ⊥

pin_user-Proper :
    (mm : Memory) (alloc : ℕ → Bool) (i : IovIter) (p2pdma : Bool) (maxpages addr len maxsize : ℕ)
    → len ≤ maxsize
    → len ≤ max_rw_count
    → Proper maxsize (pin_user mm alloc i p2pdma maxpages addr len)
unfolding pin_user
pin_user-Proper mm alloc i p2pdma maxpages addr len maxsize h k = ground arith

module _ (mm : Memory) (maxsize maxpages : ℕ) (p2pdma : Bool) where
  pub iov_iter_get_pages-Proper :
      (s : Source) (i : IovIter)
      → i.source ≡ s
      → user_backed s ≡ true
      → ReadyOf s i.iov_offset i.count
      → Proper maxsize (iov_iter_get_pages mm i maxsize maxpages p2pdma)
  unfolding iov_iter_get_pages get_pages_with first_iovec_segment
  iov_iter_get_pages-Proper (ubuf p) i e backed ready =
      let size = min (min maxsize i.count) max_rw_count in
      let addr = (p + i.iov_offset) % u64 in
      ground (arith, e, pin_user-Proper mm (λ _. true) i p2pdma maxpages addr size maxsize)
  iov_iter_get_pages-Proper (iovec b a) i e backed ready =
      let size = min (min maxsize i.count) max_rw_count in
      elim (Bool-cases (i.count == 0)) [
        | inl empty ↦ ground (arith, e, empty)
        | inr ahead ↦
            let ((addr, len), found, le) =
              first_segment-found a i.iov_offset size (ground (arith, ahead, ready)) ready.1
                ready.2 in
            ground (
              arith,
              e,
              found,
              le,
              pin_user-Proper mm (λ _. true) i p2pdma maxpages addr len maxsize,
            )
      ]
  iov_iter_get_pages-Proper (kvec b a) i e backed ready = absurd (ground (arith, backed))
  iov_iter_get_pages-Proper (bvec b a) i e backed ready = absurd (ground (arith, backed))
  iov_iter_get_pages-Proper discard i e backed ready = absurd (ground (arith, backed))

  pub iov_iter_get_pages-Progress :
      (i : IovIter)
      → Pins mm
      → user_backed i.source ≡ true
      → Progress i (iov_iter_get_pages mm i maxsize maxpages p2pdma)
  unfolding iov_iter_get_pages
  iov_iter_get_pages-Progress i fair backed = ground (
    arith,
    get_pages_with-Progress mm fair (λ _. true) (λ _. true) i maxsize maxpages p2pdma backed,
  )

module _ (pf : Platform) (q : Queue) where
  add_one-size :
      (bio : Bio) (page len off : ℕ)
      → bio.zone_append ≡ false
      → bio.size + len < u32
      → let (ret, put, bio') = add_one pf q bio page len off in
        (ret ≡ pos 0) × (bio'.size ≡ bio.size + len) × (bio'.zone_append ≡ false)
  unfolding add_one bio_iov_add_page try_merge_page push_page
  add_one-size bio page len off plain fits = elim (List-cases bio.vecs) [
    | inl e ↦ ground (arith, e)
    | inr (v, r, e) ↦ ground (arith, e)
  ]

  -- The loop takes all bytes, if there are pages for them and the size can count them.
  pub add_pages-all :
      (pages : List ℕ) (offset left : ℕ) (bio : Bio) (puts : ℕ)
      → bio.zone_append ≡ false
      → bio.size + left < u32
      → offset < page_size
      → pages_of (offset + left) ≤ length pages
      → (a : Added) × (add_pages pf q pages offset left bio puts ≡ some a)
        × (a.ret ≡ pos 0)
        × (a.left ≡ 0)
        × (a.bio.size ≡ bio.size + left)
        × (a.bio.zone_append ≡ false)
  unfolding add_pages
  add_pages-all [] offset left bio puts plain fits inside room =
      let none_left : (left == 0) ≡ true = ground (arith, room) in
      (
        record { ret = pos 0; bio = bio; left = 0; rest = []; puts = puts },
        rw none_left,
        refl,
        refl,
        ground (arith, none_left),
        plain,
      )
  add_pages-all (page ∷ pages) offset left bio puts plain fits inside room =
      elim (Bool-cases (left == 0)) [
        | inl none_left ↦ (
          record { ret = pos 0; bio = bio; left = 0; rest = page ∷ pages; puts = puts },
          rw none_left,
          refl,
          refl,
          ground (arith, none_left),
          plain,
        )
        | inr more ↦
            let len = min (page_size - offset) left in
            let one = add_one pf q bio page len offset in
            let (ok, size, plain') = add_one-size bio page len offset plain (omega (arith, fits)) in
            let puts' = if one.1 then puts + 1 else puts in
            let (a, e, r₀, r₁, r₂, r₃) =
              add_pages-all pages 0 (left - len) one.2 puts' plain' (omega (arith, size, fits))
                (omega arith) (omega (arith, room, inside)) in
            (a, rw (more, ok) e, r₀, r₁, omega (arith, r₂, size), r₃)
      ]
