-- ===== src/Uio/Grab.antt =====
-- kernel_modification/iov_iter.c: what the page functions pin, and how far the iterator moves.
use nvme_ioctl.Prelude.{
  ℕ, zero, suc, ◌+◌, ◌-◌, ◌*◌, ◌/◌, ◌%◌, ◌≡◌, refl, ◌<◌, ◌≤◌, ◌⊎◌, inl, inr, Bool, true, false, not,
  Option, none, some, List, [], ◌∷◌, min, ℤ, pos, negsuc, arith, u32, u64, page_size, pages_of,
  length, Option-cases, enomem,
}
use nvme_ioctl.Uio.{
  Iovec, Source, ubuf, iovec, kvec, bvec, discard, IovIter, max_rw_count, iov_iter_advance,
  vec_advance, moved,
}
use nvme_ioctl.Uio.Pages.{
  Memory, Grab, got, error, bug, first_segment, first_iovec_segment, want_pages_array, pages_from,
  pin_user, get_pages_with, iov_iter_get_pages_alloc, iov_iter_get_pages_alloc_contiguous,
}

abbrev pub user_backed : Source → Bool
user_backed (ubuf _) = true
user_backed (iovec _ _) = true
user_backed _ = false

-- get_user_pages_fast() pins no more pages than it is asked for.
pub record Pins (mm : Memory) : Type 0 where
  pub few :
      (addr n : ℕ) (write nofault p2pdma : Bool) (k : ℕ)
      → mm.gup addr n write nofault p2pdma ≡ pos k
      → k ≤ n

-- What a successful call has pinned: as many pages as its bytes lie in, of which there is at least
-- one, within the iterator, which has moved by them.
pub record Pinned (i : IovIter) (offs : ℕ) (pages : List ℕ) (bytes : ℕ) (i' : IovIter)
    : Type 0 where
  pub some_bytes : 0 < bytes
  pub within : bytes ≤ i.count
  pub in_page : offs < page_size
  pub exact : length pages ≡ pages_of (offs + bytes)
  pub step : i' ≡ iov_iter_advance i bytes

abbrev pub Progress : IovIter → Grab → Type 0
Progress i (got offs pages bytes i') = Pinned i offs pages bytes i'
Progress i (error e) = Unit
Progress i bug = Unit

pub length-pages_from : (f : ℕ → ℕ) (p n : ℕ) → length (pages_from f p n) ≡ n
length-pages_from f p zero = refl
length-pages_from f p (suc n) = omega (arith, length-pages_from f (suc p) n)

abbrev pub Positive : Option (ℕ × ℕ) → ℕ → Type 0
Positive none size = Unit
Positive (some (addr, len)) size = (0 < len) × (len ≤ size)

pub first_segment-Positive :
    (l : List Iovec) (skip size : ℕ) → 0 < size → Positive (first_segment l skip size) size
unfolding first_segment
first_segment-Positive [] skip size h = ground arith
first_segment-Positive (v ∷ r) skip size h = ground (arith, first_segment-Positive r 0 size h)

pub count-cases : (z : ℤ) → ((k : ℕ) × (z ≡ pos (suc k))) ⊎ (z ≡ pos 0) ⊎ ((e : ℕ) × (z ≡ negsuc e))
count-cases (pos zero) = inr (inl refl)
count-cases (pos (suc k)) = inl (k, refl)
count-cases (negsuc e) = inr (inr (e, refl))

want_few :
    (alloc : ℕ → Bool) (size start maxpages : ℕ)
    → want_pages_array alloc size start maxpages ≤ pages_of (size + start)
unfolding want_pages_array
want_few alloc size start maxpages = ground arith

-- k pages from `start` on, of no more than the wanted bytes lie in, are those of the bytes.
pages-exact :
    (start size k : ℕ)
    → start < page_size
    → 0 < size
    → suc k ≤ pages_of (size + start)
    → suc k ≡ pages_of (start + min size (suc k * page_size - start))
pages-exact start size k h pos_size le = omega arith

module _ (mm : Memory) (fair : Pins mm) where
  pub pin_user-Progress :
      (alloc : ℕ → Bool) (i : IovIter) (p2pdma : Bool) (maxpages addr maxsize : ℕ)
      → 0 < maxsize
      → maxsize ≤ i.count
      → Progress i (pin_user mm alloc i p2pdma maxpages addr maxsize)
  unfolding pin_user
  pin_user-Progress alloc i p2pdma maxpages addr maxsize h le =
      let start = addr % page_size in
      let n = want_pages_array alloc maxsize start maxpages in
      elim (count-cases (mm.gup (addr - start) n (not i.data_source) i.nofault p2pdma)) [
        | inl (k, e) ↦
            let below : suc k ≤ n =
              fair.few (addr - start) n (not i.data_source) i.nofault p2pdma (suc k) e in
            let exact =
              pages-exact start maxsize k (omega arith) h
                (omega (arith, below, want_few alloc maxsize start maxpages)) in
            ground (arith, e, exact, length-pages_from mm.page_at (addr / page_size) (suc k))
        | inr (inl e) ↦ ground (arith, e)
        | inr (inr (e', e)) ↦ ground (arith, e)
      ]

  grab_from :
      (s : Source) (alloc alloc_vec : ℕ → Bool) (i : IovIter) (maxsize maxpages : ℕ) (p2pdma : Bool)
      → i.source ≡ s
      → user_backed s ≡ true
      → Progress i (get_pages_with mm alloc alloc_vec i maxsize maxpages p2pdma)
  unfolding get_pages_with first_iovec_segment
  grab_from (ubuf base) alloc alloc_vec i maxsize maxpages p2pdma e backed =
      let size = min (min maxsize i.count) max_rw_count in
      let addr = (base + i.iov_offset) % u64 in
      ground (arith, e, pin_user-Progress alloc i p2pdma maxpages addr size)
  grab_from (iovec b a) alloc alloc_vec i maxsize maxpages p2pdma e backed =
      let size = min (min maxsize i.count) max_rw_count in
      let segment = first_segment-Positive a i.iov_offset size in
      elim (Option-cases (first_segment a i.iov_offset size)) [
        | inl missing ↦ ground (arith, e, missing)
        | inr ((addr, len), found) ↦
            ground (arith, e, found, segment, pin_user-Progress alloc i p2pdma maxpages addr len)
      ]
  grab_from (kvec b a) alloc alloc_vec i maxsize maxpages p2pdma e backed = absurd (ground arith)
  grab_from (bvec b a) alloc alloc_vec i maxsize maxpages p2pdma e backed = absurd (ground arith)
  grab_from discard alloc alloc_vec i maxsize maxpages p2pdma e backed = absurd (ground arith)

  -- A page call on a user's buffer that succeeds has pinned exactly as many pages as its bytes
  -- lie in, has taken at least one byte and none past the end, and has moved the iterator by
  -- them, if get_user_pages_fast() pins no more pages than it is asked for.
  pub get_pages_with-Progress :
      (alloc alloc_vec : ℕ → Bool) (i : IovIter) (maxsize maxpages : ℕ) (p2pdma : Bool)
      → user_backed i.source ≡ true
      → Progress i (get_pages_with mm alloc alloc_vec i maxsize maxpages p2pdma)
  get_pages_with-Progress alloc alloc_vec i maxsize maxpages p2pdma backed =
      grab_from i.source alloc alloc_vec i maxsize maxpages p2pdma refl backed

module _ (mm : Memory) where
  pin_user-agrees :
      (alloc alloc' : ℕ → Bool) (i : IovIter) (p2pdma : Bool) (maxpages addr maxsize : ℕ)
      → (pin_user mm alloc i p2pdma maxpages addr maxsize ≡ error enomem)
        ⊎ (pin_user mm alloc' i p2pdma maxpages addr maxsize ≡ error enomem)
        ⊎ (pin_user mm alloc i p2pdma maxpages addr maxsize
            ≡ pin_user mm alloc' i p2pdma maxpages addr maxsize)
  unfolding pin_user want_pages_array
  pin_user-agrees alloc alloc' i p2pdma maxpages addr maxsize = ground arith

  contiguous_from :
      (s : Source) (i : IovIter) (maxsize : ℕ) (p2pdma : Bool)
      → i.source ≡ s
      → (iov_iter_get_pages_alloc_contiguous mm i maxsize p2pdma ≡ error enomem)
        ⊎ (iov_iter_get_pages_alloc mm i maxsize p2pdma ≡ error enomem)
        ⊎ (iov_iter_get_pages_alloc_contiguous mm i maxsize p2pdma
            ≡ iov_iter_get_pages_alloc mm i maxsize p2pdma)
  unfolding iov_iter_get_pages_alloc_contiguous iov_iter_get_pages_alloc get_pages_with
      first_iovec_segment
  contiguous_from (ubuf base) i maxsize p2pdma e =
      let size = min (min maxsize i.count) max_rw_count in
      let addr = (base + i.iov_offset) % u64 in
      ground (arith, e, pin_user-agrees mm.kmalloc mm.kvmalloc i p2pdma (u32 - 1) addr size)
  contiguous_from (iovec b a) i maxsize p2pdma e =
      let size = min (min maxsize i.count) max_rw_count in
      elim (Option-cases (first_segment a i.iov_offset size)) [
        | inl missing ↦ ground (arith, e, missing)
        | inr ((addr, len), found) ↦
            ground
              (arith, e, found, pin_user-agrees mm.kmalloc mm.kvmalloc i p2pdma (u32 - 1) addr len)
      ]
  contiguous_from (kvec b a) i maxsize p2pdma e = ground (arith, e)
  contiguous_from (bvec b a) i maxsize p2pdma e = ground (arith, e)
  contiguous_from discard i maxsize p2pdma e = ground (arith, e)

  -- The contiguous page call gives what the original one gives, unless one of the two answers
  -- ENOMEM.
  contiguous-agrees :
      (i : IovIter) (maxsize : ℕ) (p2pdma : Bool)
      → (iov_iter_get_pages_alloc_contiguous mm i maxsize p2pdma ≡ error enomem)
        ⊎ (iov_iter_get_pages_alloc mm i maxsize p2pdma ≡ error enomem)
        ⊎ (iov_iter_get_pages_alloc_contiguous mm i maxsize p2pdma
            ≡ iov_iter_get_pages_alloc mm i maxsize p2pdma)
  contiguous-agrees i maxsize p2pdma = contiguous_from i.source i maxsize p2pdma refl

-- An advance takes its bytes off the count and keeps the kind of the iterator.
pub advance_from :
    (s : Source) (i : IovIter) (n : ℕ)
    → i.source ≡ s
    → ((iov_iter_advance i n).count ≡ i.count - n)
      × (user_backed (iov_iter_advance i n).source ≡ user_backed s)
unfolding iov_iter_advance vec_advance moved
advance_from (ubuf base) i n e = ground (arith, e)
advance_from (iovec b a) i n e = ground (arith, e)
advance_from (kvec b a) i n e = ground (arith, e)
advance_from (bvec b a) i n e = ground (arith, e)
advance_from discard i n e = ground (arith, e)
