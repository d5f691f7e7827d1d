-- ===== src/Uio/Pages.antt =====
-- kernel_modification/iov_iter.c: pinning the pages behind the next bytes of an iterator.
use nvme_ioctl.Prelude.{
  ℕ, zero, suc, ◌+◌, ◌-◌, ◌*◌, ◌/◌, ◌%◌, Bool, true, not, Option, none, some, List, [], ◌∷◌, min, ℤ,
  pos, negsuc, enomem, efault, u32, u64, page_size, sub64, pages_of, ◌==◌, if◌then◌else◌,
}
use nvme_ioctl.Bio.{BioVec}
use nvme_ioctl.Uio.{
  Iovec, ubuf, iovec, kvec, bvec, discard, IovIter, max_rw_count, iov_iter_advance,
}

-- The memory manager. `gup` is get_user_pages_fast() from an address for so many pages, with
-- FOLL_WRITE, FOLL_NOFAULT and FOLL_PCI_P2PDMA: the number of pages pinned or an error.
-- `page_at` is the page that it pins for a page number of the address space. `kvmalloc` and
-- `kmalloc` say whether an array of so many page pointers is had.
pub record Memory : Type 0 where
  pub gup : ℕ → ℕ → Bool → Bool → Bool → ℤ
  pub page_at : ℕ → ℕ
  pub kvmalloc : ℕ → Bool
  pub kmalloc : ℕ → Bool

-- What a call came to: *start, the pinned pages, the bytes that they cover and the iterator; a
-- return value that is not positive; or a BUG().
pub data Grab : Type 0 where
  got : ℕ → List ℕ → ℕ → IovIter → Grab
  error : ℤ → Grab
  bug : Grab

-- The loop of first_iovec_segment(): the address of the next byte and the bytes there.
unfoldable pub first_segment : List Iovec → ℕ → ℕ → Option (ℕ × ℕ)
first_segment [] skip size = none
first_segment (v ∷ r) skip size =
    let len = sub64 v.len skip in
    let rest = first_segment r 0 size in
    if len == 0 then rest else some ((v.base + skip) % u64, min size len)

unfoldable pub first_iovec_segment : IovIter → ℕ → Option (ℕ × ℕ)
first_iovec_segment i size = elim i.source [
  | ubuf base ↦ some ((base + i.iov_offset) % u64, size)
  | iovec _ a ↦ first_segment a i.iov_offset size
  | _ ↦ none
]

-- want_pages_array() and want_pages_array_contiguous(), which differ in their allocator: the
-- number of pages asked for, 0 without an array.
unfoldable pub want_pages_array : (ℕ → Bool) → ℕ → ℕ → ℕ → ℕ
want_pages_array alloc size start maxpages =
    let count = min (pages_of (size + start) % u32) maxpages in if alloc count then count else 0

-- The pages `page_at p`, `page_at (p + 1)`, … of n page numbers, and n pages in a row.
abbrev pub pages_from : (ℕ → ℕ) → ℕ → ℕ → List ℕ
pages_from page_at p zero = []
pages_from page_at p (suc n) = page_at p ∷ pages_from page_at (suc p) n

module _ (mm : Memory) where
  -- The user-backed part, from the address and size of the first segment on.
  unfoldable pub pin_user : (ℕ → Bool) → IovIter → Bool → ℕ → ℕ → ℕ → Grab
  pin_user alloc i p2pdma maxpages addr maxsize =
      let start = addr % page_size in
      let n = want_pages_array alloc maxsize start maxpages in
      if n == 0
      then error enomem
      else elim (mm.gup (addr - start) n (not i.data_source) i.nofault p2pdma) [
        | negsuc e ↦ error (negsuc e)
        | pos zero ↦ error (pos 0)
        | pos (suc k) ↦
            let bytes = min maxsize (suc k * page_size - start) in
            got start (pages_from mm.page_at (addr / page_size) (suc k)) bytes
              (iov_iter_advance i bytes)
      ]

  -- The part for a bio_vec array; a step past a vector moves to the next.
  unfoldable pub grab_bvec :
      (ℕ → Bool) → IovIter → List BioVec → BioVec → List BioVec → ℕ → ℕ → Grab
  grab_bvec alloc i b v r maxpages maxsize =
      let skip = v.offset + i.iov_offset in
      let size = min maxsize (sub64 v.len i.iov_offset) in
      let start = skip % page_size in
      let n = want_pages_array alloc size start maxpages in
      let bytes = min size (n * page_size - start) in
      let next = i.iov_offset + bytes in
      if n == 0
      then error enomem
      else got start (pages_from (λ p. p) (v.page + skip / page_size) n) bytes (
          if next == v.len
          then record i { source = bvec (v ∷ b) r; iov_offset = 0; count = i.count - bytes }
          else record i { iov_offset = next; count = i.count - bytes })

  -- __iov_iter_get_pages_alloc() and its contiguous variant, with the allocator for user memory
  -- and the one for vectors left open.
  unfoldable pub get_pages_with : (ℕ → Bool) → (ℕ → Bool) → IovIter → ℕ → ℕ → Bool → Grab
  get_pages_with alloc alloc_vec i maxsize maxpages p2pdma =
      let size = min (min maxsize i.count) max_rw_count in
      let user : Grab = elim (first_iovec_segment i size) [
        | none ↦ bug
        | some (addr, len) ↦ pin_user alloc i p2pdma maxpages addr len
      ] in
      if size == 0 then error (pos 0) else elim i.source [
        | ubuf _ ↦ user
        | iovec _ _ ↦ user
        | bvec b a ↦ elim a [ [] ↦ bug | v ∷ r ↦ grab_bvec alloc_vec i b v r maxpages size ]
        | kvec _ _ ↦ error efault
        | discard ↦ error efault
      ]

  -- iov_iter_get_pages_alloc(): no bound on the pages but that of `unsigned int`.
  unfoldable pub iov_iter_get_pages_alloc : IovIter → ℕ → Bool → Grab
  iov_iter_get_pages_alloc i maxsize p2pdma =
      get_pages_with mm.kvmalloc mm.kvmalloc i maxsize (u32 - 1) p2pdma

  -- iov_iter_get_pages_alloc_contiguous(), the variant that this repository adds.
  unfoldable pub iov_iter_get_pages_alloc_contiguous : IovIter → ℕ → Bool → Grab
  iov_iter_get_pages_alloc_contiguous i maxsize p2pdma =
      get_pages_with mm.kmalloc mm.kvmalloc i maxsize (u32 - 1) p2pdma

  -- iov_iter_get_pages(), into an array of the caller's.
  unfoldable pub iov_iter_get_pages : IovIter → ℕ → ℕ → Bool → Grab
  iov_iter_get_pages i maxsize maxpages p2pdma =
      if maxpages == 0
      then error (pos 0)
      else get_pages_with (λ _. true) (λ _. true) i maxsize maxpages p2pdma
