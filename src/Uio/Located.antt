-- ===== src/Uio/Located.antt =====
-- kernel_modification/iov_iter.c: which pages the page functions pin.
use nvme_ioctl.Prelude.{
  ℕ, zero, suc, ◌+◌, ◌-◌, ◌*◌, ◌/◌, ◌%◌, ◌≡◌, refl, sym, ap, ◌∙◌, ◌<◌, ◌≤◌, inl, inr, Bool, true,
  not, Option, none, some, List, [], ◌∷◌, min, arith, u64, page_size, sub64, ◌==◌, length, take,
  drop, sum_by, All, Option-cases, Bool-cases,
}
use nvme_ioctl.Prelude.Bytes.{run}
use nvme_ioctl.Uio.{Iovec, Source, ubuf, iovec, kvec, bvec, discard, IovIter, max_rw_count}
use mathlib.Core.Path.{subst}
use nvme_ioctl.Uio.Stream.{flat, stream, stream_of}
use nvme_ioctl.Uio.Pages.{
  Memory, Grab, got, error, bug, first_segment, first_iovec_segment, want_pages_array, pages_from,
  pin_user, get_pages_with,
}
use nvme_ioctl.Uio.Grab.{
  user_backed, Pins, Pinned, pin_user-Progress, count-cases, Positive, first_segment-Positive,
  length-pages_from,
}
use nvme_ioctl.Uio.Copy.Walk.{InFirst, InFirst-zero, base_of, len_of, take_front, drop_front}
use nvme_ioctl.Uio.Copy.Whole.{Ready, ReadyOf, take-take}

-- The user's segments end at 2^64 at most.
abbrev InSpaceOf : Source → ℕ → ℕ → Type 0
InSpaceOf (ubuf p) o c = p + o + c ≤ u64
InSpaceOf (iovec b a) o c = All (λ v. v.base + v.len ≤ u64) a
InSpaceOf (kvec b a) o c = Unit
InSpaceOf (bvec b a) o c = Unit
InSpaceOf discard o c = Unit

abbrev pub InSpace : IovIter → Type 0
InSpace i = InSpaceOf i.source i.iov_offset i.count

-- The bytes are the next ones that the iterator has ahead, from the address `a` on in a row, and the
-- pages are those that hold them, in their order.
abbrev pub PagesOf : Memory → IovIter → ℕ → List ℕ → ℕ → Type 0
PagesOf mm i offs pages bytes =
    (a : ℕ) × (take bytes (stream i) ≡ run a bytes)
    × (offs ≡ a % page_size)
    × (pages ≡ pages_from mm.page_at (a / page_size) (length pages))

abbrev pub Located : Memory → IovIter → Grab → Type 0
Located mm i (got offs pages bytes i') =
    Pinned i offs pages bytes i' × PagesOf mm i offs pages bytes
Located mm i (error e) = Unit
Located mm i bug = Unit

-- What is ahead in a row.
abbrev Ahead : List ℕ → Option (ℕ × ℕ) → Type 0
Ahead l none = Unit
Ahead l (some (addr, len)) = (n : ℕ) → n ≤ len → take n l ≡ run addr n

first_segment-Ahead :
    (l : List Iovec) (skip size c : ℕ)
    → size ≤ c
    → InFirst len_of l skip
    → sum_by len_of l < u64
    → All (λ v. v.base + v.len ≤ u64) l
    → Ahead (take c (drop skip (flat base_of len_of l))) (first_segment l skip size)
unfolding first_segment
first_segment-Ahead [] skip size c le first small space = tt
first_segment-Ahead (v ∷ r) skip size c le first small space =
    let exact : sub64 v.len skip ≡ v.len - skip = omega arith in
    elim (Bool-cases (sub64 v.len skip == 0)) [
      | inl empty ↦
          let passed : v.len ≡ skip + 0 = ground (arith, empty, exact, first) in
          let gone =
            drop_front skip v.base v.len (v.base + skip) 0 (flat base_of len_of r) refl passed in
          let rest =
            first_segment-Ahead r 0 size c le (InFirst-zero len_of r) (omega arith) space.1 in
          rw (empty, gone) rest
      | inr more ↦
          let some_left : 0 < v.len - skip = ground (arith, more, exact) in
          let addr : (v.base + skip) % u64 ≡ v.base + skip = omega (arith, some_left, space.0) in
          let gone =
            drop_front skip v.base v.len (v.base + skip) (v.len - skip) (flat base_of len_of r) refl
              (omega arith) in
          rw (more, addr, gone)
            (λ n h.
              take-take n c _ (omega (arith, h, le))
              ∙ take_front n (v.base + skip) (v.len - skip) (flat base_of len_of r)
                  (omega (arith, h, exact)))
    ]

take-run : (k a n : ℕ) → k ≤ n → take k (run a n) ≡ run a k
take-run zero a n h = refl
take-run (suc k) a zero h = absurd (omega arith)
take-run (suc k) a (suc n) h = ap (λ l. a ∷ l) (take-run k (suc a) n (omega arith))

module _ (mm : Memory) (fair : Pins mm) where
  pin_user-Located :
      (alloc : ℕ → Bool) (i : IovIter) (p2pdma : Bool) (maxpages addr maxsize : ℕ)
      → 0 < maxsize
      → maxsize ≤ i.count
      → ((n : ℕ) → n ≤ maxsize → take n (stream i) ≡ run addr n)
      → Located mm i (pin_user mm alloc i p2pdma maxpages addr maxsize)
  unfolding pin_user
  pin_user-Located alloc i p2pdma maxpages addr maxsize h le ahead =
      let start = addr % page_size in
      let n = want_pages_array alloc maxsize start maxpages in
      let went = pin_user-Progress mm fair alloc i p2pdma maxpages addr maxsize h le in
      elim (Bool-cases (n == 0)) [
        | inl no_array ↦ rw no_array tt
        | inr array ↦
            elim (count-cases (mm.gup (addr - start) n (not i.data_source) i.nofault p2pdma)) [
              | inl (k, e) ↦
                  let bytes = min maxsize (suc k * page_size - start) in
                  let all : pages_from mm.page_at (addr / page_size) (suc k)
                      ≡ pages_from mm.page_at (addr / page_size)
                          (length (pages_from mm.page_at (addr / page_size) (suc k))) =
                    ap (pages_from mm.page_at (addr / page_size))
                      (sym (length-pages_from mm.page_at (addr / page_size) (suc k))) in
                  rw (array, e)
                    (ground (arith, went, array, e), (addr, ahead bytes (omega arith), refl, all))
              | inr (inl e) ↦ rw (array, e) tt
              | inr (inr (e', e)) ↦ rw (array, e) tt
            ]
      ]

  pages_by_source :
      (s : Source) (alloc alloc_vec : ℕ → Bool) (i : IovIter) (maxsize maxpages : ℕ) (p2pdma : Bool)
      → i.source ≡ s
      → user_backed s ≡ true
      → ReadyOf s i.iov_offset i.count
      → InSpaceOf s i.iov_offset i.count
      → Located mm i (get_pages_with mm alloc alloc_vec i maxsize maxpages p2pdma)
  unfolding get_pages_with first_iovec_segment
  pages_by_source (ubuf base) alloc alloc_vec i maxsize maxpages p2pdma e backed ready space =
      let size = min (min maxsize i.count) max_rw_count in
      let ahead : stream i ≡ run (base + i.iov_offset) i.count =
        ap (λ s. stream_of s i.iov_offset i.count) e in
      elim (Bool-cases (size == 0)) [
        | inl nothing ↦ ground (arith, nothing)
        | inr more ↦
            let some_bytes : 0 < size = ground (arith, more) in
            let addr : (base + i.iov_offset) % u64 ≡ base + i.iov_offset =
              omega (arith, some_bytes, space) in
            let opens : get_pages_with mm alloc alloc_vec i maxsize maxpages p2pdma
                ≡ pin_user mm alloc i p2pdma maxpages (base + i.iov_offset) size =
              ground (arith, e, more, addr) in
            subst (Located mm i) (sym opens) (
              pin_user-Located alloc i p2pdma maxpages (base + i.iov_offset) size some_bytes
                (omega arith)
                (λ n h.
                  ap (take n) ahead ∙ take-run n (base + i.iov_offset) i.count (omega (arith, h))))
      ]
  pages_by_source (iovec b a) alloc alloc_vec i maxsize maxpages p2pdma e backed ready space =
      let size = min (min maxsize i.count) max_rw_count in
      let ahead : stream i ≡ take i.count (drop i.iov_offset (flat base_of len_of a)) =
        ap (λ s. stream_of s i.iov_offset i.count) e in
      let found =
        first_segment-Ahead a i.iov_offset size i.count (omega arith) ready.1 ready.2 space in
      elim (Bool-cases (size == 0)) [
        | inl nothing ↦ ground (arith, nothing)
        | inr more ↦
            let some_bytes : 0 < size = ground (arith, more) in
            let segment = first_segment-Positive a i.iov_offset size some_bytes in
            elim (Option-cases (first_segment a i.iov_offset size)) [
              | inl missing ↦ ground (arith, e, more, missing)
              | inr ((addr, len), there) ↦
                  let (pos_len, le) : (0 < len) × (len ≤ size) =
                    subst (λ s. Positive s size) there segment in
                  let row : (n : ℕ)
                      → n ≤ len
                      → take n (take i.count (drop i.iov_offset (flat base_of len_of a)))
                        ≡ run addr n =
                    subst (Ahead (take i.count (drop i.iov_offset (flat base_of len_of a)))) there
                      found in
                  let opens : get_pages_with mm alloc alloc_vec i maxsize maxpages p2pdma
                      ≡ pin_user mm alloc i p2pdma maxpages addr len =
                    ground (arith, e, more, there) in
                  subst (Located mm i) (sym opens) (
                    pin_user-Located alloc i p2pdma maxpages addr len pos_len (omega (arith, le))
                      (λ n h. ap (take n) ahead ∙ row n h))
            ]
      ]
  pages_by_source (kvec b a) alloc alloc_vec i maxsize maxpages p2pdma e backed ready space =
      absurd (ground arith)
  pages_by_source (bvec b a) alloc alloc_vec i maxsize maxpages p2pdma e backed ready space =
      absurd (ground arith)
  pages_by_source discard alloc alloc_vec i maxsize maxpages p2pdma e backed ready space =
      absurd (ground arith)

  -- A page call on a user's buffer that succeeds takes the bytes next ahead of the iterator, which lie in
  -- a row, at least one and none past the end; it has pinned exactly the pages that hold them, in their
  -- order, gives the offset of the first byte in the first page, and has moved the iterator by them. The
  -- bytes ahead lie in the iterator's segments and these below 2^64, and get_user_pages_fast() pins no
  -- more pages than it is asked for.
  pub get_pages_with-Located :
      (alloc alloc_vec : ℕ → Bool) (i : IovIter) (maxsize maxpages : ℕ) (p2pdma : Bool)
      → user_backed i.source ≡ true
      → Ready i
      → InSpace i
      → Located mm i (get_pages_with mm alloc alloc_vec i maxsize maxpages p2pdma)
  get_pages_with-Located alloc alloc_vec i maxsize maxpages p2pdma backed ready space =
      pages_by_source i.source alloc alloc_vec i maxsize maxpages p2pdma refl backed ready space
