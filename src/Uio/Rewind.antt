-- ===== src/Uio/Rewind.antt =====
-- kernel_modification/iov_iter.c: iov_iter_revert() undoes iov_iter_advance().
use nvme_ioctl.Prelude.{
  ℕ, ◌+◌, ◌-◌, ◌%◌, ◌≡◌, refl, ◌≤◌, ◌<◌, ap, ◌∙◌, sym, Bool, false, Option, some, List, arith, take,
  drop, u64, Bool-cases, leb, ltb, ◌==◌, if◌then◌else◌, inl, inr,
}
use nvme_ioctl.Bio.Content.{vec_start}
use nvme_ioctl.Uio.{
  Source, ubuf, iovec, kvec, bvec, discard, IovIter, max_rw_count, skip_segs, moved, vec_advance,
  vec_revert, iov_iter_advance, iov_iter_revert,
}
use nvme_ioctl.Uio.Stream.{flat, near_start, far_start, stream_of, stream}
use nvme_ioctl.Uio.Moves.{at}

-- A call that came back to the bytes of `i`, and to their number.
abbrev pub Restores : IovIter → Option IovIter → Type 0
Restores i r = (i' : IovIter) × (r ≡ some i') × (stream i' ≡ stream i) × (i'.count ≡ i.count)

module _ {A : Type 0} (start len : A → ℕ) (make : List A → List A → Source)
    (view : (b a : List A) (o c : ℕ)
      → stream_of (make b a) o c ≡ take c (drop o (flat start len a)))
    (b a : List A) (w nf : Bool) (o c n : ℕ) where
  -- Where the advance has led, and what the revert does there.
  abbrev end_ : List A × List A × ℕ
  end_ = skip_segs len b a (n + o)

  abbrev back : IovIter
  back = at (make end_.0 end_.1) w nf end_.2 c

  vec-Restores : Restores (at (make b a) w nf o c) (
      if leb n end_.2
      then some (record back { iov_offset = end_.2 - n })
      else vec_revert len make end_.0 end_.1 back (n - end_.2))
  unfolding vec_revert moved
  vec-Restores = elim (Bool-cases (leb n end_.2)) [
    | inl near ↦ (
      record back { iov_offset = end_.2 - n },
      rw near,
      view end_.0 end_.1 (end_.2 - n) c
          ∙ ap (take c) (near_start start len b a o n (ground arith))
          ∙ sym (view b a o c),
      refl,
    )
    | inr far ↦
        let (b', a', o', e, same) = far_start start len b a o n (ground arith) in
        (
          at (make b' a') w nf o' c,
          rw far (rw e),
          view b' a' o' c ∙ ap (take c) same ∙ sym (view b a o c),
          refl,
        )
  ]

module _ (w nf : Bool) (o c n : ℕ) (h : o + c < u64) (le : n ≤ c) (small : n ≤ max_rw_count)
    (moving : 0 < n) where
  tests : (ltb c n ≡ false) × ((c == 0) ≡ false) × ((n == 0) ≡ false) × (ltb max_rw_count n ≡ false)
  tests = ground arith

  no_wrap : ((n + o) % u64 ≡ n + o) × ((c - n + n) % u64 ≡ c)
  no_wrap = omega arith

  any-Restores :
      (s : Source)
      → Restores (at s w nf o c) (iov_iter_revert (iov_iter_advance (at s w nf o c) n) n)
  unfolding iov_iter_revert iov_iter_advance vec_advance moved
  any-Restores (ubuf base) = (at (ubuf base) w nf o c, ground arith, refl, refl)
  any-Restores (iovec b a) =
      let (i', e, s, k) =
        vec-Restores (λ v. v.base) (λ v. v.len) iovec (λ _ _ _ _. refl) b a w nf o c n in
      (i', ap (λ t. iov_iter_revert t n) advanced ∙ rw (tests.2, tests.3, no_wrap.1) e, s, k)
    where
      advanced :
          iov_iter_advance (at (iovec b a) w nf o c) n
          ≡ at
              (iovec (skip_segs (λ v. v.len) b a (n + o)).0 (skip_segs (λ v. v.len) b a (n + o)).1)
              w
              nf
              (skip_segs (λ v. v.len) b a (n + o)).2
              (c - n)
      advanced = rw (tests.0, tests.1, no_wrap.0)
  any-Restores (kvec b a) =
      let (i', e, s, k) =
        vec-Restores (λ v. v.base) (λ v. v.len) kvec (λ _ _ _ _. refl) b a w nf o c n in
      (i', ap (λ t. iov_iter_revert t n) advanced ∙ rw (tests.2, tests.3, no_wrap.1) e, s, k)
    where
      advanced :
          iov_iter_advance (at (kvec b a) w nf o c) n
          ≡ at
              (kvec (skip_segs (λ v. v.len) b a (n + o)).0 (skip_segs (λ v. v.len) b a (n + o)).1)
              w
              nf
              (skip_segs (λ v. v.len) b a (n + o)).2
              (c - n)
      advanced = rw (tests.0, tests.1, no_wrap.0)
  any-Restores (bvec b a) =
      let (i', e, s, k) =
        vec-Restores vec_start (λ v. v.len) bvec (λ _ _ _ _. refl) b a w nf o c n in
      (i', ap (λ t. iov_iter_revert t n) advanced ∙ rw (tests.2, tests.3, no_wrap.1) e, s, k)
    where
      advanced :
          iov_iter_advance (at (bvec b a) w nf o c) n
          ≡ at
              (bvec (skip_segs (λ v. v.len) b a (n + o)).0 (skip_segs (λ v. v.len) b a (n + o)).1)
              w
              nf
              (skip_segs (λ v. v.len) b a (n + o)).2
              (c - n)
      advanced = rw (tests.0, tests.1, no_wrap.0)
  any-Restores discard = (at discard w nf o c, ground arith, refl, refl)

-- Going back by the bytes just passed, at least one and at most MAX_RW_COUNT and the count,
-- succeeds over every kind of memory, also across segments, and leads to the same bytes ahead and
-- the same count.
pub iov_iter_revert-iov_iter_advance :
    (i : IovIter) (n : ℕ)
    → i.iov_offset + i.count < u64
    → 0 < n
    → n ≤ i.count
    → n ≤ max_rw_count
    → Restores i (iov_iter_revert (iov_iter_advance i n) n)
iov_iter_revert-iov_iter_advance i n h moving le small =
    any-Restores i.data_source i.nofault i.iov_offset i.count n h le small moving i.source
