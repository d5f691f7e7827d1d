-- ===== src/Uio/Back.antt =====
-- kernel_modification/iov_iter.c: the place of an iterator under iov_iter_revert().
use nvme_ioctl.Prelude.{
  ℕ, zero, suc, ◌+◌, ◌-◌, ◌%◌, ◌≡◌, refl, ◌∙◌, ◌≤◌, ◌<◌, Bool, false, Option, some, List, arith,
  u64, ltb, leb, ◌==◌, Bool-cases, inl, inr, if◌then◌else◌,
}
use mathlib.Core.Path.{subst}
use nvme_ioctl.Bio.Content.{vec_start}
use nvme_ioctl.Uio.{
  Source, ubuf, iovec, kvec, bvec, discard, IovIter, max_rw_count, moved, vec_revert,
  iov_iter_revert,
}
use nvme_ioctl.Uio.Stream.{back_segs-keeps}
use nvme_ioctl.Uio.Moves.{at}
use nvme_ioctl.Uio.Copy.Walk.{InFirst, base_of, len_of, bv_len}
use nvme_ioctl.Uio.Position.{
  Behind, Moved, Starts, InFirst-back, EndsInFirst, back_segs-InFirst, At,
}

module _ (w nf : Bool) (o o' c' m k : ℕ) (moving : 0 < k) (le : k ≤ m) (few : k ≤ max_rw_count)
    (small : c' + k < u64) where
  revert_tests : ((k == 0) ≡ false) × (ltb max_rw_count k ≡ false) × ((c' + k) % u64 ≡ c' + k)
  revert_tests = ground arith

  -- The iterator is `k` bytes nearer to where the other stood.
  abbrev Nearer : Source → Option IovIter → Type 0
  Nearer s res =
      (s'' : Source) × (o'' : ℕ) × (res ≡ some (at s'' w nf o'' (c' + k)))
      × Moved s o s'' o'' (m - k)
      × Starts s'' o''

  module _ {A : Type 0} (start len : A → ℕ) (make : List A → List A → Source) (b a b' a' : List A)
      (h : Behind start len b a o b' a' o' m) (first : InFirst len a' o') where
    abbrev back : IovIter
    back = at (make b' a') w nf o' (c' + k)

    vec-Nearer :
        (b'' a'' : List A) × (o'' : ℕ) × ((if leb k o'
            then some (record back { iov_offset = o' - k })
            else vec_revert len make b' a' back (k - o'))
          ≡ some (at (make b'' a'') w nf o'' (c' + k)))
        × Behind start len b a o b'' a'' o'' (m - k)
        × InFirst len a'' o''
    unfolding vec_revert moved
    vec-Nearer = elim (Bool-cases (leb k o')) [
      | inl near ↦ (
        b',
        a',
        o' - k,
        rw near,
        (h.0, ground (arith, near, h.1)),
        InFirst-back len a' o' (o' - k) first (omega arith),
      )
      | inr far ↦
          let over : o' < k = ground (arith, far) in
          let (b'', a'', o'', e, same, place) =
            back_segs-keeps start len b' a' (k - o') (omega (arith, h.1, over))
              (omega (arith, over)) in
          (
            b'',
            a'',
            o'',
            rw (far, e),
            (same ∙ h.0, omega (arith, place, h.1, over)),
            subst (EndsInFirst len) e (back_segs-InFirst len b' a' (k - o')),
          )
    ]

  Nearer-revert :
      (s s' : Source)
      → Moved s o s' o' m
      → Starts s' o'
      → Nearer s (iov_iter_revert (at s' w nf o' c') k)
  unfolding iov_iter_revert
  Nearer-revert (ubuf p) (ubuf p') h f =
      (ubuf p', o' - k, ground (arith, h), (h.0, omega (arith, h.1)), tt)
  Nearer-revert (iovec b a) (iovec b' a') h f =
      let (b'', a'', o'', e, place, starts) = vec-Nearer base_of len_of iovec b a b' a' h f in
      (iovec b'' a'', o'', rw (revert_tests.0, revert_tests.1, revert_tests.2) e, place, starts)
  Nearer-revert (kvec b a) (kvec b' a') h f =
      let (b'', a'', o'', e, place, starts) = vec-Nearer base_of len_of kvec b a b' a' h f in
      (kvec b'' a'', o'', rw (revert_tests.0, revert_tests.1, revert_tests.2) e, place, starts)
  Nearer-revert (bvec b a) (bvec b' a') h f =
      let (b'', a'', o'', e, place, starts) = vec-Nearer vec_start bv_len bvec b a b' a' h f in
      (bvec b'' a'', o'', rw (revert_tests.0, revert_tests.1, revert_tests.2) e, place, starts)
  Nearer-revert discard discard h f = (discard, o', ground arith, tt, tt)
  Nearer-revert _ _ h f = absurd h

-- A revert by some bytes, no more than the iterator has passed and MAX_RW_COUNT, succeeds and leads as
-- far back, also across segments.
pub At-iov_iter_revert :
    (i i' : IovIter) (m k : ℕ)
    → At i m i'
    → k ≤ m
    → k ≤ max_rw_count
    → i.count < u64
    → (i'' : IovIter) × (iov_iter_revert i' k ≡ some i'') × At i (m - k) i''
unfolding iov_iter_revert
At-iov_iter_revert i i' m zero h le few small = (
  i',
  refl,
  record {
    place =
        subst (λ n. Moved i.source i.iov_offset i'.source i'.iov_offset n)
          (let e : m ≡ m - 0 = omega arith in e) h.place;
    passed = omega (arith, h.passed);
    first = h.first;
  },
)
At-iov_iter_revert i i' m (suc k) h le few small =
    let (s'', o'', e, place, starts) =
      Nearer-revert i'.data_source i'.nofault i.iov_offset i'.iov_offset i'.count m (suc k)
        (omega arith) le few (omega (arith, h.passed, le)) i.source i'.source h.place h.first in
    (
      at s'' i'.data_source i'.nofault o'' (i'.count + suc k),
      e,
      record { place = place; passed = omega (arith, h.passed, le); first = starts },
    )
