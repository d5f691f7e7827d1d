-- ===== src/Uio/Moves.antt =====
-- kernel_modification/iov_iter.c: iov_iter_advance() and iov_iter_revert() as moves along the
-- bytes of an iterator.
use nvme_ioctl.Prelude.{
  ℕ, zero, suc, ◌+◌, ◌-◌, ◌%◌, ◌≡◌, refl, ◌≤◌, ◌<◌, ap, ◌∙◌, sym, Bool, List, arith, take, drop,
  u64, drop-take, drop-drop, drop-replicate, Bool-cases, ltb, ◌==◌, drop-nil, if◌then◌else◌, ◌⊎◌,
  inl, inr,
}
use nvme_ioctl.Prelude.Bytes.{drop-run}
use nvme_ioctl.Bio.Content.{vec_start}
use nvme_ioctl.Uio.{
  Source, ubuf, iovec, kvec, bvec, discard, IovIter, skip_segs, moved, vec_advance,
  iov_iter_advance,
}
use nvme_ioctl.Uio.Stream.{flat, skip_segs-drop, stream_of, stream}

-- The bytes ahead of `size + off` are those ahead of `off` less the first `n`, where `size` is `n`
-- cut to the count.
taken-drop :
    (l l' : List ℕ) (n off c size : ℕ)
    → l' ≡ drop (size + off) l
    → ((n ≤ c) × (size ≡ n)) ⊎ ((c < n) × (size ≡ c))
    → take (c - size) l' ≡ drop n (take c (drop off l))
taken-drop l l' n off c size e (inl (le, s)) =
    ap (take (c - size)) (e ∙ sym (drop-drop off n (size + off) l (omega arith)))
    ∙ sym (drop-take n c (c - size) (drop off l) (omega arith))
taken-drop l l' n off c size e (inr (lt, s)) =
    ap (λ k. take k l') (let z : c - size ≡ 0 = omega arith in z)
    ∙ sym (drop-take n c 0 (drop off l) (omega arith))

nothing_ahead : (c n : ℕ) (l : List ℕ) → c ≡ 0 → take c l ≡ drop n (take c l)
nothing_ahead zero n l e = sym (drop-nil n)
nothing_ahead (suc c) n l e = absurd (omega arith)

abbrev pub at : Source → Bool → Bool → ℕ → ℕ → IovIter
at s w nf o c = record { source = s; data_source = w; nofault = nf; iov_offset = o; count = c }

module _ {A : Type 0} (start len : A → ℕ) (make : List A → List A → Source)
    (view : (b a : List A) (o c : ℕ)
      → stream_of (make b a) o c ≡ take c (drop o (flat start len a))) where
  vec_advance-stream :
      (b a : List A) (w nf : Bool) (o c n size : ℕ)
      → o + c < u64
      → ((n ≤ c) × (size ≡ n)) ⊎ ((c < n) × (size ≡ c))
      → stream (vec_advance len make b a (at (make b a) w nf o c) size)
        ≡ drop n (stream_of (make b a) o c)
  unfolding vec_advance moved
  vec_advance-stream b a w nf o c n size h cut =
      let total = (size + o) % u64 in
      let (b', a', o') = skip_segs len b a total in
      let exact : total ≡ size + o = ground arith in
      let after =
        taken-drop (flat start len a) (drop o' (flat start len a')) n o c size
          (skip_segs-drop start len b a total ∙ ap (λ k. drop k (flat start len a)) exact) cut in
      elim (Bool-cases (c == 0)) [
        | inl none_left ↦
            rw none_left
              (view b a o c ∙ nothing_ahead c n _ (ground arith) ∙ sym (ap (drop n) (view b a o c)))
        | inr some_left ↦
            rw some_left (view b' a' o' (c - size) ∙ after ∙ sym (ap (drop n) (view b a o c)))
      ]

cut_cases :
    (c n : ℕ)
    → let size = if ltb c n then c else n in ((n ≤ c) × (size ≡ n)) ⊎ ((c < n) × (size ≡ c))
cut_cases c n = ground arith

advance-stream_of :
    (s : Source) (w nf : Bool) (o c n : ℕ)
    → o + c < u64
    → stream (iov_iter_advance (at s w nf o c) n) ≡ drop n (stream_of s o c)
unfolding iov_iter_advance
advance-stream_of (ubuf base) w nf o c n h =
    sym (drop-run n (base + o) _ c _ (ground arith) (ground arith))
advance-stream_of (iovec b a) w nf o c n h =
    vec_advance-stream (λ v. v.base) (λ v. v.len) iovec (λ _ _ _ _. refl) b a w nf o c n _ h
      (cut_cases c n)
advance-stream_of (kvec b a) w nf o c n h =
    vec_advance-stream (λ v. v.base) (λ v. v.len) kvec (λ _ _ _ _. refl) b a w nf o c n _ h
      (cut_cases c n)
advance-stream_of (bvec b a) w nf o c n h =
    vec_advance-stream vec_start (λ v. v.len) bvec (λ _ _ _ _. refl) b a w nf o c n _ h
      (cut_cases c n)
advance-stream_of discard w nf o c n h = sym (drop-replicate n c _ 0 (ground arith))

-- iov_iter_advance() by `n` drops the next `n` bytes, all of them if there are fewer, whatever
-- the iterator is over, as long as its offset and count fit in 64 bits together.
pub stream-iov_iter_advance :
    (i : IovIter) (n : ℕ)
    → i.iov_offset + i.count < u64
    → stream (iov_iter_advance i n) ≡ drop n (stream i)
stream-iov_iter_advance i n h =
    advance-stream_of i.source i.data_source i.nofault i.iov_offset i.count n h
