-- ===== src/Uio/Stream.antt =====
-- The abstract view of an iterator: the addresses of the bytes that it still has to pass, and its
-- place in the bytes of its whole array.
use nvme_ioctl.Prelude.{
  length, length-append, ℕ, ◌+◌, ◌-◌, ◌≡◌, refl, ◌≤◌, ◌<◌, ap, ◌∙◌, sym, some, List, [], ◌∷◌, ◌++◌,
  arith, take, drop, replicate, drop-append, Bool-cases, leb, inl, inr, sum_by,
}
use nvme_ioctl.Prelude.Bytes.{run, length-run}
use nvme_ioctl.Bio.Content.{vec_start}
use nvme_ioctl.Uio.{Source, ubuf, iovec, kvec, bvec, discard, IovIter, skip_segs, back_segs}

-- The bytes of an array of segments, each given by its start and length, and those of a whole
-- array that is cut at a pointer.
module _ {A : Type 0} (start len : A → ℕ) where
  abbrev pub flat : List A → List ℕ
  flat [] = []
  flat (s ∷ r) = run (start s) (len s) ++ flat r

  abbrev pub whole : List A → List A → List ℕ
  whole [] ahead = flat ahead
  whole (s ∷ b) ahead = whole b (s ∷ ahead)

  -- Behind the bytes before the pointer stand those from the pointer on.
  pub drop-whole :
      (b a : List A) (o n : ℕ) → n ≡ sum_by len b + o → drop n (whole b a) ≡ drop o (flat a)
  drop-whole [] a o n e = ap (λ k. drop k (flat a)) (let e' : n ≡ o = omega arith in e')
  drop-whole (s ∷ b) a o n e =
      drop-whole b (s ∷ a) (len s + o) n (omega arith)
      ∙ drop-append (run (start s) (len s)) (flat a) o (len s + o)
          (omega (arith, length-run (start s) (len s)))

  -- The loops only move the pointer: they keep the array, and the place in it by their argument.
  pub skip_segs-keeps :
      (b a : List A) (size : ℕ)
      → let (b', a', o) = skip_segs len b a size in
        (whole b' a' ≡ whole b a) × (sum_by len b' + o ≡ sum_by len b + size)
  unfolding skip_segs
  skip_segs-keeps b [] size = (refl, refl)
  skip_segs-keeps b (s ∷ r) size = ground (arith, skip_segs-keeps (s ∷ b) r (size - len s))

  pub back_segs-keeps :
      (b a : List A) (n : ℕ)
      → n ≤ sum_by len b
      → 0 < n
      → (b' a' : List A) × (o : ℕ) × (back_segs len b a n ≡ some (b', a', o))
        × (whole b' a' ≡ whole b a)
        × (sum_by len b' + o + n ≡ sum_by len b)
  unfolding back_segs
  back_segs-keeps [] a n le p = absurd (omega arith)
  back_segs-keeps (s ∷ b) a n le p = elim (Bool-cases (leb n (len s))) [
    | inl here ↦ (b, s ∷ a, len s - n, rw here, refl, ground arith)
    | inr over ↦
        let (b', a', o, e, w, t) =
          back_segs-keeps b (s ∷ a) (n - len s) (ground arith) (ground arith) in
        (b', a', o, rw over e, w, ground arith)
  ]

  -- The loop of iov_iter_iovec_advance() passes exactly `size` bytes.
  pub skip_segs-drop :
      (b a : List A) (size : ℕ)
      → let (b', a', o) = skip_segs len b a size in drop o (flat a') ≡ drop size (flat a)
  skip_segs-drop b a size =
      let (b', a', o) = skip_segs len b a size in
      let (same, place) = skip_segs-keeps b a size in
      sym (drop-whole b' a' o (sum_by len b' + o) refl)
      ∙ ap (drop (sum_by len b' + o)) same
      ∙ drop-whole b a size (sum_by len b' + o) place

  -- Going back the bytes that a skip has passed leads to the bytes that were ahead, within the
  -- segment where the skip ended or over the start of it.
  module _ (b a : List A) (off n : ℕ) where
    abbrev end_ : List A × List A × ℕ
    end_ = skip_segs len b a (n + off)

    pub near_start : n ≤ end_.2 → drop (end_.2 - n) (flat end_.1) ≡ drop off (flat a)
    near_start le =
        let (same, place) = skip_segs-keeps b a (n + off) in
        sym (drop-whole end_.0 end_.1 (end_.2 - n) (sum_by len b + off) (omega arith))
        ∙ ap (drop (sum_by len b + off)) same
        ∙ drop-whole b a off (sum_by len b + off) refl

    pub far_start :
        end_.2 < n
        → (b' a' : List A) × (o : ℕ) × (back_segs len end_.0 end_.1 (n - end_.2) ≡ some (b', a', o))
          × (drop o (flat a') ≡ drop off (flat a))
    far_start lt =
        let (same, place) = skip_segs-keeps b a (n + off) in
        let (b', a', o, e, w, t) =
          back_segs-keeps end_.0 end_.1 (n - end_.2) (omega arith) (omega arith) in
        (
          b',
          a',
          o,
          e,
          sym (drop-whole b' a' o (sum_by len b + off) (omega arith))
              ∙ ap (drop (sum_by len b + off)) (w ∙ same)
              ∙ drop-whole b a off (sum_by len b + off) refl,
        )

-- The bytes ahead, in order. What a discarding iterator passes is no memory.
abbrev pub stream_of : Source → ℕ → ℕ → List ℕ
stream_of (ubuf base) o c = run (base + o) c
stream_of (iovec b a) o c = take c (drop o (flat (λ v. v.base) (λ v. v.len) a))
stream_of (kvec b a) o c = take c (drop o (flat (λ v. v.base) (λ v. v.len) a))
stream_of (bvec b a) o c = take c (drop o (flat vec_start (λ v. v.len) a))
stream_of discard o c = replicate c 0

abbrev pub stream : IovIter → List ℕ
stream i = stream_of i.source i.iov_offset i.count

pub length-flat :
    {A : Type 0} (start len : A → ℕ) (l : List A) → length (flat start len l) ≡ sum_by len l
length-flat start len [] = refl
length-flat start len (v ∷ r) = omega (
  arith,
  length-append (run (start v) (len v)) (flat start len r),
  length-run (start v) (len v),
  length-flat start len r,
)
