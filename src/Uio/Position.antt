-- ===== src/Uio/Position.antt =====
-- kernel_modification/iov_iter.c: the place of an iterator in the bytes that it started with, and
-- iov_iter_advance().
use nvme_ioctl.Prelude.{
  ℕ, ◌+◌, ◌-◌, ◌%◌, ◌≡◌, refl, sym, ap, ◌∙◌, ◌≤◌, ◌<◌, Bool, false, Option, none, some, List, [],
  ◌∷◌, arith, u64, ltb, leb, ◌==◌, take, drop, sum_by, Bool-cases, inl, inr, drop-take, drop-drop,
  drop-replicate,
}
use nvme_ioctl.Prelude.Bytes.{run, drop-run}
use nvme_ioctl.Bio.Content.{vec_start}
use nvme_ioctl.Uio.{
  Source, ubuf, iovec, kvec, bvec, discard, IovIter, skip_segs, back_segs, moved, vec_advance,
  iov_iter_advance,
}
use nvme_ioctl.Uio.Stream.{flat, whole, drop-whole, skip_segs-keeps, stream, stream_of}
use nvme_ioctl.Uio.Moves.{at}
use nvme_ioctl.Uio.Copy.Walk.{InFirst, base_of, len_of, bv_len}

-- A pointer into an array and an offset, `m` bytes behind another pointer and offset into it.
abbrev pub Behind :
    {A : Type 0} → (A → ℕ) → (A → ℕ) → List A → List A → ℕ → List A → List A → ℕ → ℕ → Type 0
Behind start len b a o b' a' o' m =
    (whole start len b' a' ≡ whole start len b a) × (sum_by len b' + o' ≡ sum_by len b + o + m)

abbrev pub Moved : Source → ℕ → Source → ℕ → ℕ → Type 0
Moved (ubuf p) o (ubuf p') o' m = (p' ≡ p) × (o' ≡ o + m)
Moved (iovec b a) o (iovec b' a') o' m = Behind base_of len_of b a o b' a' o' m
Moved (kvec b a) o (kvec b' a') o' m = Behind base_of len_of b a o b' a' o' m
Moved (bvec b a) o (bvec b' a') o' m = Behind vec_start bv_len b a o b' a' o' m
Moved discard o discard o' m = Unit
Moved _ o _ o' m = ⊥

-- The offset lies in the segment at the pointer.
abbrev pub Starts : Source → ℕ → Type 0
Starts (ubuf p) o = Unit
Starts (iovec b a) o = InFirst len_of a o
Starts (kvec b a) o = InFirst len_of a o
Starts (bvec b a) o = InFirst bv_len a o
Starts discard o = Unit

skip_segs-InFirst :
    {A : Type 0} (len : A → ℕ) (b a : List A) (n : ℕ)
    → InFirst len (skip_segs len b a n).1 (skip_segs len b a n).2
unfolding skip_segs
skip_segs-InFirst len b [] n = tt
skip_segs-InFirst len b (v ∷ r) n = elim (Bool-cases (ltb n (len v))) [
  | inl here ↦ rw here (ground (arith, here))
  | inr over ↦ rw over (skip_segs-InFirst len (v ∷ b) r (n - len v))
]

pub InFirst-back :
    {A : Type 0} (len : A → ℕ) (a : List A) (o o' : ℕ) → InFirst len a o → o' ≤ o → InFirst len a o'
InFirst-back len [] o o' h le = tt
InFirst-back len (v ∷ r) o o' h le = omega arith

abbrev pub EndsInFirst : {A : Type 0} → (A → ℕ) → Option (List A × List A × ℕ) → Type 0
EndsInFirst len none = Unit
EndsInFirst len (some (b, a, o)) = InFirst len a o

pub back_segs-InFirst :
    {A : Type 0} (len : A → ℕ) (b a : List A) (n : ℕ) → EndsInFirst len (back_segs len b a n)
unfolding back_segs
back_segs-InFirst len [] a n = tt
back_segs-InFirst len (v ∷ b) a n = elim (Bool-cases (leb n (len v))) [
  | inl here ↦ rw here (omega arith)
  | inr over ↦ rw over (back_segs-InFirst len b (v ∷ a) (n - len v))
]

-- The iterator `i'` stands `m` bytes behind where `i` stood.
pub record At (i : IovIter) (m : ℕ) (i' : IovIter) : Type 0 where
  pub place : Moved i.source i.iov_offset i'.source i'.iov_offset m
  pub passed : i'.count + m ≡ i.count
  pub first : Starts i'.source i'.iov_offset

module _ {A : Type 0} (start len : A → ℕ) where
  Behind-stream :
      (b a b' a' : List A) (o o' c c' m : ℕ)
      → Behind start len b a o b' a' o' m
      → c' + m ≡ c
      → take c' (drop o' (flat start len a')) ≡ drop m (take c (drop o (flat start len a)))
  Behind-stream b a b' a' o o' c c' m h e =
      ap (take c') (
        sym (drop-whole start len b' a' o' (sum_by len b' + o') refl)
        ∙ ap (drop (sum_by len b' + o')) h.0
        ∙ drop-whole start len b a (o + m) (sum_by len b' + o') (omega (arith, h.1))
        ∙ sym (drop-drop o m (o + m) (flat start len a) refl))
      ∙ sym (drop-take m c c' (drop o (flat start len a)) (omega (arith, e)))

Moved-stream :
    (s s' : Source) (o o' c c' m : ℕ)
    → Moved s o s' o' m
    → c' + m ≡ c
    → stream_of s' o' c' ≡ drop m (stream_of s o c)
Moved-stream (ubuf p) (ubuf p') o o' c c' m h e =
    ap (λ x. run (x + o') c') h.0
    ∙ sym (drop-run m (p + o) (p + o') c c' (omega (arith, h.1, e)) (omega (arith, e)))
Moved-stream (iovec b a) (iovec b' a') o o' c c' m h e =
    Behind-stream base_of len_of b a b' a' o o' c c' m h e
Moved-stream (kvec b a) (kvec b' a') o o' c c' m h e =
    Behind-stream base_of len_of b a b' a' o o' c c' m h e
Moved-stream (bvec b a) (bvec b' a') o o' c c' m h e =
    Behind-stream vec_start bv_len b a b' a' o o' c c' m h e
Moved-stream discard discard o o' c c' m h e = sym (drop-replicate m c c' 0 (omega (arith, e)))
Moved-stream _ _ o o' c c' m h e = absurd h

-- So it has ahead what was ahead of the other, less the first `m` bytes.
pub At-stream : (i : IovIter) (m : ℕ) (i' : IovIter) → At i m i' → stream i' ≡ drop m (stream i)
At-stream i m i' h =
    Moved-stream i.source i'.source i.iov_offset i'.iov_offset i.count i'.count m h.place h.passed

module _ (w nf : Bool) (o c n : ℕ) (moving : 0 < n) (le : n ≤ c) (small : o + c < u64) where
  advance_tests : (ltb c n ≡ false) × ((c == 0) ≡ false) × ((n + o) % u64 ≡ n + o)
  advance_tests = ground arith

  Behind-skip_segs :
      {A : Type 0} (start len : A → ℕ) (b a : List A)
      → let (b', a', o') = skip_segs len b a (n + o) in Behind start len b a o b' a' o' n
  Behind-skip_segs start len b a =
      let k = skip_segs-keeps start len b a (n + o) in (k.0, omega (arith, k.1))

  At-advance_of : (s : Source) → At (at s w nf o c) n (iov_iter_advance (at s w nf o c) n)
  unfolding iov_iter_advance vec_advance moved
  At-advance_of (ubuf p) = ground arith
  At-advance_of (iovec b a) =
      rw (advance_tests.0, advance_tests.1, advance_tests.2)
        (record {
          place = Behind-skip_segs base_of len_of b a;
          passed = omega arith;
          first = skip_segs-InFirst len_of b a (n + o);
        })
  At-advance_of (kvec b a) =
      rw (advance_tests.0, advance_tests.1, advance_tests.2)
        (record {
          place = Behind-skip_segs base_of len_of b a;
          passed = omega arith;
          first = skip_segs-InFirst len_of b a (n + o);
        })
  At-advance_of (bvec b a) =
      rw (advance_tests.0, advance_tests.1, advance_tests.2)
        (record {
          place = Behind-skip_segs vec_start bv_len b a;
          passed = omega arith;
          first = skip_segs-InFirst bv_len b a (n + o);
        })
  At-advance_of discard = ground arith

-- An advance by some bytes, no more than are ahead, leads as far behind.
pub At-iov_iter_advance :
    (i : IovIter) (n : ℕ)
    → 0 < n
    → n ≤ i.count
    → i.iov_offset + i.count < u64
    → At i n (iov_iter_advance i n)
At-iov_iter_advance i n p q r =
    At-advance_of i.data_source i.nofault i.iov_offset i.count n p q r i.source
