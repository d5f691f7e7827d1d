-- ===== src/Uio/Steady.antt =====
-- kernel_modification/iov_iter.c: iterators over a user's buffer that stay usable wherever they move.
use nvme_ioctl.Prelude.{
  ℕ, ◌+◌, ◌≡◌, refl, sym, ap, ◌∙◌, ◌≤◌, ◌<◌, true, List, [], ◌∷◌, arith, u64, length, sum_by,
}
use nvme_ioctl.Uio.{Source, ubuf, iovec, kvec, bvec, discard, IovIter}
use nvme_ioctl.Uio.Stream.{length-flat, whole}
use nvme_ioctl.Uio.Position.{At, Moved, Starts}
use nvme_ioctl.Uio.Grab.{user_backed}
use nvme_ioctl.Uio.Copy.Walk.{InFirst, base_of, len_of}
use nvme_ioctl.Uio.Copy.Whole.{Ready, ReadyOf}

-- A user's buffer whose segments hold the bytes ahead, and whose words can count all of it.
abbrev SteadyOf : Source → ℕ → ℕ → Type 0
SteadyOf (ubuf p) o c = o + c < u64
SteadyOf (iovec b a) o c =
    (o + c ≤ sum_by len_of a) × InFirst len_of a o × (sum_by len_of b + sum_by len_of a < u64)
SteadyOf (kvec b a) o c = ⊥
SteadyOf (bvec b a) o c = ⊥
SteadyOf discard o c = ⊥

abbrev pub Steady : IovIter → Type 0
Steady i = SteadyOf i.source i.iov_offset i.count

length-whole :
    {A : Type 0} (start len : A → ℕ) (b a : List A)
    → length (whole start len b a) ≡ sum_by len b + sum_by len a
length-whole start len [] a = omega (arith, length-flat start len a)
length-whole start len (v ∷ b) a = omega (arith, length-whole start len b (v ∷ a))

steady_from :
    (s s' : Source) (o o' c c' m : ℕ)
    → Moved s o s' o' m
    → c' + m ≡ c
    → Starts s' o'
    → SteadyOf s o c
    → SteadyOf s' o' c'
steady_from (ubuf p) (ubuf p') o o' c c' m h e f r = omega (arith, h.1, e, r)
steady_from (iovec b a) (iovec b' a') o o' c c' m h e f r =
    let same : sum_by len_of b' + sum_by len_of a' ≡ sum_by len_of b + sum_by len_of a =
      sym (length-whole base_of len_of b' a') ∙ ap length h.0 ∙ length-whole base_of len_of b a in
    (omega (arith, same, h.1, e, r.0), f, omega (arith, same, r.2))
steady_from (kvec b a) s' o o' c c' m h e f r = absurd r
steady_from (bvec b a) s' o o' c c' m h e f r = absurd r
steady_from discard s' o o' c c' m h e f r = absurd r
steady_from (ubuf p) _ o o' c c' m h e f r = absurd h
steady_from (iovec b a) _ o o' c c' m h e f r = absurd h

pub At-Steady : (i : IovIter) (m : ℕ) (i' : IovIter) → At i m i' → Steady i → Steady i'
At-Steady i m i' h r =
    steady_from i.source i'.source i.iov_offset i'.iov_offset i.count i'.count m h.place h.passed
      h.first r

ready_from :
    (s : Source) (o c : ℕ) → SteadyOf s o c → ReadyOf s o c × (user_backed s ≡ true) × (o + c < u64)
ready_from (ubuf p) o c r = (r, refl, r)
ready_from (iovec b a) o c r = ((r.0, r.1, omega (arith, r.2)), refl, omega (arith, r.0, r.2))
ready_from (kvec b a) o c r = absurd r
ready_from (bvec b a) o c r = absurd r
ready_from discard o c r = absurd r

pub Steady-Ready :
    (i : IovIter)
    → Steady i
    → Ready i × (user_backed i.source ≡ true) × (i.iov_offset + i.count < u64)
Steady-Ready i r = ready_from i.source i.iov_offset i.count r

-- Two moves make one.
goes_ahead :
    (s s' s'' : Source) (o o' o'' m n : ℕ)
    → Moved s o s' o' m
    → Moved s' o' s'' o'' n
    → Moved s o s'' o'' (m + n)
goes_ahead (ubuf p) (ubuf p') (ubuf p'') o o' o'' m n h k = (k.0 ∙ h.0, omega (arith, h.1, k.1))
goes_ahead (iovec b a) (iovec b' a') (iovec b'' a'') o o' o'' m n h k =
    (k.0 ∙ h.0, omega (arith, h.1, k.1))
goes_ahead (kvec b a) (kvec b' a') (kvec b'' a'') o o' o'' m n h k =
    (k.0 ∙ h.0, omega (arith, h.1, k.1))
goes_ahead (bvec b a) (bvec b' a') (bvec b'' a'') o o' o'' m n h k =
    (k.0 ∙ h.0, omega (arith, h.1, k.1))
goes_ahead discard discard discard o o' o'' m n h k = tt
goes_ahead s s' s'' o o' o'' m n h k = ground arith

pub At-trans :
    (i : IovIter) (m : ℕ) (i' : IovIter) (n : ℕ) (i'' : IovIter)
    → At i m i'
    → At i' n i''
    → At i (m + n) i''
At-trans i m i' n i'' h k = record {
  place =
      goes_ahead i.source i'.source i''.source i.iov_offset i'.iov_offset i''.iov_offset m n h.place
        k.place;
  passed = omega (arith, h.passed, k.passed);
  first = k.first;
}
