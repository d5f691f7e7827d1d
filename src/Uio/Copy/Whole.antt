-- ===== src/Uio/Copy/Whole.antt =====
-- kernel_modification/iov_iter.c: _copy_to_iter(), _copy_from_iter() and iov_iter_zero() against the
-- addresses that the iterator has ahead.
use nvme_ioctl.Prelude.{
  ℕ, zero, suc, ◌+◌, ◌-◌, ◌%◌, ◌≡◌, refl, sym, ap, ap₂, ◌∙◌, ◌≤◌, ◌<◌, Bool, true, Option, some,
  List, [], ◌∷◌, arith, u64, sub64, ◌==◌, take, drop, length, sum_by, All, Bool-cases, inl, inr,
  min, drop-take,
}
use nvme_ioctl.Prelude.Bytes.{drop-run}
use nvme_ioctl.Bio.Content.{vec_start}
use nvme_ioctl.Uio.{Source, ubuf, iovec, kvec, bvec, discard, IovIter}
use nvme_ioctl.Uio.Stream.{flat, stream, stream_of}
use nvme_ioctl.Uio.Moves.{at}
use nvme_ioctl.Uio.Copy.{Walked, settled, iterate_and_advance}
use nvme_ioctl.Uio.Copy.Walk.{Acts, Passed, InFirst, take-run, base_of, len_of, bv_len}
use nvme_ioctl.Uio.Copy.Vectors.{iterate_iovec-Passed}
use nvme_ioctl.Uio.Copy.Subpages.{Placed, iterate_bvec-Passed}

-- What an iterator over memory is like before a copy: its bytes lie in its segments, and the words
-- can count them.
abbrev pub ReadyOf : Source → ℕ → ℕ → Type 0
ReadyOf (ubuf p) o c = o + c < u64
ReadyOf (iovec b a) o c = (o + c ≤ sum_by len_of a) × InFirst len_of a o × (sum_by len_of a < u64)
ReadyOf (kvec b a) o c = (o + c ≤ sum_by len_of a) × InFirst len_of a o × (sum_by len_of a < u64)
ReadyOf (bvec b a) o c = (o + c ≤ sum_by bv_len a) × InFirst bv_len a o × All Placed a × (c < u64)
ReadyOf discard o c = ⊥

abbrev pub Ready : IovIter → Type 0
Ready i = ReadyOf i.source i.iov_offset i.count

pub take-take : (k c : ℕ) (l : List ℕ) → k ≤ c → take k (take c l) ≡ take k l
take-take zero c l h = refl
take-take (suc k) zero l h = absurd (omega arith)
take-take (suc k) (suc c) [] h = refl
take-take (suc k) (suc c) (x ∷ l) h = ap (λ y. x ∷ y) (take-take k c l (omega arith))

module _ {S : Type 0} (act : List ℕ → ℕ → S → S) (step : ℕ → ℕ → ℕ → S → ℕ × S)
    (law : Acts act step) where
  -- A copy handles the first `k` bytes that the iterator has ahead, in their order, and moves it
  -- behind them; it stops early only where a step leaves bytes over.
  pub record Handles (i : IovIter) (bytes : ℕ) (s : S) (res : Option (ℕ × IovIter × S))
      : Type 0 where
    pub k : ℕ
    pub i' : IovIter
    pub s' : S
    pub result : res ≡ some (k, i', s')
    pub within : k ≤ min i.count bytes
    pub handled : s' ≡ act (take k (stream i)) 0 s
    pub remain : stream i' ≡ drop k (stream i)
    pub full : ((b o l : ℕ) (t : S) → (step b o l t).0 ≡ 0) → k ≡ min i.count bytes

  module _ {A : Type 0} (start len : A → ℕ) (make : List A → List A → Source)
      (view : (b a : List A) (o c : ℕ)
        → stream_of (make b a) o c ≡ take c (drop o (flat start len a))) where
    settled-Handles :
        (b a : List A) (w nf : Bool) (o c bytes : ℕ) (s : S) (walk : Walked A S)
        → c < u64
        → Passed act step law start len (drop o (flat start len a)) (min c bytes) 0 s walk
        → Handles (at (make b a) w nf o c) bytes s (settled step make (at (make b a) w nf o c) walk)
    unfolding settled
    settled-Handles b a w nf o c bytes s walk small p = record {
      k = p.k;
      i' = at (make p.b p.a) w nf p.skip (c - p.k);
      s' = p.s';
      result =
          ap (settled step make (at (make b a) w nf o c)) p.result
          ∙ ap₂ (λ x y. some (x, at (make p.b p.a) w nf p.skip y, p.s'))
              (let e : 0 + p.k ≡ p.k = omega arith in e)
              (let e : sub64 c (0 + p.k) ≡ c - p.k = omega (arith, p.within) in e);
      within = p.within;
      handled =
          p.handled
          ∙ ap (λ l. act l 0 s)
              (sym (take-take p.k c _ (omega (arith, p.within)))
                ∙ ap (take p.k) (sym (view b a o c)));
      remain =
          view p.b p.a p.skip (c - p.k)
          ∙ ap (take (c - p.k)) p.remain
          ∙ sym (drop-take p.k c (c - p.k) _ refl)
          ∙ ap (drop p.k) (sym (view b a o c));
      full = p.full;
    }

  nothing :
      (src : Source) (w nf : Bool) (o c bytes : ℕ) (s : S)
      → (min c bytes == 0) ≡ true
      → Handles (at src w nf o c) bytes s (iterate_and_advance step (at src w nf o c) bytes s)
  unfolding iterate_and_advance
  nothing src w nf o c bytes s none_left =
      let none : min c bytes ≡ 0 = ground (arith, none_left) in
      rw none_left (record {
        k = 0;
        i' = at src w nf o c;
        s' = s;
        result = refl;
        within = omega arith;
        handled = sym (law.act_nil 0 s);
        remain = refl;
        full = λ _. sym none;
      })

  pub iterate-Handles :
      (src : Source) (w nf : Bool) (o c bytes : ℕ) (s : S)
      → ReadyOf src o c
      → Handles (at src w nf o c) bytes s (iterate_and_advance step (at src w nf o c) bytes s)
  unfolding iterate_and_advance
  iterate-Handles (ubuf p) w nf o c bytes s ready = elim (Bool-cases (min c bytes == 0)) [
    | inl none_left ↦ nothing (ubuf p) w nf o c bytes s none_left
    | inr some_left ↦
        let n = min c bytes in
        let left = (step (p + o) 0 n s).0 in
        let le : left ≤ n = law.left_le (p + o) 0 n s in
        let taken : sub64 n left ≡ n - left = omega (arith, le, ready) in
        let moved : (o + sub64 n left) % u64 ≡ o + (n - left) = omega (arith, le, ready) in
        let rest : sub64 c (sub64 n left) ≡ c - (n - left) = omega (arith, le, ready) in
        rw (some_left, moved, rest, taken)
          (record {
            k = n - left;
            i' = at (ubuf p) w nf (o + (n - left)) (c - (n - left));
            s' = (step (p + o) 0 n s).1;
            result = refl;
            within = omega arith;
            handled =
                law.acts (p + o) 0 n s
                ∙ ap (λ l. act l 0 s) (sym (take-run (n - left) (p + o) c (omega arith)));
            remain = sym (
                drop-run (n - left) (p + o) (p + (o + (n - left))) c (c - (n - left)) (omega arith)
                  refl);
            full = λ all. let e : left ≡ 0 = all (p + o) 0 n s in omega (arith, e);
          })
  ]
  iterate-Handles (iovec b a) w nf o c bytes s ready = elim (Bool-cases (min c bytes == 0)) [
    | inl none_left ↦ nothing (iovec b a) w nf o c bytes s none_left
    | inr some_left ↦ rw some_left (
        settled-Handles base_of len_of iovec (λ _ _ _ _. refl) b a w nf o c bytes s _
          (omega (arith, ready))
          (iterate_iovec-Passed act step law b a (min c bytes) 0 o s (ground (arith, some_left))
            (omega (arith, ready)) ready.1 ready.2))
  ]
  iterate-Handles (kvec b a) w nf o c bytes s ready = elim (Bool-cases (min c bytes == 0)) [
    | inl none_left ↦ nothing (kvec b a) w nf o c bytes s none_left
    | inr some_left ↦ rw some_left (
        settled-Handles base_of len_of kvec (λ _ _ _ _. refl) b a w nf o c bytes s _
          (omega (arith, ready))
          (iterate_iovec-Passed act step law b a (min c bytes) 0 o s (ground (arith, some_left))
            (omega (arith, ready)) ready.1 ready.2))
  ]
  iterate-Handles (bvec b a) w nf o c bytes s ready = elim (Bool-cases (min c bytes == 0)) [
    | inl none_left ↦ nothing (bvec b a) w nf o c bytes s none_left
    | inr some_left ↦ rw some_left (
        settled-Handles vec_start bv_len bvec (λ _ _ _ _. refl) b a w nf o c bytes s _ ready.3
          (iterate_bvec-Passed act step law (min c bytes + length a + 1) b a (min c bytes) 0 o s
            (omega arith) (omega (arith, ready)) ready.1 ready.2))
  ]
  iterate-Handles discard w nf o c bytes s ready = absurd ready
