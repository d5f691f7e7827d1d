-- ===== src/Uio/Copy/Copied.antt =====
-- kernel_modification/iov_iter.c: _copy_to_iter(), _copy_from_iter() and iov_iter_zero(): what they leave in memory.
use nvme_ioctl.Prelude.{
  ℕ, ◌+◌, ◌≡◌, refl, ap, ◌∙◌, ◌≤◌, ◌⊎◌, length-take, length-drop, sum_by, Bool, true, false, not,
  Option, some, List, arith, take, drop, length, min, Bool-cases, inl, inr, if◌then◌else◌,
}
use nvme_ioctl.Prelude.Bytes.{run, length-run}
use nvme_ioctl.Uio.{ubuf, iovec, kvec, bvec, discard, IovIter, Source}
use nvme_ioctl.Uio.Stream.{length-flat, stream, stream_of, flat}
use nvme_ioctl.Bio.Content.{vec_start}
use nvme_ioctl.Uio.Copy.{
  Mem, UserAccess, copy_bytes, clear_bytes, to_step, from_step, zero_step, copy_to_iter,
  copy_from_iter, iov_iter_zero, user_backed_iter, iterate_and_advance,
}
use nvme_ioctl.Uio.Copy.Walk.{Acts, base_of, len_of, bv_len}
use nvme_ioctl.Uio.Copy.Whole.{Ready, ReadyOf, iterate-Handles}
use nvme_ioctl.Uio.Copy.Bytes.{
  Copies, to-Acts, from-Acts, zero-Acts, add_nothing, from_act, to_act, zero_act,
}

length-window :
    {A : Type 0} (start len : A → ℕ) (a : List A) (o c : ℕ)
    → o + c ≤ sum_by len a
    → length (take c (drop o (flat start len a))) ≡ c
length-window start len a o c h = omega (
  arith,
  length-take c (drop o (flat start len a)),
  length-drop o (flat start len a),
  length-flat start len a,
)

-- The bytes ahead are as many as the count.
length-stream_of : (src : Source) (o c : ℕ) → ReadyOf src o c → length (stream_of src o c) ≡ c
length-stream_of (ubuf p) o c ready = length-run (p + o) c
length-stream_of (iovec b a) o c ready = length-window base_of len_of a o c ready.0
length-stream_of (kvec b a) o c ready = length-window base_of len_of a o c ready.0
length-stream_of (bvec b a) o c ready = length-window vec_start bv_len a o c ready.0
length-stream_of discard o c ready = absurd ready

length-passed : (i : IovIter) (k : ℕ) → Ready i → k ≤ i.count → length (take k (stream i)) ≡ k
length-passed i k ready h =
    omega (arith, length-take k (stream i), length-stream_of i.source i.iov_offset i.count ready)

-- A copy of at most `bytes` bytes has passed the first `k` bytes that the iterator had ahead and left
-- this memory; only user memory can stop it early.
abbrev pub Copied : IovIter → ℕ → (List ℕ → ℕ → Mem) → Option (ℕ × IovIter × Mem) → Type 0
Copied i bytes left res =
    (k : ℕ) × (i' : IovIter) × (res ≡ some (k, i', left (take k (stream i)) k))
    × (k ≤ min i.count bytes)
    × ((user_backed_iter i ≡ true) ⊎ (k ≡ min i.count bytes))
    × (stream i' ≡ drop k (stream i))

module _ (act : List ℕ → ℕ → Mem → Mem) (step : Bool → ℕ → ℕ → ℕ → Mem → ℕ × Mem)
    (law : (user : Bool) → Acts act (step user))
    (whole : (b o l : ℕ) (t : Mem) → (step false b o l t).0 ≡ 0) where
  copied :
      (i : IovIter) (bytes : ℕ) (m : Mem) (left : List ℕ → ℕ → Mem)
      → Ready i
      → ((xs : List ℕ) → act xs 0 m ≡ left xs (length xs))
      → Copied i bytes left (iterate_and_advance (step (user_backed_iter i)) i bytes m)
  copied i bytes m left ready same =
      let user = user_backed_iter i in
      let h =
        iterate-Handles act (step user) (law user) i.source i.data_source i.nofault i.iov_offset
          i.count bytes m ready in
      let memory : h.s' ≡ left (take h.k (stream i)) h.k =
        h.handled
        ∙ same (take h.k (stream i))
        ∙ ap (left (take h.k (stream i))) (length-passed i h.k ready (omega (arith, h.within))) in
      let stops : (user ≡ true) ⊎ (h.k ≡ min i.count bytes) = elim (Bool-cases user) [
        | inl is_user ↦ inl is_user
        | inr is_kern ↦
            inr (h.full (λ b o l t. ap (λ x. (step x b o l t).0) is_kern ∙ whole b o l t))
      ] in
      (h.k, h.i', h.result ∙ ap (λ t. some (h.k, h.i', t)) memory, h.within, stops, h.remain)

module _ (u : UserAccess) (copies : Copies u) where
  -- Where the architecture copies from the first byte on, _copy_to_iter() into memory that the iterator
  -- describes puts the first `k` bytes behind `addr`, in their order, at the first `k` addresses that the
  -- iterator has ahead, changes no other byte, returns `k` and leaves the iterator behind them. `k` is at
  -- most `bytes` and the count, and the smaller of the two unless the memory is the user's.
  pub copy_to_iter-Copied :
      (addr bytes : ℕ) (i : IovIter) (m : Mem)
      → i.data_source ≡ false
      → Ready i
      → Copied i bytes (λ ahead k. copy_bytes ahead (run addr k) m) (copy_to_iter u addr bytes i m)
  unfolding copy_to_iter to_step
  copy_to_iter-Copied addr bytes i m reads ready =
      let step = λ (user : Bool). to_step u user addr in
      let goes_on : copy_to_iter u addr bytes i m
          ≡ iterate_and_advance (step (user_backed_iter i)) i bytes m =
        ap
          (λ b.
            if b then some (0, i, m) else iterate_and_advance (step (user_backed_iter i)) i bytes m)
          reads in
      let (k, i', e, within, stops, remain) =
        copied (to_act addr) step (to-Acts u copies addr) (λ b o l t. refl) i bytes m
          (λ ahead k. copy_bytes ahead (run addr k) m) ready
          (λ xs. ap (λ a. copy_bytes xs (run a (length xs)) m) (add_nothing addr)) in
      (k, i', goes_on ∙ e, within, stops, remain)

  -- Where the architecture copies from the first byte on, _copy_from_iter() out of memory that the
  -- iterator describes puts the bytes at the first `k` addresses that it has ahead, in their order,
  -- behind `addr`, changes no other byte, returns `k` and leaves the iterator behind them. `k` is at most
  -- `bytes` and the count, and the smaller of the two unless the memory is the user's.
  pub copy_from_iter-Copied :
      (addr bytes : ℕ) (i : IovIter) (m : Mem)
      → i.data_source ≡ true
      → Ready i
      → Copied i bytes
          (λ ahead k. copy_bytes (run addr k) ahead m)
          (copy_from_iter u addr bytes i m)
  unfolding copy_from_iter from_step
  copy_from_iter-Copied addr bytes i m writes ready =
      let step = λ (user : Bool). from_step u user addr in
      let goes_on : copy_from_iter u addr bytes i m
          ≡ iterate_and_advance (step (user_backed_iter i)) i bytes m =
        ap
          (λ b.
            if not b
            then some (0, i, m)
            else iterate_and_advance (step (user_backed_iter i)) i bytes m)
          writes in
      let (k, i', e, within, stops, remain) =
        copied (from_act addr) step (from-Acts u copies addr) (λ b o l t. refl) i bytes m
          (λ ahead k. copy_bytes (run addr k) ahead m) ready
          (λ xs. ap (λ a. copy_bytes (run a (length xs)) xs m) (add_nothing addr)) in
      (k, i', goes_on ∙ e, within, stops, remain)

  -- iov_iter_zero() clears the first `k` bytes that the iterator has ahead.
  iov_iter_zero-Copied :
      (bytes : ℕ) (i : IovIter) (m : Mem)
      → Ready i
      → Copied i bytes (λ ahead k. clear_bytes ahead m) (iov_iter_zero u bytes i m)
  unfolding iov_iter_zero zero_step
  iov_iter_zero-Copied bytes i m ready =
      copied zero_act (zero_step u) (zero-Acts u copies 0) (λ b o l t. refl) i bytes m
        (λ ahead k. clear_bytes ahead m) ready (λ xs. refl)
