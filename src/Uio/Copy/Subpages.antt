-- ===== src/Uio/Copy/Subpages.antt =====
-- kernel_modification/iov_iter.c: what iterate_bvec() has done when it ends, for which its fuel is
-- enough.
use nvme_ioctl.Prelude.{
  ℕ, zero, suc, ◌+◌, ◌-◌, ◌/◌, ◌%◌, ◌≡◌, refl, sym, ap, ◌∙◌, ◌≤◌, ◌<◌, true, List, [], ◌∷◌, ◌++◌,
  arith, u32, page_size, sub64, ◌==◌, drop, length, sum_by, All, Bool-cases, inl, inr, min,
}
use nvme_ioctl.Prelude.Bytes.{run}
use nvme_ioctl.Bio.{BioVec, page_to_phys}
use nvme_ioctl.Bio.Content.{vec_start}
use nvme_ioctl.Uio.Stream.{flat}
use nvme_ioctl.Uio.Copy.{iterate_bvec}
use nvme_ioctl.Uio.Copy.Walk.{
  Acts, Passed, InFirst, InFirst-zero, drop_front, split_run, halted, went_on, bv_len,
}

-- A piece whose words hold the end of it.
abbrev pub Placed : BioVec → Type 0
Placed v = v.offset + v.len < u32

module _ {S : Type 0} (act : List ℕ → ℕ → S → S) (step : ℕ → ℕ → ℕ → S → ℕ × S)
    (law : Acts act step) where
  open law use {left_le, acts}

  pub iterate_bvec-Passed :
      (fuel : ℕ) (b a : List BioVec) (n off skip : ℕ) (s : S)
      → n + length a < fuel
      → skip + n ≤ sum_by bv_len a
      → InFirst bv_len a skip
      → All Placed a
      → Passed act step law vec_start bv_len
          (drop skip (flat vec_start bv_len a))
          n
          off
          s
          (iterate_bvec step fuel b a n off skip s)
  unfolding iterate_bvec
  iterate_bvec-Passed zero b a n off skip s enough room first placed = absurd (omega arith)
  iterate_bvec-Passed (suc fuel) b [] n off skip s enough room first placed =
      let none_left : (n == 0) ≡ true = ground (arith, room) in
      rw none_left (
        halted act step law vec_start bv_len (drop skip []) n off s _ b [] skip refl refl
          (λ _. omega arith))
  iterate_bvec-Passed (suc fuel) b (v ∷ r) n off skip s enough room first placed =
      let offset = (v.offset + skip) % u32 in
      let p = page_to_phys (v.page + offset / page_size) + offset % page_size in
      let len = min (min n ((v.len + u32 - skip) % u32)) (page_size - offset % page_size) in
      let inside : offset ≡ v.offset + skip = omega (arith, placed.0) in
      let place : p ≡ vec_start v + skip = omega (arith, inside) in
      let exact : (v.len + u32 - skip) % u32 ≡ v.len - skip = omega (arith, placed.0) in
      let left = (step p off len s).0 in
      let s₁ = (step p off len s).1 in
      let d = sub64 len left in
      let F = flat vec_start bv_len r in
      let le : left ≤ len = left_le p off len s in
      let taken : d ≡ len - left = omega (arith, le, exact, placed.0) in
      let done : s₁ ≡ act (run p d) off s =
        acts p off len s ∙ ap (λ k. act (run p k) off s) (sym taken) in
      let ahead = drop skip (run (vec_start v) v.len ++ F) in
      let front : (m k : ℕ) → v.len ≡ skip + (m + k) → ahead ≡ run p m ++ (run (p + m) k ++ F) =
        λ m k e.
          drop_front skip (vec_start v) v.len p (m + k) F place e
          ∙ split_run m p (m + k) k F refl in
      let next : (skip + d) % u32 ≡ skip + d = omega (arith, taken, exact, placed.0) in
      elim (Bool-cases (n == 0)) [
        | inl none_left ↦ rw none_left (
            halted act step law vec_start bv_len ahead n off s _ b (v ∷ r) skip refl refl
              (λ _. ground (arith, none_left)))
        | inr some_left ↦ elim (Bool-cases ((skip + d) % u32 == v.len)) [
          | inl through ↦
              let all_of : v.len ≡ skip + (d + 0) = ground (arith, through, next) in
              let whole : (left == 0) ≡ true = ground (arith, taken, all_of, exact, le) in
              rw (some_left, through, whole)
                (went_on act step law vec_start bv_len ahead F p d n (n - d) off (off + d) s s₁ _
                  (front d 0 all_of) (omega (arith, taken)) refl done
                  (iterate_bvec-Passed fuel (v ∷ b) r (n - d) (off + d) 0 s₁ (omega arith)
                    (omega (arith, all_of, taken)) (InFirst-zero bv_len r) placed.1))
          | inr stay ↦
              let m = v.len - (skip + d) in
              let short : skip + d < v.len = ground (arith, stay, next, taken, exact, first) in
              let behind =
                drop_front (skip + d) (vec_start v) v.len (p + d) m F (omega (arith, place))
                  (omega (arith, short)) in
              elim (Bool-cases (left == 0)) [
                | inl whole ↦
                    let moved : 0 < d = ground (arith, whole, taken, exact, short, some_left) in
                    rw (some_left, stay, whole, next)
                      (went_on act step law vec_start bv_len ahead
                        (drop (skip + d) (run (vec_start v) v.len ++ F)) p d n (n - d) off (off + d)
                        s s₁ _
                        (front d m (omega (arith, short)) ∙ ap (λ l. run p d ++ l) (sym behind))
                        (omega (arith, taken)) refl done
                        (iterate_bvec-Passed fuel b (v ∷ r) (n - d) (off + d) (skip + d) s₁
                          (omega (arith, moved)) (omega (arith, taken, exact, le))
                          (omega (arith, short)) placed))
                | inr over ↦
                    rw (some_left, stay, over, next)
                      (went_on act step law vec_start bv_len ahead (run (p + d) m ++ F) p d n
                        (n - d) off (off + d) s s₁ _ (front d m (omega (arith, short)))
                        (omega (arith, taken)) refl done
                        (halted act step law vec_start bv_len _ (n - d) (off + d) s₁ _ b (v ∷ r)
                          (skip + d) refl
                          (drop_front (skip + d) (vec_start v) v.len (p + d) m F
                            (omega (arith, place)) (omega (arith, short)))
                          (λ all. ground (arith, over, all p off len s))))
              ]
        ]
      ]
