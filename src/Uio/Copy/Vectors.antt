-- ===== src/Uio/Copy/Vectors.antt =====
-- kernel_modification/iov_iter.c: what iterate_iovec() has done when it ends.
use nvme_ioctl.Prelude.{
  ℕ, ◌+◌, ◌-◌, ◌≡◌, refl, sym, ap, ◌∙◌, ◌≤◌, ◌<◌, List, [], ◌∷◌, ◌++◌, arith, u64, sub64, ltb, ◌==◌,
  drop, sum_by, Bool-cases, inl, inr, min, ltb→lt, ltb→ge,
}
use nvme_ioctl.Prelude.Bytes.{run}
use nvme_ioctl.Uio.{Iovec}
use nvme_ioctl.Uio.Stream.{flat}
use nvme_ioctl.Uio.Copy.{iterate_iovec}
use nvme_ioctl.Uio.Copy.Walk.{
  Acts, Passed, InFirst, InFirst-zero, drop_front, split_run, not_zero, halted, went_on, base_of,
  len_of,
}

module _ {S : Type 0} (act : List ℕ → ℕ → S → S) (step : ℕ → ℕ → ℕ → S → ℕ × S)
    (law : Acts act step) where
  open law use {act_nil, left_le, acts}

  pub iterate_iovec-Passed :
      (b a : List Iovec) (n off skip : ℕ) (s : S)
      → 0 < n
      → skip + n ≤ sum_by len_of a
      → InFirst len_of a skip
      → sum_by len_of a < u64
      → Passed act step law base_of len_of
          (drop skip (flat base_of len_of a))
          n
          off
          s
          (iterate_iovec step b a n off skip s)
  unfolding iterate_iovec
  iterate_iovec-Passed b [] n off skip s pos room first small = absurd (omega arith)
  iterate_iovec-Passed b (v ∷ r) n off skip s pos room first small =
      let p = v.base + skip in
      let len = min n (sub64 v.len skip) in
      let exact : sub64 v.len skip ≡ v.len - skip = omega arith in
      let left = (step p off len s).0 in
      let s₁ = (step p off len s).1 in
      let d = sub64 len left in
      let F = flat base_of len_of r in
      let le : left ≤ len = left_le p off len s in
      let taken : d ≡ len - left = omega (arith, le, exact) in
      let done : s₁ ≡ act (run p d) off s =
        acts p off len s ∙ ap (λ k. act (run p k) off s) (sym taken) in
      let ahead = drop skip (run v.base v.len ++ F) in
      let front : (m k : ℕ) → v.len ≡ skip + (m + k) → ahead ≡ run p m ++ (run (p + m) k ++ F) =
        λ m k e. drop_front skip v.base v.len p (m + k) F refl e ∙ split_run m p (m + k) k F refl in
      elim (Bool-cases (len == 0)) [
        | inl none_here ↦
            let empty : v.len ≡ skip + (0 + 0) = ground (arith, exact) in
            rw (none_here, not_zero n pos)
              (went_on act step law base_of len_of ahead F p 0 n n off off s s _ (front 0 0 empty)
                (omega arith) (omega arith) (sym (act_nil off s))
                (iterate_iovec-Passed (v ∷ b) r n off 0 s pos (omega (arith, empty))
                  (InFirst-zero len_of r) (omega arith)))
        | inr some_here ↦ elim (Bool-cases (ltb (skip + d) v.len)) [
          | inl stop ↦
              let m = v.len - (skip + d) in
              let inside : skip + d < v.len = ltb→lt _ _ stop in
              rw (some_here, stop)
                (went_on act step law base_of len_of ahead (run (p + d) m ++ F) p d n (n - d) off
                  (off + d) s s₁ _ (front d m (omega (arith, inside))) (omega (arith, taken, le))
                  refl done
                  (halted act step law base_of len_of _ (n - d) (off + d) s₁ _ b (v ∷ r) (skip + d)
                    refl
                    (drop_front (skip + d) v.base v.len (p + d) m F (omega arith)
                      (omega (arith, inside)))
                    (λ all.
                      let z : left ≡ 0 = all p off len s in
                      omega (arith, z, taken, inside, exact))))
          | inr through ↦
              let over : v.len ≤ skip + d = ltb→ge _ _ through in
              let all_of : v.len ≡ skip + (d + 0) = omega (arith, over, taken, exact) in
              elim (Bool-cases (n - d == 0)) [
                | inl last ↦
                    rw (some_here, through, last)
                      (went_on act step law base_of len_of ahead F p d n 0 off (off + d) s s₁ _
                        (front d 0 all_of) (ground (arith, last, taken)) refl done
                        (halted act step law base_of len_of F 0 (off + d) s₁ _ (v ∷ b) r 0 refl refl
                          (λ _. refl)))
                | inr more ↦
                    rw (some_here, through, more)
                      (went_on act step law base_of len_of ahead F p d n (n - d) off (off + d) s s₁
                        _ (front d 0 all_of) (omega (arith, taken)) refl done
                        (iterate_iovec-Passed (v ∷ b) r (n - d) (off + d) 0 s₁
                          (ground (arith, more)) (omega (arith, all_of)) (InFirst-zero len_of r)
                          (omega arith)))
              ]
        ]
      ]
