-- ===== src/Bio/Parts/Copied.antt =====
-- kernel_modification/bio.c: bio_copy_data() on the bytes of two bios.
use nvme_ioctl.Prelude.{
  ℕ, zero, suc, ◌+◌, ◌-◌, ◌≡◌, refl, sym, ap, ap₂, ◌∙◌, ◌≤◌, ◌<◌, true, false, ◌||◌, some, List, [],
  ◌∷◌, ◌++◌, arith, min, ◌==◌, length, take, drop, length-drop, Bool-cases, inl, inr,
}
use nvme_ioctl.Prelude.Bytes.{run, length-run}
use nvme_ioctl.Uio.Copy.{Mem, copy_bytes}
use nvme_ioctl.Uio.Copy.Bytes.{copy_bytes-append}
use nvme_ioctl.Bio.Parts.{Cursor, Follows, Part, bio_copy_data_iter, bio_copy_data}

take_sum : (k j n : ℕ) (l : List ℕ) → n ≡ k + j → take n l ≡ take k l ++ take j (drop k l)
take_sum zero j n l e = ap (λ m. take m l) (let z : n ≡ j = omega arith in z)
take_sum (suc k) j zero l e = absurd (omega arith)
take_sum (suc k) zero (suc n) [] e = refl
take_sum (suc k) (suc j) (suc n) [] e = refl
take_sum (suc k) j (suc n) (x ∷ l) e = ap (λ t. x ∷ t) (take_sum k j n l (omega arith))

module _ (cu : Cursor) (law : Follows cu) where
  open cu use {It, bytes, size, advance, piece}

  after_piece :
      (i : It) (k j n : ℕ)
      → k ≤ (piece i).1
      → n ≡ k + j
      → take n (bytes i) ≡ run (piece i).0 k ++ take j (bytes (advance i k))
  after_piece i k j n le e =
      take_sum k j n (bytes i) e
      ∙ ap₂ (λ (x y : List ℕ). x ++ y) (law.piece_lem i k le (omega (arith, le, law.piece_le i)))
          (ap (take j) (sym (law.advance_lem i k (omega (arith, le, law.piece_le i)))))

  size-advance : (i : It) (k : ℕ) → k ≤ size i → size (advance i k) ≡ size i - k
  size-advance i k le = omega (
    arith,
    sym (law.size_lem (advance i k)) ∙ ap length (law.advance_lem i k le),
    length-drop k (bytes i),
    law.size_lem i,
  )

  again :
      (fuel : ℕ) (dst src : It) (m : Mem)
      → (size src == 0 || size dst == 0) ≡ false
      → let n = min (piece src).1 (piece dst).1 in
        bio_copy_data_iter cu (suc fuel) dst src m
        ≡ bio_copy_data_iter cu fuel
            (advance dst n)
            (advance src n)
            (copy_bytes (run (piece dst).0 n) (run (piece src).0 n) m)
  unfolding bio_copy_data_iter
  again fuel dst src m more = rw (bio_copy_data_iter, more)

  stops :
      (fuel : ℕ) (dst src : It) (m : Mem)
      → (size src == 0 || size dst == 0) ≡ true
      → bio_copy_data_iter cu (suc fuel) dst src m ≡ some (dst, src, m)
  unfolding bio_copy_data_iter
  stops fuel dst src m over = rw (bio_copy_data_iter, over)

  copy_iter-copies :
      (fuel : ℕ) (dst src : It) (m : Mem)
      → size src < fuel
      → (d : It) × (s : It) × (bio_copy_data_iter cu fuel dst src m
          ≡ some (
            d,
            s,
            copy_bytes
                (take (min (size src) (size dst)) (bytes dst))
                (take (min (size src) (size dst)) (bytes src))
                m,
          ))
  unfolding copy_bytes
  copy_iter-copies zero dst src m enough = absurd (omega arith)
  copy_iter-copies (suc fuel) dst src m enough =
      elim (Bool-cases (size src == 0 || size dst == 0)) [
        | inl over ↦
            let none_left : min (size src) (size dst) ≡ 0 = ground (arith, over) in
            (
              dst,
              src,
              stops fuel dst src m over
                  ∙ ap
                      (λ n. some (dst, src, copy_bytes (take n (bytes dst)) (take n (bytes src)) m))
                      (sym none_left),
            )
        | inr more ↦
            let n = min (piece src).1 (piece dst).1 in
            let dst' = advance dst n in
            let src' = advance src n in
            let in_src : n ≤ size src = omega (arith, law.piece_le src) in
            let in_dst : n ≤ size dst = omega (arith, law.piece_le dst) in
            let has_src : 0 < size src = ground (arith, more) in
            let has_dst : 0 < size dst = ground (arith, more) in
            let some_bytes : 0 < n =
              omega (arith, law.piece_some src has_src, law.piece_some dst has_dst) in
            let left_src = size-advance src n in_src in
            let left_dst = size-advance dst n in_dst in
            let rest = min (size src') (size dst') in
            let total : min (size src) (size dst) ≡ n + rest =
              omega (arith, left_src, left_dst, in_src, in_dst) in
            let m' = copy_bytes (run (piece dst).0 n) (run (piece src).0 n) m in
            let (d, s, e) =
              copy_iter-copies fuel dst' src' m'
                (omega (arith, left_src, some_bytes, in_src, enough)) in
            let joined =
              copy_bytes-append (run (piece dst).0 n) (take rest (bytes dst')) (run (piece src).0 n)
                (take rest (bytes src')) m
                (length-run (piece dst).0 n ∙ sym (length-run (piece src).0 n)) in
            (
              d,
              s,
              again fuel dst src m more
                  ∙ e
                  ∙ ap (λ t. some (d, s, t))
                      (sym joined
                        ∙ sym (
                            ap₂ (λ (x y : List ℕ). copy_bytes x y m)
                              (after_piece dst n rest (min (size src) (size dst)) (omega arith)
                                total)
                              (after_piece src n rest (min (size src) (size dst)) (omega arith)
                                total))),
            )
      ]

  -- bio_copy_data() ends and copies as many bytes as the smaller of the two bios has: the first bytes of
  -- the source, in their order, to the first bytes of the destination, and changes no other.
  pub bio_copy_data-copies :
      (dst src : Part cu) (m : Mem)
      → let n = min (size src.iter) (size dst.iter) in
        bio_copy_data cu dst src m
        ≡ some (copy_bytes (take n (bytes dst.iter)) (take n (bytes src.iter)) m)
  unfolding bio_copy_data
  bio_copy_data-copies dst src m =
      let (d, s, e) = copy_iter-copies (size src.iter + 1) dst.iter src.iter m (omega arith) in
      rw (bio_copy_data, e) refl
