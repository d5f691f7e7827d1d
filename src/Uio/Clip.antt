-- ===== src/Uio/Clip.antt =====
-- kernel_modification/iov_iter.c: what an imported array of vectors covers.
use nvme_ioctl.Prelude.{
  ℕ, zero, suc, ◌+◌, ◌-◌, ◌≡◌, refl, ap, ◌∙◌, sym, ◌≤◌, Bool, true, false, Option, none, some, List,
  [], ◌∷◌, ◌++◌, min, arith, length, take, ltb, length-append, if◌then◌else◌,
}
use nvme_ioctl.Prelude.Bytes.{run, length-run}
use nvme_ioctl.Uio.{Iovec, max_rw_count}
use nvme_ioctl.Uio.Stream.{flat}
use nvme_ioctl.Uio.Import.{Access, clip_vecs}

-- The addresses of the bytes of an array of vectors.
abbrev pub vec_bytes : List Iovec → List ℕ
vec_bytes = flat (λ v. v.base) (λ v. v.len)

take-run :
    (n a m j k : ℕ) (ys : List ℕ)
    → j ≡ min m n
    → k ≡ n - m
    → take n (run a m ++ ys) ≡ run a j ++ take k ys
take-run n a zero zero k ys e f = ap (λ x. take x ys) (let g : n ≡ k = omega arith in g)
take-run n a zero (suc j) k ys e f = absurd (omega arith)
take-run zero a (suc m) zero zero ys e f = refl
take-run zero a (suc m) zero (suc k) ys e f = absurd (omega arith)
take-run zero a (suc m) (suc j) k ys e f = absurd (omega arith)
take-run (suc n) a (suc m) zero k ys e f = absurd (omega arith)
take-run (suc n) a (suc m) (suc j) k ys e f =
    ap (λ l. a ∷ l) (take-run n (suc a) m j k ys (omega arith) (omega arith))

-- The imported vectors cover the first MAX_RW_COUNT bytes of the user's, and the total counts them.
abbrev pub Clipped : List Iovec → ℕ → Option (List Iovec × ℕ) → Type 0
Clipped l total none = Unit
Clipped l total (some (l', t)) =
    (vec_bytes l' ≡ take (max_rw_count - total) (vec_bytes l))
    × (t ≡ total + length (vec_bytes l'))
    × (t ≤ max_rw_count)

clip-cons :
    (v : Iovec) (r l' : List Iovec) (total len t : ℕ)
    → len ≡ (if ltb (max_rw_count - total) v.len then max_rw_count - total else v.len)
    → total ≤ max_rw_count
    → Clipped r (total + len) (some (l', t))
    → Clipped (v ∷ r) total (some ((record v { len = len }) ∷ l', t))
clip-cons v r l' total len t e le (same, sum, below) =
    let room = max_rw_count - total in
    let split =
      take-run room v.base v.len len (max_rw_count - (total + len)) (vec_bytes r) (ground arith)
        (ground arith) in
    let tail = vec_bytes l' in
    (
      ap (λ y. run v.base len ++ y) same ∙ sym split,
      omega (arith, length-append (run v.base len) tail, length-run v.base len),
      below,
    )

clip-step :
    (v : Iovec) (r : List Iovec) (total len : ℕ) (refused : Bool) (o : Option (List Iovec × ℕ))
    → len ≡ (if ltb (max_rw_count - total) v.len then max_rw_count - total else v.len)
    → total ≤ max_rw_count
    → Clipped r (total + len) o
    → Clipped (v ∷ r) total (
        if refused
        then none
        else elim o [ none ↦ none | some (l', t) ↦ some ((record v { len = len }) ∷ l', t) ])
clip-step v r total len true o e le h = ground arith
clip-step v r total len false none e le h = h
clip-step v r total len false (some (l', t)) e le h = clip-cons v r l' total len t e le h

take-nil : (n : ℕ) → [] ≡ take {A = ℕ} n []
take-nil zero = refl
take-nil (suc n) = refl

module _ (user : Access) where
  -- From a total within MAX_RW_COUNT on, the array that an import hands on covers the next bytes
  -- of the user's array up to MAX_RW_COUNT, in order, and the total grows by the number of these
  -- bytes and stays within MAX_RW_COUNT.
  pub clip_vecs-Clipped :
      (l : List Iovec) (total : ℕ) → total ≤ max_rw_count → Clipped l total (clip_vecs user l total)
  unfolding clip_vecs
  clip_vecs-Clipped [] total le = (take-nil (max_rw_count - total), omega arith, le)
  clip_vecs-Clipped (v ∷ r) total le =
      let len = if ltb (max_rw_count - total) v.len then max_rw_count - total else v.len in
      let ih = clip_vecs-Clipped r (total + len) (ground arith) in
      clip-step v r total len _ (clip_vecs user r (total + len)) refl le ih
