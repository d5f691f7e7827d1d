-- ===== src/Bio/Truncate.antt =====
-- kernel_modification/bio.c: zero_fill_bio(), bio_truncate() and guard_bio_eod(). `segs` are the
-- pieces that bio_for_each_segment() visits, in their order.
use nvme_ioctl.Prelude.{
  ℕ, zero, suc, ◌+◌, ◌-◌, ◌*◌, ◌/◌, ◌%◌, ◌≡◌, refl, sym, ◌∙◌, ap, ap₂, ◌≤◌, ◌<◌, Bool, true, false,
  ◌||◌, List, [], ◌∷◌, ◌++◌, arith, u32, ltb, leb, ◌==◌, if◌then◌else◌, length, drop, sum_by,
  Bool-cases, inl, inr, drop-append, drop-nil,
}
use nvme_ioctl.Prelude.Bytes.{run, run-eq, drop-run, length-run}
use nvme_ioctl.Bio.{BioVec, Bio, page_to_phys}

-- What zero_user() and memzero_bvec() clear: an address and a number of bytes.
unfoldable pub zero_fill_bio : List BioVec → List (ℕ × ℕ)
zero_fill_bio [] = []
zero_fill_bio (bv ∷ segs) = (page_to_phys bv.page + bv.offset, bv.len) ∷ zero_fill_bio segs

-- The loop of bio_truncate(); `done` is `unsigned int`, and so are its sums.
unfoldable pub clear_tail : ℕ → ℕ → Bool → List BioVec → List (ℕ × ℕ)
clear_tail new_size done truncated [] = []
clear_tail new_size done truncated (bv ∷ segs) =
    let next = (done + bv.len) % u32 in
    let offset = if truncated then 0 else (new_size + u32 - done) % u32 in
    let cuts = ltb new_size next in
    let rest = clear_tail new_size next (truncated || cuts) segs in
    if cuts
    then (page_to_phys bv.page + bv.offset + offset, (bv.len + u32 - offset) % u32) ∷ rest
    else rest

-- bio_truncate(): the bio, and what is cleared; `reads` says that bio_op() is REQ_OP_READ.
unfoldable pub bio_truncate : Bool → List BioVec → Bio → ℕ → Bio × List (ℕ × ℕ)
bio_truncate reads segs bio new_size =
    let cleared = if reads then clear_tail new_size 0 false segs else [] in
    if leb bio.size new_size then (bio, []) else (record bio { size = new_size }, cleared)

-- guard_bio_eod() of a bio that starts at `sector` on a device of so many sectors.
unfoldable pub guard_bio_eod : ℕ → ℕ → Bool → List BioVec → Bio → Bio × List (ℕ × ℕ)
guard_bio_eod maxsector sector reads segs bio =
    let left = maxsector - sector in
    if maxsector == 0
    then (bio, [])
    else if leb maxsector sector
    then (bio, [])
    else if leb (bio.size / 512) left
    then (bio, [])
    else bio_truncate reads segs bio (left * 512 % u32)

-- The addresses of some ranges, and of some pieces.
abbrev pub ranges_bytes : List (ℕ × ℕ) → List ℕ
ranges_bytes [] = []
ranges_bytes (r ∷ rs) = run r.0 r.1 ++ ranges_bytes rs

abbrev pub segs_bytes : List BioVec → List ℕ
segs_bytes [] = []
segs_bytes (bv ∷ segs) = run (page_to_phys bv.page + bv.offset) bv.len ++ segs_bytes segs

abbrev pub total : List BioVec → ℕ
total segs = sum_by (λ (bv : BioVec). bv.len) segs

-- Behind the new end every piece is cleared whole.
clear_all :
    (new_size done : ℕ) (segs : List BioVec)
    → new_size < done
    → done + total segs < u32
    → ranges_bytes (clear_tail new_size done true segs) ≡ segs_bytes segs
unfolding clear_tail
clear_all new_size done [] p q = refl
clear_all new_size done (bv ∷ segs) p q =
    let next : (done + bv.len) % u32 ≡ done + bv.len = omega arith in
    let whole : (bv.len + u32 - 0) % u32 ≡ bv.len = omega arith in
    let cuts : ltb new_size ((done + bv.len) % u32) ≡ true = ground arith in
    let rest = clear_all new_size (done + bv.len) segs (omega arith) (omega arith) in
    let start = page_to_phys bv.page + bv.offset in
    let here : run (start + 0) ((bv.len + u32 - 0) % u32) ≡ run start bv.len =
      run-eq (omega arith) whole in
    ground (
      arith,
      next,
      cuts,
      ap₂ (λ (x y : List ℕ). x ++ y) here
          (ap (λ n. ranges_bytes (clear_tail new_size n true segs)) next ∙ rest),
    )

drop_front : (n : ℕ) (xs ys : List ℕ) → n ≤ length xs → drop n (xs ++ ys) ≡ drop n xs ++ ys
drop_front zero xs ys h = refl
drop_front (suc n) [] ys h = absurd (omega arith)
drop_front (suc n) (x ∷ xs) ys h = drop_front n xs ys (omega arith)

-- The bytes cleared are those behind the new size.
clear_tail_lem :
    (new_size done : ℕ) (segs : List BioVec)
    → done ≤ new_size
    → done + total segs < u32
    → new_size < u32
    → ranges_bytes (clear_tail new_size done false segs) ≡ drop (new_size - done) (segs_bytes segs)
unfolding clear_tail
clear_tail_lem new_size done [] p q r = sym (drop-nil (new_size - done))
clear_tail_lem new_size done (bv ∷ segs) p q r =
    let next : (done + bv.len) % u32 ≡ done + bv.len = omega arith in
    let off : (new_size + u32 - done) % u32 ≡ new_size - done = omega arith in
    let start = page_to_phys bv.page + bv.offset in
    elim (Bool-cases (ltb new_size (done + bv.len))) [
      | inl c ↦
          let inside : new_size < done + bv.len = ground (arith, c) in
          let cuts : ltb new_size ((done + bv.len) % u32) ≡ true = ap (ltb new_size) next ∙ c in
          let left : (bv.len + u32 - (new_size + u32 - done) % u32) % u32
              ≡ bv.len - (new_size - done) =
            omega (arith, off, inside) in
          let rest =
            ap (λ n. ranges_bytes (clear_tail new_size n true segs)) next
            ∙ clear_all new_size (done + bv.len) segs inside (omega (arith, q)) in
          let here : run (start + (new_size + u32 - done) % u32)
                ((bv.len + u32 - (new_size + u32 - done) % u32) % u32)
              ≡ drop (new_size - done) (run start bv.len) =
            sym (drop-run (new_size - done) start _ bv.len _ (omega (arith, off, inside)) left) in
          let split =
            drop_front (new_size - done) (run start bv.len) (segs_bytes segs)
              (omega (arith, length-run start bv.len, inside)) in
          ground (arith, cuts, ap₂ (λ (x y : List ℕ). x ++ y) here rest, split)
      | inr c ↦
          let behind : done + bv.len ≤ new_size = ground (arith, c) in
          let cuts : ltb new_size ((done + bv.len) % u32) ≡ false = ap (ltb new_size) next ∙ c in
          let rest =
            ap (λ n. ranges_bytes (clear_tail new_size n false segs)) next
            ∙ clear_tail_lem new_size (done + bv.len) segs behind (omega (arith, q)) r in
          let split =
            drop-append (run start bv.len) (segs_bytes segs) (new_size - (done + bv.len))
              (new_size - done) (omega (arith, length-run start bv.len, behind)) in
          ground (arith, cuts, rest, split)
    ]

-- A read that is truncated within its bytes: the new size is the one asked for, and exactly the bytes
-- behind it are cleared.
pub bio_truncate_lem :
    (segs : List BioVec) (bio : Bio) (new_size : ℕ)
    → new_size < bio.size
    → total segs ≡ bio.size
    → bio.size < u32
    → ((bio_truncate true segs bio new_size).0.size ≡ new_size)
      × (ranges_bytes (bio_truncate true segs bio new_size).1 ≡ drop new_size (segs_bytes segs))
unfolding bio_truncate
bio_truncate_lem segs bio new_size p e q =
    let cleared =
      clear_tail_lem new_size 0 segs (omega arith) (omega (arith, e, q)) (omega (arith, p, q)) in
    ground (arith, p, cleared)

-- A bio that starts on the device, whose sectors its sizes can count, ends on it behind
-- guard_bio_eod().
pub guard_bio_eod_lem :
    (maxsector sector : ℕ) (reads : Bool) (segs : List BioVec) (bio : Bio)
    → sector < maxsector
    → bio.size < u32
    → sector + (guard_bio_eod maxsector sector reads segs bio).0.size / 512 ≤ maxsector
unfolding guard_bio_eod bio_truncate
guard_bio_eod_lem maxsector sector reads segs bio p q =
    elim (Bool-cases (leb (bio.size / 512) (maxsector - sector))) [
      | inl c ↦ ground (arith, c)
      | inr c ↦
          let big : maxsector - sector < bio.size / 512 = ground (arith, c) in
          let size : (maxsector - sector) * 512 % u32 ≡ (maxsector - sector) * 512 =
            omega (arith, big, q) in
          let cut : leb bio.size ((maxsector - sector) * 512 % u32) ≡ false =
            ground (arith, size, big) in
          ground (arith, c, cut, size)
    ]
