-- ===== src/Bio/Parts/Cut.antt =====
-- kernel_modification/bio.c: bio_split() and bio_trim() on the bytes of a bio.
use nvme_ioctl.Prelude.{
  ℕ, zero, suc, ◌+◌, ◌-◌, ◌*◌, ◌/◌, ◌%◌, ◌≡◌, refl, sym, ap, ◌∙◌, ◌≤◌, ◌<◌, ◌⊎◌, inl, inr, Bool,
  true, false, not, ◌&&◌, ◌||◌, List, [], ◌∷◌, arith, u32, ltb, ◌==◌, length, take, drop,
  length-drop, Bool-cases,
}
use nvme_ioctl.Bio.Parts.{
  same_bdev, Cursor, Follows, Part, Clones, no_split, halves, clone_fields, bio_alloc_clone,
  bio_split, bio_trim,
}

take_all : (n : ℕ) (l : List ℕ) → length l ≡ n → take n l ≡ l
take_all zero [] e = refl
take_all zero (x ∷ l) e = absurd (omega arith)
take_all (suc n) [] e = absurd (omega arith)
take_all (suc n) (x ∷ l) e = ap (λ t. x ∷ t) (take_all n l (omega arith))

module _ (cu : Cursor) (law : Follows cu) where
  open cu use {It, bytes, size, advance, set_size}

  -- Whether a clone can be had.
  abbrev can_clone : Clones → Bool
  can_clone k = k.has_bio && (k.crypt_clones && k.integrity_clones)

  -- A bio that was cut in two: the parts have the bytes before and behind the cut.
  pub record CutAt (bio a b : Part cu) (n : ℕ) : Type 0 where
    pub front : bytes a.iter ≡ take n (bytes bio.iter)
    pub behind : bytes b.iter ≡ drop n (bytes bio.iter)
    pub shared : a.io_vec ≡ bio.io_vec
    pub marked : a.cloned ≡ true

  -- bio_split() behind a number of sectors that is positive and less than those of the bio: where a clone
  -- can be had and the bio is no zone append, the new bio has the bytes of those sectors in the same
  -- vectors and the old one the rest, and one bio more is held; else nothing has changed.
  pub bio_split-CutAt :
      (k : Clones) (bio : Part cu) (sectors bios : ℕ)
      → 0 < sectors
      → sectors < size bio.iter / 512
      → size bio.iter < u32
      → ((can_clone k && not bio.zone_append ≡ false)
          × (bio_split cu k bio sectors bios ≡ no_split bio bios))
        ⊎ ((can_clone k && not bio.zone_append ≡ true)
            × (a : Part cu) × (b : Part cu) × (bio_split cu k bio sectors bios
                ≡ halves a b (bios + 1))
            × CutAt bio a b (sectors * 512))
  unfolding bio_split bio_alloc_clone clone_fields
  bio_split-CutAt k bio sectors bios pos_sectors inside small =
      let n : sectors * 512 % u32 ≡ sectors * 512 = omega (arith, inside, small) in
      let fits : sectors * 512 ≤ size bio.iter = omega (arith, inside) in
      elim (Bool-cases (can_clone k && not bio.zone_append)) [
        | inl can ↦ inr (
          can,
          record bio {
            cloned = true;
            remapped = false || (same_bdev bio.bdev bio.bdev && bio.remapped);
            trace = false || bio.trace;
            iter = set_size bio.iter (sectors * 512);
          },
          record bio { iter = advance bio.iter (sectors * 512) },
          ground (arith, can, n),
          record {
            front = law.set_size_lem bio.iter (sectors * 512) fits;
            behind = law.advance_lem bio.iter (sectors * 512) fits;
            shared = refl;
            marked = refl;
          },
        )
        | inr cannot ↦ inl (cannot, ground (arith, cannot))
      ]

  -- bio_trim() of sectors that lie within the bio leaves exactly their bytes.
  pub bio_trim-bytes :
      (max_sectors : ℕ) (bio : Part cu) (offset sectors : ℕ)
      → offset ≤ max_sectors
      → sectors ≤ max_sectors
      → offset + sectors ≤ size bio.iter / 512
      → bytes (bio_trim cu max_sectors bio offset sectors).iter
        ≡ take (sectors * 512) (drop (offset * 512) (bytes bio.iter))
  unfolding bio_trim
  bio_trim-bytes max_sectors bio offset sectors p q inside =
      let fits : offset * 512 + sectors * 512 ≤ size bio.iter = omega (arith, inside) in
      let there = advance bio.iter (offset * 512) in
      let moved = law.advance_lem bio.iter (offset * 512) (omega (arith, fits)) in
      let left : size there ≡ size bio.iter - offset * 512 = omega (
        arith,
        sym (law.size_lem there) ∙ ap length moved,
        length-drop (offset * 512) (bytes bio.iter),
        law.size_lem bio.iter,
      ) in
      let cut = law.set_size_lem there (sectors * 512) (omega (arith, left, fits)) in
      let in_range : ltb max_sectors offset
            || (ltb max_sectors sectors || ltb (size bio.iter / 512) (offset + sectors))
          ≡ false =
        ground (arith, p, q, inside) in
      elim (Bool-cases (offset == 0 && sectors * 512 == size bio.iter)) [
        | inl whole ↦
            let at_start : offset * 512 ≡ 0 = ground (arith, whole) in
            let all_of : sectors * 512 ≡ size bio.iter = ground (arith, whole) in
            rw (in_range, whole)
              (sym (
                ap (λ n. take (sectors * 512) (drop n (bytes bio.iter))) at_start
                ∙ take_all (sectors * 512) (bytes bio.iter) (law.size_lem bio.iter ∙ sym all_of)))
        | inr part ↦ rw (in_range, part) (cut ∙ ap (take (sectors * 512)) moved)
      ]
