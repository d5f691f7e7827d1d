-- ===== src/Bio/Pool/Grants.antt =====
-- kernel_modification/bio.c: when bio_alloc_bioset() has a bio, and what it holds.
use nvme_ioctl.Prelude.{
  ℕ, ◌+◌, ◌≡◌, refl, ◌≤◌, ◌<◌, ◌⊎◌, inl, inr, Bool, true, false, not, ◌&&◌, ◌||◌, Option, none,
  some, arith, ltb, leb, ◌==◌, length, Bool-cases, Option-cases,
}
use nvme_ioctl.Bio.Life.{World, bio_alloc_percpu_cache}
use nvme_ioctl.Bio.Pool.{
  Alloc, BioSet, from_cache, made, Answer, bug, answered, biovec_slab, bvec_alloc, get_bio,
  get_vecs, with_vecs, alloc_bio, bio_alloc_bioset, punt_bios_to_rescuer, max_vecs, inline_vecs,
}

-- mempool_alloc() does not fail where it may wait.
pub record Guarantees (bs : BioSet) : Type 0 where
  pub bios : (n : ℕ) → bs.bio_pool n true ≡ true
  pub vecs : (n : ℕ) → bs.bvec_pool n true ≡ true

module _ (bs : BioSet) where
  punt-held : (a : Alloc) → (punt_bios_to_rescuer bs a).held ≡ a.held
  unfolding punt_bios_to_rescuer
  punt-held a = ground arith

  abbrev RoomFor : ℕ → Option ℕ → Type 0
  RoomFor n none = ⊥
  RoomFor n (some k) = (n ≤ k) × (k ≤ max_vecs)

  biovec_slab-RoomFor : (n : ℕ) → 4 < n → n ≤ max_vecs → RoomFor n (biovec_slab n)
  unfolding biovec_slab
  biovec_slab-RoomFor n p q = ground arith

  -- Vectors for `n` were got, or could not be without waiting; nothing is held for them.
  abbrev VecsFor : Bool → ℕ → Alloc → Option (Bool × ℕ × Alloc) → Type 0
  VecsFor direct n a none = ⊥
  VecsFor direct n a (some r) =
      (n ≤ r.1) × (r.1 ≤ max_vecs) × (r.2.held ≡ a.held) × ((direct ≡ false) ⊎ (r.0 ≡ true))

  module _ (sure : Guarantees bs) where
    bvec_alloc-VecsFor :
        (direct : Bool) (n : ℕ) (a : Alloc)
        → 4 < n
        → n ≤ max_vecs
        → VecsFor direct n a (bvec_alloc bs direct n a)
    unfolding bvec_alloc
    bvec_alloc-VecsFor true n a p q =
        ground (arith, biovec_slab-RoomFor n p q, sure.vecs a.asked, sure.vecs (a.asked + 1))
    bvec_alloc-VecsFor false n a p q = ground (arith, biovec_slab-RoomFor n p q)

    get_vecs-VecsFor :
        (direct mask : Bool) (n : ℕ) (a : Alloc)
        → 4 < n
        → n ≤ max_vecs
        → VecsFor direct n a (get_vecs bs direct mask n a)
    unfolding get_vecs
    get_vecs-VecsFor direct mask n a p q =
        let first = bvec_alloc-VecsFor mask n a p q in
        elim (Option-cases (bvec_alloc bs mask n a)) [
          | inl e ↦ absurd (ground (arith, e, first))
          | inr (r, e) ↦
              let second =
                bvec_alloc-VecsFor direct r.1 (punt_bios_to_rescuer bs r.2)
                  (ground (arith, p, e, first)) (ground (arith, e, first)) in
              ground (arith, e, first, second, punt-held r.2)
        ]

    -- The memory of a bio was got, which is held, or could not be without waiting.
    abbrev BioFor : Bool → Alloc → Bool × Bool × Alloc → Type 0
    BioFor direct a r =
        ((r.0 ≡ true) × (r.2.held ≡ a.held + 1))
        ⊎ ((r.0 ≡ false) × (r.2.held ≡ a.held) × (direct ≡ false))

    get_bio-BioFor :
        (direct less : Bool) (a : Alloc) → BioFor direct a (get_bio bs direct (direct && less) a)
    unfolding get_bio
    get_bio-BioFor direct less a =
        let a₁ = record a { asked = a.asked + 1 } in
        ground
          (arith, punt-held a₁, sure.bios a.asked, sure.bios (punt_bios_to_rescuer bs a₁).asked)

    -- What an allocation comes to: a bio that has the room asked for and is held, or none where it may
    -- not wait, and then nothing is held for it.
    abbrev pub Served : Bool → ℕ → Alloc → Answer → Type 0
    Served direct n a bug = ⊥
    Served direct n a (answered none a') = (direct ≡ false) × (a'.held ≡ a.held)
    Served direct n a (answered (some (from_cache b)) a') = (n ≤ inline_vecs) × (a'.held ≡ a.held)
    Served direct n a (answered (some (made k cached)) a') = (n ≤ k) × (a'.held ≡ a.held + 1)

    with_vecs-Served :
        (direct mask : Bool) (n : ℕ) (cached : Bool) (a a₀ : Alloc)
        → n ≤ max_vecs
        → a.held ≡ a₀.held + 1
        → Served direct n a₀ (with_vecs bs direct mask n cached a)
    unfolding with_vecs
    with_vecs-Served direct mask n cached a a₀ q held = elim (Bool-cases (ltb inline_vecs n)) [
      | inr few ↦ elim (Bool-cases (n == 0)) [
        | inl nil ↦ rw (few, nil) (ground (arith, nil), held)
        | inr more ↦ rw (few, more) (ground (arith, few), held)
      ]
      | inl many ↦
          let v = get_vecs-VecsFor direct mask n a (ground (arith, many)) q in
          elim (Option-cases (get_vecs bs direct mask n a)) [
            | inl e ↦ absurd (ground (arith, e, v))
            | inr (r, e) ↦ ground (arith, many, e, v, held)
          ]
    ]

    alloc_bio-Served :
        (on_list direct : Bool) (n : ℕ) (cached : Bool) (a : Alloc)
        → n ≤ max_vecs
        → Served direct n a (alloc_bio bs on_list direct n cached a)
    unfolding alloc_bio
    alloc_bio-Served on_list direct n cached a q =
        let blocks =
          on_list
          && ((not (length a.waiting == 0) || not (length a.submitted == 0)) && bs.has_rescuer) in
        let g = get_bio bs direct (direct && not blocks) a in
        elim (get_bio-BioFor direct (not blocks) a) [
          | inl (got, held) ↦
              rw got (with_vecs-Served direct g.1 n (cached && bs.saturated) g.2 a q held)
          | inr (lost, same, weak) ↦ rw lost (weak, same)
        ]

    -- bio_alloc_bioset() for no more vectors than BIO_MAX_VECS, of a set that has vectors where some are
    -- wanted, meets no BUG(). It gives a bio with room for them: one from the cache of the CPU, for no
    -- more than the inline vectors, or a new one, which is then held. It gives none only where the caller
    -- does not allow it to wait (no __GFP_DIRECT_RECLAIM), and then holds nothing for it, also where the
    -- vectors were what failed. So it always gives one where it may wait, although the first try does
    -- not wait while the task has bios of its own to submit.
    pub bio_alloc_bioset-Served :
        (bdev polled on_list direct : Bool) (n : ℕ) (cached : Bool) (a : Alloc) (w : World)
        → n ≤ max_vecs
        → (n ≡ 0) ⊎ (bs.has_bvec_pool ≡ true)
        → Served direct n a (bio_alloc_bioset bs bdev polled on_list direct n cached a w).0
    unfolding bio_alloc_bioset
    bio_alloc_bioset-Served bdev polled on_list direct n cached a w q has =
        let b = (bio_alloc_percpu_cache bdev polled w).0 in
        let plain = alloc_bio-Served on_list direct n false a q in
        let again = alloc_bio-Served on_list direct n true a q in
        let allowed : (not bs.has_bvec_pool && ltb 0 n) ≡ false = ground (arith, has) in
        elim (Bool-cases cached) [
          | inr no_cache ↦ rw (allowed, no_cache) plain
          | inl wants_cache ↦ elim (Bool-cases (bs.has_cache && leb n inline_vecs)) [
            | inr big ↦ rw (allowed, wants_cache, big) plain
            | inl small ↦ elim (Option-cases b) [
              | inl empty ↦ rw (allowed, wants_cache, small, empty) again
              | inr (b', found) ↦
                  rw (allowed, wants_cache, small, found) (ground (arith, small), refl)
            ]
          ]
        ]
