-- ===== src/BlkMap/Kept.antt =====
-- kernel_modification/blk-map.c: what blk_rq_map_kern() holds when it is done.
use nvme_ioctl.Prelude.{
  ℕ, zero, suc, ◌+◌, ◌-◌, ◌*◌, ◌/◌, ◌%◌, ◌≡◌, refl, ap, ◌≤◌, ◌<◌, true, false, not, ◌||◌, some, min,
  arith, ℤ, is_zero, u32, page_size, length, Option-cases, ◌⊎◌, inl, inr,
}
use nvme_ioctl.Bio.{Bio, bio_add_pc_page}
use nvme_ioctl.BlkMap.{Request, Pool, Host, bio_kmalloc, fresh_bio, blk_rq_append_bio}
use nvme_ioctl.BlkMap.Holding.{append_adds}
use nvme_ioctl.BlkMap.Kern.{
  KernelMemory, MadeBio, made, failed, map_kern_pages, bio_map_kern, copy_kern_pages, bio_copy_kern,
  append_kern, blk_rq_map_kern, kern_end,
}

-- With 0 a bio more is held and in the request, with an error all is as before; no page is held for it.
abbrev pub Keeps : Request → Pool → ℤ × Request × Pool → Type 0
Keeps rq p (ret, rq', p') =
    (p'.pages ≡ p.pages)
    × (((is_zero ret ≡ true) × ((p'.bios ≡ p.bios + 1) × (length rq'.bios ≡ length rq.bios + 1)))
        ⊎ ((is_zero ret ≡ false) × ((p'.bios ≡ p.bios) × (rq' ≡ rq))))

-- The same of a bio that is made.
abbrev pub Makes : Pool → MadeBio → Type 0
Makes p (made bio p') = (p'.bios ≡ p.bios + 1) × (p'.pages ≡ p.pages)
Makes p (failed e p') = (is_zero e ≡ false) × ((p'.bios ≡ p.bios) × (p'.pages ≡ p.pages))

module _ (host : Host) (km : KernelMemory) where
  bio_kmalloc_lem :
      (n : ℕ) (p : Pool) (r : Bio × Pool)
      → bio_kmalloc host n p ≡ some r
      → (r.1.bios ≡ p.bios + 1) × (r.1.pages ≡ p.pages)
  unfolding bio_kmalloc
  bio_kmalloc_lem n p r h = ground arith

  bio_map_kern-Makes : (kaddr len : ℕ) (p : Pool) → Makes p (bio_map_kern host km kaddr len p)
  unfolding bio_map_kern
  bio_map_kern-Makes kaddr len p =
      let n = kern_end kaddr len - kaddr / page_size in
      elim (Option-cases (bio_kmalloc host n p)) [
        | inl c ↦ ground (arith, c)
        | inr c ↦
            elim (Option-cases (map_kern_pages host km n kaddr len (kaddr % page_size) c.0.0)) [
              | inl c' ↦ ground (arith, c.1, c', bio_kmalloc_lem n p c.0 c.1)
              | inr c' ↦ ground (arith, c.1, c'.1, bio_kmalloc_lem n p c.0 c.1)
            ]
      ]

  append_kern-Keeps :
      (rq : Request) (p : Pool) (b : MadeBio) → Makes p b → Keeps rq p (append_kern host km rq b)
  unfolding append_kern
  append_kern-Keeps rq p (failed e p') h = (h.1.1, inr (h.0, (h.1.0, refl)))
  append_kern-Keeps rq p (made bio p') h = elim (append_adds host rq (fresh_bio false bio)) [
    | inl c ↦ ground (arith, c, h)
    | inr c ↦ ground (arith, c, h)
  ]

  -- blk_rq_map_kern() of a buffer that it maps directly: with 0 a bio more is held and stands in the
  -- request, with an error bios and request are those of before, and pages of its own are never held.
  blk_rq_map_kern-Keeps :
      (rq : Request) (kbuf len : ℕ) (p : Pool)
      → (not (km.aligned kbuf len) || km.on_stack kbuf || host.may_bounce) ≡ false
      → Keeps rq p (blk_rq_map_kern host km rq kbuf len p)
  unfolding blk_rq_map_kern
  blk_rq_map_kern-Keeps rq kbuf len p direct =
      let mapped =
        append_kern-Keeps rq p (bio_map_kern host km kbuf len p) (bio_map_kern-Makes kbuf len p) in
      ground (arith, direct, mapped)

  pages_grow :
      (fuel len : ℕ) (bio : Bio) (p : Pool)
      → p.pages ≤ (copy_kern_pages host km fuel len bio p).2.pages
  unfolding copy_kern_pages
  pages_grow zero len bio p = omega arith
  pages_grow (suc fuel) len bio p = elim (Option-cases (host.page_alloc p.pages)) [
    | inl c ↦ ground (arith, c)
    | inr c ↦
        let bytes = min page_size len in
        let p' : Pool = record p { pages = p.pages + 1 } in
        let bio' = (bio_add_pc_page host.platform host.queue bio c.0 bytes 0).1 in
        let rest = pages_grow fuel (len - bytes) bio' p' in ground (arith, c.1, rest)
  ]

  -- The first page of a buffer that is not empty.
  first_page :
      (len : ℕ) (bio : Bio) (p : Pool)
      → 0 < len
      → (copy_kern_pages host km len len bio p).0 ≡ true
      → p.pages < (copy_kern_pages host km len len bio p).2.pages
  unfolding copy_kern_pages
  first_page zero bio p h w = absurd (omega arith)
  first_page (suc n) bio p h w = elim (Option-cases (host.page_alloc p.pages)) [
    | inl c ↦ absurd (ground (arith, c))
    | inr c ↦
        let bytes = min page_size (suc n) in
        let p' : Pool = record p { pages = p.pages + 1 } in
        let bio' = (bio_add_pc_page host.platform host.queue bio c.0 bytes 0).1 in
        let rest = pages_grow n (suc n - bytes) bio' p' in ground (arith, c.1, rest)
  ]

  copied_pages :
      (kaddr len : ℕ) (p p' : Pool) (bio : Bio)
      → 0 < len
      → bio_copy_kern host km kaddr len p ≡ made bio p'
      → p.pages < p'.pages
  unfolding bio_copy_kern
  copied_pages kaddr len p p' bio h made_lem =
      let n = kern_end kaddr len - kaddr / page_size in
      elim (Option-cases (bio_kmalloc host n p)) [
        | inl c ↦ absurd (ground (arith, c))
        | inr c ↦
            let start = bio_kmalloc_lem n p c.0 c.1 in
            let whole : (copy_kern_pages host km len len c.0.0 c.0.1).0 ≡ true =
              ground (arith, c.1) in
            let grown = first_page len c.0.0 c.0.1 h whole in
            let same : p' ≡ (copy_kern_pages host km len len c.0.0 c.0.1).2 = ground (arith, c.1) in
            omega (arith, grown, start, ap (λ (q : Pool). q.pages) same)
      ]

  -- blk_rq_map_kern() of a buffer that it has copied, where the request does not take the bio: the
  -- answer is not 0, and more pages are held than before.
  pub blk_rq_map_kern-leaks :
      (rq : Request) (kbuf len : ℕ) (p p' : Pool) (bio : Bio)
      → (not (km.aligned kbuf len) || km.on_stack kbuf || host.may_bounce) ≡ true
      → 0 < len
      → 0 < kbuf
      → len ≤ host.queue.max_hw_sectors * 512 % u32
      → bio_copy_kern host km kbuf len p ≡ made bio p'
      → is_zero (blk_rq_append_bio host rq (fresh_bio false bio)).0 ≡ false
      → (is_zero (blk_rq_map_kern host km rq kbuf len p).0 ≡ false)
        × (p.pages < (blk_rq_map_kern host km rq kbuf len p).2.pages)
  unfolding blk_rq_map_kern append_kern
  blk_rq_map_kern-leaks rq kbuf len p p' bio copies some_bytes some_address fits copied refuses =
      ground (arith, copied, refuses, copied_pages kbuf len p p' bio some_bytes copied)
