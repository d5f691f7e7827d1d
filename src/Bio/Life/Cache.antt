-- ===== src/Bio/Life/Cache.antt =====
-- kernel_modification/bio.c: the cache of bios of a CPU: its counters, and that no bio is lost or
-- handed out twice.
use nvme_ioctl.Prelude.{
  ℕ, suc, ◌+◌, ◌≡◌, refl, ap, ◌∙◌, ◌≤◌, Bool, true, Option, none, some, List, [], ◌∷◌, arith, leb,
  ◌==◌, if◌then◌else◌, length, Bool-cases, inl, inr, List-cases,
}
use nvme_ioctl.Bio.Life.{
  AllocCache, World, alloc_cache_threshold, alloc_cache_max, bio_uninit, bio_free, splice, refill,
  fresh, take_cached, bio_alloc_percpu_cache, bio_put_percpu_cache,
}

abbrev pub one : ℕ → ℕ → ℕ
one x b = if x == b then 1 else 0

-- How often a bio stands in a list.
abbrev pub count : ℕ → List ℕ → ℕ
count x [] = 0
count x (b ∷ r) = one x b + count x r

-- How often a bio is free: its memory is back in the pool, or it lies in the cache.
abbrev pub held : ℕ → World → ℕ
held x w = count x w.freed + count x w.cache.free_list + count x w.cache.free_list_irq

-- The counters of a cache count its lists, and the lists have at most one bio more than the limit.
pub record Counted (c : AllocCache) : Type 0 where
  pub free_nr : c.nr ≡ length c.free_list
  pub irq_nr : c.nr_irq ≡ length c.free_list_irq
  pub limit : c.nr + c.nr_irq ≤ alloc_cache_max + 1

pub bio_put_percpu_cache-Counted :
    (in_interrupt : Bool) (b : ℕ) (w : World)
    → Counted w.cache
    → Counted (bio_put_percpu_cache in_interrupt b w).cache
unfolding bio_put_percpu_cache bio_free bio_uninit
bio_put_percpu_cache-Counted in_interrupt b w c = ground (arith, c.free_nr, c.irq_nr, c.limit)

pub bio_put_percpu_cache-held :
    (in_interrupt : Bool) (b x : ℕ) (w : World)
    → held x (bio_put_percpu_cache in_interrupt b w) ≡ held x w + one x b
unfolding bio_put_percpu_cache bio_free bio_uninit
bio_put_percpu_cache-held in_interrupt b x w = ground arith

pub splice-Counted : (c : AllocCache) → Counted c → Counted (splice c)
unfolding splice
splice-Counted c h = elim (List-cases c.free_list) [
  | inl e ↦
      rw (e, splice)
        (let z : c.nr ≡ 0 = h.free_nr ∙ ap length e in
          record {
            free_nr = omega (arith, z, h.irq_nr, h.limit);
            irq_nr = refl;
            limit = omega (arith, z, h.limit);
          })
  | inr (b, r, e) ↦ rw (e, splice) h
]

pub splice-held :
    (x : ℕ) (c : AllocCache)
    → count x (splice c).free_list + count x (splice c).free_list_irq
      ≡ count x c.free_list + count x c.free_list_irq
unfolding splice
splice-held x c = elim (List-cases c.free_list) [
  | inl e ↦ rw (e, splice) (omega (arith, ap (count x) e))
  | inr (b, r, e) ↦ rw (e, splice) (omega (arith, ap (count x) e))
]

-- The bio that an allocation has taken, as often as `x` is it.
abbrev pub taken : ℕ → Option ℕ → ℕ
taken x none = 0
taken x (some b) = one x b

-- What an allocation from the cache keeps.
pub record Takes (bdev polled : Bool) (w : World) (res : Option ℕ × World) : Type 0 where
  pub counted : Counted res.1.cache
  pub none_lost : (x : ℕ) → held x res.1 + taken x res.0 ≡ held x w
  pub is_fresh : (b : ℕ) → res.0 ≡ some b → res.1.node b ≡ fresh bdev true polled

take_cached-Takes :
    (bdev polled : Bool) (l : List ℕ) (w : World)
    → w.cache.free_list ≡ l
    → Counted w.cache
    → Takes bdev polled w (take_cached bdev polled l w)
unfolding take_cached
take_cached-Takes bdev polled [] w e c = record {
  counted = c;
  none_lost = λ x. omega arith;
  is_fresh = λ b h. cc;
}
take_cached-Takes bdev polled (b ∷ r) w e c =
    let n : w.cache.nr ≡ suc (length r) = c.free_nr ∙ ap length e in
    let first : (x : ℕ) → count x w.cache.free_list ≡ one x b + count x r = λ x. ap (count x) e in
    record {
      counted = record {
        free_nr = omega (arith, n, c.limit);
        irq_nr = c.irq_nr;
        limit = omega (arith, n, c.limit);
      };
      none_lost = λ x. omega (arith, first x);
      is_fresh = λ b' h. ground (arith, h);
    }

refill-Counted : (l : List ℕ) (w : World) → Counted w.cache → Counted (refill l w).cache
unfolding refill
refill-Counted (b ∷ r) w c = c
refill-Counted [] w c = elim (Bool-cases (leb alloc_cache_threshold w.cache.nr_irq)) [
  | inl many ↦ rw many (splice-Counted w.cache c)
  | inr few ↦ rw few c
]

refill-held : (l : List ℕ) (x : ℕ) (w : World) → held x (refill l w) ≡ held x w
unfolding refill
refill-held (b ∷ r) x w = refl
refill-held [] x w = ground (arith, splice-held x w.cache)

pub bio_alloc_percpu_cache-Takes :
    (bdev polled : Bool) (w : World)
    → Counted w.cache
    → Takes bdev polled w (bio_alloc_percpu_cache bdev polled w)
unfolding bio_alloc_percpu_cache
bio_alloc_percpu_cache-Takes bdev polled w c =
    let w' = refill w.cache.free_list w in
    let t =
      take_cached-Takes bdev polled w'.cache.free_list w' refl
        (refill-Counted w.cache.free_list w c) in
    record {
      counted = t.counted;
      none_lost = λ x. t.none_lost x ∙ refill-held w.cache.free_list x w;
      is_fresh = t.is_fresh;
    }
