-- ===== src/Bio/Life/Prune.antt =====
-- kernel_modification/bio.c: pruning the cache of bios, and any run of calls on it.
use nvme_ioctl.Prelude.{
  ℕ, ◌+◌, ◌-◌, ◌%◌, ◌≡◌, refl, sym, ap, ◌∙◌, ◌≤◌, ◌<◌, false, List, [], ◌∷◌, arith, u32, ◌==◌,
  length, Bool-cases, inl, inr,
}
use nvme_ioctl.Bio.Life.{
  prune_rest, bio_cpu_dead, CacheCall, puts, takes, prunes, cache_call, AllocCache, World,
  bio_uninit, bio_free, splice, prune_list, prune_some, bio_alloc_cache_prune,
}
use nvme_ioctl.Bio.Life.Cache.{
  Counted, bio_alloc_percpu_cache-Takes, bio_put_percpu_cache-Counted, bio_put_percpu_cache-held,
  count, held, one, splice-Counted, splice-held, taken,
}

-- The loop of __bio_alloc_cache_prune() moves bios from the list to the pool.
pub record Prunes (l : List ℕ) (w : World) (res : List ℕ × ℕ × ℕ × World) : Type 0 where
  pub counted : res.1 ≡ length res.0
  pub shorter : length res.0 ≤ length l
  pub none_lost : (x : ℕ) → count x res.3.freed + count x res.0 ≡ count x w.freed + count x l
  pub same_cache : res.3.cache ≡ w.cache

prune_list-Prunes :
    (l : List ℕ) (nr i n : ℕ) (w : World)
    → n ≡ length l
    → n < u32
    → Prunes l w (prune_list l nr i n w)
unfolding prune_list bio_free bio_uninit
prune_list-Prunes [] nr i n w e small = record {
  counted = e;
  shorter = omega arith;
  none_lost = λ x. refl;
  same_cache = refl;
}
prune_list-Prunes (b ∷ r) nr i n w e small =
    let n' : (n + u32 - 1) % u32 ≡ length r = omega (arith, e) in
    elim (Bool-cases ((i + 1) % u32 == nr)) [
      | inl last ↦ rw last (record {
        counted = n';
        shorter = omega arith;
        none_lost = λ x. omega arith;
        same_cache = refl;
      })
      | inr more ↦
          let t =
            prune_list-Prunes r nr ((i + 1) % u32) ((n + u32 - 1) % u32) (bio_free b w) n'
              (omega arith) in
          rw more (record {
            counted = t.counted;
            shorter = omega (arith, t.shorter);
            none_lost = λ x. omega (arith, t.none_lost x);
            same_cache = t.same_cache;
          })
    ]

-- Asked for more bios than the list has, the loop frees all of them.
prune_list-all :
    (l : List ℕ) (nr i n : ℕ) (w : World)
    → i + length l < nr
    → nr < u32
    → ((prune_list l nr i n w).0 ≡ []) × ((prune_list l nr i n w).2 ≡ i + length l)
unfolding prune_list
prune_list-all [] nr i n w p q = (refl, omega arith)
prune_list-all (b ∷ r) nr i n w p q =
    let next : (i + 1) % u32 ≡ i + 1 = omega arith in
    let more : ((i + 1) % u32 == nr) ≡ false = ground (arith, next, p) in
    let t =
      prune_list-all r nr ((i + 1) % u32) ((n + u32 - 1) % u32) (bio_free b w) (omega arith) q in
    rw more (t.0, omega (arith, t.1, next))

prune_some-Keeps : (nr : ℕ) (w : World) → Counted w.cache → Counted (prune_some nr w).1.cache
unfolding prune_some
prune_some-Keeps nr w c =
    let t =
      prune_list-Prunes w.cache.free_list nr 0 w.cache.nr w c.free_nr (omega (arith, c.limit)) in
    let irq = ap (λ (a : AllocCache). a.nr_irq) t.same_cache in
    let irq_list = ap (λ (a : AllocCache). a.free_list_irq) t.same_cache in
    record {
      free_nr = t.counted;
      irq_nr = irq ∙ c.irq_nr ∙ sym (ap length irq_list);
      limit = omega (arith, irq, t.counted, t.shorter, c.free_nr, c.limit);
    }

prune_some-held : (nr x : ℕ) (w : World) → Counted w.cache → held x (prune_some nr w).1 ≡ held x w
unfolding prune_some
prune_some-held nr x w c =
    let t =
      prune_list-Prunes w.cache.free_list nr 0 w.cache.nr w c.free_nr (omega (arith, c.limit)) in
    omega (arith, t.none_lost x, ap (λ (a : AllocCache). count x a.free_list_irq) t.same_cache)

prune_some-all :
    (nr : ℕ) (w : World)
    → length w.cache.free_list < nr
    → nr < u32
    → ((prune_some nr w).1.cache.free_list ≡ []) × ((prune_some nr w).0 ≡ length w.cache.free_list)
unfolding prune_some
prune_some-all nr w p q =
    let t = prune_list-all w.cache.free_list nr 0 w.cache.nr w (omega arith) q in
    (t.0, omega (arith, t.1))

splice-empty :
    (c : AllocCache)
    → c.free_list ≡ []
    → ((splice c).free_list ≡ c.free_list_irq) × ((splice c).free_list_irq ≡ [])
unfolding splice
splice-empty c e = rw (e, splice) (refl, refl)

prune_some-irq :
    (nr : ℕ) (w : World)
    → Counted w.cache
    → (prune_some nr w).1.cache.free_list_irq ≡ w.cache.free_list_irq
unfolding prune_some
prune_some-irq nr w c =
    let t =
      prune_list-Prunes w.cache.free_list nr 0 w.cache.nr w c.free_nr (omega (arith, c.limit)) in
    ap (λ (a : AllocCache). a.free_list_irq) t.same_cache

prune_rest-Counted :
    (l : List ℕ) (nr i : ℕ) (w : World) → Counted w.cache → Counted (prune_rest l nr i w).cache
unfolding prune_rest
prune_rest-Counted (b ∷ r) nr i w c = c
prune_rest-Counted [] nr i w c =
    prune_some-Keeps ((nr + u32 - i) % u32) (record w { cache = splice w.cache })
      (splice-Counted w.cache c)

prune_rest-held :
    (l : List ℕ) (nr i x : ℕ) (w : World)
    → Counted w.cache
    → held x (prune_rest l nr i w) ≡ held x w
unfolding prune_rest
prune_rest-held (b ∷ r) nr i x w c = refl
prune_rest-held [] nr i x w c = omega (
  arith,
  prune_some-held ((nr + u32 - i) % u32) x (record w { cache = splice w.cache })
      (splice-Counted w.cache c),
  splice-held x w.cache,
)

-- The bios that some calls put, as often as `x` is one.
abbrev pub put_by : ℕ → CacheCall → ℕ
put_by x (puts irq b) = one x b
put_by x (takes bdev polled) = 0
put_by x (prunes nr) = 0

cache_call-Counted :
    (call : CacheCall) (w : World) → Counted w.cache → Counted (cache_call call w).1.cache
unfolding cache_call bio_alloc_cache_prune
cache_call-Counted (puts irq b) w c = bio_put_percpu_cache-Counted irq b w c
cache_call-Counted (takes bdev polled) w c = (bio_alloc_percpu_cache-Takes bdev polled w c).counted
cache_call-Counted (prunes nr) w c =
    prune_rest-Counted _ nr (prune_some nr w).0 (prune_some nr w).1 (prune_some-Keeps nr w c)

cache_call-held :
    (call : CacheCall) (x : ℕ) (w : World)
    → Counted w.cache
    → held x (cache_call call w).1 + taken x (cache_call call w).0 ≡ held x w + put_by x call
unfolding cache_call bio_alloc_cache_prune
cache_call-held (puts irq b) x w c = omega (arith, bio_put_percpu_cache-held irq b x w)
cache_call-held (takes bdev polled) x w c =
    omega (arith, (bio_alloc_percpu_cache-Takes bdev polled w c).none_lost x)
cache_call-held (prunes nr) x w c = omega (
  arith,
  prune_rest-held (prune_some nr w).1.cache.free_list nr (prune_some nr w).0 x (prune_some nr w).1
      (prune_some-Keeps nr w c),
  prune_some-held nr x w c,
)

-- A run of such calls: how often `x` was handed out by then, and the world.
pub cache_calls : ℕ → List CacheCall → World → ℕ × World
cache_calls x [] w = (0, w)
cache_calls x (call ∷ calls) w =
    let (b, w') = cache_call call w in let (n, w'') = cache_calls x calls w' in (taken x b + n, w'')

abbrev pub all_put : ℕ → List CacheCall → ℕ
all_put x [] = 0
all_put x (call ∷ calls) = put_by x call + all_put x calls

-- Whatever is put, allocated and pruned, in process context and in interrupts, in whatever order: the
-- counters of the cache count its lists, which hold 257 bios at most, and each bio is free as often as
-- it was free before and was put, less the times it was handed out. So no bio is lost, and none is
-- handed out twice without being put between.
pub cache_calls-Counted :
    (calls : List CacheCall) (x : ℕ) (w : World)
    → Counted w.cache
    → Counted (cache_calls x calls w).1.cache
      × (held x (cache_calls x calls w).1 + (cache_calls x calls w).0 ≡ held x w + all_put x calls)
unfolding cache_calls
cache_calls-Counted [] x w c = (c, omega arith)
cache_calls-Counted (call ∷ calls) x w c =
    let w' = (cache_call call w).1 in
    let rest = cache_calls-Counted calls x w' (cache_call-Counted call w c) in
    (rest.0, omega (arith, rest.1, cache_call-held call x w c))

-- When a CPU goes away its cache is emptied: all bios of both lists go back to the pool.
pub bio_cpu_dead-empties :
    (w : World)
    → Counted w.cache
    → ((bio_cpu_dead w).cache.free_list ≡ []) × ((bio_cpu_dead w).cache.free_list_irq ≡ [])
unfolding bio_cpu_dead bio_alloc_cache_prune prune_rest
bio_cpu_dead-empties w c =
    let w' = (prune_some (u32 - 1) w).1 in
    let i = (prune_some (u32 - 1) w).0 in
    let nr = (u32 - 1 + u32 - i) % u32 in
    let first = prune_some-all (u32 - 1) w (omega (arith, c.free_nr, c.limit)) (omega arith) in
    let c' = prune_some-Keeps (u32 - 1) w c in
    let s = record w' { cache = splice w'.cache } in
    let spliced = splice-empty w'.cache first.0 in
    let more : length s.cache.free_list < nr =
      omega (arith, ap length spliced.0, c'.irq_nr, c'.limit, first.1, c.free_nr, c.limit) in
    let second = prune_some-all nr s more (omega arith) in
    let opens : prune_rest w'.cache.free_list (u32 - 1) i w' ≡ (prune_some nr s).1 =
      ap (λ l. prune_rest l (u32 - 1) i w') first.0 in
    (
      ap (λ (v : World). v.cache.free_list) opens ∙ second.0,
      ap (λ (v : World). v.cache.free_list_irq) opens
          ∙ prune_some-irq nr s (splice-Counted w'.cache c')
          ∙ spliced.1,
    )
