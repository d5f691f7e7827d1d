-- ===== src/Bio/Life.antt =====
-- kernel_modification/bio.c: how long a bio lives: references, the cache of a CPU, chains of bios and
-- their end. A bio is a number, and what it holds is a Node; a list linked by bi_next is a list of
-- bios, the first one first.
pub mod Cache
pub mod Prune
pub mod Chain
pub mod Ends
use nvme_ioctl.Prelude.{
  ℕ, zero, suc, ◌+◌, ◌-◌, ◌%◌, Bool, true, false, not, ◌&&◌, Option, none, some, List, [], ◌∷◌, u32,
  ltb, leb, ◌==◌, if◌then◌else◌,
}

-- bi_end_io: none, bio_chain_endio(), or a function of the owner.
pub data EndIo : Type 0 where
  no_end : EndIo
  chain_endio : EndIo
  calls : ℕ → EndIo

-- The fields of `struct bio` that decide about its life: REQ_ALLOC_CACHE and REQ_POLLED of bi_opf, the
-- flags BIO_CHAIN and BIO_REFFED, __bi_remaining, __bi_cnt, bi_status, bi_end_io
-- and bi_private, and whether it holds a cgroup, integrity data and an encryption context.
pub record Node : Type 0 where
  pub alloc_cache : Bool
  pub polled : Bool
  pub chain : Bool
  pub reffed : Bool
  pub remaining : ℕ
  pub cnt : ℕ
  pub status : ℕ
  pub end_io : EndIo
  pub private : Option ℕ
  pub blkg : Bool
  pub integrity : Bool
  pub crypt : Bool

-- `struct bio_alloc_cache`
pub record AllocCache : Type 0 where
  pub free_list : List ℕ
  pub free_list_irq : List ℕ
  pub nr : ℕ
  pub nr_irq : ℕ

-- The bios, the cache of the CPU, the bios whose memory went back to the pool and those whose own
-- bi_end_io was called, the last one first.
pub record World : Type 0 where
  pub node : ℕ → Node
  pub cache : AllocCache
  pub freed : List ℕ
  pub ended : List ℕ

abbrev pub alloc_cache_threshold : ℕ
alloc_cache_threshold = 16

abbrev pub alloc_cache_max : ℕ
alloc_cache_max = 256

abbrev pub set_node : ℕ → Node → World → World
set_node b n w = record w { node = λ x. if x == b then n else w.node x }

unfoldable pub bio_uninit : ℕ → World → World
bio_uninit b w = set_node b (record (w.node b) { blkg = false; integrity = false; crypt = false }) w

unfoldable pub bio_free : ℕ → World → World
unfolding bio_uninit
bio_free b w = let w' = bio_uninit b w in record w' { freed = b ∷ w'.freed }

-- bio_alloc_irq_cache_splice()
unfoldable pub splice : AllocCache → AllocCache
splice c = elim c.free_list [
  | b ∷ r ↦ c
  | [] ↦ record {
    free_list = c.free_list_irq;
    free_list_irq = [];
    nr = (c.nr + c.nr_irq) % u32;
    nr_irq = 0;
  }
]

-- The loop of __bio_alloc_cache_prune() over the free list, from `i` on: what is left of the list and
-- of its counter, the last `i`, and the world with the bios freed.
unfoldable pub prune_list : List ℕ → ℕ → ℕ → ℕ → World → List ℕ × ℕ × ℕ × World
prune_list [] nr i count w = ([], count, i, w)
prune_list (b ∷ r) nr i count w =
    let i' = (i + 1) % u32 in
    let count' = (count + u32 - 1) % u32 in
    let rest = prune_list r nr i' count' (bio_free b w) in
    if i' == nr then (r, count', i', bio_free b w) else rest

-- __bio_alloc_cache_prune(): the bios freed.
unfoldable pub prune_some : ℕ → World → ℕ × World
unfolding prune_list
prune_some nr w =
    let (left, count, i, w') = prune_list w.cache.free_list nr 0 w.cache.nr w in
    (i, record w' { cache = record (w'.cache) { free_list = left; nr = count } })

-- The second half of bio_alloc_cache_prune(), given the free list.
unfoldable pub prune_rest : List ℕ → ℕ → ℕ → World → World
unfolding prune_some splice
prune_rest (b ∷ r) nr i w = w
prune_rest [] nr i w = (prune_some ((nr + u32 - i) % u32) (record w { cache = splice w.cache })).1

unfoldable pub bio_alloc_cache_prune : ℕ → World → World
unfolding prune_some prune_rest
bio_alloc_cache_prune nr w = let (i, w') = prune_some nr w in prune_rest w'.cache.free_list nr i w'

-- bio_cpu_dead() of a set with a cache, and bio_alloc_cache_destroy() for each CPU: the cache is
-- pruned by -1U bios.
unfoldable pub bio_cpu_dead : World → World
unfolding bio_alloc_cache_prune
bio_cpu_dead w = bio_alloc_cache_prune (u32 - 1) w

-- bio_init() of a bio that comes out of the cache, with a device or without.
unfoldable pub fresh : Bool → Bool → Bool → Node
fresh bdev alloc_cache polled = record {
  alloc_cache = alloc_cache;
  polled = polled;
  chain = false;
  reffed = false;
  remaining = 1;
  cnt = 1;
  status = 0;
  end_io = no_end;
  private = none;
  blkg = bdev;
  integrity = false;
  crypt = false;
}

-- The parts of bio_alloc_percpu_cache(), given the free list: the list is filled up from the one of
-- the interrupts, and its first bio is taken.
unfoldable pub refill : List ℕ → World → World
unfolding splice
refill (b ∷ r) w = w
refill [] w =
    if leb alloc_cache_threshold w.cache.nr_irq then record w { cache = splice w.cache } else w

unfoldable pub take_cached : Bool → Bool → List ℕ → World → Option ℕ × World
unfolding fresh
take_cached bdev polled [] w = (none, w)
take_cached bdev polled (b ∷ r) w = (
  some b,
  set_node b (fresh bdev true polled)
      (record w { cache = record (w.cache) { free_list = r; nr = (w.cache.nr + u32 - 1) % u32 } }),
)

unfoldable pub bio_alloc_percpu_cache : Bool → Bool → World → Option ℕ × World
unfolding take_cached refill
bio_alloc_percpu_cache bdev polled w =
    let w' = refill w.cache.free_list w in take_cached bdev polled w'.cache.free_list w'

module _ (in_interrupt : Bool) where
  unfoldable pub bio_put_percpu_cache : ℕ → World → World
  unfolding bio_free bio_uninit
  bio_put_percpu_cache b w =
      let c = w.cache in
      let w' = bio_uninit b w in
      if ltb alloc_cache_max ((c.nr_irq + c.nr) % u32)
      then bio_free b w
      else if (w.node b).polled && not in_interrupt
      then record w' { cache = record c { free_list = b ∷ c.free_list; nr = (c.nr + 1) % u32 } }
      else record w' {
        cache = record c { free_list_irq = b ∷ c.free_list_irq; nr_irq = (c.nr_irq + 1) % u32 };
      }

  -- The end of bio_put(), for the last reference.
  unfoldable pub give_back : ℕ → World → World
  unfolding bio_put_percpu_cache bio_free
  give_back b w = if (w.node b).alloc_cache then bio_put_percpu_cache b w else bio_free b w

  -- bio_put(); `none` is its BUG_ON().
  unfoldable pub bio_put : ℕ → World → Option World
  unfolding give_back
  bio_put b w =
      let n = w.node b in
      let w' = set_node b (record n { cnt = n.cnt - 1 }) w in
      if not n.reffed
      then some (give_back b w)
      else if n.cnt == 0
      then none
      else if not (n.cnt == 1)
      then some w'
      else some (give_back b w')

-- What happens to the cache of a CPU: a bio is put (in an interrupt or not), a bio is allocated, or
-- the cache is pruned.
pub data CacheCall : Type 0 where
  puts : Bool → ℕ → CacheCall
  takes : Bool → Bool → CacheCall
  prunes : ℕ → CacheCall

unfoldable pub cache_call : CacheCall → World → Option ℕ × World
unfolding bio_put_percpu_cache bio_alloc_percpu_cache bio_alloc_cache_prune
cache_call (puts irq b) w = (none, bio_put_percpu_cache irq b w)
cache_call (takes bdev polled) w = bio_alloc_percpu_cache bdev polled w
cache_call (prunes nr) w = (none, bio_alloc_cache_prune nr w)
