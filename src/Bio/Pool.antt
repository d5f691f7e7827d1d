-- ===== src/Bio/Pool.antt =====
-- kernel_modification/bio.c: bio_alloc_bioset() and the rescuer of a set of bios. The kernel's
-- allocators are parameters.
pub mod Rescue
pub mod Grants
use nvme_ioctl.Prelude.{
  ℕ, zero, suc, ◌+◌, ◌-◌, Bool, true, false, not, ◌&&◌, ◌||◌, Option, none, some, List, [], ◌∷◌,
  ◌++◌, ltb, leb, ◌==◌, if◌then◌else◌, is_some, length,
}
use nvme_ioctl.Bio.Life.{World, bio_alloc_percpu_cache}

-- BIO_MAX_VECS and BIO_INLINE_VECS of the kernel's headers.
abbrev pub max_vecs : ℕ
max_vecs = 256

abbrev pub inline_vecs : ℕ
inline_vecs = 4

-- What an allocation changes: current->bio_list[0] and [1], the rescue list, how often the rescuer was
-- queued, the calls made of the allocators, and the elements held of the pool of bios.
pub record Alloc : Type 0 where
  pub waiting : List ℕ
  pub submitted : List ℕ
  pub rescue_list : List ℕ
  pub queued : ℕ
  pub asked : ℕ
  pub held : ℕ

-- A set of bios and its allocators: which bios are its own, whether it has vectors, a rescuer and a
-- cache, and what the n-th call of mempool_alloc() gives (for a bio, for vectors) and of
-- kmem_cache_alloc(); the flag is __GFP_DIRECT_RECLAIM. `saturated` is mempool_is_saturated().
pub record BioSet : Type 0 where
  pub ours : ℕ → Bool
  pub has_bvec_pool : Bool
  pub has_rescuer : Bool
  pub has_cache : Bool
  pub bio_pool : ℕ → Bool → Bool
  pub bvec_pool : ℕ → Bool → Bool
  pub bvec_slab : ℕ → Bool
  pub saturated : Bool

-- A bio that is given: one of the cache, or a new one with room for so many vectors that goes to a cache
-- at its end or does not.
pub data Given : Type 0 where
  from_cache : ℕ → Given
  made : ℕ → Bool → Given

pub data Answer : Type 0 where
  bug : Answer
  answered : Option Given → Alloc → Answer

-- biovec_slab(): the vectors of the slab that serves so many; `none` is its BUG().
unfoldable pub biovec_slab : ℕ → Option ℕ
biovec_slab n =
    if leb 5 n && leb n 16
    then some 16
    else if leb 17 n && leb n 64
    then some 64
    else if leb 65 n && leb n 128
    then some 128
    else if leb 129 n && leb n max_vecs
    then some max_vecs
    else none

-- bio_alloc_rescue(): the bios that it submits, one after the other, and the list after it.
unfoldable pub bio_alloc_rescue : List ℕ → List ℕ → List ℕ × List ℕ
bio_alloc_rescue [] sent = (sent, [])
bio_alloc_rescue (b ∷ bios) sent = bio_alloc_rescue bios (sent ++ b ∷ [])

module _ (bs : BioSet) where
  -- The loops of punt_bios_to_rescuer(): the bios that are punted and those that stay, each added at
  -- the end of its list.
  unfoldable pub sort_out : List ℕ → List ℕ → List ℕ → List ℕ × List ℕ
  sort_out [] punt nopunt = (punt, nopunt)
  sort_out (b ∷ bios) punt nopunt =
      sort_out bios (if bs.ours b then punt ++ b ∷ [] else punt)
        (if bs.ours b then nopunt else nopunt ++ b ∷ [])

  unfoldable pub punt_bios_to_rescuer : Alloc → Alloc
  unfolding sort_out
  punt_bios_to_rescuer a =
      let (punt, stay) = sort_out a.waiting [] [] in
      let (punt', stay') = sort_out a.submitted punt [] in
      if not bs.has_rescuer then a else record a {
        waiting = stay;
        submitted = stay';
        rescue_list = a.rescue_list ++ punt';
        queued = a.queued + 1;
      }

  -- bvec_alloc(): whether there are vectors, and *nr_vecs. `none` is the BUG() of biovec_slab().
  unfoldable pub bvec_alloc : Bool → ℕ → Alloc → Option (Bool × ℕ × Alloc)
  unfolding biovec_slab
  bvec_alloc direct nr_vecs a = elim (biovec_slab nr_vecs) [
    | none ↦ none
    | some nr ↦
        let small = ltb nr max_vecs in
        let from_slab = bs.bvec_slab a.asked in
        let a₁ = record a { asked = a.asked + 1 } in
        let a₂ = record a { asked = a.asked + 2 } in
        if not small
        then some (bs.bvec_pool a.asked direct, nr, a₁)
        else if from_slab || not direct
        then some (from_slab, nr, a₁)
        else some (bs.bvec_pool (a.asked + 1) direct, max_vecs, a₂)
  ]

  -- The part of bio_alloc_bioset() that gets the memory of the bio: whether it has it, the gfp mask
  -- from then on, and what has changed. `direct` is the caller's mask, `mask` the one it starts with.
  unfoldable pub get_bio : Bool → Bool → Alloc → Bool × Bool × Alloc
  unfolding punt_bios_to_rescuer
  get_bio direct mask a =
      let a₁ = record a { asked = a.asked + 1 } in
      let p = punt_bios_to_rescuer a₁ in
      let again = bs.bio_pool p.asked direct in
      let p₁ = record p { asked = p.asked + 1 } in
      if bs.bio_pool a.asked mask
      then (true, mask, record a₁ { held = a.held + 1 })
      else if direct && not mask
      then (again, direct, if again then record p₁ { held = p.held + 1 } else p₁)
      else (false, mask, a₁)

  -- The part that gets the vectors.
  unfoldable pub get_vecs : Bool → Bool → ℕ → Alloc → Option (Bool × ℕ × Alloc)
  unfolding bvec_alloc punt_bios_to_rescuer
  get_vecs direct mask nr_vecs a = elim (bvec_alloc mask nr_vecs a) [
    | none ↦ none
    | some r ↦
        let retry = bvec_alloc direct r.1 (punt_bios_to_rescuer r.2) in
        if not r.0 && (direct && not mask) then retry else some r
  ]

  -- The rest: the vectors of the bio, or its memory goes back.
  unfoldable pub with_vecs : Bool → Bool → ℕ → Bool → Alloc → Answer
  unfolding get_vecs
  with_vecs direct mask nr_vecs cached a =
      if not (ltb inline_vecs nr_vecs)
      then answered (some (made (if nr_vecs == 0 then 0 else inline_vecs) cached)) a
      else elim (get_vecs direct mask nr_vecs a) [
        | none ↦ bug
        | some r ↦
            if r.0
            then answered (some (made r.1 cached)) r.2
            else answered none (record (r.2) { held = r.2.held - 1 })
      ]

  -- bio_alloc_bioset() behind the cache; `on_list` says that current->bio_list is there.
  unfoldable pub alloc_bio : Bool → Bool → ℕ → Bool → Alloc → Answer
  unfolding get_bio with_vecs
  alloc_bio on_list direct nr_vecs cached a =
      let blocks =
        on_list
        && ((not (length a.waiting == 0) || not (length a.submitted == 0)) && bs.has_rescuer) in
      let (got, mask, a') = get_bio direct (direct && not blocks) a in
      if not got
      then answered none a'
      else with_vecs direct mask nr_vecs (cached && bs.saturated) a'

  -- bio_alloc_bioset(): the bio comes from the cache of the CPU, or it is new. `cached` is
  -- REQ_ALLOC_CACHE.
  unfoldable pub bio_alloc_bioset :
      Bool → Bool → Bool → Bool → ℕ → Bool → Alloc → World → Answer × World
  unfolding alloc_bio
  bio_alloc_bioset bdev polled on_list direct nr_vecs cached a w =
      let (b, w') = bio_alloc_percpu_cache bdev polled w in
      if not bs.has_bvec_pool && ltb 0 nr_vecs
      then (answered none a, w)
      else if not cached
      then (alloc_bio on_list direct nr_vecs false a, w)
      else if not (bs.has_cache && leb nr_vecs inline_vecs)
      then (alloc_bio on_list direct nr_vecs false a, w)
      else elim b [
        | none ↦ (alloc_bio on_list direct nr_vecs true a, w')
        | some b' ↦ (answered (some (from_cache b')) a, w')
      ]
