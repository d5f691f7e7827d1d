-- ===== src/BlkMap/Fuel.antt =====
-- kernel_modification/blk-map.c: the fuel of the loops of bio_map_user_iov() and
-- bio_copy_user_iov(). Every round takes a byte.
use nvme_ioctl.Prelude.{
  ℕ, zero, suc, ◌+◌, ◌-◌, ◌≡◌, refl, ◌<◌, ◌≤◌, true, arith, List, length, Option, Option-cases, inl,
  inr, min, page_size,
}
use nvme_ioctl.Bio.{Bio, bio_add_pc_page}
use nvme_ioctl.Uio.{IovIter}
use nvme_ioctl.Uio.Pages.{Grab, got, error, bug, iov_iter_get_pages_alloc}
use nvme_ioctl.Uio.Grab.{user_backed, Pins, Pinned, Progress, get_pages_with-Progress, advance_from}
use nvme_ioctl.BlkMap.{Pool, Host}
use nvme_ioctl.BlkMap.Bounce.{RqMapData, bounce_page, fill}
use nvme_ioctl.Prelude.{◌≢◌}
use nvme_ioctl.BlkMap.Direct.{take_pages, pins_after, map_loop, long_max, give_back, out_of_fuel}

module _ (host : Host) (fair : Pins host.mm) where
  grab-Progress :
      (i : IovIter)
      → user_backed i.source ≡ true
      → Progress i (iov_iter_get_pages_alloc host.mm i long_max host.p2pdma)
  unfolding iov_iter_get_pages_alloc
  grab-Progress i backed = get_pages_with-Progress host.mm fair _ _ i long_max _ host.p2pdma backed

  -- The fuel lasts, and more or less of it makes no difference.
  abbrev pub Agree : ℕ → ℕ → Bio → IovIter → Pool → Type 0
  Agree f g bio i p =
      (map_loop host f bio i p ≢ out_of_fuel) × (map_loop host f bio i p ≡ map_loop host g bio i p)

  -- What a round needs of the rounds behind it.
  abbrev Same : ℕ → ℕ → Bio → Pool → Grab → Type 0
  Same f g bio p (got offs pages bytes i') =
      let a = take_pages host bio offs pages bytes in
      let p' = pins_after host p (length pages) a in Agree f g a.bio i' p'
  Same f g bio p (error e) = Unit
  Same f g bio p bug = Unit

  round_agrees :
      (f g : ℕ) (bio : Bio) (i : IovIter) (p : Pool) (r : Grab)
      → iov_iter_get_pages_alloc host.mm i long_max host.p2pdma ≡ r
      → Same f g bio p r
      → Agree (suc f) (suc g) bio i p
  unfolding map_loop give_back
  round_agrees f g bio i p (error e) h same = ground (arith, h)
  round_agrees f g bio i p bug h same = ground (arith, h)
  round_agrees f g bio i p (got offs pages bytes i') h same = ground (arith, h)

  shrinks :
      (i : IovIter) (offs bytes : ℕ) (pages : List ℕ) (i' : IovIter)
      → user_backed i.source ≡ true
      → Pinned i offs pages bytes i'
      → (i'.count < i.count) × (user_backed i'.source ≡ true)
  shrinks i offs bytes pages i' backed went = ground (arith, advance_from i.source i bytes refl)

  next :
      (f g : ℕ) (bio : Bio) (i : IovIter) (p : Pool)
      → user_backed i.source ≡ true
      → i.count < suc f
      → i.count < suc g
      → ((bio' : Bio) (i' : IovIter) (p' : Pool)
          → user_backed i'.source ≡ true
          → i'.count < f
          → i'.count < g
          → Agree f g bio' i' p')
      → (r : Grab) → Progress i r
      → Same f g bio p r
  next f g bio i p backed hf hg ih (error e) went = went
  next f g bio i p backed hf hg ih bug went = went
  next f g bio i p backed hf hg ih (got offs pages bytes i') went =
      let (less, backed') = shrinks i offs bytes pages i' backed went in
      let a = take_pages host bio offs pages bytes in
      ih a.bio i' (pins_after host p (length pages) a) backed' (omega arith) (omega arith)

  -- The loop that maps a user's buffer ends: on fuel beyond the iterator's count, such as that of
  -- bio_map_user_iov(), it does not run out of it, and its result is the same on any such amount, if
  -- get_user_pages_fast() pins no more pages than it is asked for.
  pub map_loop-enough :
      (f g : ℕ) (bio : Bio) (i : IovIter) (p : Pool)
      → user_backed i.source ≡ true
      → i.count < f
      → i.count < g
      → Agree f g bio i p
  map_loop-enough zero g bio i p backed hf hg = absurd (omega arith)
  map_loop-enough (suc f) zero bio i p backed hf hg = absurd (omega arith)
  map_loop-enough (suc f) (suc g) bio i p backed hf hg =
      let ih = map_loop-enough f g in
      let went = grab-Progress i backed in
      round_agrees f g bio i p _ refl (next f g bio i p backed hf hg ih _ went)

module _ (host : Host) (md : Option RqMapData) where
  -- The loop of bio_copy_user_iov() gives the same result on any two amounts of fuel that are no
  -- less than the bytes to copy, such as the one it is modelled with, from any offset in a page.
  pub fill-enough :
      (f g len offset i : ℕ) (bio : Bio) (p : Pool)
      → len ≤ f
      → len ≤ g
      → offset < page_size
      → fill host md f len offset i bio p ≡ fill host md g len offset i bio p
  unfolding fill
  fill-enough zero zero len offset i bio p hf hg ho = refl
  fill-enough zero (suc g) len offset i bio p hf hg ho = ground arith
  fill-enough (suc f) zero len offset i bio p hf hg ho = ground arith
  fill-enough (suc f) (suc g) len offset i bio p hf hg ho =
      elim (Option-cases (bounce_page host md i p)) [
        | inl e ↦ ground (arith, e)
        | inr ((page, q), e) ↦
            let bytes = min (page_size - offset) len in
            let bio' = (bio_add_pc_page host.platform host.queue bio page bytes offset).1 in
            ground (arith, e, fill-enough f g (len - bytes) 0 (i + 1) bio' q)
      ]
