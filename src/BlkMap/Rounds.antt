-- ===== src/BlkMap/Rounds.antt =====
-- kernel_modification/blk-map.c: blk_rq_map_user_iov() over all its rounds.
use nvme_ioctl.Prelude.{
  ℕ, zero, suc, ◌+◌, ◌≡◌, refl, ◌⊎◌, inl, inr, ◌<◌, Bool, true, false, not, Option, none, some, [],
  ℤ, is_zero, arith, length, Option-cases,
}
use nvme_ioctl.Uio.{IovIter, Source, ubuf, iovec, kvec, bvec, discard}
use nvme_ioctl.Uio.Grab.{user_backed}
use nvme_ioctl.BlkMap.{Request, Pool, Host}
use nvme_ioctl.BlkMap.Direct.{Outcome, returned, crashed, bio_map_user_iov}
use nvme_ioctl.BlkMap.Bounce.{RqMapData, Bounced}
use nvme_ioctl.BlkMap.Route.{must_copy, one_round, unmap_rq, map_rounds, blk_rq_map_user_iov}
use nvme_ioctl.BlkMap.Holding.{bio_map_user_iov-AddsOne}
use nvme_ioctl.BlkMap.Balance.{bio_copy_user_iov-AddsOne, blk_rq_unmap_user-bios}

abbrev pub Adds : Request → Pool → Option Bounced → Type 0
Adds rq p none = Unit
Adds rq p (some b) =
    ((is_zero b.ret ≡ true) × (b.pool.bios ≡ p.bios + 1) × (length b.rq.bios ≡ length rq.bios + 1))
    ⊎ ((is_zero b.ret ≡ false) × (b.pool.bios ≡ p.bios) × (b.rq ≡ rq))

-- With 0 the request has a bio, and the bios held are `base` and those of the request; with an
-- error they are `base`, and the request has none. A crash is no return.
abbrev pub Balanced : ℕ → Outcome → Type 0
Balanced base (returned ret rq i p) =
    ((is_zero ret ≡ true) × (p.bios ≡ base + length rq.bios) × (0 < length rq.bios))
    ⊎ ((is_zero ret ≡ false) × (p.bios ≡ base) × (rq.bios ≡ []))
Balanced base crashed = Unit

Outcome-cases :
    (o : Outcome)
    → ((ret : ℤ) × (rq : Request) × (i : IovIter) × (p : Pool) × (o ≡ returned ret rq i p))
      ⊎ (o ≡ crashed)
Outcome-cases (returned ret rq i p) = inl (ret, rq, i, p, refl)
Outcome-cases crashed = inr refl

module _ (host : Host) where
  pub one_round-Adds :
      (copy : Bool) (rq : Request) (md : Option RqMapData) (i : IovIter) (p : Pool)
      → Adds rq p (one_round host copy rq md i p)
  unfolding one_round
  one_round-Adds true rq md i p = ground (arith, bio_copy_user_iov-AddsOne host rq md i p)
  one_round-Adds false rq md i p =
      let adds = bio_map_user_iov-AddsOne host rq i p in
      elim (Outcome-cases (bio_map_user_iov host rq i p)) [
        | inl (ret, rq', i', p', e) ↦ ground (arith, e, adds)
        | inr e ↦ ground (arith, e)
      ]

  rounds-Balanced :
      (f : ℕ) (copy first : Bool) (rq : Request) (md : Option RqMapData) (i : IovIter) (p : Pool)
      (base : ℕ)
      → p.bios ≡ base + length rq.bios
      → (first ≡ true → length rq.bios ≡ 0)
      → Balanced base (map_rounds host f copy first rq md i p)
  unfolding map_rounds unmap_rq
  rounds-Balanced zero copy first rq md i p base h fresh = ground arith
  rounds-Balanced (suc f) copy first rq md i p base h fresh =
      let adds = one_round-Adds copy rq md i p in
      elim (Option-cases (one_round host copy rq md i p)) [
        | inl e ↦ ground (arith, e)
        | inr (b, e) ↦ ground (
          arith,
          e,
          adds,
          blk_rq_unmap_user-bios host (not b.rq.write) b.rq.bios b.pool,
          rounds-Balanced f copy false b.rq b.map_data b.iter b.pool base,
        )
      ]

  -- Where mapping a user's buffer into an empty request returns 0, one bio is held for each bio
  -- of the request, which has one; where it returns an error, from whichever round, every bio has
  -- been given back and the request is empty. A crash, and a loop that does not end, are no
  -- return.
  pub blk_rq_map_user_iov-Balanced :
      (rq : Request) (md : Option RqMapData) (i : IovIter) (p : Pool)
      → user_backed i.source ≡ true
      → rq.bios ≡ []
      → Balanced p.bios (blk_rq_map_user_iov host rq md i p)
  unfolding blk_rq_map_user_iov
  blk_rq_map_user_iov-Balanced rq md i p backed empty = from i.source refl backed
    where
      rounds : Balanced p.bios (map_rounds host (i.count + 1) (must_copy host md i) true rq md i p)
      rounds =
          rounds-Balanced (i.count + 1) (must_copy host md i) true rq md i p p.bios (ground arith)
            (λ _. ground arith)

      from :
          (s : Source)
          → i.source ≡ s
          → user_backed s ≡ true
          → Balanced p.bios (blk_rq_map_user_iov host rq md i p)
      from (ubuf _) e b = ground (arith, e, rounds)
      from (iovec _ _) e b = ground (arith, e, rounds)
      from (kvec _ _) e b = ground (arith, e, rounds)
      from (bvec _ _) e b = absurd (ground arith)
      from discard e b = ground (arith, e, rounds)
