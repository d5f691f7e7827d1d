-- ===== src/BlkMap/Holding.antt =====
-- kernel_modification/blk-map.c: the bios that the mapping functions hold, on every path.
use nvme_ioctl.Prelude.{
  ℕ, zero, suc, ◌+◌, ◌≡◌, refl, ◌⊎◌, inl, inr, true, false, List, [], ◌∷◌, ℤ, is_zero, arith,
  length, length-append, Option-cases, List-cases, length-append,
}
use nvme_ioctl.Bio.{Bio}
use nvme_ioctl.Uio.{IovIter, iov_iter_revert}
use nvme_ioctl.Uio.Shape.{iov_iter_npages}
use nvme_ioctl.Uio.Pages.{Grab, got, error, bug, iov_iter_get_pages_alloc}
use nvme_ioctl.BlkMap.{
  Mapped, Request, Pool, Host, bio_max_vecs, bio_release_pages, blk_mq_map_bio_put,
  blk_rq_append_bio,
}
use nvme_ioctl.BlkMap.Direct.{
  Walk, walked, refused, broken, out_of_fuel, Outcome, returned, crashed, take_pages, pins_after,
  give_back, map_loop, out_unmap, append_mapped, after_walk, bio_map_user_iov, long_max,
}
use nvme_ioctl.BlkMap.Vectors.{bio_alloc_holds}

-- The bios and structs bio_map_data that are held.
pub record Keeps (p p' : Pool) : Type 0 where
  pub bios_lem : p'.bios ≡ p.bios
  pub datas_lem : p'.datas ≡ p.datas

abbrev WalkKeeps : Pool → Walk → Type 0
WalkKeeps p (walked bio i p') = Keeps p p'
WalkKeeps p (refused e bio p') = Keeps p p' × (is_zero e ≡ false)
WalkKeeps p broken = Unit
WalkKeeps p out_of_fuel = Unit

-- A mapping that returns 0 has added one bio to the request and holds it; with an error the request
-- and the bios held are those of before. A crash is no return.
abbrev pub AddsOne : Request → Pool → ℕ → Outcome → Type 0
AddsOne rq p datas (returned ret rq' i p') =
    ((is_zero ret ≡ true)
      × (p'.bios ≡ p.bios + 1)
      × (p'.datas ≡ p.datas + datas)
      × (length rq'.bios ≡ length rq.bios + 1))
    ⊎ ((is_zero ret ≡ false) × Keeps p p' × (rq' ≡ rq))
AddsOne rq p datas crashed = Unit

Grab-cases :
    (g : Grab)
    → ((offs : ℕ) × (pages : List ℕ) × (bytes : ℕ) × (i : IovIter) × (g ≡ got offs pages bytes i))
      ⊎ ((e : ℤ) × (g ≡ error e))
      ⊎ (g ≡ bug)
Grab-cases (got offs pages bytes i) = inl (offs, pages, bytes, i, refl)
Grab-cases (error e) = inr (inl (e, refl))
Grab-cases bug = inr (inr refl)

module _ (host : Host) where
  pub append_adds :
      (rq : Request) (m : Mapped)
      → ((is_zero (blk_rq_append_bio host rq m).0 ≡ true)
          × (length (blk_rq_append_bio host rq m).1.bios ≡ length rq.bios + 1))
        ⊎ ((is_zero (blk_rq_append_bio host rq m).0 ≡ false)
            × ((blk_rq_append_bio host rq m).1 ≡ rq))
  unfolding blk_rq_append_bio
  append_adds rq m = elim (List-cases rq.bios) [
    | inl e ↦ ground (arith, e)
    | inr (x, r, e) ↦ ground (arith, e, length-append rq.bios (m ∷ []))
  ]

  out_unmap-Keeps :
      (m : Mapped) (p q : Pool)
      → Keeps (record p { bios = p.bios + 1 }) q
      → Keeps p (out_unmap host m q)
  unfolding out_unmap blk_mq_map_bio_put bio_release_pages
  out_unmap-Keeps m p q h = ground arith

  map_loop_keeps :
      (f : ℕ) (bio : Bio) (i : IovIter) (p : Pool) → WalkKeeps p (map_loop host f bio i p)
  unfolding map_loop give_back pins_after
  map_loop_keeps zero bio i p = ground arith
  map_loop_keeps (suc f) bio i p =
      elim (Grab-cases (iov_iter_get_pages_alloc host.mm i long_max host.p2pdma)) [
        | inl (offs, pages, bytes, i', e) ↦
            let a = take_pages host bio offs pages bytes in
            let p' = pins_after host p (length pages) a in
            elim (Option-cases (iov_iter_revert i' a.bytes)) [
              | inl none_back ↦ ground (arith, e, none_back, map_loop_keeps f a.bio i' p')
              | inr (back, some_back) ↦ ground (arith, e, some_back, map_loop_keeps f a.bio i' p')
            ]
        | inr (inl (code, e)) ↦ ground (arith, e)
        | inr (inr e) ↦ ground (arith, e)
      ]

  after_walk-AddsOne :
      (rq : Request) (m : Mapped) (i : IovIter) (p : Pool) (w : Walk)
      → WalkKeeps (record p { bios = p.bios + 1 }) w
      → AddsOne rq p 0 (after_walk host rq m i w)
  unfolding after_walk append_mapped
  after_walk-AddsOne rq m i p broken h = ground arith
  after_walk-AddsOne rq m i p out_of_fuel h = ground arith
  after_walk-AddsOne rq m i p (refused e bio p') (h, bad) =
      ground (arith, out_unmap-Keeps (record m { bio = bio }) p p' h)
  after_walk-AddsOne rq m i p (walked bio i' p') h =
      let m' = record m { bio = bio } in
      ground (arith, append_adds rq m', out_unmap-Keeps m' p p' h)

  -- bio_map_user_iov() adds one bio to the request where it returns 0; where it returns an error
  -- the request and the bios held are those of before. A crash is no return.
  pub bio_map_user_iov-AddsOne :
      (rq : Request) (i : IovIter) (p : Pool) → AddsOne rq p 0 (bio_map_user_iov host rq i p)
  unfolding bio_map_user_iov
  bio_map_user_iov-AddsOne rq i p = elim (Option-cases (iov_iter_npages i bio_max_vecs)) [
    | inl crash ↦ ground (arith, crash)
    | inr (n, e) ↦ elim (bio_alloc_holds host rq n p) [
      | inl empty ↦ ground (arith, e, empty)
      | inr (m, had) ↦
          let q = record p { bios = p.bios + 1 } in
          ground (
            arith,
            e,
            had,
            after_walk-AddsOne rq m i p (map_loop host (i.count + 1) m.bio i q)
                (map_loop_keeps (i.count + 1) m.bio i q),
          )
    ]
  ]
