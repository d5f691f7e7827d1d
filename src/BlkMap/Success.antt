-- ===== src/BlkMap/Success.antt =====
-- kernel_modification/blk-map.c: what the callers of the mapping functions rely on.
use nvme_ioctl.Prelude.{
  ℕ, zero, suc, ◌+◌, ◌≡◌, ◌≢◌, refl, inl, inr, Bool, true, false, not, ◌&&◌, Option, none, some,
  List, ℤ, is_zero, arith, length, Option-cases, ◌==◌, u32, ◌%◌,
}
use nvme_ioctl.Bio.{BioVec}
use nvme_ioctl.Uio.{Iovec, IovIter, Source, ubuf, iovec, kvec, bvec, discard}
use nvme_ioctl.Uio.Import.{
  Access, Vecs, vecs, failed, import_iovec, import_iovec_as, import_single_range, iovec_from_user,
  copy_compat_from, copy_compat_iovec_from_user, copy_iovec_from_user, push_vec,
}
use nvme_ioctl.BlkMap.{Request, Pool, Host}
use nvme_ioctl.BlkMap.Direct.{Outcome, returned, crashed}
use nvme_ioctl.BlkMap.Bounce.{RqMapData}
use nvme_ioctl.BlkMap.Route.{
  must_copy, one_round, unmap_rq, map_rounds, map_vectors, blk_rq_map_user_bvec,
  blk_rq_map_user_iov, blk_rq_map_user, blk_rq_map_user_io, uio_fastiov, unread,
}
use nvme_ioctl.BlkMap.Rounds.{one_round-Adds}

-- The request has a bio behind a call that returns 0.
abbrev pub has_bio : Outcome → Bool
has_bio (returned ret rq i p) = not (length rq.bios == 0)
has_bio crashed = false

-- The code of a call, for one that crashes the code given.
abbrev pub code : Outcome → ℤ → ℤ
code (returned ret rq i p) e = ret
code crashed e = e

abbrev pub Succeeds : Outcome → Type 0
Succeeds (returned ret rq i p) = (is_zero ret && (length rq.bios == 0)) ≡ false
Succeeds crashed = Unit

module _ (host : Host) where
  rounds-Succeeds :
      (f : ℕ) (copy first : Bool) (rq : Request) (md : Option RqMapData) (i : IovIter) (p : Pool)
      → Succeeds (map_rounds host f copy first rq md i p)
  unfolding map_rounds unmap_rq
  rounds-Succeeds zero copy first rq md i p = ground arith
  rounds-Succeeds (suc f) copy first rq md i p =
      let adds = one_round-Adds host copy rq md i p in
      elim (Option-cases (one_round host copy rq md i p)) [
        | inl e ↦ ground (arith, e)
        | inr (b, e) ↦
            ground (arith, e, adds, rounds-Succeeds f copy false b.rq b.map_data b.iter b.pool)
      ]

  vectors-Succeeds :
      (rq : Request) (md : Option RqMapData) (i : IovIter) (a : List BioVec) (p : Pool)
      → Succeeds (map_vectors host rq md i a p)
  unfolding map_vectors blk_rq_map_user_bvec
  vectors-Succeeds rq md i a p =
      let (ret, rq', p') = blk_rq_map_user_bvec host rq i a p in
      ground (arith, rounds-Succeeds (i.count + 1) true true rq' md i p')

  -- blk_rq_map_user_iov() leaves a bio in the request where it returns 0, whatever the iterator.
  pub blk_rq_map_user_iov-Succeeds :
      (rq : Request) (md : Option RqMapData) (i : IovIter) (p : Pool)
      → Succeeds (blk_rq_map_user_iov host rq md i p)
  unfolding blk_rq_map_user_iov
  blk_rq_map_user_iov-Succeeds rq md i p = from i.source refl
    where
      rounds : Succeeds (map_rounds host (i.count + 1) (must_copy host md i) true rq md i p)
      rounds = rounds-Succeeds (i.count + 1) (must_copy host md i) true rq md i p

      from : (s : Source) → i.source ≡ s → Succeeds (blk_rq_map_user_iov host rq md i p)
      from (ubuf _) e = ground (arith, e, rounds)
      from (iovec _ _) e = ground (arith, e, rounds)
      from (kvec _ _) e = ground (arith, e, rounds)
      from (bvec _ a) e = ground (arith, e, rounds, vectors-Succeeds rq md i a p)
      from discard e = ground (arith, e, rounds)

-- An import that gives no iterator gives an error.
abbrev Imported : ℤ × Option IovIter → Type 0
Imported (ret, none) = is_zero ret ≡ false
Imported (ret, some i) = Unit

abbrev Read : Vecs → Type 0
Read (vecs l) = Unit
Read (failed e) = is_zero e ≡ false

push-Read : (r : Vecs) → Read r → (v : Iovec) → Read (push_vec v r)
push-Read (vecs l) h v = h
push-Read (failed e) h v = h

module _ (user : Access) where
  compat-Read : (uvec i n : ℕ) → Read (copy_compat_from user uvec i n)
  unfolding copy_compat_from
  compat-Read uvec i zero = ground arith
  compat-Read uvec i (suc n) =
      let rest = push-Read (copy_compat_from user uvec (i + 1) n) (compat-Read uvec (i + 1) n) in
      elim (Option-cases (user.compat_vec uvec i)) [
        | inl e ↦ ground (arith, e)
        | inr (v, e) ↦ ground (arith, e, rest v)
      ]

  iovec_from_user-Read :
      (uvec n fast : ℕ) (compat : Bool) → Read (iovec_from_user user uvec n fast compat)
  unfolding iovec_from_user copy_compat_iovec_from_user copy_iovec_from_user
  iovec_from_user-Read uvec n fast compat = ground (arith, compat-Read uvec 0 n)

  import_iovec-Imported :
      (write : Bool) (uvec n fast : ℕ) → Imported (import_iovec user write uvec n fast)
  unfolding import_iovec import_iovec_as
  import_iovec-Imported write uvec n fast =
      ground (arith, iovec_from_user-Read uvec n fast user.in_compat)

  import_single_range-Imported :
      (write : Bool) (buf len : ℕ) → Imported (import_single_range user write buf len)
  unfolding import_single_range
  import_single_range-Imported write buf len = ground arith

module _ (host : Host) where
  -- blk_rq_map_user_io() of a buffer that is not empty, by vectors or not, leaves a bio in the
  -- request where it returns 0.
  pub blk_rq_map_user_io-Succeeds :
      (rq : Request) (md : Option RqMapData) (addr buf_len : ℕ) (vec check : Bool) (p : Pool)
      → buf_len ≢ 0
      → Succeeds (blk_rq_map_user_io host rq md addr buf_len vec 0 check p)
  unfolding blk_rq_map_user_io blk_rq_map_user unread
  blk_rq_map_user_io-Succeeds rq md addr buf_len false check p h =
      let import = import_single_range host.user rq.write addr buf_len in
      let import_lem = import_single_range-Imported host.user rq.write addr buf_len in
      elim (Option-cases import.1) [
        | inl e ↦ ground (arith, e, import_lem)
        | inr (i, e) ↦ ground (arith, e, blk_rq_map_user_iov-Succeeds host rq md i p)
      ]
  blk_rq_map_user_io-Succeeds rq md addr buf_len true check p h =
      let import = import_iovec host.user rq.write addr (buf_len % u32) uio_fastiov in
      let import_lem = import_iovec-Imported host.user rq.write addr (buf_len % u32) uio_fastiov in
      elim (Option-cases import.1) [
        | inl e ↦ ground (arith, e, import_lem)
        | inr (i, e) ↦ ground (arith, e, blk_rq_map_user_iov-Succeeds host rq md i p)
      ]
