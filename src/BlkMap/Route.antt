-- ===== src/BlkMap/Route.antt =====
-- kernel_modification/blk-map.c: the choice between the ways to map a buffer, and the unmapping.
use nvme_ioctl.Prelude.{
  ℕ, zero, suc, ◌+◌, ◌-◌, ◌*◌, ◌/◌, ◌%◌, Bool, true, false, not, ◌&&◌, ◌||◌, Option, none, some,
  List, [], ◌∷◌, bit_and, bit_or, min, ℤ, pos, is_zero, ret_eq, einval, enomem, eremoteio, u32,
  page_size, ltb, ◌==◌, if◌then◌else◌, length, is_some,
}
use nvme_ioctl.Bio.{BioVec, Queue}
use nvme_ioctl.Uio.{iovec, bvec, IovIter, iov_iter_init, iov_iter_truncate}
use nvme_ioctl.Uio.Shape.{iov_iter_alignment, iov_iter_gap_alignment}
use nvme_ioctl.Uio.Import.{import_iovec, import_single_range}
use nvme_ioctl.BlkMap.{
  Mapped, Request, Pool, Host, bio_release_pages, blk_mq_map_bio_put, blk_rq_map_bio_alloc,
}
use nvme_ioctl.BlkMap.Direct.{Outcome, returned, crashed, bio_map_user_iov}
use nvme_ioctl.BlkMap.Bounce.{RqMapData, Bounced, bio_uncopy_user, bio_copy_user_iov}

-- How the sanity checks on a vector array ended: `gap` asks for a copy.
pub data Check : Type 0 where
  sane insane gap : Check

-- UIO_FASTIOV
abbrev pub uio_fastiov : ℕ
uio_fastiov = 8

-- bio_iov_bvec_set() of bio.c, for an array that starts at its pointer.
unfoldable pub bio_iov_bvec_set : Queue → Mapped → IovIter → List BioVec → Mapped
bio_iov_bvec_set q m i vecs =
    let size =
      if m.bio.zone_append then min i.count (q.max_zone_append_sectors * 512) else i.count in
    record m {
      bio = record (m.bio) { vecs = vecs; size = size % u32; cloned = true };
      no_page_ref = true;
    }

-- The loop of blk_rq_map_user_bvec(), from a vector on: the previous one and the bytes so far.
-- `nsegs >= nr_segs` never holds inside the loop, where nsegs is the loop's own counter.
unfoldable pub check_bvecs : Queue → List BioVec → Option BioVec → ℕ → ℕ → Check
check_bvecs q [] prev nr_iter bytes = sane
check_bvecs q (v ∷ r) prev nr_iter bytes =
    let rest = check_bvecs q r (some v) nr_iter ((bytes + v.len) % u32) in
    if elim prev [ none ↦ false | some w ↦ q.gap_to_prev w v.offset ]
    then gap
    else if ltb (u32 - 1 - v.len) bytes
    then insane
    else if ltb nr_iter ((bytes + v.len) % u32)
    then insane
    else if ltb page_size ((v.offset + v.len) % u32)
    then insane
    else rest

-- A call that ends before it has an iterator.
unfoldable pub unread : ℤ → Request → Pool → Outcome
unread ret rq p = returned ret rq (iov_iter_init false [] 0) p

unfoldable pub reversed : List BioVec → List BioVec → List BioVec
reversed [] acc = acc
reversed (v ∷ r) acc = reversed r (v ∷ acc)

module _ (host : Host) where
  -- blk_rq_map_user_bvec(): the return code, the request and what is held.
  unfoldable pub blk_rq_map_user_bvec : Request → IovIter → List BioVec → Pool → ℤ × Request × Pool
  blk_rq_map_user_bvec rq i a p =
      if i.count == 0 || ltb host.queue.max_hw_sectors (i.count / 512)
      then (einval, rq, p)
      else if ltb host.queue.max_segments (length a)
      then (einval, rq, p)
      else elim (blk_rq_map_bio_alloc host rq 0 p) [
        | none ↦ (enomem, rq, p)
        | some (m, p') ↦
            let m' = bio_iov_bvec_set host.queue m i (reversed a []) in
            let rq' = record rq { bios = m' ∷ []; data_len = host.prep_len m'.bio } in
            elim (check_bvecs host.queue a none i.count 0) [
              | sane ↦ (pos 0, rq', p')
              | insane ↦ (einval, rq', blk_mq_map_bio_put m' p')
              | gap ↦ (eremoteio, rq', blk_mq_map_bio_put m' p')
            ]
      ]

  -- One bio of the chain: the pages go back, copied from for a read, then the bio.
  unfoldable pub unmap_one : Bool → Mapped → Pool → ℤ × Pool
  unmap_one reading m p = elim m.private [
    | none ↦ (pos 0, blk_mq_map_bio_put m (bio_release_pages m p))
    | some d ↦
        let (ret, p') = bio_uncopy_user host reading m.bio d p in (ret, blk_mq_map_bio_put m p')
  ]

  -- blk_rq_unmap_user() of a chain: the first error, and what is held.
  unfoldable pub blk_rq_unmap_user : Bool → List Mapped → Pool → ℤ × Pool
  blk_rq_unmap_user reading [] p = (pos 0, p)
  blk_rq_unmap_user reading (m ∷ ms) p =
      let (ret, p') = unmap_one reading m p in
      let (ret', p'') = blk_rq_unmap_user reading ms p' in (if is_zero ret then ret' else ret, p'')

  -- The tests of blk_rq_map_user_iov() that ask for a copy, and the one that maps vectors.
  unfoldable pub must_copy : Option RqMapData → IovIter → Bool
  must_copy md i =
      let align = bit_or host.dma_pad_mask host.dma_alignment in
      if is_some md
      then true
      else if host.may_bounce
      then true
      else if not (bit_and (iov_iter_alignment i) align == 0)
      then true
      else elim i.source [
        | bvec _ _ ↦ false
        | iovec _ _ ↦
            if host.virt_boundary == 0
            then false
            else not (bit_and host.virt_boundary (iov_iter_gap_alignment i) == 0)
        | _ ↦ true
      ]

  -- The body of the do loop: by a copy or directly; `none` where the direct way has crashed.
  unfoldable pub one_round : Bool → Request → Option RqMapData → IovIter → Pool → Option Bounced
  one_round true rq md i p = some (bio_copy_user_iov host rq md i p)
  one_round false rq md i p = elim (bio_map_user_iov host rq i p) [
    | crashed ↦ none
    | returned ret rq' i' p' ↦
        some (record { ret = ret; rq = rq'; iter = i'; pool = p'; map_data = md })
  ]

  -- The labels unmap_rq and fail. Before the first success `bio` is NULL and nothing is unmapped.
  unfoldable pub unmap_rq : Bool → Bounced → Outcome
  unmap_rq first b =
      let p = if first then b.pool else (blk_rq_unmap_user (not b.rq.write) b.rq.bios b.pool).1 in
      returned b.ret (record (b.rq) { bios = [] }) b.iter p

  -- The do loop, on fuel; `first` says that no round has succeeded yet.
  unfoldable pub map_rounds :
      ℕ → Bool → Bool → Request → Option RqMapData → IovIter → Pool → Outcome
  map_rounds zero copy first rq md i p = crashed
  map_rounds (suc fuel) copy first rq md i p = elim (one_round copy rq md i p) [
    | none ↦ crashed
    | some b ↦ elim (is_zero b.ret) [
      | false ↦ unmap_rq first b
      | true ↦ elim (b.iter.count == 0) [
        | true ↦ returned (pos 0) b.rq b.iter b.pool
        | false ↦ map_rounds fuel copy false b.rq b.map_data b.iter b.pool
      ]
    ]
  ]

  -- The part of blk_rq_map_user_iov() for a vector array that needs no copy.
  unfoldable pub map_vectors : Request → Option RqMapData → IovIter → List BioVec → Pool → Outcome
  map_vectors rq md i a p =
      let (ret, rq', p') = blk_rq_map_user_bvec rq i a p in
      if is_zero ret
      then returned (pos 0) rq' i p'
      else if not (ret_eq ret eremoteio)
      then returned ret (record rq' { bios = [] }) i p'
      else map_rounds (i.count + 1) true true rq' md i p'

  unfoldable pub blk_rq_map_user_iov : Request → Option RqMapData → IovIter → Pool → Outcome
  blk_rq_map_user_iov rq md i p =
      let copy = must_copy md i in
      let rounds = map_rounds (i.count + 1) copy true rq md i p in
      elim i.source [ bvec _ a ↦ if copy then rounds else map_vectors rq md i a p | _ ↦ rounds ]

  -- blk_rq_map_user(): the iterator of the outcome is the call's own, and nobody reads it.
  unfoldable pub blk_rq_map_user : Request → Option RqMapData → ℕ → ℕ → Pool → Outcome
  blk_rq_map_user rq md addr len p =
      let (ret, it) = import_single_range host.user rq.write addr len in
      elim it [ none ↦ unread ret rq p | some i ↦ blk_rq_map_user_iov rq md i p ]

  -- blk_rq_map_user_io(): `vec` says that `ubuf` points to an array of vectors.
  unfoldable pub blk_rq_map_user_io :
      Request → Option RqMapData → ℕ → ℕ → Bool → ℕ → Bool → Pool → Outcome
  blk_rq_map_user_io rq md addr buf_len vec iov_count check_iter_count p =
      let n = if iov_count == 0 then buf_len % u32 else iov_count in
      let (ret, it) = import_iovec host.user rq.write addr n uio_fastiov in
      let shorter : IovIter → IovIter =
        λ i. if iov_count == 0 then i else iov_iter_truncate i buf_len in
      let empty : IovIter → Bool =
        λ i. not (iov_count == 0) && check_iter_count && (shorter i).count == 0 in
      if vec
      then elim it [
        | none ↦ unread ret rq p
        | some i ↦ if empty i then unread einval rq p else blk_rq_map_user_iov rq md (shorter i) p
      ]
      else if buf_len == 0
      then unread (pos 0) rq p
      else blk_rq_map_user rq md addr buf_len p
