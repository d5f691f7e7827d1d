-- ===== src/BlkMap/Bounce.antt =====
-- kernel_modification/blk-map.c: bio_copy_user_iov(), which goes through pages of the kernel, with
-- the copies before and after the transfer.
use nvme_ioctl.Prelude.{
  ℕ, zero, suc, ◌+◌, ◌-◌, ◌*◌, ◌/◌, ◌%◌, ◌^◌, Bool, true, false, not, ◌&&◌, ◌||◌, Option, none,
  some, List, [], ◌∷◌, min, ℤ, pos, is_zero, enomem, efault, eintr, u32, page_size, pages_of, ltb,
  ◌==◌, if◌then◌else◌, length, is_some,
}
use nvme_ioctl.Bio.{BioVec, Bio, bio_add_pc_page}
use nvme_ioctl.Uio.{ubuf, iovec, kvec, bvec, discard, IovIter, iov_iter_advance}
use nvme_ioctl.Uio.Import.{uio_maxiov}
use nvme_ioctl.BlkMap.{
  MapData, Mapped, Request, Pool, Host, bio_max_vecs, all_pieces, bio_free_pages, bio_kmalloc,
  fresh_bio, blk_rq_append_bio,
}

-- `struct rq_map_data`: pages that the caller provides.
pub record RqMapData : Type 0 where
  pub pages : ℕ → ℕ
  pub page_order : ℕ
  pub nr_entries : ℕ
  pub offset : ℕ
  pub null_mapped : Bool
  pub from_user : Bool

-- What the call came to, with the caller's map_data.
pub record Bounced : Type 0 where
  pub ret : ℤ
  pub rq : Request
  pub iter : IovIter
  pub pool : Pool
  pub map_data : Option RqMapData

-- How the loop that fills the bio ended.
pub data Fill : Type 0 where
  filled : Bio → Pool → Fill
  no_page : Bio → Pool → Fill

abbrev pub nr_segs : IovIter → ℕ
nr_segs i = elim i.source [
  | ubuf _ ↦ 0
  | iovec _ a ↦ length a
  | kvec _ a ↦ length a
  | bvec _ a ↦ length a
  | discard ↦ 0
]

abbrev pub is_null_mapped : Option RqMapData → Bool
is_null_mapped none = false
is_null_mapped (some d) = d.null_mapped

abbrev pub is_from_user : Option RqMapData → Bool
is_from_user none = false
is_from_user (some d) = d.from_user

module _ (host : Host) where
  -- bio_alloc_map_data()
  unfoldable pub bio_alloc_map_data : IovIter → Pool → Option Pool
  bio_alloc_map_data i p =
      if ltb uio_maxiov (nr_segs i)
      then none
      else if not (host.data_alloc (nr_segs i))
      then none
      else some (record p { datas = p.datas + 1 })

  -- bio_copy_from_iter(): the pieces in the order of the bio, and the iterator behind them.
  unfoldable pub bio_copy_from_iter : List BioVec → IovIter → ℤ × IovIter
  bio_copy_from_iter [] i = (pos 0, i)
  bio_copy_from_iter (v ∷ r) i =
      let n = host.copy_in i v.len in
      let i' = iov_iter_advance i n in
      let rest = bio_copy_from_iter r i' in
      if i'.count == 0 then (pos 0, i') else if ltb n v.len then (efault, i') else rest

  -- bio_copy_to_iter(), on a copy of the iterator.
  unfoldable pub bio_copy_to_iter : List BioVec → IovIter → ℤ
  bio_copy_to_iter [] i = pos 0
  bio_copy_to_iter (v ∷ r) i =
      let n = host.copy_out i v.len in
      let i' = iov_iter_advance i n in
      let rest = bio_copy_to_iter r i' in
      if i'.count == 0 then pos 0 else if ltb n v.len then efault else rest

  -- bio_uncopy_user() of a bio with its struct bio_map_data; `reading` is the direction.
  unfoldable pub bio_uncopy_user : Bool → Bio → MapData → Pool → ℤ × Pool
  bio_uncopy_user reading bio d p =
      let ret =
        if d.null_mapped
        then pos 0
        else if not host.has_mm
        then eintr
        else if reading
        then bio_copy_to_iter (all_pieces bio.vecs) d.iter
        else pos 0 in
      let p' = if not d.null_mapped && d.our_pages then bio_free_pages bio p else p in
      (ret, record p' { datas = p'.datas - 1 })

  -- The page of a round: the caller's i-th, or a new one.
  unfoldable pub bounce_page : Option RqMapData → ℕ → Pool → Option (ℕ × Pool)
  bounce_page none i p = elim (host.page_alloc p.pages) [
    | none ↦ none
    | some page ↦ some (page, record p { pages = p.pages + 1 })
  ]
  bounce_page (some d) i p =
      let nr_pages = 2 ^ d.page_order in
      if i == d.nr_entries * nr_pages then none else some (d.pages (i / nr_pages) + i % nr_pages, p)

  -- The while loop, on fuel: a round takes a byte or more of `len`.
  unfoldable pub fill : Option RqMapData → ℕ → ℕ → ℕ → ℕ → Bio → Pool → Fill
  fill md zero len offset i bio p = filled bio p
  fill md (suc fuel) len offset i bio p = elim (len == 0) [
    | true ↦ filled bio p
    | false ↦ elim (bounce_page md i p) [
      | none ↦ no_page bio p
      | some (page, p') ↦
          let bytes = min (page_size - offset) len in
          let (n, bio') = bio_add_pc_page host.platform host.queue bio page bytes offset in
          elim (ltb n bytes) [
            | true ↦ filled bio' (if is_some md then p' else record p' { pages = p'.pages - 1 })
            | false ↦ fill md fuel (len - bytes) 0 (i + 1) bio' p'
          ]
    ]
  ]

  -- The label cleanup, with out_bmd behind it.
  unfoldable pub cleanup : Option RqMapData → Bio → Pool → Pool
  cleanup md bio p =
      let p' = if is_some md then p else bio_free_pages bio p in
      record p' { bios = p'.bios - 1; datas = p'.datas - 1 }

  -- The part behind the loop: `map_data->offset` moves on, the data is copied in or the iterator
  -- advanced, and the bio joins the request.
  unfoldable pub finish_bounce :
      Request → Option RqMapData → Option RqMapData → IovIter → MapData → Bio → Pool → Bounced
  finish_bounce rq md md' i d bio p =
      let copies = (i.data_source && not (is_null_mapped md)) || is_from_user md in
      let (ret, i') =
        if copies
        then bio_copy_from_iter (all_pieces bio.vecs) i
        else (pos 0, iov_iter_advance i bio.size) in
      let m : Mapped = record (fresh_bio false bio) { private = some d } in
      let (ret', rq') = blk_rq_append_bio host rq m in
      if not (is_zero ret)
      then record { ret = ret; rq = rq; iter = i'; pool = cleanup md bio p; map_data = md' }
      else if not (is_zero ret')
      then record { ret = ret'; rq = rq'; iter = i'; pool = cleanup md bio p; map_data = md' }
      else record { ret = pos 0; rq = rq'; iter = i'; pool = p; map_data = md' }

  unfoldable pub after_fill : Request → Option RqMapData → IovIter → MapData → Fill → Bounced
  after_fill rq md i d (no_page bio p) = record {
    ret = enomem;
    rq = rq;
    iter = i;
    pool = cleanup md bio p;
    map_data = md;
  }
  after_fill rq md i d (filled bio p) =
      let md' : Option RqMapData = elim md [
        | none ↦ none
        | some m ↦ some (record m { offset = m.offset + bio.size })
      ] in
      finish_bounce rq md md' i d bio p

  unfoldable pub bio_copy_user_iov : Request → Option RqMapData → IovIter → Pool → Bounced
  bio_copy_user_iov rq md i p =
      let len = i.count % u32 in
      let start : ℕ = elim md [ none ↦ 0 | some d ↦ d.offset ] in
      let offset = start % page_size in
      let d : MapData = record {
        our_pages = not (is_some md);
        null_mapped = is_null_mapped md;
        iter = i;
      } in
      let nr_pages = min (pages_of (offset + len)) bio_max_vecs in
      let fail : Pool → Bounced =
        λ q. record { ret = enomem; rq = rq; iter = i; pool = q; map_data = md } in
      elim (bio_alloc_map_data i p) [
        | none ↦ fail p
        | some p₁ ↦ elim (bio_kmalloc host nr_pages p₁) [
          | none ↦ fail (record p₁ { datas = p₁.datas - 1 })
          | some (bio, p₂) ↦
              after_fill rq md i d (fill md len len offset (start / page_size) bio p₂)
        ]
      ]
