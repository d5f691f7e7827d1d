-- ===== src/BlkMap/Direct.antt =====
-- kernel_modification/blk-map.c: bio_map_user_iov(), which puts the pages of a user's buffer into a
-- bio without a copy.
use nvme_ioctl.Prelude.{
  ℕ, zero, suc, ◌+◌, ◌-◌, ◌^◌, true, false, none, some, List, [], ◌∷◌, bit_and, min, ℤ, pos,
  is_zero, einval, enomem, efault, page_size, pages_of, ◌==◌, if◌then◌else◌, length, take,
}
use nvme_ioctl.Bio.{Bio, bio_add_hw_page}
use nvme_ioctl.Uio.{IovIter, iov_iter_revert}
use nvme_ioctl.Uio.Shape.{iov_iter_npages}
use nvme_ioctl.Uio.Pages.{got, error, bug, iov_iter_get_pages_alloc}
use nvme_ioctl.BlkMap.{
  Mapped, Request, Pool, Host, bio_max_vecs, bio_release_pages, blk_mq_map_bio_put,
  blk_rq_map_bio_alloc, blk_rq_append_bio,
}

-- What a pass over pinned pages has done: the bio, the pages not taken, the bytes not taken and
-- the references put on the way.
pub record Added : Type 0 where
  pub bio : Bio
  pub left : List ℕ
  pub bytes : ℕ
  pub puts : ℕ

-- How the loop over the iterator ended: by itself, with an error code, or in a BUG() or a bad read;
-- or its fuel ran out.
pub data Walk : Type 0 where
  walked : Bio → IovIter → Pool → Walk
  refused : ℤ → Bio → Pool → Walk
  broken : Walk
  out_of_fuel : Walk

-- What a mapping call came to: the return code, the request, the iterator and what is held.
pub data Outcome : Type 0 where
  returned : ℤ → Request → IovIter → Pool → Outcome
  crashed : Outcome

-- LONG_MAX
abbrev pub long_max : ℕ
long_max = 2 ^ 63 - 1

module _ (host : Host) where
  -- The loop over the pages: `j` counts up along the list.
  unfoldable pub add_pages : List ℕ → ℕ → ℕ → Bio → Added
  add_pages [] offs bytes bio = record { bio = bio; left = []; bytes = bytes; puts = 0 }
  add_pages (page ∷ ps) offs bytes bio =
      let n = min (page_size - offs) bytes in
      let (k, same, bio') =
        bio_add_hw_page host.platform host.queue bio page n offs host.queue.max_hw_sectors false in
      let rest = add_pages ps 0 (bytes - n) bio' in
      if k == 0
      then record { bio = bio'; left = page ∷ ps; bytes = bytes; puts = if same then 1 else 0 }
      else rest

  -- One round: add the pages unless the start is misaligned, and put those that are left.
  unfoldable pub take_pages : Bio → ℕ → List ℕ → ℕ → Added
  take_pages bio offs pages bytes =
      let used = take (pages_of (offs + bytes)) pages in
      if bit_and offs host.dma_alignment == 0
      then add_pages used offs bytes bio
      else record { bio = bio; left = used; bytes = bytes; puts = 0 }

  -- The pins behind a round that has pinned `n` pages.
  unfoldable pub pins_after : Pool → ℕ → Added → Pool
  pins_after p n a = record p { pins = p.pins + n - a.puts - length a.left }

  -- The end of the loop where bytes are left over: they go back to the iterator.
  unfoldable pub give_back : Added → IovIter → Pool → Walk
  give_back a i p = elim (iov_iter_revert i a.bytes) [ none ↦ broken | some i' ↦ walked a.bio i' p ]

  -- The while loop, on fuel. Every round takes a byte or ends the loop.
  unfoldable pub map_loop : ℕ → Bio → IovIter → Pool → Walk
  map_loop zero bio i p = out_of_fuel
  map_loop (suc fuel) bio i p = elim (i.count == 0) [
    | true ↦ walked bio i p
    | false ↦ elim (iov_iter_get_pages_alloc host.mm i long_max host.p2pdma) [
      | error e ↦ refused (if is_zero e then efault else e) bio p
      | bug ↦ broken
      | got offs pages bytes i' ↦
          let a = take_pages bio offs pages bytes in
          let p' = pins_after p (length pages) a in
          elim (a.bytes == 0) [ true ↦ map_loop fuel a.bio i' p' | false ↦ give_back a i' p' ]
    ]
  ]

  -- The label out_unmap.
  unfoldable pub out_unmap : Mapped → Pool → Pool
  out_unmap m p = blk_mq_map_bio_put m (bio_release_pages m p)

  -- The part behind the loop. After an error nobody reads the iterator again.
  unfoldable pub append_mapped : Request → Mapped → IovIter → Pool → Outcome
  append_mapped rq m i p =
      let (ret, rq') = blk_rq_append_bio host rq m in
      if is_zero ret then returned (pos 0) rq' i p else returned ret rq i (out_unmap m p)

  -- What follows the loop. Its fuel lasts, so that the case without is there for completeness only.
  unfoldable pub after_walk : Request → Mapped → IovIter → Walk → Outcome
  after_walk rq m i broken = crashed
  after_walk rq m i out_of_fuel = crashed
  after_walk rq m i (refused e bio p) = returned e rq i (out_unmap (record m { bio = bio }) p)
  after_walk rq m i (walked bio i' p) = append_mapped rq (record m { bio = bio }) i' p

  unfoldable pub bio_map_user_iov : Request → IovIter → Pool → Outcome
  bio_map_user_iov rq i p = elim (iov_iter_npages i bio_max_vecs) [
    | none ↦ crashed
    | some nr_vecs ↦
        if i.count == 0
        then returned einval rq i p
        else elim (blk_rq_map_bio_alloc host rq nr_vecs p) [
          | none ↦ returned enomem rq i p
          | some (m, p') ↦ after_walk rq m i (map_loop (i.count + 1) m.bio i p')
        ]
  ]
