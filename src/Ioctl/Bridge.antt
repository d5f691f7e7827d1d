-- ===== src/Ioctl/Bridge.antt =====
-- ioctl.c on top of blk-map.c: the mapping functions of the model of blk-map.c in the place where
-- ioctl.c calls them.
use nvme_ioctl.Prelude.{◌≡◌, refl, false, not, ◌&&◌, none, [], is_zero, efault, arith}
use nvme_ioctl.Uio.{IovIter}
use nvme_ioctl.BlkMap.{Request, Pool, Host}
use nvme_ioctl.BlkMap.Direct.{Outcome, returned, crashed}
use nvme_ioctl.BlkMap.Route.{blk_rq_map_user_iov, blk_rq_map_user_io}
use nvme_ioctl.BlkMap.Success.{
  has_bio, code, Succeeds, blk_rq_map_user_iov-Succeeds, blk_rq_map_user_io-Succeeds,
}
use nvme_ioctl.Ioctl.{Req, Env}
use nvme_ioctl.Ioctl.Async.{MapsBio}

-- A request as blk_mq_alloc_request() gives it.
abbrev pub fresh_request : Req → Request
fresh_request r = record { bios = []; data_len = 0; write = r.write; polled = r.polled }

-- The kernel around ioctl.c with the mapping functions of blk-map.c, as nvme_map_user_request()
-- calls them: `fixed` is the iterator of io_uring_cmd_import_fixed(). A BUG() stands for an error.
unfoldable pub with_blk_map : Host → IovIter → Pool → Env → Env
with_blk_map host fixed p env = record env {
  map_iov = λ w r.
      let o = blk_rq_map_user_iov host (fresh_request r) none fixed p in (code o efault, has_bio o);
  map_io = λ w r ubuffer bufflen vec.
      let o = blk_rq_map_user_io host (fresh_request r) none ubuffer bufflen vec 0 false p in
      (code o efault, has_bio o);
}

success_has_bio : (o : Outcome) → Succeeds o → (is_zero (code o efault) && not (has_bio o)) ≡ false
success_has_bio (returned ret rq i p) h = ground arith
success_has_bio crashed h = refl

-- On top of blk-map.c, what ioctl.c relies on holds: a mapping of a buffer that is not empty leaves
-- a bio in the request where it returns 0.
pub with_blk_map-MapsBio :
    (host : Host) (fixed : IovIter) (p : Pool) (env : Env) → MapsBio (with_blk_map host fixed p env)
unfolding with_blk_map
with_blk_map-MapsBio host fixed p env = record {
  iov_lem =
      λ w r. success_has_bio _ (blk_rq_map_user_iov-Succeeds host (fresh_request r) none fixed p);
  io_lem = λ w r ubuffer bufflen vec h.
      success_has_bio _
        (blk_rq_map_user_io-Succeeds host (fresh_request r) none ubuffer bufflen vec false p h);
}
