-- ===== src/Lib.antt =====
-- NVMe passthrough: the files under kernel_modification, modified from Linux 6.2, that take a
-- command of user space to an NVMe device without the file system, and back, and the programs of
-- user space under my_version and phison_version that send such commands.
--
-- The path of a command. ioctl.c receives it, by ioctl() or io_uring, on a namespace, a partition,
-- a multipath head or the controller; checks it; allocates a request; maps the user's buffer into
-- it; brings the metadata along; executes it and gives everything back. blk-map.c maps the buffer:
-- directly, by pinning its pages, or through pages of its own. iov_iter.c and uio.h hold the
-- iterator over the buffer and pin its pages; bio.c puts the pages into a bio within the limits of
-- the queue, and gives out, splits, chains, ends and takes back the bios.
--
-- The clients. my_version/nvme_transfer writes a file to the device in commands of 2 MiB, each
-- from a thread of its own, reads it back and compares; the benchmarks of my_version do the like
-- in commands of 896 blocks. phison_version/nvme_transfer keeps the tensors of a neural network on
-- the device: the layer manager finds a layer by the path of a file, gives it blocks, and has
-- nvme_operation_handler() move the data, with a checksum on the side; nvme-aio.cpp is its other
-- way to the device, by libaio.
--
-- Files:
--   Prelude               tests, lists, bits and return codes that the others share
--   Bio                   kernel_modification/bio.c, bio_full() to bio_iov_add_zone_append_page()
--   Bio/GetPages          bio_iov_iter_get_pages(); Pages, Round and Loop are its proofs
--   Bio/Life              references, the cache of a CPU; Cache and Prune are proofs
--   Bio/Life/Chain        bio_chain(), bio_endio(); Ends is the proof
--   Bio/Pool              bio_alloc_bioset(), the rescuer; Rescue and Grants are proofs
--   Bio/Parts             clones, bio_split(), bio_trim(), bio_copy_data(); Cut and Copied are
--                         the proofs
--   Bio/Truncate          bio_truncate(), guard_bio_eod(), zero_fill_bio(), with their proofs
--   Bio/Invariant, Content, Limits
--                         well-formed bios, the bytes that they cover, the limits of a queue
--   Uio                   kernel_modification/iov_iter.c, uio.h: the iterator, advance and revert
--   Uio/Shape             alignment, gaps and numbers of pages
--   Uio/Pages             iov_iter_get_pages_alloc() and its contiguous variant
--   Uio/Import            import_iovec(), import_single_range()
--   Uio/Copy              iterate_and_advance(), _copy_to_iter(), _copy_from_iter(),
--                         iov_iter_zero(); its child modules are the proofs
--   Uio/Stream, Moves, Rewind, Position, Back, Steady, Grab, Located, Clip
--                         the addresses left to pass, and proofs about the functions above
--   BlkMap                kernel_modification/blk-map.c: the data, appending and unmapping a bio
--   BlkMap/Direct         bio_map_user_iov()
--   BlkMap/Bounce         bio_copy_user_iov(), bio_uncopy_user()
--   BlkMap/Route          blk_rq_map_user_iov() and its callers, blk_rq_unmap_user()
--   BlkMap/Kern           blk_rq_map_kern() for the kernel's own buffers
--   BlkMap/Fuel, Vectors, Holding, Balance, Rounds, Success,
--   BlkMap/Kept           proofs: fuel, arrays of vectors, what is held and left behind
--   Ioctl                 kernel_modification/ioctl.c: commands, requests and the world around them
--   Ioctl/Permission      nvme_cmd_allowed(), nvme_validate_passthru_nsid()
--   Ioctl/Map             nvme_map_user_request() and the metadata
--   Ioctl/Submit          nvme_submit_user_cmd(), nvme_submit_io(), nvme_user_cmd(),
--                         nvme_user_cmd64()
--   Ioctl/Uring           nvme_uring_cmd_io() and the end of its commands
--   Ioctl/Dispatch        the entry points
--   Ioctl/Access, Holding, Locks, Entry, Async, AdminMeta, Plan
--                         proofs: rights, what is held, locks, entry points, io_uring, lengths
--   Ioctl/Bridge          ioctl.c on top of the model of blk-map.c
--   Transfer              my_version/nvme_transfer/include: sizes and commands
--   Transfer/Device       submit_test() on a device
--   Transfer/Order, Runs, Whole, Kernel
--                         proofs: the commands in any order, a whole test, the kernel's view
--   Transfer/Rounds       the rounds of submit_tests()
--   Bench                 my_version/ioctl_thread/ioctl_thread_pool.cpp, my_version/ioctl/
--                         ioctl_single_thread.cpp: nvme_io()
--   Bench/Split, Report   proofs: its commands, its error
--   Phison                phison_version/nvme_transfer/layer_manager.h: strings, numbers, the map
--   Phison/Names          layer_manager.cpp: the parts of a path
--   Phison/Layers         layer_manager.cpp: tensors and their blocks; Keys is the std::map
--   Phison/Parse          layer_manager.cpp: parsefromFileName()
--   Phison/Crc            crc32.h, genCRCfromData()
--   Phison/Handler        nvme-ioctl.cpp: nvme_operation_handler()
--   Phison/Aio            nvme-aio.cpp: the counters and the loops that wait
--   Phison/Joins, Layers/Regions, Apart, Passes, Ranges, Copies, Waiting
--                         proofs about these
--   */Tests               concrete calls
--
-- Conventions. A page is its frame number. Arithmetic of C keeps its wrap-around, but for the block
-- numbers of my_version/nvme_transfer, which stay below 2^64. A function that changes an object
-- takes it and returns it; a bio's vectors stand with the last one first. What a function holds
-- (requests, mappings, buffers, bios, pins, locks) is a number in its state. A BUG(), or a read
-- outside an array, is a value of its own. A label that several gotos reach is a function of its
-- own. printk() lines are left out.
--
-- Loops. Lists are walked by recursion. The loop of bio_map_user_iov() and the outer loop of
-- blk_rq_map_user_iov() take fuel, one more than the bytes of the iterator; bio_copy_user_iov()
-- takes the bytes that it copies, and nvme_uring_cmd_io() two passes, since only the first can go
-- back. bio_iov_iter_get_pages() and bio_copy_data() take one more than the bytes, the loop over
-- bio_vecs in iov_iter.c the bytes and vectors, and bio_endio() two rounds for a bio chained to one
-- that is not chained itself; theorems show that these are enough. That the outer loop of
-- blk_rq_map_user_iov() ends is not shown: a round that maps no byte repeats; where its fuel runs
-- out the model says `crashed`, as for a BUG(). The loops that cut a buffer into commands take the
-- blocks or bytes of the buffer as fuel, those over a string its length; the loops of nvme-aio.cpp
-- run on fuel that a theorem finds.
--
-- Parameters. The rest of the kernel is a record of functions: Env (ioctl.c), Host (blk-map.c),
-- Memory, Access and UserAccess (iov_iter.c), Platform, Queue, BioSet (the allocators), Clones and
-- Cursor (the iterator over the vectors of a bio, whose functions stand in the kernel's headers).
-- What a theorem relies on is a named hypothesis: Errors (an ERR_PTR() carries a negative code),
-- OwnCodes (no function that allocates or maps answers EIOCBQUEUED), MapsBio (a mapping that
-- succeeds has a bio), Pins (no more pages are pinned than asked for), Copies (what is left over of
-- a copy is its end), Guarantees (mempool_alloc() does not fail where it may wait), Follows (the
-- iterator passes the bytes in their order). ioctl.c sees blk-map.c through Env, and Ioctl/Bridge
-- puts the model of blk-map.c there. The device of the clients is a Device (an ioctl on a state),
-- which Behaves as NVMe says of reads and writes; libaio is a LibAio, which Delivers what it has
-- accepted; mmap() Grants buffers away from the data. The threads of a test run in an order that is
-- a parameter, those of nvme_operation_handler() in the order of their start.
--
-- Not modelled: the byte order of commands, timeouts, metadata seeds, memory cgroups; pipes and
-- xarrays in iterators, checksums, and the other ways to copy; of bio.c the slabs, the set-up of
-- sets, bio_reset(), waiting for a bio and dirty pages, and the calls of cgroups, encryption and
-- integrity; which bytes blk-map.c copies; of the clients the command lines, timing and output, the
-- allocation of the buffers of my_version, the branches that the preprocessor leaves out, and
-- phison_version/modify_function.cpp.
pub mod Prelude
pub mod Bio
pub mod Uio
pub mod BlkMap
pub mod Ioctl
pub mod Transfer
pub mod Bench
pub mod Phison
