-- ===== src/Bio/Tests.antt =====
-- Concrete bios of kernel_modification/bio.c: the theorems at work.
use nvme_ioctl.Prelude.{◌≡◌, refl, true, false, List, [], ◌∷◌, arith, All, ltb, drop}
use nvme_ioctl.Prelude.{
  ℕ, zero, suc, ◌+◌, ◌-◌, ◌≤◌, ◌⊎◌, inl, inr, ◌==◌, none, some, min, take, drop, ap, sym,
  if◌then◌else◌, leb,
}
use nvme_ioctl.Prelude.Bytes.{run, length-run, drop-run}
use nvme_ioctl.Bio.Life.{chain_endio, calls, Node, World, CacheCall, puts, takes, prunes}
use nvme_ioctl.Bio.Life.Cache.{Counted, held}
use nvme_ioctl.Bio.Life.Prune.{cache_calls, all_put, cache_calls-Counted}
use nvme_ioctl.Bio.Life.Chain.{done, end_all}
use nvme_ioctl.Bio.Life.Ends.{Child, end_all-Ended}
use nvme_ioctl.Uio.Tests.{all_there, all_there-Pins, two_segments}
use nvme_ioctl.Bio.GetPages.{Got, get_all}
use nvme_ioctl.Bio.GetPages.Loop.{Filled, get_all-Filled}
use nvme_ioctl.Bio.Pool.{Alloc, BioSet, bio_alloc_bioset}
use nvme_ioctl.Bio.Pool.Grants.{Guarantees, Served, bio_alloc_bioset-Served}
use nvme_ioctl.Bio.Parts.{Cursor, Follows, Part, Clones, no_split, halves, bio_split, bio_copy_data}
use nvme_ioctl.Bio.Parts.Cut.{CutAt, bio_split-CutAt}
use nvme_ioctl.Bio.Parts.Copied.{bio_copy_data-copies}
use nvme_ioctl.Uio.Copy.{copy_bytes}
use nvme_ioctl.Bio.Truncate.{bio_truncate, ranges_bytes, segs_bytes, bio_truncate_lem}
use nvme_ioctl.Bio.{
  BioVec, Bio, Queue, Platform, bio_add_hw_page, try_merge_page, try_merge_hw_seg,
  page_is_mergeable,
}
use nvme_ioctl.Bio.Invariant.{IsValid}
use nvme_ioctl.Bio.Content.{InMemory, Appends, bio_add_hw_page-Appends}
use nvme_ioctl.Bio.Limits.{Fits, bio_add_hw_page-Fits}

abbrev pub pc : Platform
pc = record { xen_refuses = λ _ _. false; same_pgmap = λ _ _. true; kmsan = false }

abbrev pub disk : Queue
disk = record {
  max_hw_sectors = 1024;
  max_zone_append_sectors = 0;
  max_segments = 127;
  max_segment_size = 65536;
  segment_boundary = 0xffffffff;
  gap_to_prev = λ v off. ltb 0 off;
  zoned = false;
}

-- A bio with half a page in it.
abbrev half_page : BioVec
half_page = record { page = 7; len = 2048; offset = 0 }

abbrev one_vec : Bio
one_vec = record {
  vecs = half_page ∷ [];
  max_vecs = 4;
  size = 2048;
  cloned = false;
  zone_append = false;
}

one_vec-IsValid : IsValid one_vec
one_vec-IsValid = record { total = refl; fits = omega arith; room = omega arith }

one_vec-InMemory : All InMemory one_vec.vecs
one_vec-InMemory =
    (record { below = omega arith; one_word = omega arith; some_bytes = omega arith }, _)

one_vec-Fits : Fits disk 1024 one_vec
one_vec-Fits = record { segments = omega arith; sectors = omega arith; lengths = (omega arith, _) }

-- The other half is merged, and the code reports the shared page.
merged_test : (bio_add_hw_page pc disk one_vec 7 2048 2048 1024 false).0 ≡ 2048
unfolding bio_add_hw_page try_merge_hw_seg try_merge_page page_is_mergeable
merged_test = refl

bio_add_hw_page-Appends_example :
    let (n, _, bio') = bio_add_hw_page pc disk one_vec 7 2048 2048 1024 false in
    Appends one_vec 7 2048 2048 (n, bio')
bio_add_hw_page-Appends_example =
    bio_add_hw_page-Appends pc one_vec 7 2048 2048 one_vec-InMemory one_vec-IsValid (omega arith)
      (omega arith) disk 1024 false

bio_add_hw_page-Fits_example :
    Fits disk 1024 (bio_add_hw_page pc disk one_vec 9 4096 0 1024 false).2
bio_add_hw_page-Fits_example =
    bio_add_hw_page-Fits pc disk 1024 one_vec 9 4096 0 false (omega arith) (omega arith)
      one_vec-IsValid one_vec-Fits

-- Two pages, of which the second half of the second lies behind the end.
abbrev two_pieces : List BioVec
two_pieces =
    (record { page = 7; len = 4096; offset = 0 })
    ∷ (record { page = 9; len = 4096; offset = 0 })
    ∷ []

abbrev two_vecs : Bio
two_vecs = record one_vec { vecs = two_pieces; size = 8192 }

bio_truncate_lem_example :
    ((bio_truncate true two_pieces two_vecs 6144).0.size ≡ 6144)
    × (ranges_bytes (bio_truncate true two_pieces two_vecs 6144).1
        ≡ drop 6144 (segs_bytes two_pieces))
bio_truncate_lem_example =
    bio_truncate_lem two_pieces two_vecs 6144 (omega arith) refl (omega arith)

-- A bio of the owner 1 with three bios to wait for, itself one of them, and two chained bios.
abbrev owned : Node
owned = record {
  alloc_cache = false;
  polled = false;
  chain = true;
  reffed = false;
  remaining = 3;
  cnt = 1;
  status = 0;
  end_io = calls 1;
  private = none;
  blkg = true;
  integrity = false;
  crypt = false;
}

abbrev chained : Node
chained = record owned {
  alloc_cache = true;
  chain = false;
  remaining = 1;
  status = 5;
  end_io = chain_endio;
  private = some 0;
}

abbrev family : World
family = record {
  node = λ b. if b == 0 then owned else chained;
  cache = record { free_list = 8 ∷ []; free_list_irq = 9 ∷ []; nr = 1; nr_irq = 1 };
  freed = [];
  ended = [];
}

family-Counted : Counted family.cache
family-Counted = record { free_nr = refl; irq_nr = refl; limit = omega arith }

abbrev some_calls : List CacheCall
some_calls = puts false 4 ∷ takes true true ∷ prunes 3 ∷ puts true 5 ∷ []

cache_calls-Counted_example :
    Counted (cache_calls 8 some_calls family).1.cache
    × (held 8 (cache_calls 8 some_calls family).1 + (cache_calls 8 some_calls family).0
        ≡ held 8 family + all_put 8 some_calls)
cache_calls-Counted_example = cache_calls-Counted some_calls 8 family family-Counted

second_chained : Child false (λ _. true) (λ _. refl) 0 1 2 family
second_chained = record { other = refl; chain = refl; reffed = refl; end_io = refl; private = refl }

end_all-Ended_example :
    (w' : World) × (end_all false (λ _. true) 2 (1 ∷ 0 ∷ 2 ∷ []) family ≡ done w')
    × (w'.ended ≡ 0 ∷ [])
    × ((w'.node 0).status ≡ 5)
end_all-Ended_example =
    end_all-Ended false (λ _. true) (λ _. refl) 0 1 1 (0 ∷ 2 ∷ []) 3 family
      (
        inr (record { other = refl; chain = refl; reffed = refl; end_io = refl; private = refl }),
        (inl refl, (inr second_chained, _)),
      )
      (record { chain = refl; remaining = refl; end_io = refl }) (omega arith)

abbrev empty_bio : Bio
empty_bio = record one_vec { vecs = []; size = 0 }

get_all-Filled_example :
    (g : Got) × (get_all pc disk all_there false 512 200 empty_bio two_segments 0 ≡ some g)
    × Filled pc disk all_there false 9 all_there-Pins (omega arith) empty_bio two_segments g
get_all-Filled_example =
    get_all-Filled pc disk all_there false 9 all_there-Pins (omega arith) 200 empty_bio two_segments
      0 (omega arith) refl (omega arith) (omega arith, omega arith, omega arith)

-- A set of bios with a rescuer and with memory for whoever may wait.
abbrev strict_set : BioSet
strict_set = record {
  ours = λ b. leb b 5;
  has_bvec_pool = true;
  has_rescuer = true;
  has_cache = true;
  bio_pool = λ _ wait. wait;
  bvec_pool = λ _ wait. wait;
  bvec_slab = λ _. false;
  saturated = true;
}

abbrev three_waiting : Alloc
three_waiting = record {
  waiting = 3 ∷ 9 ∷ [];
  submitted = 4 ∷ [];
  rescue_list = [];
  queued = 0;
  asked = 0;
  held = 0;
}

strict_set-Guarantees : Guarantees strict_set
strict_set-Guarantees = record { bios = λ _. refl; vecs = λ _. refl }

bio_alloc_bioset-Served_example :
    Served strict_set strict_set-Guarantees true 40 three_waiting
      (bio_alloc_bioset strict_set true false true true 40 true three_waiting family).0
bio_alloc_bioset-Served_example =
    bio_alloc_bioset-Served strict_set strict_set-Guarantees true false true true 40 true
      three_waiting family (omega arith) (inr refl)

-- An iterator over one run of bytes, with pieces of four bytes at most.
abbrev one_run : Cursor
one_run = record {
  It = ℕ × ℕ;
  bytes = λ i. run i.0 i.1;
  size = λ i. i.1;
  advance = λ i n. (i.0 + n, i.1 - n);
  set_size = λ i n. (i.0, n);
  piece = λ i. (i.0, min i.1 4);
}

take-run : (n a k : ℕ) → n ≤ k → take n (run a k) ≡ run a n
take-run zero a k h = refl
take-run (suc n) a zero h = absurd (omega arith)
take-run (suc n) a (suc k) h = ap (λ l. a ∷ l) (take-run n (suc a) k (omega arith))

one_run-Follows : Follows one_run
one_run-Follows = record {
  size_lem = λ i. length-run i.0 i.1;
  advance_lem = λ i n h. sym (drop-run n i.0 (i.0 + n) i.1 (i.1 - n) (omega arith) refl);
  set_size_lem = λ i n h. sym (take-run n i.0 i.1 h);
  piece_some = λ i h. omega arith;
  piece_le = λ i. omega arith;
  piece_lem = λ i n h k. take-run n i.0 i.1 k;
}

abbrev eight_sectors : Part one_run
eight_sectors = record {
  bdev = some 2;
  cloned = false;
  remapped = true;
  trace = true;
  zone_append = false;
  ioprio = 4;
  iter = (8192, 4096);
  io_vec = 77;
}

abbrev all_cloned : Clones
all_cloned = record { has_bio = true; crypt_clones = true; integrity_clones = true }

bio_split-CutAt_example :
    ((true ≡ false) × (bio_split one_run all_cloned eight_sectors 3 1 ≡ no_split eight_sectors 1))
    ⊎ ((true ≡ true)
        × (a : Part one_run) × (b : Part one_run) × (bio_split one_run all_cloned eight_sectors 3 1
            ≡ halves a b 2)
        × CutAt one_run one_run-Follows eight_sectors a b 1536)
bio_split-CutAt_example =
    bio_split-CutAt one_run one_run-Follows all_cloned eight_sectors 3 1 (omega arith) (omega arith)
      (omega arith)

abbrev ten_bytes : Part one_run
ten_bytes = record eight_sectors { iter = (100, 10) }

bio_copy_data-copies_example :
    bio_copy_data one_run ten_bytes eight_sectors (λ a. a)
    ≡ some (copy_bytes (take 10 (run 100 10)) (take 10 (run 8192 4096)) (λ a. a))
bio_copy_data-copies_example =
    bio_copy_data-copies one_run one_run-Follows ten_bytes eight_sectors (λ a. a)
