-- ===== src/Bio/Parts.antt =====
-- kernel_modification/bio.c: clones of a bio, its parts, and copies between bios. A bio_vec iterator of
-- the kernel's headers (bio.h, bvec.h) is a parameter.
pub mod Cut
pub mod Copied
use nvme_ioctl.Prelude.{
  ℕ, zero, suc, ◌+◌, ◌-◌, ◌*◌, ◌/◌, ◌%◌, ◌≡◌, ◌≤◌, ◌<◌, Bool, true, false, not, ◌&&◌, ◌||◌, Option,
  none, some, List, [], ◌∷◌, min, ℤ, pos, is_neg, enomem, u32, ltb, leb, ◌==◌, if◌then◌else◌,
  length, take, drop,
}
use nvme_ioctl.Prelude.Bytes.{run}
use nvme_ioctl.Uio.Copy.{Mem, copy_bytes}

-- `struct bvec_iter` over the vectors of a bio, with bio_advance_iter(), an assignment to bi_size and
-- bio_iter_iovec(), the address and length of the piece at the iterator. `bytes` is what it has ahead.
pub record Cursor : Type 1 where
  pub It : Type 0
  pub bytes : It → List ℕ
  pub size : It → ℕ
  pub advance : It → ℕ → It
  pub set_size : It → ℕ → It
  pub piece : It → ℕ × ℕ

-- The kernel around a clone: whether bio_alloc_bioset() has a bio, and whether the encryption context
-- and the integrity data can be cloned.
pub record Clones : Type 0 where
  pub has_bio : Bool
  pub crypt_clones : Bool
  pub integrity_clones : Bool

abbrev pub same_bdev : Option ℕ → Option ℕ → Bool
same_bdev none b = false
same_bdev (some d) none = false
same_bdev (some d) (some e) = d == e

module _ (cu : Cursor) where
  open cu use {It, bytes, size, advance, set_size, piece}

  -- What the headers say of these.
  pub record Follows : Type 0 where
    pub size_lem : (i : It) → length (bytes i) ≡ size i
    pub advance_lem : (i : It) (n : ℕ) → n ≤ size i → bytes (advance i n) ≡ drop n (bytes i)
    pub set_size_lem : (i : It) (n : ℕ) → n ≤ size i → bytes (set_size i n) ≡ take n (bytes i)
    pub piece_some : (i : It) → 0 < size i → 0 < (piece i).1
    pub piece_le : (i : It) → (piece i).1 ≤ size i
    pub piece_lem :
        (i : It) (n : ℕ) → n ≤ (piece i).1 → n ≤ size i → take n (bytes i) ≡ run (piece i).0 n

  -- The fields of a bio that its clones take over: the device, the flags BIO_CLONED, BIO_REMAPPED and
  -- BIO_TRACE_COMPLETION, whether it is a zone append, bi_ioprio, bi_iter and where bi_io_vec points.
  pub record Part : Type 0 where
    pub bdev : Option ℕ
    pub cloned : Bool
    pub remapped : Bool
    pub trace : Bool
    pub zone_append : Bool
    pub ioprio : ℕ
    pub iter : It
    pub io_vec : ℕ

  -- __bio_clone(): the return code and the bio.
  unfoldable pub clone_fields : Clones → Part → Part → ℤ × Part
  clone_fields k bio src =
      let bio' = record bio {
        cloned = true;
        ioprio = src.ioprio;
        iter = src.iter;
        remapped = bio.remapped || (same_bdev bio.bdev src.bdev && src.remapped);
      } in
      if not k.crypt_clones
      then (enomem, bio')
      else if not k.integrity_clones
      then (enomem, bio')
      else (pos 0, bio')

  -- A bio that is just initialised, with the operation of another.
  abbrev pub blank : Option ℕ → ℕ → Part → Part
  blank bdev io_vec src = record {
    bdev = bdev;
    cloned = false;
    remapped = false;
    trace = false;
    zone_append = src.zone_append;
    ioprio = 0;
    iter = set_size src.iter 0;
    io_vec = io_vec;
  }

  -- bio_alloc_clone(): the clone, and the bios that are held.
  unfoldable pub bio_alloc_clone : Clones → Option ℕ → Part → ℕ → Option Part × ℕ
  unfolding clone_fields
  bio_alloc_clone k bdev src bios =
      let (ret, bio) = clone_fields k (blank bdev 0 src) src in
      if not k.has_bio
      then (none, bios)
      else if is_neg ret
      then (none, bios + 1 - 1)
      else (some (record bio { io_vec = src.io_vec }), bios + 1)

  -- bio_init_clone(): the return code and the bio; bio_uninit(), where it fails, changes none of these
  -- fields.
  unfoldable pub bio_init_clone : Clones → Option ℕ → Part → ℤ × Part
  unfolding clone_fields
  bio_init_clone k bdev src = clone_fields k (blank bdev src.io_vec src) src

  -- What a split comes to: a BUG_ON(), no bio, or the new bio and the old one; with the bios held.
  pub data Halves : Type 0 where
    bug : Halves
    no_split : Part → ℕ → Halves
    halves : Part → Part → ℕ → Halves

  -- bio_split() with a positive number of sectors; bio_integrity_trim() is left out.
  unfoldable pub bio_split : Clones → Part → ℕ → ℕ → Halves
  unfolding bio_alloc_clone
  bio_split k bio sectors bios =
      let bytes = sectors * 512 % u32 in
      if sectors == 0
      then bug
      else if leb (size bio.iter / 512) sectors
      then bug
      else if bio.zone_append
      then no_split bio bios
      else let (clone, bios') = bio_alloc_clone k bio.bdev bio bios in
        elim clone [
          | none ↦ no_split bio bios'
          | some half ↦
              halves
                (record half { iter = set_size half.iter bytes; trace = half.trace || bio.trace })
                (record bio { iter = advance bio.iter bytes }) bios'
        ]

  -- bio_trim(); `max_sectors` is BIO_MAX_SECTORS.
  unfoldable pub bio_trim : ℕ → Part → ℕ → ℕ → Part
  bio_trim max_sectors bio offset sectors =
      let bytes = sectors * 512 in
      let there = advance bio.iter (offset * 512) in
      if ltb max_sectors offset
        || (ltb max_sectors sectors || ltb (size bio.iter / 512) (offset + sectors))
      then bio
      else if offset == 0 && bytes == size bio.iter
      then bio
      else record bio { iter = set_size there bytes }

  -- The loop of bio_copy_data_iter(), on fuel: the iterators and the memory.
  unfoldable pub bio_copy_data_iter : ℕ → It → It → Mem → Option (It × It × Mem)
  unfolding copy_bytes
  bio_copy_data_iter zero dst src m = none
  bio_copy_data_iter (suc fuel) dst src m =
      let n = min (piece src).1 (piece dst).1 in
      elim (size src == 0 || size dst == 0) [
        | true ↦ some (dst, src, m)
        | false ↦
            bio_copy_data_iter fuel (advance dst n) (advance src n)
              (copy_bytes (run (piece dst).0 n) (run (piece src).0 n) m)
      ]

  -- bio_copy_data(): every round copies a byte or more.
  unfoldable pub bio_copy_data : Part → Part → Mem → Option Mem
  unfolding bio_copy_data_iter
  bio_copy_data dst src m = elim (bio_copy_data_iter (size src.iter + 1) dst.iter src.iter m) [
    | none ↦ none
    | some (d, s, m') ↦ some m'
  ]
