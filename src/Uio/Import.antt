-- ===== src/Uio/Import.antt =====
-- kernel_modification/iov_iter.c: iterators made from the arrays and buffers of a user.
use nvme_ioctl.Prelude.{
  ℕ, zero, suc, ◌+◌, ◌-◌, ◌^◌, Bool, true, not, ◌&&◌, Option, none, some, List, [], ◌∷◌, ℤ, pos,
  enomem, efault, einval, ltb, leb, ◌==◌, if◌then◌else◌,
}
use nvme_ioctl.Uio.{Iovec, IovIter, max_rw_count, iov_iter_init}

-- UIO_MAXIOV
abbrev pub uio_maxiov : ℕ
uio_maxiov = 1024

-- User space as these functions reach it: access_ok(); copy_from_user() of an array of n vectors
-- at an address; unsafe_get_user() of the vector with an index, for 32-bit callers, the whole
-- array being begun by user_access_begin(); and kmalloc_array() for n vectors.
pub record Access : Type 0 where
  pub access_ok : ℕ → ℕ → Bool
  pub copy_vecs : ℕ → ℕ → Option (List Iovec)
  pub compat_begin : ℕ → ℕ → Bool
  pub compat_vec : ℕ → ℕ → Option Iovec
  pub kmalloc_vecs : ℕ → Bool
  pub in_compat : Bool

-- An array of vectors, or the code of an error.
pub data Vecs : Type 0 where
  vecs : List Iovec → Vecs
  failed : ℤ → Vecs

-- `(ssize_t)len < 0`, and the same of a 32-bit length.
abbrev pub is_neg64 : ℕ → Bool
is_neg64 len = leb (2 ^ 63) len

abbrev pub is_neg32 : ℕ → Bool
is_neg32 len = leb (2 ^ 31) len

abbrev pub push_vec : Iovec → Vecs → Vecs
push_vec v (vecs l) = vecs (v ∷ l)
push_vec v (failed e) = failed e

-- The loop of copy_iovec_from_user(): true if no length is negative.
unfoldable pub no_negative : List Iovec → Bool
no_negative [] = true
no_negative (v ∷ r) = not (is_neg64 v.len) && no_negative r

module _ (user : Access) where
  -- The loop of copy_compat_iovec_from_user(), n vectors from index i on.
  unfoldable pub copy_compat_from : ℕ → ℕ → ℕ → Vecs
  copy_compat_from uvec i zero = vecs []
  copy_compat_from uvec i (suc n) =
      let rest = copy_compat_from uvec (i + 1) n in
      elim (user.compat_vec uvec i) [
        | none ↦ failed efault
        | some v ↦ if is_neg32 v.len then failed einval else push_vec v rest
      ]

  unfoldable pub copy_compat_iovec_from_user : ℕ → ℕ → Vecs
  copy_compat_iovec_from_user uvec n =
      if not (user.compat_begin uvec n) then failed efault else copy_compat_from uvec 0 n

  unfoldable pub copy_iovec_from_user : ℕ → ℕ → Vecs
  copy_iovec_from_user uvec n = elim (user.copy_vecs uvec n) [
    | none ↦ failed efault
    | some l ↦ if no_negative l then vecs l else failed einval
  ]

  -- iovec_from_user(): the caller's array has room for `fast_segs` vectors.
  unfoldable pub iovec_from_user : ℕ → ℕ → ℕ → Bool → Vecs
  iovec_from_user uvec n fast_segs compat =
      if n == 0
      then vecs []
      else if ltb uio_maxiov n
      then failed einval
      else if ltb fast_segs n && not (user.kmalloc_vecs n)
      then failed enomem
      else if compat
      then copy_compat_iovec_from_user uvec n
      else copy_iovec_from_user uvec n

  -- The loop of __import_iovec(): the vectors as clipped, and the total; `none` for a bad range.
  unfoldable pub clip_vecs : List Iovec → ℕ → Option (List Iovec × ℕ)
  clip_vecs [] total = some ([], total)
  clip_vecs (v ∷ r) total =
      let len = if ltb (max_rw_count - total) v.len then max_rw_count - total else v.len in
      let rest = clip_vecs r (total + len) in
      if not (user.access_ok v.base v.len)
      then none
      else elim rest [ none ↦ none | some (l, t) ↦ some ((record v { len = len }) ∷ l, t) ]

  -- __import_iovec(): the return value, and the iterator on success.
  unfoldable pub import_iovec_as : Bool → ℕ → ℕ → ℕ → Bool → ℤ × Option IovIter
  import_iovec_as write uvec n fast_segs compat = elim (iovec_from_user uvec n fast_segs compat) [
    | failed e ↦ (e, none)
    | vecs l ↦ elim (clip_vecs l 0) [
      | none ↦ (efault, none)
      | some (l', total) ↦ (pos total, some (iov_iter_init write l' total))
    ]
  ]

  unfoldable pub import_iovec : Bool → ℕ → ℕ → ℕ → ℤ × Option IovIter
  import_iovec write uvec n fast_segs = import_iovec_as write uvec n fast_segs user.in_compat

  unfoldable pub import_single_range : Bool → ℕ → ℕ → ℤ × Option IovIter
  import_single_range write buf len =
      let len' = if ltb max_rw_count len then max_rw_count else len in
      if not (user.access_ok buf len')
      then (efault, none)
      else (pos 0, some (iov_iter_init write ((record { base = buf; len = len' }) ∷ []) len'))
