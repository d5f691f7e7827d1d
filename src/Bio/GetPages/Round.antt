-- ===== src/Bio/GetPages/Round.antt =====
-- kernel_modification/bio.c: one round of bio_iov_iter_get_pages().
use nvme_ioctl.Prelude.{
  ℕ, zero, suc, ◌+◌, ◌-◌, ◌*◌, ◌/◌, ◌%◌, ◌^◌, ◌≡◌, refl, sym, ap, ◌∙◌, ◌≤◌, ◌<◌, inl, inr, Bool,
  true, false, some, List, arith, bit_and, ℤ, pos, negsuc, is_zero, efault, u32, u64, pages_of,
  ◌==◌, if◌then◌else◌, length, take, drop, Bool-cases,
}
use nvme_ioctl.Bio.{Bio, Queue, Platform}
use nvme_ioctl.Uio.{IovIter, iov_iter_revert, max_rw_count}
use nvme_ioctl.Uio.Stream.{stream}
use nvme_ioctl.Uio.Pages.{Memory, Grab, got, error, bug, iov_iter_get_pages}
use nvme_ioctl.Uio.Grab.{Pins, Progress, user_backed}
use nvme_ioctl.Uio.Back.{At-iov_iter_revert}
use nvme_ioctl.Uio.Position.{At, At-stream, At-iov_iter_advance}
use nvme_ioctl.Uio.Copy.Whole.{Ready}
use nvme_ioctl.Bio.GetPages.{Added, Got, add_pages, settle, take_grab, get_pages}
use nvme_ioctl.Prelude.Bits.{bit_and-mask}
use nvme_ioctl.Prelude.{length-take}
use mathlib.Core.Path.{subst}
use native.Mathlib.Nat.{one-le-pow, div-add-mod', mul-mod_left, mod-lt}
use nvme_ioctl.Bio.GetPages.Pages.{
  iov_iter_get_pages-Progress, add_pages-all, iov_iter_get_pages-Proper, Proper,
}

rest_le : (n m : ℕ) → n % m ≤ n
rest_le n m = grind arith

rest_lt : (n k : ℕ) → n % 2 ^ k < 2 ^ k
rest_lt n k = mod-lt n (one-le-pow k 2 (omega arith))

whole_blocks : (n m : ℕ) → (n - n % m) % m ≡ 0
whole_blocks n m =
    ap (λ t. t % m) (let e : n - n % m ≡ n / m * m = omega (arith, div-add-mod' n m) in e)
    ∙ mul-mod_left (n / m) m

not_success : (e : ℤ) → is_zero (if is_zero e then efault else e) ≡ false
not_success (pos zero) = refl
not_success (pos (suc n)) = ground arith
not_success (negsuc n) = refl

-- What a round leaves: an error and everything as it was, or a bio that has grown by the whole blocks
-- that the iterator has passed.
pub data Round (lbs : ℕ) (bio : Bio) (i : IovIter) (refs : ℕ) (g : Got) : Type 0 where
  refused :
      (is_zero g.ret ≡ false)
      → g.bio ≡ bio
      → stream g.iter ≡ stream i
      → g.iter.count ≡ i.count
      → g.refs ≡ refs
      → Round lbs bio i refs g
  took :
      (moved : ℕ)
      → 0 < moved
      → moved % lbs ≡ 0
      → g.ret ≡ pos 0
      → g.bio.size ≡ bio.size + moved
      → g.bio.zone_append ≡ false
      → g.bio.size < u32
      → At i moved g.iter
      → Round lbs bio i refs g

module _ (pf : Platform) (q : Queue) (mm : Memory) (p2pdma : Bool) (bits : ℕ) (fair : Pins mm)
    (small_blocks : 2 ^ bits ≤ max_rw_count) (bio : Bio) (i : IovIter) (refs : ℕ)
    (plain : bio.zone_append ≡ false) (sized : bio.size < u32)
    (backed : user_backed i.source ≡ true) (ready : Ready i)
    (counts : i.iov_offset + i.count < u64) where
  abbrev lbs : ℕ
  lbs = 2 ^ bits

  abbrev max_bytes : ℕ
  max_bytes = u32 - 1 - bio.size

  revert_nothing : (j : IovIter) (left : ℕ) → left ≡ 0 → iov_iter_revert j left ≡ some j
  unfolding iov_iter_revert
  revert_nothing j zero e = refl
  revert_nothing j (suc n) e = absurd (omega arith)

  settle-nothing_left :
      (pinned : ℕ) (j : IovIter) (a : Added)
      → a.left ≡ 0
      → settle refs pinned j (some a)
        ≡ some (record {
          ret = a.ret;
          bio = a.bio;
          iter = j;
          refs = refs + pinned - a.puts - length a.rest;
        })
  unfolding settle
  settle-nothing_left pinned j a none_left = rw (revert_nothing j a.left none_left, settle)

  module _ (offset : ℕ) (pages : List ℕ) (size : ℕ) (i' i₁ : IovIter)
      (back : iov_iter_revert i' (bit_and size (lbs - 1)) ≡ some i₁) where
    abbrev trim : ℕ
    trim = bit_and size (lbs - 1)

    abbrev used : List ℕ
    used = take (pages_of (offset + size)) pages

    after_none :
        (size - trim == 0) ≡ true
        → take_grab pf q mm p2pdma lbs bio i refs (got offset pages size i')
          ≡ some (record {
            ret = efault;
            bio = bio;
            iter = i₁;
            refs = refs + length pages - length used;
          })
    unfolding take_grab
    after_none nothing = rw (take_grab, back, nothing)

    after_some :
        (a : Added)
        → (size - trim == 0) ≡ false
        → add_pages pf q used offset (size - trim) bio 0 ≡ some a
        → take_grab pf q mm p2pdma lbs bio i refs (got offset pages size i')
          ≡ settle refs (length pages) i₁ (some a)
    unfolding take_grab
    after_some a moved e = rw (take_grab, back, moved, e)

  take_grab-Round :
      (call : Grab)
      → Proper max_bytes call
      → Progress i call
      → (g : Got) × (take_grab pf q mm p2pdma lbs bio i refs call ≡ some g) × Round lbs bio i refs g
  unfolding take_grab
  take_grab-Round bug proper progress = absurd proper
  take_grab-Round (error e) proper progress = (_, refl, refused (not_success e) refl refl refl refl)
  take_grab-Round (got offset pages size i') proper progress =
      let trim = bit_and size (lbs - 1) in
      let is_rest : trim ≡ size % lbs = bit_and-mask bits size in
      let at_end : At i size i' =
        subst (At i size) (sym progress.step)
          (At-iov_iter_advance i size progress.some_bytes progress.within counts) in
      let (i₁, back, here) =
        At-iov_iter_revert i i' size trim at_end (omega (arith, is_rest, rest_le size lbs))
          (omega (arith, is_rest, rest_lt size bits, small_blocks)) (omega arith) in
      let used = take (pages_of (offset + size)) pages in
      let all_pages : length used ≡ pages_of (offset + size) =
        omega (arith, length-take (pages_of (offset + size)) pages, progress.exact) in
      elim (Bool-cases (size - trim == 0)) [
        | inl nothing ↦
            let none_moved : size - trim ≡ 0 = ground (arith, nothing) in
            (
              record {
                ret = efault;
                bio = bio;
                iter = i₁;
                refs = refs + length pages - length used;
              },
              after_none offset pages size i' i₁ back nothing,
              refused refl refl
                  (At-stream i (size - trim) i₁ here ∙ ap (λ n. drop n (stream i)) none_moved)
                  (omega (arith, here.passed, none_moved))
                  (omega (arith, all_pages, progress.exact)),
            )
        | inr moved ↦
            let (a, e, ok, none_left, grown, plain') =
              add_pages-all pf q used offset (size - trim) bio 0 plain
                (omega (arith, proper, sized)) progress.in_page (omega (arith, all_pages)) in
            (
              record {
                ret = a.ret;
                bio = a.bio;
                iter = i₁;
                refs = refs + length pages - a.puts - length a.rest;
              },
              after_some offset pages size i' i₁ back a moved e
                  ∙ settle-nothing_left (length pages) i₁ a none_left,
              took (size - trim) (ground (arith, moved))
                  (ap (λ t. (size - t) % lbs) is_rest ∙ whole_blocks size lbs) ok grown plain'
                  (omega (arith, grown, proper, sized)) here,
            )
      ]

  -- One round of __bio_iov_iter_get_pages().
  pub get_pages-Round :
      (g : Got) × (get_pages pf q mm p2pdma lbs bio i refs ≡ some g) × Round lbs bio i refs g
  unfolding get_pages
  get_pages-Round =
      take_grab-Round (iov_iter_get_pages mm i max_bytes (bio.max_vecs - length bio.vecs) p2pdma)
        (iov_iter_get_pages-Proper mm max_bytes (bio.max_vecs - length bio.vecs) p2pdma i.source i
          refl backed ready)
        (iov_iter_get_pages-Progress mm max_bytes (bio.max_vecs - length bio.vecs) p2pdma i fair
          backed)
