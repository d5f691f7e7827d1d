-- ===== src/Bio/GetPages/Loop.antt =====
-- kernel_modification/bio.c: the loop of bio_iov_iter_get_pages() over a user's buffer.
use nvme_ioctl.Prelude.{
  ℕ, zero, suc, ◌+◌, ◌*◌, ◌/◌, ◌%◌, ◌^◌, ◌≡◌, refl, ap, ◌∙◌, ◌≤◌, ◌<◌, ◌⊎◌, inl, inr, Bool, true,
  false, not, ◌&&◌, some, [], arith, ℤ, pos, negsuc, is_zero, u32, ◌==◌, if◌then◌else◌, length,
  drop, drop-drop, Bool-cases, List-cases,
}
use native.Mathlib.Nat.{zero-mod, div-add-mod', add-mul-mod_self_right}
use nvme_ioctl.Bio.{Bio, Queue, Platform, bio_full}
use nvme_ioctl.Uio.{IovIter, max_rw_count}
use nvme_ioctl.Uio.Stream.{stream}
use nvme_ioctl.Uio.Pages.{Memory}
use nvme_ioctl.Uio.Grab.{Pins}
use nvme_ioctl.Uio.Position.{At-stream}
use nvme_ioctl.Uio.Steady.{Steady, Steady-Ready, At-Steady}
use nvme_ioctl.Bio.GetPages.{Got, get_pages, get_all}
use nvme_ioctl.Bio.GetPages.Round.{Round, refused, took, get_pages-Round}

whole_sum : (m n l : ℕ) → m % l ≡ 0 → n % l ≡ 0 → (m + n) % l ≡ 0
whole_sum m n l e f =
    ap (λ t. (m + t) % l) (let z : n ≡ n / l * l = omega (arith, div-add-mod' n l, f) in z)
    ∙ add-mul-mod_self_right m (n / l) l
    ∙ e

no_rest : (l : ℕ) → 0 % l ≡ 0
no_rest l = zero-mod l

ret-cases : (z : ℤ) → (z ≡ pos 0) ⊎ (is_zero z ≡ false)
ret-cases (pos zero) = inl refl
ret-cases (pos (suc n)) = inr (ground arith)
ret-cases (negsuc n) = inr refl

module _ (pf : Platform) (q : Queue) (mm : Memory) (p2pdma : Bool) (bits : ℕ) (fair : Pins mm)
    (small_blocks : 2 ^ bits ≤ max_rw_count) where
  abbrev goes_on : Got → Bool
  goes_on g = is_zero g.ret && (not (g.iter.count == 0) && not (bio_full g.bio 0))

  abbrev closed : Got → Got
  closed g = if length g.bio.vecs == 0 then g else record g { ret = pos 0 }

  -- What the loop has done: it has added whole blocks to the bio and moved the iterator behind them.
  pub record Filled (bio : Bio) (i : IovIter) (g : Got) : Type 0 where
    pub moved : ℕ
    pub whole : moved % 2 ^ bits ≡ 0
    pub size : g.bio.size ≡ bio.size + moved
    pub ahead : stream g.iter ≡ drop moved (stream i)
    pub count : g.iter.count + moved ≡ i.count
    pub code : (g.ret ≡ pos 0) ⊎ ((is_zero g.ret ≡ false) × (g.bio.vecs ≡ []))

  get_all-again :
      (fuel : ℕ) (bio : Bio) (i : IovIter) (refs : ℕ) (g : Got)
      → get_pages pf q mm p2pdma (2 ^ bits) bio i refs ≡ some g
      → goes_on g ≡ true
      → get_all pf q mm p2pdma (2 ^ bits) (suc fuel) bio i refs
        ≡ get_all pf q mm p2pdma (2 ^ bits) fuel g.bio g.iter g.refs
  unfolding get_all
  get_all-again fuel bio i refs g e t = rw (get_all, e, t)

  get_all-stop :
      (fuel : ℕ) (bio : Bio) (i : IovIter) (refs : ℕ) (g : Got)
      → get_pages pf q mm p2pdma (2 ^ bits) bio i refs ≡ some g
      → goes_on g ≡ false
      → get_all pf q mm p2pdma (2 ^ bits) (suc fuel) bio i refs ≡ some (closed g)
  unfolding get_all
  get_all-stop fuel bio i refs g e t = rw (get_all, e, t)

  closed_code :
      (g : Got)
      → ((closed g).ret ≡ pos 0) ⊎ ((is_zero (closed g).ret ≡ false) × ((closed g).bio.vecs ≡ []))
  closed_code g = elim (List-cases g.bio.vecs) [
    | inl e ↦ elim (ret-cases g.ret) [
      | inl z ↦ inl (ground (arith, e, z))
      | inr n ↦ inr (ground (arith, e, n), ground (arith, e, n))
    ]
    | inr (v, r, e) ↦ inl (ground (arith, e))
  ]

  closed_rest :
      (g : Got)
      → ((closed g).bio.size ≡ g.bio.size)
        × (stream (closed g).iter ≡ stream g.iter)
        × ((closed g).iter.count ≡ g.iter.count)
  closed_rest g = elim (Bool-cases (length g.bio.vecs == 0)) [
    | inl e ↦ rw e (refl, refl, refl)
    | inr e ↦ rw e (refl, refl, refl)
  ]

  -- The loop that stops here.
  last-Filled :
      (bio : Bio) (i : IovIter) (g : Got) (moved : ℕ)
      → moved % 2 ^ bits ≡ 0
      → g.bio.size ≡ bio.size + moved
      → stream g.iter ≡ drop moved (stream i)
      → g.iter.count + moved ≡ i.count
      → Filled bio i (closed g)
  last-Filled bio i g moved whole size ahead count =
      let (s, a, c) = closed_rest g in
      record {
        moved = moved;
        whole = whole;
        size = s ∙ size;
        ahead = a ∙ ahead;
        count = omega (arith, c, count);
        code = closed_code g;
      }

  keeps_filling :
      (bio : Bio) (i : IovIter) (g h : Got) (moved : ℕ)
      → moved % 2 ^ bits ≡ 0
      → g.bio.size ≡ bio.size + moved
      → stream g.iter ≡ drop moved (stream i)
      → g.iter.count + moved ≡ i.count
      → Filled g.bio g.iter h
      → Filled bio i h
  keeps_filling bio i g h moved whole size ahead count f = record {
    moved = moved + f.moved;
    whole = whole_sum moved f.moved (2 ^ bits) whole f.whole;
    size = omega (arith, f.size, size);
    ahead =
        f.ahead
        ∙ ap (drop f.moved) ahead
        ∙ drop-drop moved f.moved (moved + f.moved) (stream i) refl;
    count = omega (arith, f.count, count);
    code = f.code;
  }

  abbrev Ends : ℕ → Bio → IovIter → ℕ → Type 0
  Ends fuel bio i refs =
      (g : Got) × (get_all pf q mm p2pdma (2 ^ bits) fuel bio i refs ≡ some g) × Filled bio i g

  after_first :
      (fuel : ℕ) (bio : Bio) (i : IovIter) (refs : ℕ) (g : Got)
      → ((bio' : Bio) (i' : IovIter) (refs' : ℕ)
          → i'.count < fuel
          → bio'.zone_append ≡ false
          → bio'.size < u32
          → Steady i'
          → Ends fuel bio' i' refs')
      → i.count < suc fuel
      → Steady i
      → get_pages pf q mm p2pdma (2 ^ bits) bio i refs ≡ some g
      → Round (2 ^ bits) bio i refs g
      → Ends (suc fuel) bio i refs
  after_first fuel bio i refs g ih enough steady e (refused failed same ahead count refs_same) = (
    closed g,
    get_all-stop fuel bio i refs g e
        (ap (λ b. b && (not (g.iter.count == 0) && not (bio_full g.bio 0))) failed),
    last-Filled bio i g 0 (no_rest (2 ^ bits)) (omega (arith, ap (λ (b : Bio). b.size) same)) ahead
        (omega (arith, count)),
  )
  after_first fuel bio i refs g ih enough steady e
        (took moved some_bytes whole ok grown plain sized place) =
      elim (Bool-cases (goes_on g)) [
        | inl on ↦
            let (h, e', f) =
              ih g.bio g.iter g.refs (omega (arith, place.passed, some_bytes, enough)) plain sized
                (At-Steady i moved g.iter place steady) in
            (
              h,
              get_all-again fuel bio i refs g e on ∙ e',
              keeps_filling bio i g h moved whole grown (At-stream i moved g.iter place)
                  place.passed f,
            )
        | inr off ↦ (
          closed g,
          get_all-stop fuel bio i refs g e off,
          last-Filled bio i g moved whole grown (At-stream i moved g.iter place) place.passed,
        )
      ]

  -- bio_iov_iter_get_pages() of a user's buffer ends, with more fuel than there are bytes, and meets no
  -- BUG(). It has added whole blocks to the bio, as many bytes as it has moved the iterator, which has
  -- the others still ahead, and returns 0, or an error with a bio that has no vector. The blocks are no
  -- larger than MAX_RW_COUNT, the bio is no zone append, the segments hold the bytes of the iterator,
  -- and get_user_pages_fast() pins no more than it is asked for.
  pub get_all-Filled :
      (fuel : ℕ) (bio : Bio) (i : IovIter) (refs : ℕ)
      → i.count < fuel
      → bio.zone_append ≡ false
      → bio.size < u32
      → Steady i
      → (g : Got) × (get_all pf q mm p2pdma (2 ^ bits) fuel bio i refs ≡ some g) × Filled bio i g
  get_all-Filled zero bio i refs enough plain sized steady = absurd (omega arith)
  get_all-Filled (suc fuel) bio i refs enough plain sized steady =
      let (ready, backed, counts) = Steady-Ready i steady in
      let (g, e, r) =
        get_pages-Round pf q mm p2pdma bits fair small_blocks bio i refs plain sized backed ready
          counts in
      after_first fuel bio i refs g (get_all-Filled fuel) enough steady e r
