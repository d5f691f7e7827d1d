-- ===== src/Bio/Life/Chain.antt =====
-- kernel_modification/bio.c: bio_chain() and bio_endio(). Tracing and the accounting of the queue are
-- left out.
use nvme_ioctl.Prelude.{
  ℕ, zero, suc, ◌-◌, Bool, true, false, not, ◌&&◌, Option, none, some, ◌==◌, if◌then◌else◌, is_some,
  List, [], ◌∷◌, ◌||◌,
}
use nvme_ioctl.Bio.Life.{
  EndIo, no_end, chain_endio, calls, Node, World, set_node, bio_uninit, bio_put,
}

-- How a call ends: it returns, it reaches a BUG_ON() or a null pointer, or the fuel runs out.
pub data Outcome : Type 0 where
  done : World → Outcome
  bug : Outcome
  out_of_fuel : Outcome

abbrev pub is_none : EndIo → Bool
is_none no_end = true
is_none chain_endio = false
is_none (calls f) = false

-- bio_chain(); `inc_remaining` is the function of that name in bio.h, and `none` is the BUG_ON().
unfoldable pub bio_chain : (Node → Node) → ℕ → ℕ → World → Option World
bio_chain inc_remaining b parent w =
    let n = w.node b in
    let w' = set_node b (record n { private = some parent; end_io = chain_endio }) w in
    if is_some n.private || not (is_none n.end_io)
    then none
    else some (set_node parent (inc_remaining (w'.node parent)) w')

-- bio_remaining_done(): the result and the bio; `none` is the BUG_ON().
unfoldable pub bio_remaining_done : Node → Option (Bool × Node)
bio_remaining_done n =
    if not n.chain
    then some (true, n)
    else if n.remaining == 0
    then none
    else if n.remaining == 1
    then some (true, record n { remaining = 0; chain = false })
    else some (false, record n { remaining = n.remaining - 1 })

abbrev pub merge_status : ℕ → ℕ → ℕ
merge_status own status = if not (status == 0) && own == 0 then status else own

module _ (in_interrupt : Bool) where
  -- __bio_chain_endio() of a bio with this parent.
  unfoldable pub end_child : ℕ → ℕ → World → Option World
  unfolding bio_put
  end_child b parent w =
      let n = w.node parent in
      let status = merge_status n.status (w.node b).status in
      bio_put in_interrupt b (set_node parent (record n { status = status }) w)

  -- bio_endio(); `integrity_endio` says what bio_integrity_endio() returns for a bio.
  unfoldable pub bio_endio : (ℕ → Bool) → ℕ → ℕ → World → Outcome
  unfolding bio_remaining_done end_child bio_uninit
  bio_endio integrity_endio zero b w = out_of_fuel
  bio_endio integrity_endio (suc fuel) b w = elim (bio_remaining_done (w.node b)) [
    | none ↦ bug
    | some (ready, n) ↦
        let w₁ = set_node b n w in
        let w₂ = bio_uninit b w₁ in
        if not ready then done w₁ else if not (integrity_endio b) then done w₁ else elim n.end_io [
          | no_end ↦ done w₂
          | calls f ↦ done (record w₂ { ended = b ∷ w₂.ended })
          | chain_endio ↦ elim n.private [
            | none ↦ bug
            | some parent ↦ elim (end_child b parent w₁) [
              | none ↦ bug
              | some w₃ ↦ bio_endio integrity_endio fuel parent w₃
            ]
          ]
        ]
  ]

  -- Some ends, one after the other.
  unfoldable pub end_all : (ℕ → Bool) → ℕ → List ℕ → World → Outcome
  unfolding bio_endio
  end_all integrity_endio fuel [] w = done w
  end_all integrity_endio fuel (b ∷ bs) w = elim (bio_endio integrity_endio fuel b w) [
    | done w' ↦ end_all integrity_endio fuel bs w'
    | bug ↦ bug
    | out_of_fuel ↦ out_of_fuel
  ]
