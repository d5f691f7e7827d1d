-- ===== src/Bio/Pool/Rescue.antt =====
-- kernel_modification/bio.c: what punt_bios_to_rescuer() and the rescuer do to the lists.
use nvme_ioctl.Prelude.{
  ℕ, ◌+◌, ◌≡◌, sym, ap, ap₂, ◌∙◌, Bool, true, not, List, [], ◌∷◌, ◌++◌, if◌then◌else◌, append_assoc,
  append-nil, Bool-cases, inl, inr,
}
use nvme_ioctl.Bio.Pool.{Alloc, BioSet, sort_out, punt_bios_to_rescuer, bio_alloc_rescue}

-- The bios of a list that a test picks, in their order.
abbrev pub picked : (ℕ → Bool) → List ℕ → List ℕ
picked test [] = []
picked test (b ∷ r) = if test b then b ∷ picked test r else picked test r

module _ (bs : BioSet) where
  abbrev pub others : ℕ → Bool
  others b = not (bs.ours b)

  sort_out-picked :
      (l punt nopunt : List ℕ)
      → sort_out bs l punt nopunt ≡ (punt ++ picked bs.ours l, nopunt ++ picked others l)
  unfolding sort_out
  sort_out-picked [] punt nopunt =
      ap₂ (λ (x y : List ℕ). (x, y)) (sym (append-nil punt)) (sym (append-nil nopunt))
  sort_out-picked (b ∷ l) punt nopunt = elim (Bool-cases (bs.ours b)) [
    | inl mine ↦ rw mine (
        sort_out-picked l (punt ++ b ∷ []) nopunt
        ∙ ap (λ x. (x, nopunt ++ picked others l)) (append_assoc punt (b ∷ []) (picked bs.ours l)))
    | inr other ↦ rw other (
        sort_out-picked l punt (nopunt ++ b ∷ [])
        ∙ ap (λ x. (punt ++ picked bs.ours l, x)) (append_assoc nopunt (b ∷ []) (picked others l)))
  ]

  -- punt_bios_to_rescuer() of a set with a rescuer moves exactly the bios of the set from the two lists of
  -- the task to the end of the rescue list, those of the first list first, keeps the order in all three
  -- lists, and queues the rescuer once.
  pub punt_bios_to_rescuer_lem :
      (a : Alloc)
      → bs.has_rescuer ≡ true
      → punt_bios_to_rescuer bs a ≡ record a {
        waiting = picked others a.waiting;
        submitted = picked others a.submitted;
        rescue_list = a.rescue_list ++ (picked bs.ours a.waiting ++ picked bs.ours a.submitted);
        queued = a.queued + 1;
      }
  unfolding punt_bios_to_rescuer
  punt_bios_to_rescuer_lem a has = rw (
    has,
    sort_out-picked a.waiting [] [],
    sort_out-picked a.submitted (picked bs.ours a.waiting) [],
  )

-- The rescuer submits the whole list in its order and leaves it empty.
rescue_from : (l sent : List ℕ) → bio_alloc_rescue l sent ≡ (sent ++ l, [])
unfolding bio_alloc_rescue
rescue_from [] sent = ap (λ (x : List ℕ). (x, [])) (sym (append-nil sent))
rescue_from (b ∷ l) sent =
    rescue_from l (sent ++ b ∷ []) ∙ ap (λ (x : List ℕ). (x, [])) (append_assoc sent (b ∷ []) l)

pub bio_alloc_rescue_lem : (l : List ℕ) → bio_alloc_rescue l [] ≡ (l, [])
bio_alloc_rescue_lem l = rescue_from l []
