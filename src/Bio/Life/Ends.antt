-- ===== src/Bio/Life/Ends.antt =====
-- kernel_modification/bio.c: the end of a bio that others are chained to.
use nvme_ioctl.Prelude.{
  ℕ, suc, ◌+◌, ◌-◌, ◌≡◌, refl, ap, ◌∙◌, ◌≤◌, Bool, true, false, not, some, List, [], ◌∷◌, arith,
  ◌==◌, if◌then◌else◌, length, All, Bool-cases, inl, inr, ◌⊎◌,
}
use nvme_ioctl.Bio.Life.{
  chain_endio, calls, Node, World, set_node, bio_uninit, bio_free, give_back, bio_put,
  bio_put_percpu_cache,
}
use nvme_ioctl.Bio.Life.Chain.{
  done, bug, out_of_fuel, bio_remaining_done, merge_status, end_child, bio_endio, end_all,
}

-- The fields that no other bio's end changes.
pub record SameLife (m n : Node) : Type 0 where
  pub chain : m.chain ≡ n.chain
  pub reffed : m.reffed ≡ n.reffed
  pub remaining : m.remaining ≡ n.remaining
  pub status : m.status ≡ n.status
  pub end_io : m.end_io ≡ n.end_io
  pub private : m.private ≡ n.private

-- The status, if it is an error, or else the other one.
abbrev pub or_error : ℕ → ℕ → ℕ
or_error status other = if status == 0 then other else status

merge_status-or_error : (status other : ℕ) → merge_status status other ≡ or_error status other
merge_status-or_error status other = ground arith

some_left : (n k : ℕ) → (suc n + k == 0) ≡ false
some_left n k = ground arith

give_back-SameLife :
    (irq : Bool) (b x : ℕ) (w : World) → SameLife ((give_back irq b w).node x) (w.node x)
unfolding give_back bio_put_percpu_cache bio_free bio_uninit
give_back-SameLife irq b x w = ground arith

give_back-ended : (irq : Bool) (b : ℕ) (w : World) → (give_back irq b w).ended ≡ w.ended
unfolding give_back bio_put_percpu_cache bio_free bio_uninit
give_back-ended irq b w = ground arith

module _ (irq : Bool) (ok : ℕ → Bool) (plain : (b : ℕ) → ok b ≡ true) (p f : ℕ) where
  -- A bio whose own function is to be called once `k` bios have ended, itself one of them.
  pub record Awaits (k : ℕ) (w : World) : Type 0 where
    pub chain : (w.node p).chain ≡ true
    pub remaining : (w.node p).remaining ≡ k
    pub end_io : (w.node p).end_io ≡ calls f

  -- A bio that is chained to it, with no other reference and none chained to itself.
  pub record Child (c : ℕ) (w : World) : Type 0 where
    pub other : (c == p) ≡ false
    pub chain : (w.node c).chain ≡ false
    pub reffed : (w.node c).reffed ≡ false
    pub end_io : (w.node c).end_io ≡ chain_endio
    pub private : (w.node c).private ≡ some p

  -- One of them has ended, and `k` are left.
  pub record Ended (status k : ℕ) (w w' : World) : Type 0 where
    pub remaining : (w'.node p).remaining ≡ k
    pub chain : (w'.node p).chain ≡ not (k == 0)
    pub end_io : (w'.node p).end_io ≡ calls f
    pub status_lem : (w'.node p).status ≡ status
    pub ended : w'.ended ≡ (if k == 0 then p ∷ w.ended else w.ended)
    pub others : (x : ℕ) → (x == p) ≡ false → SameLife (w'.node x) (w.node x)

  -- The ways of one round of bio_endio().
  endio_waits :
      (fuel b : ℕ) (n : Node) (w : World)
      → bio_remaining_done (w.node b) ≡ some (false, n)
      → bio_endio irq ok (suc fuel) b w ≡ done (set_node b n w)
  unfolding bio_endio
  endio_waits fuel b n w e = ground (arith, e)

  abbrev called : ℕ → World → World
  called b w = record w { ended = b ∷ w.ended }

  endio_calls :
      (fuel b : ℕ) (n : Node) (w : World)
      → bio_remaining_done (w.node b) ≡ some (true, n)
      → n.end_io ≡ calls f
      → bio_endio irq ok (suc fuel) b w ≡ done (called b (bio_uninit b (set_node b n w)))
  unfolding bio_endio
  endio_calls fuel b n w e c = ground (arith, e, c, plain b)

  abbrev joined : ℕ → Node → World → World
  joined b n w =
      let w₁ = set_node b n w in
      let parent = w₁.node p in
      set_node p (record parent { status = merge_status parent.status n.status }) w₁

  endio_goes_up :
      (fuel b : ℕ) (n : Node) (w : World)
      → bio_remaining_done (w.node b) ≡ some (true, n)
      → (b == p) ≡ false
      → n.end_io ≡ chain_endio
      → n.private ≡ some p
      → n.reffed ≡ false
      → bio_endio irq ok (suc fuel) b w ≡ bio_endio irq ok fuel p (give_back irq b (joined b n w))
  unfolding bio_endio end_child bio_put
  endio_goes_up fuel b n w e other c par ref = ground (arith, e, other, c, par, ref, plain b)

  remaining_done-chained :
      (n : Node) (k : ℕ)
      → n.chain ≡ true
      → n.remaining ≡ suc k
      → bio_remaining_done n ≡ some (k == 0, record n { remaining = k; chain = not (k == 0) })
  unfolding bio_remaining_done
  remaining_done-chained n k c r = ground (arith, c, r)

  remaining_done-alone : (n : Node) → n.chain ≡ false → bio_remaining_done n ≡ some (true, n)
  unfolding bio_remaining_done
  remaining_done-alone n c = ground (arith, c)

  own-Ended :
      (fuel k : ℕ) (w : World)
      → Awaits (suc k) w
      → (w' : World) × (bio_endio irq ok (suc fuel) p w ≡ done w') × Ended (w.node p).status k w w'
  unfolding bio_uninit
  own-Ended fuel k w h =
      let n = record (w.node p) { remaining = k; chain = not (k == 0) } in
      let e = remaining_done-chained (w.node p) k h.chain h.remaining in
      elim (Bool-cases (k == 0)) [
        | inl last ↦ (
          called p (bio_uninit p (set_node p n w)),
          endio_calls fuel p n w (e ∙ ap (λ b. some (b, n)) last) h.end_io,
          ground (arith, last, h.end_io),
        )
        | inr more ↦ (
          set_node p n w,
          endio_waits fuel p n w (e ∙ ap (λ b. some (b, n)) more),
          ground (arith, more, h.end_io),
        )
      ]

  joined-SameLife :
      (c x : ℕ) (w : World)
      → (x == p) ≡ false
      → SameLife ((joined c (w.node c) w).node x) (w.node x)
  joined-SameLife c x w other = ground (arith, other)

  joined-Awaits :
      (k c : ℕ) (w : World) → (c == p) ≡ false → Awaits k w → Awaits k (joined c (w.node c) w)
  joined-Awaits k c w other h = ground (arith, other, h.chain, h.remaining, h.end_io)

  joined-status :
      (c : ℕ) (w : World)
      → (c == p) ≡ false
      → ((joined c (w.node c) w).node p).status ≡ merge_status (w.node p).status (w.node c).status
  joined-status c w other = ground (arith, other)

  SameLife-Awaits :
      (k : ℕ) (w w' : World) → SameLife (w'.node p) (w.node p) → Awaits k w → Awaits k w'
  SameLife-Awaits k w w' s h = record {
    chain = s.chain ∙ h.chain;
    remaining = s.remaining ∙ h.remaining;
    end_io = s.end_io ∙ h.end_io;
  }

  SameLife-trans : {l m n : Node} → SameLife l m → SameLife m n → SameLife l n
  SameLife-trans s t = record {
    chain = s.chain ∙ t.chain;
    reffed = s.reffed ∙ t.reffed;
    remaining = s.remaining ∙ t.remaining;
    status = s.status ∙ t.status;
    end_io = s.end_io ∙ t.end_io;
    private = s.private ∙ t.private;
  }

  SameLife-Child : (c : ℕ) (w w' : World) → SameLife (w'.node c) (w.node c) → Child c w → Child c w'
  SameLife-Child c w w' s h = record {
    other = h.other;
    chain = s.chain ∙ h.chain;
    reffed = s.reffed ∙ h.reffed;
    end_io = s.end_io ∙ h.end_io;
    private = s.private ∙ h.private;
  }

  bio_endio-Ended :
      (fuel k c : ℕ) (w : World)
      → Child c w
      → Awaits (suc k) w
      → (w' : World) × (bio_endio irq ok (suc (suc fuel)) c w ≡ done w')
        × Ended (or_error (w.node p).status (w.node c).status) k w w'
  bio_endio-Ended fuel k c w ch h =
      let j = joined c (w.node c) w in
      let w₃ = give_back irq c j in
      let at_p = give_back-SameLife irq c p j in
      let pending = SameLife-Awaits (suc k) j w₃ at_p (joined-Awaits (suc k) c w ch.other h) in
      let (w', e, x) = own-Ended fuel k w₃ pending in
      let up =
        endio_goes_up (suc fuel) c (w.node c) w (remaining_done-alone (w.node c) ch.chain) ch.other
          ch.end_io ch.private ch.reffed in
      (
        w',
        up ∙ e,
        record {
          remaining = x.remaining;
          chain = x.chain;
          end_io = x.end_io;
          status_lem =
              x.status_lem
              ∙ at_p.status
              ∙ joined-status c w ch.other
              ∙ merge_status-or_error (w.node p).status (w.node c).status;
          ended = x.ended ∙ ap (λ l. if k == 0 then p ∷ l else l) (give_back-ended irq c j);
          others = λ y o.
              SameLife-trans (x.others y o)
                (SameLife-trans (give_back-SameLife irq c y j) (joined-SameLife c y w o));
        },
      )

  -- The bio itself, or one that is chained to it.
  abbrev pub Member : World → ℕ → Type 0
  Member w b = (b ≡ p) ⊎ Child b w

  -- The status after some ends: the bio's own, or the first error of those that end.
  abbrev pub first_error : (ℕ → Node) → ℕ → List ℕ → ℕ
  first_error node status [] = status
  first_error node status (b ∷ bs) =
      first_error node (if b == p then status else or_error status (node b).status) bs

  step-Ended :
      (fuel k b : ℕ) (w : World)
      → Member w b
      → Awaits (suc k) w
      → (w' : World) × (bio_endio irq ok (suc (suc fuel)) b w ≡ done w')
        × Ended
            (if b == p then (w.node p).status else or_error (w.node p).status (w.node b).status)
            k
            w
            w'
  step-Ended fuel k b w (inl e) h =
      let (w', r, x) = own-Ended (suc fuel) k w h in
      let own : (b == p) ≡ true = ground (arith, e) in
      (w', ap (λ c. bio_endio irq ok (suc (suc fuel)) c w) e ∙ r, rw own x)
  step-Ended fuel k b w (inr c) h = rw (c.other) (bio_endio-Ended fuel k b w c h)

  abbrev Others : World → World → Type 0
  Others w w' = (x : ℕ) → (x == p) ≡ false → SameLife (w'.node x) (w.node x)

  Members-after :
      (w w' : World) → Others w w' → (bs : List ℕ) → All (Member w) bs → All (Member w') bs
  Members-after w w' same [] h = tt
  Members-after w w' same (b ∷ bs) (inl e, r) = (inl e, Members-after w w' same bs r)
  Members-after w w' same (b ∷ bs) (inr c, r) =
      (inr (SameLife-Child b w w' (same b c.other) c), Members-after w w' same bs r)

  first_error-after :
      (w w' : World)
      → Others w w'
      → (bs : List ℕ) (status : ℕ) → first_error w'.node status bs ≡ first_error w.node status bs
  first_error-after w w' same [] status = refl
  first_error-after w w' same (b ∷ bs) status = elim (Bool-cases (b == p)) [
    | inl own ↦ rw own (first_error-after w w' same bs status)
    | inr other ↦ rw other (
        first_error-after w w' same bs (or_error status (w'.node b).status)
        ∙ ap (λ s. first_error w.node (or_error status s) bs) (same b other).status)
  ]

  end_all-step :
      (fuel b : ℕ) (bs : List ℕ) (w w' : World)
      → bio_endio irq ok fuel b w ≡ done w'
      → end_all irq ok fuel (b ∷ bs) w ≡ end_all irq ok fuel bs w'
  unfolding end_all
  end_all-step fuel b bs w w' e =
      ap (λ t. elim t [ done v ↦ end_all irq ok fuel bs v | bug ↦ bug | out_of_fuel ↦ out_of_fuel ])
        e

  ends_in_turn :
      (fuel b k : ℕ) (bs : List ℕ) (w : World)
      → All (Member w) (b ∷ bs)
      → Awaits (suc (length bs) + k) w
      → (w' : World) × (end_all irq ok (suc (suc fuel)) (b ∷ bs) w ≡ done w')
        × Ended (first_error w.node (w.node p).status (b ∷ bs)) k w w'
  unfolding end_all
  ends_in_turn fuel b k [] w members h =
      let h' : Awaits (suc k) w = record {
        chain = h.chain;
        remaining = omega (arith, h.remaining);
        end_io = h.end_io;
      } in
      let (w', e, x) = step-Ended fuel k b w members.0 h' in
      (w', end_all-step (suc (suc fuel)) b [] w w' e, x)
  ends_in_turn fuel b k (c ∷ bs) w members h =
      let left = suc (length bs) + k in
      let h' : Awaits (suc left) w = record {
        chain = h.chain;
        remaining = omega (arith, h.remaining);
        end_io = h.end_io;
      } in
      let (w₁, e, x) = step-Ended fuel left b w members.0 h' in
      let waits : (left == 0) ≡ false = some_left (length bs) k in
      let h₁ : Awaits left w₁ = record {
        chain = x.chain ∙ ap not waits;
        remaining = x.remaining;
        end_io = x.end_io;
      } in
      let (w', e', y) =
        ends_in_turn fuel c k bs w₁ (Members-after w w₁ x.others (c ∷ bs) members.1) h₁ in
      let quiet : w₁.ended ≡ w.ended =
        x.ended ∙ ap (λ t. if t then p ∷ w.ended else w.ended) waits in
      (
        w',
        end_all-step (suc (suc fuel)) b (c ∷ bs) w w₁ e ∙ e',
        record {
          remaining = y.remaining;
          chain = y.chain;
          end_io = y.end_io;
          status_lem =
              y.status_lem
              ∙ first_error-after w w₁ x.others (c ∷ bs) (w₁.node p).status
              ∙ ap (λ s. first_error w.node s (c ∷ bs)) x.status_lem;
          ended = y.ended ∙ ap (λ l. if k == 0 then p ∷ l else l) quiet;
          others = λ z o. SameLife-trans (y.others z o) (x.others z o);
        },
      )

  -- A bio that waits for the end of `k` bios, itself and those that are chained to it: after all of
  -- them have ended, in whatever order, its own bi_end_io has been called once, and after fewer it has
  -- not been called; its status is its own if that is an error, or else that of the first of them to
  -- end with one. No BUG_ON() is met, and two rounds of bio_endio() are enough for each. The chained bios have no
  -- reference but their own and none chained to themselves, and no integrity data is verified.
  pub end_all-Ended :
      (b : ℕ) (bs : List ℕ) (k : ℕ) (w : World)
      → All (Member w) (b ∷ bs)
      → Awaits k w
      → suc (length bs) ≤ k
      → (w' : World) × (end_all irq ok 2 (b ∷ bs) w ≡ done w')
        × (w'.ended ≡ (if k == suc (length bs) then p ∷ w.ended else w.ended))
        × ((w'.node p).status ≡ first_error w.node (w.node p).status (b ∷ bs))
  end_all-Ended b bs k w members h le =
      let left = k - suc (length bs) in
      let h' : Awaits (suc (length bs) + left) w = record {
        chain = h.chain;
        remaining = omega (arith, h.remaining, le);
        end_io = h.end_io;
      } in
      let (w', e, x) = ends_in_turn 0 b left bs w members h' in
      (w', e, ground (arith, x.ended, le), x.status_lem)
