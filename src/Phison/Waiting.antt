-- ===== src/Phison/Waiting.antt =====
-- phison_version/nvme_transfer/nvme-aio.cpp: the loops that wait for events.
use nvme_ioctl.Prelude.{
  ℕ, zero, suc, ◌+◌, ◌≡◌, refl, sym, ◌∙◌, ap, ap₂, ◌≤◌, ◌<◌, Bool, true, false, ◌||◌, none, some,
  List, [], ◌∷◌, ℤ, pos, arith, inl, inr, Bool-cases, List-cases,
}
use nvme_ioctl.Phison.Aio.{
  IoType, write, read, wait, decrement, positive, LibAio, AioAsyncIo, finish_events, get_event,
  wait_while, synchronize, sync_write_events,
}

-- The operations of a kind among some.
abbrev pub of_type : IoType → List IoType → ℕ
of_type t [] = 0
of_type write (write ∷ es) = suc (of_type write es)
of_type write (read ∷ es) = of_type write es
of_type read (write ∷ es) = of_type read es
of_type read (read ∷ es) = suc (of_type read es)

some_of_type :
    (es : List IoType)
    → ((e : IoType) × (l : List IoType) × (es ≡ e ∷ l))
    → 0 < of_type write es + of_type read es
some_of_type [] (e, l, q) = absurd (ground arith)
some_of_type (write ∷ es) s = omega arith
some_of_type (read ∷ es) s = omega arith

-- The context behind `k` calls that wait for one event and take up to `hi`.
abbrev pub waited : (lib : LibAio) → ℕ → ℕ → lib.Context → lib.Context
waited lib hi zero c = c
waited lib hi (suc k) c = waited lib hi k (lib.io_getevents 1 hi c).1

-- libaio: `pending` counts the operations that are accepted and not delivered yet. Events come from
-- those, each once; while an operation is pending, one of the calls to come that take an event or more
-- brings one, however often they time out before.
pub record Delivers (lib : LibAio) : Type 0 where
  pub pending : IoType → lib.Context → ℕ
  pub events_lem :
      (lo hi : ℕ) (c : lib.Context) (t : IoType)
      → pending t c
        ≡ of_type t (lib.io_getevents lo hi c).0 + pending t (lib.io_getevents lo hi c).1
  pub arrives :
      (hi : ℕ) (c : lib.Context)
      → 0 < hi
      → 0 < pending write c + pending read c
      → (k : ℕ) × (e : IoType) × (l : List IoType) × ((lib.io_getevents 1 hi (waited lib hi k c)).0
          ≡ e ∷ l)

-- The counters say what is pending.
pub record Counts {lib : LibAio} (d : Delivers lib) (a : AioAsyncIo lib.Context) : Type 0 where
  pub write_lem : a.n_write_events ≡ pos (d.pending write a.io_ctx)
  pub read_lem : a.n_read_events ≡ pos (d.pending read a.io_ctx)

fewer : {x : ℤ} (k w : ℕ) → x ≡ pos (suc k + w) → decrement x ≡ pos (k + w)
unfolding decrement
fewer {x} k w e = ap decrement (e ∙ ap pos (let s : suc k + w ≡ suc (k + w) = omega arith in s))

finish_lem :
    {Context : Type 0} (es : List IoType) (a : AioAsyncIo Context) (w r : ℕ)
    → a.n_write_events ≡ pos (of_type write es + w)
    → a.n_read_events ≡ pos (of_type read es + r)
    → ((finish_events es a).n_write_events ≡ pos w)
      × (((finish_events es a).n_read_events ≡ pos r)
          × (((finish_events es a).io_ctx ≡ a.io_ctx) × ((finish_events es a).max_nr ≡ a.max_nr)))
unfolding finish_events
finish_lem [] a w r e f = (e ∙ ap pos (omega arith), (f ∙ ap pos (omega arith), (refl, refl)))
finish_lem (write ∷ es) a w r e f =
    finish_lem es
      (record a { n_write_events = decrement a.n_write_events; called = write ∷ a.called }) w r
      (fewer (of_type write es) w e) f
finish_lem (read ∷ es) a w r e f =
    finish_lem es (record a { n_read_events = decrement a.n_read_events; called = read ∷ a.called })
      w r e (fewer (of_type read es) r f)

pending_some : (w r : ℕ) → (positive (pos w) || positive (pos r)) ≡ true → 0 < w + r
unfolding positive
pending_some zero zero h = absurd (ground arith)
pending_some (suc w) r h = omega arith
pending_some zero (suc r) h = omega arith

above : (k w : ℕ) → positive (pos (suc k + w)) ≡ true
unfolding positive
above k w = ap (λ n. positive (pos n)) (let s : suc k + w ≡ suc (k + w) = omega arith in s)

pending_none : (w r : ℕ) → (positive (pos w) || positive (pos r)) ≡ false → (w ≡ 0) × (r ≡ 0)
unfolding positive
pending_none zero zero h = (refl, refl)
pending_none (suc w) r h = absurd (ground arith)
pending_none zero (suc r) h = absurd (ground arith)

module _ {lib : LibAio} (d : Delivers lib) where
  -- The counters go on telling what is pending.
  get_event-Counts : (a : AioAsyncIo lib.Context) → Counts d a → Counts d (get_event lib wait a)
  unfolding get_event
  get_event-Counts a c =
      let es = (lib.io_getevents 1 a.max_nr a.io_ctx).0 in
      let ctx = (lib.io_getevents 1 a.max_nr a.io_ctx).1 in
      let a' : AioAsyncIo lib.Context = record a { io_ctx = ctx } in
      let done =
        finish_lem es a' (d.pending write ctx) (d.pending read ctx)
          (c.write_lem ∙ ap pos (d.events_lem 1 a.max_nr a.io_ctx write))
          (c.read_lem ∙ ap pos (d.events_lem 1 a.max_nr a.io_ctx read)) in
      record {
        write_lem = done.0 ∙ ap (λ x. pos (d.pending write x)) (sym done.1.1.0);
        read_lem = done.1.0 ∙ ap (λ x. pos (d.pending read x)) (sym done.1.1.0);
      }

  get_event-keeps :
      (a : AioAsyncIo lib.Context)
      → Counts d a
      → ((get_event lib wait a).io_ctx ≡ (lib.io_getevents 1 a.max_nr a.io_ctx).1)
        × ((get_event lib wait a).max_nr ≡ a.max_nr)
  unfolding get_event
  get_event-keeps a c =
      let ctx = (lib.io_getevents 1 a.max_nr a.io_ctx).1 in
      let done =
        finish_lem (lib.io_getevents 1 a.max_nr a.io_ctx).0 (record a { io_ctx = ctx })
          (d.pending write ctx) (d.pending read ctx)
          (c.write_lem ∙ ap pos (d.events_lem 1 a.max_nr a.io_ctx write))
          (c.read_lem ∙ ap pos (d.events_lem 1 a.max_nr a.io_ctx read)) in
      done.1.1

  -- The operations that are pending.
  abbrev total : lib.Context → ℕ
  total c = d.pending write c + d.pending read c

  -- Over a test that fails where nothing is pending.
  module _ (test : AioAsyncIo lib.Context → Bool)
      (needs : (a : AioAsyncIo lib.Context) → Counts d a → test a ≡ true → 0 < total a.io_ctx) where
    record Ends (a : AioAsyncIo lib.Context) : Type 0 where
      fuel : ℕ
      last : AioAsyncIo lib.Context
      ends : wait_while lib test fuel a ≡ some last
      stops : test last ≡ false
      counts : Counts d last

    Ends-now : (a : AioAsyncIo lib.Context) → Counts d a → test a ≡ false → Ends a
    unfolding wait_while
    Ends-now a c t = record { fuel = 0; last = a; ends = ground (arith, t); stops = t; counts = c }

    Ends-later : (a : AioAsyncIo lib.Context) → test a ≡ true → Ends (get_event lib wait a) → Ends a
    unfolding wait_while
    Ends-later a t r = record {
      fuel = suc r.fuel;
      last = r.last;
      ends = ground (arith, t, r.ends);
      stops = r.stops;
      counts = r.counts;
    }

    -- Calls that bring nothing, until one brings an event.
    until_event :
        (n : ℕ)
        → ((a : AioAsyncIo lib.Context) → Counts d a → 0 < a.max_nr → total a.io_ctx ≤ n → Ends a)
        → (k : ℕ) (a : AioAsyncIo lib.Context) → Counts d a
        → 0 < a.max_nr
        → total a.io_ctx ≤ suc n
        → (e : IoType) (l : List IoType)
        → ((lib.io_getevents 1 a.max_nr (waited lib a.max_nr k a.io_ctx)).0 ≡ e ∷ l)
        → test a ≡ true
        → Ends a
    until_event n less zero a c some_nr few e l comes t =
        let hi = a.max_nr in
        let next = get_event lib wait a in
        let es = (lib.io_getevents 1 hi a.io_ctx).0 in
        let c' = get_event-Counts a c in
        let keeps = get_event-keeps a c in
        let same : total next.io_ctx ≡ total (lib.io_getevents 1 hi a.io_ctx).1 =
          ap total keeps.0 in
        let room : 0 < next.max_nr = omega (arith, some_nr, keeps.1) in
        let w = d.events_lem 1 hi a.io_ctx write in
        let r = d.events_lem 1 hi a.io_ctx read in
        elim (List-cases es) [
          | inr some_came ↦
              Ends-later a t
                (less next c' room (omega (arith, few, same, w, r, some_of_type es some_came)))
          | inl none_came ↦ absurd (ground (arith, none_came, comes))
        ]
    until_event n less (suc k) a c some_nr few e l comes t =
        let hi = a.max_nr in
        let next = get_event lib wait a in
        let es = (lib.io_getevents 1 hi a.io_ctx).0 in
        let c' = get_event-Counts a c in
        let keeps = get_event-keeps a c in
        let same : total next.io_ctx ≡ total (lib.io_getevents 1 hi a.io_ctx).1 =
          ap total keeps.0 in
        let room : 0 < next.max_nr = omega (arith, some_nr, keeps.1) in
        let w = d.events_lem 1 hi a.io_ctx write in
        let r = d.events_lem 1 hi a.io_ctx read in
        elim (List-cases es) [
          | inr some_came ↦
              Ends-later a t
                (less next c' room (omega (arith, few, same, w, r, some_of_type es some_came)))
          | inl none_came ↦ Ends-later a t (elim (Bool-cases (test next)) [
            | inr stops ↦ Ends-now next c' stops
            | inl goes_on ↦
                until_event n less k next c' room
                  (omega (
                    arith,
                    few,
                    same,
                    w,
                    r,
                    ap (of_type write) none_came,
                    ap (of_type read) none_came,
                  ))
                  e l
                  (ap₂ (λ m ctx. (lib.io_getevents 1 m (waited lib m k ctx)).0) keeps.1 keeps.0
                    ∙ comes)
                  goes_on
          ])
        ]

    pending-Ends :
        (n : ℕ) (a : AioAsyncIo lib.Context)
        → Counts d a
        → 0 < a.max_nr
        → total a.io_ctx ≤ n
        → Ends a
    pending-Ends zero a c some_nr few = elim (Bool-cases (test a)) [
      | inl t ↦ absurd (omega (arith, needs a c t, few))
      | inr t ↦ Ends-now a c t
    ]
    pending-Ends (suc n) a c some_nr few = elim (Bool-cases (test a)) [
      | inl t ↦
          let (k, e, l, comes) = d.arrives a.max_nr a.io_ctx some_nr (needs a c t) in
          until_event n (pending-Ends n) k a c some_nr few e l comes t
      | inr t ↦ Ends-now a c t
    ]

  needed :
      (a : AioAsyncIo lib.Context)
      → Counts d a
      → (positive a.n_write_events || positive a.n_read_events) ≡ true
      → 0 < d.pending write a.io_ctx + d.pending read a.io_ctx
  unfolding positive
  needed a c t =
      pending_some (d.pending write a.io_ctx) (d.pending read a.io_ctx)
        (ap₂ (λ x y. positive x || positive y) (sym c.write_lem) (sym c.read_lem) ∙ t)

  -- On a libaio that delivers what it has accepted, where the calls take one event or more (`n_entries`
  -- of the constructor is not 0) and the counters say what is pending: synchronize() ends, and then both
  -- counters are 0.
  pub synchronize-ends :
      (a : AioAsyncIo lib.Context)
      → Counts d a
      → 0 < a.max_nr
      → (fuel : ℕ) × ((a' : AioAsyncIo lib.Context) × ((synchronize lib fuel a ≡ some a')
            × ((a'.n_write_events ≡ pos 0) × (a'.n_read_events ≡ pos 0))))
  synchronize-ends a c some_nr =
      let r =
        pending-Ends (λ x. positive x.n_write_events || positive x.n_read_events) needed
          (total a.io_ctx) a c some_nr (omega arith) in
      let none_left = pending_none (d.pending write r.last.io_ctx) (d.pending read r.last.io_ctx) (
        ap₂ (λ x y. positive x || positive y) (sym r.counts.write_lem) (sym r.counts.read_lem)
        ∙ r.stops) in
      (
        r.fuel,
        (
          r.last,
          (
            r.ends,
            (r.counts.write_lem ∙ ap pos none_left.0, r.counts.read_lem ∙ ap pos none_left.1),
          ),
        ),
      )

  finish_write :
      (es : List IoType) (a : AioAsyncIo lib.Context) (w : ℕ)
      → a.n_write_events ≡ pos (of_type write es + w)
      → ((finish_events es a).n_write_events ≡ pos w) × ((finish_events es a).io_ctx ≡ a.io_ctx)
  unfolding finish_events
  finish_write [] a w e = (e ∙ ap pos (omega arith), refl)
  finish_write (write ∷ es) a w e =
      finish_write es
        (record a { n_write_events = decrement a.n_write_events; called = write ∷ a.called }) w
        (fewer (of_type write es) w e)
  finish_write (read ∷ es) a w e =
      finish_write es
        (record a { n_read_events = decrement a.n_read_events; called = read ∷ a.called }) w e

  -- Where the counter of the writes is above what libaio has of them, as after an io_submit() that
  -- failed, sync_write_events() does not end: no number of rounds is enough.
  pub sync_write_events-stuck :
      (fuel k : ℕ) (a : AioAsyncIo lib.Context)
      → a.n_write_events ≡ pos (suc k + d.pending write a.io_ctx)
      → sync_write_events lib fuel a ≡ none
  unfolding wait_while get_event
  sync_write_events-stuck zero k a e =
      ground (arith, ap positive e, above k (d.pending write a.io_ctx))
  sync_write_events-stuck (suc fuel) k a e =
      let es = (lib.io_getevents 1 a.max_nr a.io_ctx).0 in
      let ctx = (lib.io_getevents 1 a.max_nr a.io_ctx).1 in
      let a' : AioAsyncIo lib.Context = record a { io_ctx = ctx } in
      let came = d.events_lem 1 a.max_nr a.io_ctx write in
      let left = finish_write es a' (suc k + d.pending write ctx) (
        e
        ∙ ap pos (
            let s : suc k + d.pending write a.io_ctx
                ≡ of_type write es + (suc k + d.pending write ctx) =
              omega (arith, came) in
            s)) in
      let rest =
        sync_write_events-stuck fuel k (finish_events es a')
          (left.0 ∙ ap (λ x. pos (suc k + d.pending write x)) (sym left.1)) in
      ground (arith, ap positive e, above k (d.pending write a.io_ctx), rest)
