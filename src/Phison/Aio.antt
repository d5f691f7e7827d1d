-- ===== src/Phison/Aio.antt =====
-- phison_version/nvme_transfer/nvme-aio.cpp: the counters of AIOAsyncIO around libaio.
use nvme_ioctl.Prelude.{
  ℕ, zero, suc, Bool, true, false, ◌||◌, Option, none, some, List, [], ◌∷◌, ℤ, pos, negsuc,
  if◌then◌else◌,
}

-- `enum IOType` and `enum WaitType` of asyncio.h
pub data IoType : Type 0 where
  write read : IoType

pub data WaitType : Type 0 where
  wait nowait : WaitType

-- `x++`, `x--` and `x > 0` on `int`
unfoldable pub increment : ℤ → ℤ
increment (pos n) = pos (suc n)
increment (negsuc zero) = pos 0
increment (negsuc (suc n)) = negsuc n

unfoldable pub decrement : ℤ → ℤ
decrement (pos zero) = negsuc 0
decrement (pos (suc n)) = pos n
decrement (negsuc n) = negsuc (suc n)

unfoldable pub positive : ℤ → Bool
positive (pos zero) = false
positive (pos (suc n)) = true
positive (negsuc n) = false

-- libaio: io_submit() of one operation, whose result the code does not look at, and io_getevents()
-- with `min_nr` and `max_nr` and the timeout of the class.
pub record LibAio : Type 1 where
  pub Context : Type 0
  pub io_submit : IoType → Context → Context
  pub io_getevents : ℕ → ℕ → Context → List IoType × Context

-- `class AIOAsyncIO`. `called` are the callbacks that were run.
pub record AioAsyncIo (Context : Type 0) : Type 0 where
  pub io_ctx : Context
  pub n_write_events : ℤ
  pub n_read_events : ℤ
  pub max_nr : ℕ
  pub called : List IoType

-- The loop of get_event() over the events; every operation has a callback.
unfoldable pub finish_events :
    {Context : Type 0} → List IoType → AioAsyncIo Context → AioAsyncIo Context
finish_events [] a = a
finish_events (write ∷ es) a =
    finish_events es
      (record a { n_write_events = decrement a.n_write_events; called = write ∷ a.called })
finish_events (read ∷ es) a =
    finish_events es
      (record a { n_read_events = decrement a.n_read_events; called = read ∷ a.called })

module _ (lib : LibAio) where
  -- The constructor, on a context that io_setup() has made.
  unfoldable pub start : ℕ → lib.Context → AioAsyncIo lib.Context
  start n_entries ctx = record {
    io_ctx = ctx;
    n_write_events = pos 0;
    n_read_events = pos 0;
    max_nr = n_entries;
    called = [];
  }

  unfoldable pub get_event : WaitType → AioAsyncIo lib.Context → AioAsyncIo lib.Context
  get_event wt a =
      let min_nr : ℕ = elim wt [ wait ↦ 1 | nowait ↦ 0 ] in
      let (events, ctx) = lib.io_getevents min_nr a.max_nr a.io_ctx in
      finish_events events (record a { io_ctx = ctx })

  -- write() and writev(), read() and readv()
  unfoldable pub submit : IoType → AioAsyncIo lib.Context → AioAsyncIo lib.Context
  submit write a = record a {
    io_ctx = lib.io_submit write a.io_ctx;
    n_write_events = increment a.n_write_events;
  }
  submit read a = record a {
    io_ctx = lib.io_submit read a.io_ctx;
    n_read_events = increment a.n_read_events;
  }

  -- The loops on fuel; nothing is returned where it does not last.
  unfoldable pub wait_while :
      (AioAsyncIo lib.Context → Bool) → ℕ → AioAsyncIo lib.Context → Option (AioAsyncIo lib.Context)
  wait_while test zero a = if test a then none else some a
  wait_while test (suc fuel) a =
      let rest = wait_while test fuel (get_event wait a) in if test a then rest else some a

  abbrev pub sync_write_events : ℕ → AioAsyncIo lib.Context → Option (AioAsyncIo lib.Context)
  sync_write_events = wait_while (λ a. positive a.n_write_events)

  abbrev pub sync_read_events : ℕ → AioAsyncIo lib.Context → Option (AioAsyncIo lib.Context)
  sync_read_events = wait_while (λ a. positive a.n_read_events)

  abbrev pub synchronize : ℕ → AioAsyncIo lib.Context → Option (AioAsyncIo lib.Context)
  synchronize = wait_while (λ a. positive a.n_write_events || positive a.n_read_events)
