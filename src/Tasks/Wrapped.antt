-- ===== src/Tasks/Wrapped.antt =====
-- `wrapped` and `_await_wrapper` of `run_task_async` in pipebomb/utils.py: how the result of a callback
-- comes back from the goroutine that called it.
use pipebomb.Base.{Bool, true, false, ◌&&◌, if◌then◌else◌, Option, none, some}
use pipebomb.Base.Result.{Exn, Result, ok, err}

-- `result_holder[0]`: what the callback returned, or the exception that was caught.
pub data Slot (A : Type 0) : Type 0 where
  value : A → Slot A
  failure : Exn → Slot A

-- The slot, and whether the event is set.
pub record Held (A : Type 0) : Type 0 where
  pub slot : Slot A
  pub event_set : Bool

abbrev pub is_ok : {B : Type 0} → Result B → Bool
is_ok (ok b) = true
is_ok (err e) = false

-- `as_exception` tells the values of the callback that are exceptions themselves.
module _ {A : Type 0} (as_exception : A → Option Exn) where
  -- `loop = asyncio.get_event_loop()` and `event.set`, now or by way of the loop if it is running.
  -- What raises there raises before the event is set.
  abbrev announce : Result Bool → Slot A → Result (Unit {0}) × Held A
  announce (err e) slot = (err e, record { slot = slot; event_set = false })
  announce (ok is_running) slot = (ok tt, record { slot = slot; event_set = true })

  -- `except Exception as e: result_holder[0] = e`, and the same again.
  abbrev after_try : Result Bool → Result (Unit {0}) × Held A → Result (Unit {0}) × Held A
  after_try again (err e, held) = announce again (failure e)
  after_try again (ok done, held) = (ok done, held)

  -- The callback's result, and what the event loop of its thread comes to, at the first try and in the
  -- `except`: whether it runs, or an exception.
  unfoldable pub wrapped : Result A → Result Bool → Result Bool → Result (Unit {0}) × Held A
  wrapped (err e) first again = announce again (failure e)
  wrapped (ok a) first again = after_try again (announce first (value a))

  -- `if isinstance(result_holder[0], Exception): raise result_holder[0]`
  abbrev returned_or_raised : Option Exn → A → Result A
  returned_or_raised none a = ok a
  returned_or_raised (some e) a = err e

  abbrev read : Slot A → Result A
  read (value a) = returned_or_raised (as_exception a) a
  read (failure e) = err e

  -- What the task gives, or `none` while it waits. The event, set in another thread, does not wake the
  -- loop of the task: `comes_round` tells whether that loop comes round once the event is set, or the
  -- task had not waited before.
  unfoldable pub await_wrapper : Bool → Held A → Option (Result A)
  await_wrapper comes_round held =
      if held.event_set && comes_round then some (read held.slot) else none

  -- What the callback gave, as the task has it, where its thread has an event loop.
  abbrev pub outcome : Result A → Result A
  outcome (ok a) = returned_or_raised (as_exception a) a
  outcome (err e) = err e

  -- What comes of the callback and of the first try to reach the event loop: a result whose thread has
  -- no event loop is lost to the exception of that try.
  abbrev pub told : Result A → Result Bool → Result A
  told (ok a) (err e) = err e
  told (ok a) (ok x) = outcome (ok a)
  told (err e) first = err e
