-- ===== src/Tasks/Results.antt =====
-- `done`, `result` and `exception` of `CancelableTask` in pipebomb/utils.py.
use pipebomb.Base.{ℕ, ◌≡◌, ap, ◌∙◌, Bool, true, Option, none, some}
use pipebomb.Base.Result.{Exn, Result, ok, err}
use pipebomb.Tasks.Cancel.{CancelableTask}

-- What asyncio tells of a task: whether it is done, its result, which raises what the task raised, and
-- its exception; and a run of the event loop that waits for it so long, with the task as it is then.
pub record Asyncio (A T : Type 0) : Type 0 where
  pub is_done : A → Bool
  pub result_of : A → Result T
  pub exception_of : A → Result (Option Exn)
  pub wait_for : ℕ → A → Result T × A

-- What asyncio documents of a task that is done: to wait for it gives its result at once, and its
-- result raises its exception, if it has one.
pub record IsAsyncio {A T : Type 0} (asyncio : Asyncio A T) : Type 0 where
  pub wait_for-done :
      (timeout : ℕ) (a : A)
      → asyncio.is_done a ≡ true
      → asyncio.wait_for timeout a ≡ (asyncio.result_of a, a)
  pub result-raises :
      (a : A) (e : Exn) → asyncio.exception_of a ≡ ok (some e) → asyncio.result_of a ≡ err e

module _ {A T : Type 0} (asyncio : Asyncio A T) where
  unfoldable pub done : CancelableTask A → Bool
  done t = asyncio.is_done t.asyncio_task

  abbrev waited : CancelableTask A → Result T × A → Result T × CancelableTask A
  waited t (r, a) = (r, record t { asyncio_task = a })

  unfoldable pub result : Option ℕ → CancelableTask A → Result T × CancelableTask A
  result none t = (asyncio.result_of t.asyncio_task, t)
  result (some timeout) t = waited t (asyncio.wait_for timeout t.asyncio_task)

  -- The exception of a task that was waited for, unless the waiting raised.
  abbrev after_wait : Result T × CancelableTask A → Result (Option Exn) × CancelableTask A
  after_wait (err e, t) = (err e, t)
  after_wait (ok value, t) = (asyncio.exception_of t.asyncio_task, t)

  unfoldable pub exception : Option ℕ → CancelableTask A → Result (Option Exn) × CancelableTask A
  unfolding result
  exception none t = (asyncio.exception_of t.asyncio_task, t)
  exception (some timeout) t = after_wait (result (some timeout) t)

  -- A task that is done and has an exception: `result` raises it, with a timeout or without one;
  -- `exception` gives it without a timeout, and raises it with one. The task stays as it is.
  pub exception-raises :
      (laws : IsAsyncio asyncio) (t : CancelableTask A) (e : Exn) (timeout : ℕ)
      → done t ≡ true
      → asyncio.exception_of t.asyncio_task ≡ ok (some e)
      → (result none t ≡ (err e, t))
        × (result (some timeout) t ≡ (err e, t))
        × (exception none t ≡ (ok (some e), t))
        × (exception (some timeout) t ≡ (err e, t))
  unfolding done result exception
  exception-raises laws t e timeout over failed =
      let raised = laws.result-raises t.asyncio_task e failed in
      let waits =
        ap (waited t)
          (laws.wait_for-done timeout t.asyncio_task over ∙ ap (λ r. (r, t.asyncio_task)) raised) in
      (ap (λ r. (r, t)) raised, waits, ap (λ r. (r, t)) failed, ap after_wait waits)
