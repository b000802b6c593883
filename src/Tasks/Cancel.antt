-- ===== src/Tasks/Cancel.antt =====
-- `CancelableTask` of pipebomb/utils.py.
use pipebomb.Base.{
  ◌≡◌, refl, Bool, true, false, if◌then◌else◌, Option, none, some, Bool-cases, inl, inr, ap,
}
use pipebomb.Base.Result.{Result, ok, err, import_error, runtime_error}
use pipebomb.Base.Integer.{ℤ}
use pipebomb.Gsyncio.Bridge.{Bridge, cancel_go_task}

-- `cancel()` of an asyncio task, with the task as it is behind it.
pub record TaskLibrary (A : Type 0) : Type 0 where
  pub cancel_asyncio : A → Bool × A

pub record CancelableTask (A : Type 0) : Type 0 where
  pub asyncio_task : A
  pub task_id : Option ℤ
  pub cancelled : Bool

-- The answer, the task as it is then, and the Go library.
abbrev pub Cancelling : Type 0 → Type 0
Cancelling A = Result Bool × CancelableTask A × Bridge

module _ {A : Type 0} (library : TaskLibrary A) where
  -- `except (ImportError, RuntimeError): pass`
  abbrev pub passed_over : Result (Unit {0}) → Result (Unit {0})
  passed_over (err import_error) = ok tt
  passed_over (err runtime_error) = ok tt
  passed_over r = r

  -- The Go task, if there is one.
  abbrev pub cancel_go : Option ℤ → Bridge → Result (Unit {0}) × Bridge
  cancel_go none b = (ok tt, b)
  cancel_go (some task_id) b =
      (passed_over (cancel_go_task task_id b).0, (cancel_go_task task_id b).1)

  abbrev pub cancel_rest : Result (Unit {0}) × Bridge → CancelableTask A → Cancelling A
  cancel_rest (err e, b) t = (err e, t, b)
  cancel_rest (ok done, b) t =
      let (answer, asyncio_task) = library.cancel_asyncio t.asyncio_task in
      (ok answer, record t { asyncio_task = asyncio_task }, b)

  unfoldable pub cancel : CancelableTask A → Bridge → Cancelling A
  unfolding cancel_go_task
  cancel t b =
      if t.cancelled
      then (ok false, t, b)
      else cancel_rest (cancel_go t.task_id b) (record t { cancelled = true })

  cancel_rest-cancelled :
      (r : Result (Unit {0}) × Bridge) (t : CancelableTask A)
      → (cancel_rest r t).1.cancelled ≡ t.cancelled
  cancel_rest-cancelled (err e, b) t = refl
  cancel_rest-cancelled (ok done, b) t = refl

  pub cancel-cancelled : (t : CancelableTask A) (b : Bridge) → (cancel t b).1.cancelled ≡ true
  unfolding cancel
  cancel-cancelled t b = elim (Bool-cases t.cancelled) [
    | inl before ↦ rw before refl
    | inr first ↦
        rw first (cancel_rest-cancelled (cancel_go t.task_id b) (record t { cancelled = true }))
  ]

  pub cancel-done :
      (t : CancelableTask A) (b : Bridge) → t.cancelled ≡ true → cancel t b ≡ (ok false, t, b)
  unfolding cancel
  cancel-done t b before =
      ap
        (λ x.
          if x
          then (ok false, t, b)
          else cancel_rest (cancel_go t.task_id b) (record t { cancelled = true }))
        before
