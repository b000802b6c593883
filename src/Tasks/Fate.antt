-- ===== src/Tasks/Fate.antt =====
-- What becomes of a task of `run_task_async` in pipebomb/utils.py when it is cancelled.
use pipebomb.Base.{ℕ, ◌≡◌, refl, ap, [], ◌∷◌, ◌++◌, true, false, if◌then◌else◌, some, length}
use pipebomb.Base.Result.{Result, ok, err, attribute_error, runtime_error}
use pipebomb.Base.Integer.{ℤ, pos, minus_one}
use pipebomb.Gsyncio.Go.{Goroutine, python_cell, ready}
use pipebomb.Gsyncio.Bridge.{
  Bridge, get_next_task_id, numbered, started_with_result, cancel_go_task, cancelled_at,
}
use pipebomb.Tasks.Cancel.{TaskLibrary, CancelableTask, cancel}
use pipebomb.Tasks.Run.{Callback, to_thread, World, created, after_number, run_task_async}

-- A function that is not a coroutine.
abbrev pub plain : ℕ → Callback
plain n = record { number = n; is_coroutine = false }

module _ (n : ℕ) (w : World) where
  -- The task of a thread.
  abbrev pub threaded : CancelableTask ℕ
  threaded = record { asyncio_task = length w.jobs; task_id = some minus_one; cancelled = false }

  run-threaded :
      w.available ≡ false
      → run_task_async (plain n) w ≡ (ok threaded, record w { jobs = w.jobs ++ (to_thread n ∷ []) })
  unfolding run_task_async
  run-threaded off =
      ap
        (λ x.
          if x
          then after_number n w (get_next_task_id w.bridge)
          else created (to_thread n) (some minus_one) w)
        off

  cancel_without_functions :
      w.bridge.has_functions ≡ false
      → cancel_go_task minus_one w.bridge ≡ (err attribute_error, w.bridge)
  unfolding cancel_go_task
  cancel_without_functions bare =
      ap
        (λ x.
          if x
          then (if w.bridge.library_loaded
              then (ok tt, cancelled_at minus_one w.bridge)
              else (err runtime_error, w.bridge))
          else (err attribute_error, w.bridge))
        bare

  -- The module when the goroutine of the callback was started, its goroutine and its task.
  abbrev pub next_id : ℤ
  next_id = pos w.bridge.go.next_task_id

  abbrev pub launched : Bridge
  launched = started_with_result n next_id (numbered w.bridge)

  abbrev pub goroutine : Goroutine
  goroutine = record {
    task_id = next_id;
    callback = w.bridge.made;
    canceled = python_cell w.bridge.allocated;
    checks = true;
    phase = ready;
  }

  abbrev pub sent_to_go : CancelableTask ℕ
  sent_to_go = record { asyncio_task = length w.jobs; task_id = some next_id; cancelled = false }

module _ (library : TaskLibrary ℕ) (n : ℕ) (w : World) where
  -- Where gsyncio was never there, a function that is no coroutine is run in a thread, by a task of the
  -- event loop. To cancel that task raises an AttributeError, and does not reach the asyncio task; to
  -- cancel it again answers False and does not either.
  pub cancel-threaded :
      w.available ≡ false
      → w.bridge.has_functions ≡ false
      → (run_task_async (plain n) w
          ≡ (ok (threaded n w), record w { jobs = w.jobs ++ (to_thread n ∷ []) }))
        × (cancel library (threaded n w) w.bridge
            ≡ (err attribute_error, record (threaded n w) { cancelled = true }, w.bridge))
        × (cancel library (record (threaded n w) { cancelled = true }) w.bridge
            ≡ (ok false, record (threaded n w) { cancelled = true }, w.bridge))
  unfolding cancel
  cancel-threaded off bare =
      (run-threaded n w off, rw (cancel_without_functions n w bare) refl, refl)
