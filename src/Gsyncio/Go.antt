-- ===== src/Gsyncio/Go.antt =====
-- The Go side of pipebomb/gsyncio/__init__.py: pipebomb/gsyncio/gsyncio.go, the functions that it
-- exports and the goroutines that they start.
use pipebomb.Base.{
  ℕ, ◌+◌, ◌==◌, List, ◌∷◌, Bool, true, false, ◌&&◌, if◌then◌else◌, Option, none, some,
}
use pipebomb.Base.Integer.{ℤ, pos, eq_int}

-- What `canceled` points to: a cell of Python's, by its number, a zero that no one changes, or a one.
pub data Cell : Type 0 where
  python_cell : ℕ → Cell
  never raised : Cell

-- A goroutine has not begun, is in its callback, has come back from it, or found itself cancelled.
pub data Phase : Type 0 where
  ready calling returned dropped : Phase

-- A goroutine with its `callbackEntry`; `checks` where it looks at `canceled` before the call. Its
-- callback is a C callback, by its number.
pub record Goroutine : Type 0 where
  pub task_id : ℤ
  pub callback : ℕ
  pub canceled : Cell
  pub checks : Bool
  pub phase : Phase

-- The globals, the goroutines by the order of their start, and which were called, the latest first.
-- `callbacks` leads from a task to its goroutine. The numbers of tasks are below 2 ** 31.
pub record Go : Type 0 where
  pub goroutines : ℕ → Option Goroutine
  pub started : ℕ
  pub callbacks : ℤ → Option ℕ
  pub cancellation_map : ℤ → Option Bool
  pub next_task_id : ℕ
  pub called : List ℕ

-- `m[id] = v` and `delete(m, id)` on a Go map, and a goroutine that changes.
abbrev pub write : {V : Type 0} → ℤ → Option V → (ℤ → Option V) → ℤ → Option V
write id v m = λ j. if eq_int id j then v else m j

abbrev pub change : ℕ → Goroutine → (ℕ → Option Goroutine) → ℕ → Option Goroutine
change k g gs = λ j. if k == j then some g else gs j

-- `_StartGoTaskWithResult` and `_StartGoTask`, which differ in whether the goroutine checks the cell.
unfoldable pub start_goroutine : Bool → ℕ → ℤ → Cell → Go → Go
start_goroutine checks callback id canceled go = record go {
  cancellation_map = write id (some false) go.cancellation_map;
  callbacks = write id (some go.started) go.callbacks;
  goroutines =
      change go.started
        (record {
          task_id = id;
          callback = callback;
          canceled = canceled;
          checks = checks;
          phase = ready;
        })
        go.goroutines;
  started = go.started + 1;
}

abbrev pub raise_of : Option Goroutine → Option Goroutine
raise_of none = none
raise_of (some g) = some (record g { canceled = raised })

-- The entry of a task that is in the map gets another cell.
abbrev pub raise_entry : Option ℕ → (ℕ → Option Goroutine) → ℕ → Option Goroutine
raise_entry none gs = gs
raise_entry (some k) gs = λ j. if k == j then raise_of (gs j) else gs j

-- `_CancelGoTask`
unfoldable pub cancel_task : ℤ → Go → Go
cancel_task id go = record go {
  goroutines = raise_entry (go.callbacks id) go.goroutines;
  cancellation_map = write id (some true) go.cancellation_map;
}

-- `_IsCanceled`
abbrev pub canceled_or_gone : Option Bool → Bool
canceled_or_gone none = true
canceled_or_gone (some canceled) = canceled

unfoldable pub is_canceled : ℤ → Go → Bool
is_canceled id go = canceled_or_gone (go.cancellation_map id)

-- `_GetNextTaskId`
unfoldable pub next_task : Go → ℤ × Go
next_task go = (pos go.next_task_id, record go { next_task_id = go.next_task_id + 1 })

-- The `defer` of a goroutine: its task leaves the maps.
abbrev pub leave : ℤ → Go → Go
leave id go = record go {
  cancellation_map = write id none go.cancellation_map;
  callbacks = write id none go.callbacks;
}

-- `*entry.canceled != 0`, with the cells of Python.
abbrev pub is_raised : (ℕ → Bool) → Cell → Bool
is_raised cells (python_cell n) = cells n
is_raised cells never = false
is_raised cells raised = true

-- A goroutine begins: it returns where it checks its cell and finds it raised, and calls its callback
-- otherwise.
unfoldable pub begin : (ℕ → Bool) → ℕ → Goroutine → Go → Go
begin cells k g go =
    if g.checks && is_raised cells g.canceled
    then leave g.task_id
        (record go { goroutines = change k (record g { phase = dropped }) go.goroutines })
    else record go {
      goroutines = change k (record g { phase = calling }) go.goroutines;
      called = k ∷ go.called;
    }

-- It comes back from the callback.
unfoldable pub come_back : ℕ → Goroutine → Go → Go
come_back k g go =
    leave g.task_id
      (record go { goroutines = change k (record g { phase = returned }) go.goroutines })
