-- ===== src/Gsyncio/Bridge.antt =====
-- `StartGoTask`, `StartGoTaskWithResult`, `CancelGoTask`, `IsCanceled` and `get_next_task_id` of
-- pipebomb/gsyncio/__init__.py, over the Go side.
use pipebomb.Base.{
  ℕ, ◌+◌, ◌==◌, List, ◌∷◌, [], ◌++◌, Bool, true, false, if◌then◌else◌, Option, none, some,
}
use pipebomb.Base.Result.{Result, ok, err, runtime_error, attribute_error}
use pipebomb.Base.Integer.{ℤ}
use pipebomb.Gsyncio.Go.{
  python_cell, never, Go, write, start_goroutine, cancel_task, is_canceled, next_task,
}

-- A Python function, by its number, or what `ffi.callback` makes of one: a C callback, with a number
-- of its own, which is all that the library is given, and the function that it calls.
pub data Object : Type 0 where
  function : ℕ → Object
  c_callback : ℕ → ℕ → Object

-- The globals of the module: whether its functions are there (`ffi` is not None) and the library is
-- loaded, the tasks, the callbacks that are kept alive, the tasks with a result, the flags, by the
-- number of their cell, and the cells; `allocated` counts them, and `made` the C callbacks. Then the
-- library itself.
pub record Bridge : Type 0 where
  pub has_functions : Bool
  pub library_loaded : Bool
  pub tasks : ℤ → Option ℕ
  pub made : ℕ
  pub live_callbacks : List Object
  pub task_results : ℤ → Option (Unit {0})
  pub cancel_flags : ℤ → Option ℕ
  pub cells : ℕ → Bool
  pub allocated : ℕ
  pub go : Go

abbrev pub Call : Type 0 → Type 0
Call A = Bridge → Result A × Bridge

-- A function of the module, which is not there without the CFFI extension, and which raises where the
-- library was not loaded.
abbrev pub guarded : {A : Type 0} → Call A → Call A
guarded call b =
    if b.has_functions
    then (if b.library_loaded then call b else (err runtime_error, b))
    else (err attribute_error, b)

-- What each does, where the library is loaded.
abbrev pub started_plain : ℕ → ℤ → Bridge → Bridge
started_plain callback task_id b = record b {
  made = b.made + 1;
  live_callbacks = b.live_callbacks ++ (c_callback b.made callback ∷ []);
  go = start_goroutine false b.made task_id never b.go;
  tasks = write task_id (some callback) b.tasks;
}

unfoldable pub start_go_task : ℕ → ℤ → Call (Unit {0})
unfolding start_goroutine
start_go_task callback task_id = guarded λ b. (ok tt, started_plain callback task_id b)

-- `if task_id not in _task_results: _task_results[task_id] = {"_event": threading.Event()}`
abbrev pub add_result : ℤ → Option (Unit {0}) → (ℤ → Option (Unit {0})) → ℤ → Option (Unit {0})
add_result task_id none results = write task_id (some tt) results
add_result task_id (some there) results = results

abbrev pub started_with_result : ℕ → ℤ → Bridge → Bridge
started_with_result callback task_id b = record b {
  cells = λ n. if b.allocated == n then false else b.cells n;
  allocated = b.allocated + 1;
  cancel_flags = write task_id (some b.allocated) b.cancel_flags;
  task_results = add_result task_id (b.task_results task_id) b.task_results;
  made = b.made + 1;
  live_callbacks = b.live_callbacks ++ (c_callback b.made callback ∷ []);
  go = start_goroutine true b.made task_id (python_cell b.allocated) b.go;
}

unfoldable pub start_go_task_with_result : ℕ → ℤ → Call (Unit {0})
unfolding start_goroutine
start_go_task_with_result callback task_id =
    guarded λ b. (ok tt, started_with_result callback task_id b)

-- `if flag is not None: flag[0] = 1`
abbrev pub raise_flag : Option ℕ → (ℕ → Bool) → ℕ → Bool
raise_flag none cells = cells
raise_flag (some flag) cells = λ n. if flag == n then true else cells n

abbrev pub cancelled_at : ℤ → Bridge → Bridge
cancelled_at task_id b = record b {
  go = cancel_task task_id b.go;
  cells = raise_flag (b.cancel_flags task_id) b.cells;
}

unfoldable pub cancel_go_task : ℤ → Call (Unit {0})
unfolding cancel_task
cancel_go_task task_id = guarded λ b. (ok tt, cancelled_at task_id b)

unfoldable pub is_canceled_task : ℤ → Call Bool
unfolding is_canceled
is_canceled_task task_id = guarded λ b. (ok (is_canceled task_id b.go), b)

abbrev pub numbered : Bridge → Bridge
numbered b = record b { go = (next_task b.go).1 }

unfoldable pub get_next_task_id : Call ℤ
unfolding next_task
get_next_task_id = guarded λ b. (ok (next_task b.go).0, numbered b)
