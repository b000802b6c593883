-- ===== src/Tests/Tasks.antt =====
-- The theorems about tasks, at a server with two accepters and at worlds with gsyncio and without it.
use pipebomb.Base.{
  ℕ, map, List, if◌then◌else◌, ◌==◌, [], ◌∷◌, ◌≡◌, refl, true, false, Option, none, some, arith,
}
use pipebomb.Base.Result.{Exn, Result, ok, err, attribute_error, runtime_error}
use pipebomb.Tasks.Stop.{stop}
use pipebomb.Base.Integer.{pos}
use pipebomb.Gsyncio.Events.{Event, starts_with_result, cancels, begins, fresh}
use pipebomb.Tasks.Cancel.{TaskLibrary, CancelableTask, cancel}
use pipebomb.Tasks.Results.{Asyncio, IsAsyncio, done, result, exception, exception-raises}
use pipebomb.Tasks.Run.{coroutine, to_thread, World, run_task_async}
use pipebomb.Tasks.Start.{Options, new_server, start}
use pipebomb.Tasks.Lifetime.{accepters, start-flagged, asked, start-stop}
use pipebomb.Tasks.Fate.{plain, threaded, cancel-threaded}

-- An asyncio task is its number, which becomes 0 when it is cancelled.
abbrev counting : TaskLibrary ℕ
counting = record { cancel_asyncio = λ n. (true, 0) }

abbrev options : Options
options = record {
  socket = 4;
  password = 112 ∷ [];
  keep_dead_sessions = false;
  multithreaded = true;
}

-- With gsyncio, and without it.
abbrev native : World
native = record { available = true; bridge = fresh; jobs = [] }

abbrev bare : World
bare = record { available = false; bridge = record fresh { has_functions = false }; jobs = [] }

start-flagged_example :
    start (ok tt) 2 (record (new_server options true) { multithreaded = true }) native ≡ (
      ok tt,
      record (new_server options true) { tasks = accepters 0 2 },
      record native { jobs = coroutine 0 ∷ coroutine 0 ∷ [] },
    )
start-flagged_example = start-flagged (ok tt) 2 true (new_server options true) native

start-stop_example :
    let started = start (ok tt) 2 (new_server options true) native in
    let stopped = stop counting started.1 started.2.bridge in
    (started.0 ≡ ok tt)
    × (started.1.tasks ≡ accepters 0 2)
    × (started.2.jobs ≡ coroutine 0 ∷ coroutine 0 ∷ [])
    × (stopped.0 ≡ ok tt)
    × (stopped.1.tasks ≡ map (asked counting) (accepters 0 2))
    × (stopped.2 ≡ fresh)
start-stop_example = start-stop counting options true 2 native

cancel-threaded_example :
    (run_task_async (plain 7) bare
      ≡ (ok (threaded 7 bare), record bare { jobs = to_thread 7 ∷ [] }))
    × (cancel counting (threaded 7 bare) bare.bridge
        ≡ (err attribute_error, record (threaded 7 bare) { cancelled = true }, bare.bridge))
    × (cancel counting (record (threaded 7 bare) { cancelled = true }) bare.bridge
        ≡ (ok false, record (threaded 7 bare) { cancelled = true }, bare.bridge))
cancel-threaded_example = cancel-threaded counting 7 bare refl refl

-- Another task is started, begins and is cancelled, and then the one of the function is.
abbrev before : List Event
before = starts_with_result 9 (pos 5) ∷ begins 1 ∷ cancels (pos 5) ∷ []

-- A number, of which 0 is an exception; a thread with an event loop that does not run.
abbrev zero_raises : ℕ → Option Exn
zero_raises n = if n == 0 then some runtime_error else none

abbrev exception_in : Result ℕ → Result (Option Exn)
exception_in (ok n) = ok none
exception_in (err e) = ok (some e)

exception_in-raises : (a : Result ℕ) (e : Exn) → exception_in a ≡ ok (some e) → a ≡ err e
exception_in-raises (ok n) e h = absurd (ground arith)
exception_in-raises (err x) e h = cc

-- Tasks that are their results.
abbrev finished : Asyncio (Result ℕ) ℕ
finished = record {
  is_done = λ a. true;
  result_of = λ a. a;
  exception_of = exception_in;
  wait_for = λ timeout a. (a, a);
}

finished-IsAsyncio : IsAsyncio finished
finished-IsAsyncio = record {
  wait_for-done = λ timeout a h. refl;
  result-raises = exception_in-raises;
}

abbrev failed : CancelableTask (Result ℕ)
failed = record { asyncio_task = err runtime_error; task_id = none; cancelled = false }

exception-raises_example :
    (result finished none failed ≡ (err runtime_error, failed))
    × (result finished (some 3) failed ≡ (err runtime_error, failed))
    × (exception finished none failed ≡ (ok (some runtime_error), failed))
    × (exception finished (some 3) failed ≡ (err runtime_error, failed))
unfolding done
exception-raises_example =
    exception-raises finished finished-IsAsyncio failed runtime_error 3 refl refl
