-- ===== src/Tasks/Lifetime.antt =====
-- A server of pipebomb/server.py from its start to its stop.
use pipebomb.Base.{
  ℕ, sym, map, append_assoc, append-nil, zero, suc, ◌≡◌, refl, ap, ◌∙◌, List, [], ◌∷◌, ◌++◌, Bool,
  true, false, none, length, arith, length-append,
}
use pipebomb.Base.Result.{Result, ok, err}
use pipebomb.Gsyncio.Bridge.{Bridge}
use pipebomb.Tasks.Cancel.{TaskLibrary, CancelableTask, cancel}
use pipebomb.Tasks.Stop.{Running, cancel_all, stop}
use pipebomb.Tasks.Run.{Job, coroutine, World, run_task_async}
use pipebomb.Tasks.Start.{Options, new_server, start_accepters, start}

-- The jobs of so many accepters, each the coroutine of `accept_clients` on the event loop, and their
-- tasks, where the loop had so many before. A start that fails to listen has none.
abbrev pub accepting : ℕ → List Job
accepting zero = []
accepting (suc n) = coroutine 0 ∷ accepting n

abbrev pub accepters : ℕ → ℕ → List (CancelableTask ℕ)
accepters first zero = []
accepters first (suc n) =
    record { asyncio_task = first; task_id = none; cancelled = false } ∷ accepters (suc first) n

abbrev pub started_of : Result (Unit {0}) → ℕ → ℕ
started_of (err e) n = 0
started_of (ok done) n = n

length-accepters : (first n : ℕ) → length (accepters first n) ≡ n
length-accepters first zero = refl
length-accepters first (suc n) = ap suc (length-accepters (suc first) n)

-- The server and the world with so many accepters.
abbrev manned : ℕ → Running ℕ → World → Running ℕ
manned n r w = record r { tasks = r.tasks ++ accepters (length w.jobs) n }

abbrev busier : ℕ → World → World
busier n w = record w { jobs = w.jobs ++ accepting n }

manned-manned :
    (n : ℕ) (r : Running ℕ) (w : World) → manned n (manned 1 r w) (busier 1 w) ≡ manned (suc n) r w
manned-manned n r w =
    let many : length (w.jobs ++ (coroutine 0 ∷ [])) ≡ suc (length w.jobs) =
      omega (arith, length-append w.jobs (coroutine 0 ∷ [])) in
    ap (λ ts. record r { tasks = ts })
      (append_assoc r.tasks (accepters (length w.jobs) 1) (accepters (length (busier 1 w).jobs) n)
        ∙ ap (λ k. r.tasks ++ (accepters (length w.jobs) 1 ++ accepters k n)) many)

start_accepters-suc :
    (n : ℕ) (flag : Bool) (r : Running ℕ) (w : World)
    → start_accepters (suc n) (record r { multithreaded = flag }) w
      ≡ start_accepters n (record (manned 1 r w) { multithreaded = flag }) (busier 1 w)
unfolding start_accepters run_task_async
start_accepters-suc n true r w = refl
start_accepters-suc n false r w = refl

start_accepters-lem :
    (n : ℕ) (flag : Bool) (r : Running ℕ) (w : World)
    → start_accepters n (record r { multithreaded = flag }) w
      ≡ (ok tt, record (manned n r w) { multithreaded = flag }, busier n w)
unfolding start_accepters run_task_async
start_accepters-lem zero flag r w =
    ap
      (λ (x : List (CancelableTask ℕ) × List Job).
        (ok tt, record r { multithreaded = flag; tasks = x.0 }, record w { jobs = x.1 }))
      (ap (λ ts. (ts, w.jobs)) (sym (append-nil r.tasks))
        ∙ ap (λ js. (r.tasks ++ [], js)) (sym (append-nil w.jobs)))
start_accepters-lem (suc n) flag r w =
    start_accepters-suc n flag r w
    ∙ start_accepters-lem n flag (manned 1 r w) (busier 1 w)
    ∙ ap (λ x. (ok tt, record x { multithreaded = flag }, busier n (busier 1 w)))
        (manned-manned n r w)
    ∙ ap
        (λ js.
          (ok tt, record (manned (suc n) r w) { multithreaded = flag }, record w { jobs = js }))
        (append_assoc w.jobs (accepting 1) (accepting n))

-- With `multithreaded` and without it, a server is started with the same tasks: one for each accepter,
-- and each a coroutine on the event loop. No goroutine and no thread is started. A start that fails to
-- listen starts none.
pub start-flagged :
    (listening : Result (Unit {0})) (n : ℕ) (flag : Bool) (r : Running ℕ) (w : World)
    → start listening n (record r { multithreaded = flag }) w ≡ (
      listening,
      record r {
        tasks = r.tasks ++ accepters (length w.jobs) (started_of listening n);
        multithreaded = flag;
      },
      record w { jobs = w.jobs ++ accepting (started_of listening n) },
    )
unfolding start
start-flagged (err e) n flag r w =
    ap
      (λ (x : List (CancelableTask ℕ) × List Job).
        (err e, record r { multithreaded = flag; tasks = x.0 }, record w { jobs = x.1 }))
      (ap (λ ts. (ts, w.jobs)) (sym (append-nil r.tasks))
        ∙ ap (λ js. (r.tasks ++ [], js)) (sym (append-nil w.jobs)))
start-flagged (ok done) n flag r w = start_accepters-lem n flag r w

module _ (library : TaskLibrary ℕ) where
  -- A task that was cancelled by way of asyncio.
  abbrev pub asked : CancelableTask ℕ → CancelableTask ℕ
  asked t = record t { asyncio_task = (library.cancel_asyncio t.asyncio_task).1; cancelled = true }

  cancel_all-accepters :
      (first n : ℕ) (b : Bridge)
      → cancel_all library (accepters first n) b ≡ (ok tt, map asked (accepters first n), b)
  unfolding cancel_all cancel
  cancel_all-accepters first zero b = refl
  cancel_all-accepters first (suc n) b = rw (cancel_all-accepters (suc first) n b) refl

  -- A server that is started, with any number of accepters, with `multithreaded` or without it, and
  -- stopped: nothing is raised, there is a task for each accepter, of the event loop alone, asyncio's
  -- `cancel` was called on each of them, once, and no goroutine is started or cancelled.
  pub start-stop :
      (options : Options) (flag : Bool) (n : ℕ) (w : World)
      → let started = start (ok tt) n (new_server options flag) w in
        let stopped = stop library started.1 started.2.bridge in
        (started.0 ≡ ok tt)
        × (started.1.tasks ≡ accepters (length w.jobs) n)
        × (started.2.jobs ≡ w.jobs ++ accepting n)
        × (stopped.0 ≡ ok tt)
        × (stopped.1.tasks ≡ map asked (accepters (length w.jobs) n))
        × (stopped.2 ≡ w.bridge)
  unfolding stop
  start-stop options flag n w =
      rw (start-flagged (ok tt) n flag (new_server options flag) w)
        (rw (cancel_all-accepters (length w.jobs) n w.bridge) (refl, refl, refl, refl, refl, refl))
