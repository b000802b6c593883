-- ===== src/Tasks/Start.antt =====
-- `Server.__init__` and `start` of pipebomb/server.py.
use pipebomb.Base.{Bytes, ℕ, zero, suc, [], ◌∷◌, ◌++◌, Bool, true, false, if◌then◌else◌, none, not}
use pipebomb.Base.Result.{Result, ok, err}
use pipebomb.Gsyncio.Search.{Interpreter}
use pipebomb.Gsyncio.Loading.{Loaded, init_gsyncio}
use pipebomb.Tasks.Stop.{Running}
use pipebomb.Tasks.Run.{Callback, coroutine, World, Ran, created, run_task_async}

-- What `__init__` is given, and the socket that the factory makes.
pub record Options : Type 0 where
  pub socket : ℕ
  pub password : Bytes
  pub keep_dead_sessions : Bool
  pub multithreaded : Bool

-- A server with empty tables and no tasks.
abbrev pub new_server : Options → Bool → Running ℕ
new_server options multithreaded = record {
  server = record {
    db = [];
    client_db = [];
    address_book = [];
    password = options.password;
    keep_dead_sessions = options.keep_dead_sessions;
    sent = [];
    closed = [];
    drawn = 0;
  };
  socket = options.socket;
  tasks = [];
  multithreaded = multithreaded;
}

-- `_gsyncio_available = _init_gsyncio()`, and without it no `multithreaded`.
abbrev after_init : Options → Result Bool × Loaded → Result (Running ℕ) × Loaded
after_init options (err e, m) = (err e, m)
after_init options (ok available, m) = (ok (new_server options available), m)

unfoldable pub init_server : Interpreter → Options → Loaded → Result (Running ℕ) × Loaded
unfolding init_gsyncio
init_server i options m =
    if not options.multithreaded
    then (ok (new_server options false), m)
    else after_init options (init_gsyncio i m)

-- The server and the world of its tasks, and whether they were started.
abbrev pub Starting : Type 0
Starting = Result (Unit {0}) × Running ℕ × World

-- `self.tasks.append(...)`, and what comes after.
abbrev append_task : Ran → Running ℕ → (Running ℕ → World → Starting) → Starting
append_task (err e, w) r next = (err e, r, w)
append_task (ok task, w) r next = next (record r { tasks = r.tasks ++ (task ∷ []) }) w

-- `accept_clients`, an `async def` method.
abbrev pub accept_callback : Callback
accept_callback = record { number = 0; is_coroutine = true }

unfoldable pub start_accepters : ℕ → Running ℕ → World → Starting
unfolding run_task_async
start_accepters zero r w = (ok tt, r, w)
start_accepters (suc n) r w =
    if r.multithreaded
    then append_task (run_task_async accept_callback w) r (start_accepters n)
    else append_task (created (coroutine 0) none w) r (start_accepters n)

-- The address is resolved and prepared, the socket bound, and it listens, any of which may raise.
abbrev after_listen : Result (Unit {0}) → ℕ → Running ℕ → World → Starting
after_listen (err e) n r w = (err e, r, w)
after_listen (ok done) n r w = start_accepters n r w

unfoldable pub start : Result (Unit {0}) → ℕ → Running ℕ → World → Starting
unfolding start_accepters
start listening client_accepters r w = after_listen listening client_accepters r w
