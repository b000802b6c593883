-- ===== src/Gsyncio/Events.antt =====
-- Calls of pipebomb/gsyncio/__init__.py and steps of its goroutines, in any order.
use pipebomb.Base.{
  ℕ, ◌+◌, ◌==◌, ◌≡◌, refl, List, ◌∷◌, [], Bool, true, false, if◌then◌else◌, Option, none, some,
}
use pipebomb.Base.Result.{Result, ok, err, runtime_error, attribute_error}
use pipebomb.Base.Integer.{ℤ}
use pipebomb.Gsyncio.Go.{
  Phase, ready, calling, returned, dropped, Goroutine, begin, come_back, next_task,
}
use pipebomb.Gsyncio.Bridge.{
  Call, guarded, started_plain, started_with_result, cancelled_at, numbered, Bridge, start_go_task,
  start_go_task_with_result, cancel_go_task, get_next_task_id,
}

-- A call, or a goroutine, by its number, that begins or comes back.
pub data Event : Type 0 where
  starts : ℕ → ℤ → Event
  starts_with_result : ℕ → ℤ → Event
  cancels : ℤ → Event
  numbers : Event
  begins : ℕ → Event
  comes_back : ℕ → Event

abbrev pub at_begin : ℕ → Option Goroutine → Phase → Bridge → Bridge
at_begin k (some g) ready b = record b { go = begin b.cells k g b.go }
at_begin k g phase b = b

abbrev pub at_end : ℕ → Option Goroutine → Phase → Bridge → Bridge
at_end k (some g) calling b = record b { go = come_back k g b.go }
at_end k g phase b = b

abbrev pub phase_of : Option Goroutine → Phase
phase_of none = returned
phase_of (some g) = g.phase

unfoldable pub happen : Event → Bridge → Bridge
unfolding start_go_task start_go_task_with_result cancel_go_task get_next_task_id begin come_back
happen (starts callback id) b = (start_go_task callback id b).1
happen (starts_with_result callback id) b = (start_go_task_with_result callback id b).1
happen (cancels id) b = (cancel_go_task id b).1
happen numbers b = (get_next_task_id b).1
happen (begins k) b = at_begin k (b.go.goroutines k) (phase_of (b.go.goroutines k)) b
happen (comes_back k) b = at_end k (b.go.goroutines k) (phase_of (b.go.goroutines k)) b

unfoldable pub run : List Event → Bridge → Bridge
unfolding happen
run [] b = b
run (e ∷ events) b = run events (happen e b)

-- How often a goroutine was called.
unfoldable pub count : ℕ → List ℕ → ℕ
count k [] = 0
count k (j ∷ js) = if j == k then count k js + 1 else count k js

-- How often it was called by its phase.
abbrev pub calls_of : Phase → ℕ
calls_of ready = 0
calls_of calling = 1
calls_of returned = 1
calls_of dropped = 0

abbrev pub calls_by : Option Goroutine → ℕ
calls_by none = 0
calls_by (some g) = calls_of g.phase

-- The module when the library has just been loaded.
abbrev pub fresh : Bridge
fresh = record {
  has_functions = true;
  library_loaded = true;
  tasks = λ id. none;
  made = 0;
  live_callbacks = [];
  task_results = λ id. none;
  cancel_flags = λ id. none;
  cells = λ n. false;
  allocated = 0;
  go = record {
    goroutines = λ k. none;
    started = 0;
    callbacks = λ id. none;
    cancellation_map = λ id. none;
    next_task_id = 1;
    called = [];
  };
}

-- What each call and each goroutine keeps, every order of them keeps.
pub record IsKept (P : Bridge → Type 0) : Type 0 where
  pub on_start : (callback : ℕ) (id : ℤ) (b : Bridge) → P b → P (started_plain callback id b)
  pub on_start_with_result :
      (callback : ℕ) (id : ℤ) (b : Bridge) → P b → P (started_with_result callback id b)
  pub on_cancel : (id : ℤ) (b : Bridge) → P b → P (cancelled_at id b)
  pub on_number : (b : Bridge) → P b → P (numbered b)
  pub on_begin :
      (k : ℕ) (g : Goroutine) (b : Bridge)
      → b.go.goroutines k ≡ some g
      → g.phase ≡ ready
      → P b
      → P (record b { go = begin b.cells k g b.go })
  pub on_return :
      (k : ℕ) (g : Goroutine) (b : Bridge)
      → b.go.goroutines k ≡ some g
      → g.phase ≡ calling
      → P b
      → P (record b { go = come_back k g b.go })

module _ (P : Bridge → Type 0) (kept : IsKept P) where
  either-keeps :
      {A : Type 0} (x : Bool) (p q : Result A × Bridge) → P p.1 → P q.1 → P (if x then p else q).1
  either-keeps true p q h k = h
  either-keeps false p q h k = k

  guarded-keeps :
      {A : Type 0} (call : Call A) (b : Bridge) → P b → P (call b).1 → P (guarded call b).1
  guarded-keeps call b h called =
      either-keeps b.has_functions (if b.library_loaded then call b else (err runtime_error, b))
        (err attribute_error, b)
        (either-keeps b.library_loaded (call b) (err runtime_error, b) called h) h

  at_begin-keeps :
      (k : ℕ) (g : Option Goroutine) (phase : Phase) (b : Bridge)
      → b.go.goroutines k ≡ g
      → phase_of g ≡ phase
      → P b
      → P (at_begin k g phase b)
  at_begin-keeps k (some g) ready b there now h = kept.on_begin k g b there now h
  at_begin-keeps k (some g) calling b there now h = h
  at_begin-keeps k (some g) returned b there now h = h
  at_begin-keeps k (some g) dropped b there now h = h
  at_begin-keeps k none phase b there now h = h

  at_end-keeps :
      (k : ℕ) (g : Option Goroutine) (phase : Phase) (b : Bridge)
      → b.go.goroutines k ≡ g
      → phase_of g ≡ phase
      → P b
      → P (at_end k g phase b)
  at_end-keeps k (some g) calling b there now h = kept.on_return k g b there now h
  at_end-keeps k (some g) ready b there now h = h
  at_end-keeps k (some g) returned b there now h = h
  at_end-keeps k (some g) dropped b there now h = h
  at_end-keeps k none phase b there now h = h

  happen-keeps : (e : Event) (b : Bridge) → P b → P (happen e b)
  unfolding happen start_go_task start_go_task_with_result cancel_go_task get_next_task_id
  happen-keeps (starts callback id) b h =
      guarded-keeps (λ b. (ok tt, started_plain callback id b)) b h (kept.on_start callback id b h)
  happen-keeps (starts_with_result callback id) b h =
      guarded-keeps (λ b. (ok tt, started_with_result callback id b)) b h
        (kept.on_start_with_result callback id b h)
  happen-keeps (cancels id) b h =
      guarded-keeps (λ b. (ok tt, cancelled_at id b)) b h (kept.on_cancel id b h)
  happen-keeps numbers b h =
      guarded-keeps (λ b. (ok (next_task b.go).0, numbered b)) b h (kept.on_number b h)
  happen-keeps (begins k) b h =
      at_begin-keeps k (b.go.goroutines k) (phase_of (b.go.goroutines k)) b refl refl h
  happen-keeps (comes_back k) b h =
      at_end-keeps k (b.go.goroutines k) (phase_of (b.go.goroutines k)) b refl refl h

  pub run-keeps : (events : List Event) (b : Bridge) → P b → P (run events b)
  unfolding run
  run-keeps [] b h = h
  run-keeps (e ∷ events) b h = run-keeps events (happen e b) (happen-keeps e b h)
