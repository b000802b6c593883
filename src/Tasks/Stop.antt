-- ===== src/Tasks/Stop.antt =====
-- `stop` of pipebomb/server.py.
use pipebomb.Base.{ℕ, List, [], ◌∷◌, ◌≡◌, refl, ap, ◌∙◌, Bool, true, All, arith}
use pipebomb.Base.Result.{Result, ok, err}
use pipebomb.Server.State.{Server}
use pipebomb.Gsyncio.Bridge.{Bridge}
use pipebomb.Tasks.Cancel.{
  TaskLibrary, CancelableTask, Cancelling, cancel, cancel-cancelled, cancel-done,
}

-- A server with its listening socket and its tasks.
pub record Running (A : Type 0) : Type 0 where
  pub server : Server
  pub socket : ℕ
  pub tasks : List (CancelableTask A)
  pub multithreaded : Bool

-- The outcome of the loop over the tasks, the tasks, and the Go library.
abbrev pub Loop : Type 0 → Type 0
Loop A = Result (Unit {0}) × List (CancelableTask A) × Bridge

module _ {A : Type 0} (library : TaskLibrary A) where
  -- `t.cancel()` for one task, and then for the others; an exception ends the loop.
  abbrev pub after_cancel : Cancelling A → List (CancelableTask A) → (Bridge → Loop A) → Loop A
  after_cancel (err e, t, b) rest others = (err e, t ∷ rest, b)
  after_cancel (ok answer, t, b) rest others = let (r, ts, c) = others b in (r, t ∷ ts, c)

  unfoldable pub cancel_all : List (CancelableTask A) → Bridge → Loop A
  unfolding cancel
  cancel_all [] b = (ok tt, [], b)
  cancel_all (t ∷ tasks) b = after_cancel (cancel library t b) tasks (cancel_all tasks)

  -- The tables are cleared, and then the tasks are cancelled.
  abbrev pub cleared : Running A → Running A
  cleared r = record r {
    server = record r.server {
      closed = r.socket ∷ r.server.closed;
      client_db = [];
      address_book = [];
      db = [];
    };
  }

  abbrev stopped_with : Running A → Loop A → Result (Unit {0}) × Running A × Bridge
  stopped_with r (outcome, tasks, b) = (outcome, record (cleared r) { tasks = tasks }, b)

  unfoldable pub stop : Running A → Bridge → Result (Unit {0}) × Running A × Bridge
  unfolding cancel_all
  stop r b = stopped_with r (cancel_all r.tasks b)

  abbrev pub AllCancelled : List (CancelableTask A) → Type 0
  AllCancelled = All (λ t. t.cancelled ≡ true)

  after_cancel-AllCancelled :
      (c : Cancelling A) (rest : List (CancelableTask A)) (others : Bridge → Loop A)
      → c.1.cancelled ≡ true
      → ((b : Bridge) → (others b).0 ≡ ok tt → AllCancelled (others b).1)
      → (after_cancel c rest others).0 ≡ ok tt
      → AllCancelled (after_cancel c rest others).1
  after_cancel-AllCancelled (err e, t, b) rest others h more came = absurd (ground arith)
  after_cancel-AllCancelled (ok answer, t, b) rest others h more came = (h, more b came)

  pub cancel_all-AllCancelled :
      (tasks : List (CancelableTask A)) (b : Bridge)
      → (cancel_all tasks b).0 ≡ ok tt
      → AllCancelled (cancel_all tasks b).1
  unfolding cancel_all
  cancel_all-AllCancelled [] b came = tt
  cancel_all-AllCancelled (t ∷ tasks) b came =
      after_cancel-AllCancelled (cancel library t b) tasks (cancel_all tasks)
        (cancel-cancelled library t b) (cancel_all-AllCancelled tasks) came

  cancel_all-done :
      (tasks : List (CancelableTask A)) (b : Bridge)
      → AllCancelled tasks
      → cancel_all tasks b ≡ (ok tt, tasks, b)
  unfolding cancel_all
  cancel_all-done [] b h = refl
  cancel_all-done (t ∷ tasks) b h =
      ap (λ c. after_cancel c tasks (cancel_all tasks)) (cancel-done library t b h.0)
      ∙ ap (λ (r : Loop A). (r.0, t ∷ r.1, r.2)) (cancel_all-done tasks b h.1)

  -- Stopping a server that was stopped without an exception comes through, asks no task again, and
  -- changes nothing but that it closes the listening socket once more.
  pub stop-stop :
      (r : Running A) (b : Bridge)
      → (stop r b).0 ≡ ok tt
      → stop (stop r b).1 (stop r b).2 ≡ (ok tt, cleared (stop r b).1, (stop r b).2)
  unfolding stop
  stop-stop r b came = ap (stopped_with (stop r b).1) (
      cancel_all-done (cancel_all r.tasks b).1 (stop r b).2
        (cancel_all-AllCancelled r.tasks b came))
