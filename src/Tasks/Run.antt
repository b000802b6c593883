-- ===== src/Tasks/Run.antt =====
-- `run_task_async` of pipebomb/utils.py.
use pipebomb.Base.{ℕ, List, [], ◌∷◌, ◌++◌, Bool, false, if◌then◌else◌, Option, none, some, length}
use pipebomb.Base.Result.{Result, ok, err}
use pipebomb.Base.Integer.{ℤ, minus_one}
use pipebomb.Gsyncio.Bridge.{Bridge, get_next_task_id, start_go_task_with_result}
use pipebomb.Tasks.Cancel.{CancelableTask}

-- A callback, by its number, and whether it is an `async def` function.
pub record Callback : Type 0 where
  pub number : ℕ
  pub is_coroutine : Bool

-- What an asyncio task does: it runs a coroutine, waits for a goroutine, or for a thread.
pub data Job : Type 0 where
  coroutine awaits_go to_thread : ℕ → Job

-- `_gsyncio_available`, the module gsyncio, and the tasks of the event loop, by their number.
pub record World : Type 0 where
  pub available : Bool
  pub bridge : Bridge
  pub jobs : List Job

abbrev pub Ran : Type 0
Ran = Result (CancelableTask ℕ) × World

-- `CancelableTask(loop.create_task(...), task_id)`
abbrev pub created : Job → Option ℤ → World → Ran
created job task_id w = (
  ok (record { asyncio_task = length w.jobs; task_id = task_id; cancelled = false }),
  record w { jobs = w.jobs ++ (job ∷ []) },
)

abbrev pub after_start : ℕ → ℤ → World → Result (Unit {0}) × Bridge → Ran
after_start callback tid w (err e, b) = (err e, record w { bridge = b })
after_start callback tid w (ok done, b) =
    created (awaits_go callback) (some tid) (record w { bridge = b })

abbrev pub after_number : ℕ → World → Result ℤ × Bridge → Ran
after_number callback w (err e, b) = (err e, record w { bridge = b })
after_number callback w (ok tid, b) =
    after_start callback tid w (start_go_task_with_result callback tid b)

unfoldable pub run_task_async : Callback → World → Ran
unfolding get_next_task_id start_go_task_with_result
run_task_async callback w =
    if callback.is_coroutine
    then created (coroutine callback.number) none w
    else if w.available
    then after_number callback.number w (get_next_task_id w.bridge)
    else created (to_thread callback.number) (some minus_one) w
