-- ===== src/Tasks.antt =====
-- The tasks of a server: `CancelableTask` and `run_task_async` of pipebomb/utils.py, and the start and
-- the stop of pipebomb/server.py.
pub mod Cancel
pub mod Stop
pub mod Run
pub mod Wrapped
pub mod Start
pub mod Lifetime
pub mod Fate
pub mod Results
