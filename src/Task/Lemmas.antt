-- ===== src/Task/Lemmas.antt =====
-- Single moves of a connection in a task.
use flockwave_conn.Common.{ℕ, ◌≡◌, refl, true, Option, none, some, get_elem?, set, length}
use flockwave_conn.Connection.Calls.{close_called}
use flockwave_conn.Task.State.{
  inside, failed, closes, Task, TaskConnection, returns, raises, is_cancelled, in_task, task_move,
  turn_call, set_event, make_call, make_move,
}

pub set_event_same :
    (e : Option ℕ) (s : TaskConnection)
    → ((set_event e s).base ≡ s.base)
      × ((set_event e s).tasks ≡ s.tasks)
      × ((set_event e s).awaited ≡ s.awaited)
unfolding set_event
set_event_same none s = (refl, refl, refl)
set_event_same (some e) s = (refl, refl, refl)

-- The moves of a task inside `_run`.
pub task_returns :
    (t : ℕ) (task : Task) (s : TaskConnection)
    → get_elem? s.tasks t ≡ some task
    → task.body ≡ inside
    → make_move (in_task returns t) s
      ≡ turn_call (some close_called) (length s.base.calls) (
          make_call close_called (
            set_event s.closed_event (record s {
              tasks = set s.tasks t (record task { body = closes (length s.base.calls) });
            })))
unfolding make_move task_move
task_returns t task s found body = rw (found, body)

pub task_raises :
    (t : ℕ) (task : Task) (s : TaskConnection)
    → get_elem? s.tasks t ≡ some task
    → task.body ≡ inside
    → make_move (in_task raises t) s
      ≡ set_event s.closed_event
          (record s { tasks = set s.tasks t (record task { body = failed }) })
unfolding make_move task_move
task_raises t task s found body = rw (found, body)

-- A task of which the scope is cancelled leaves its `_run`.
pub task_cancelled :
    (t : ℕ) (task : Task) (s : TaskConnection)
    → get_elem? s.tasks t ≡ some task
    → task.body ≡ inside
    → task.cancelled ≡ true
    → make_move (in_task is_cancelled t) s
      ≡ turn_call (some close_called) (length s.base.calls) (
          make_call close_called (
            set_event s.closed_event (record s {
              tasks = set s.tasks t (record task { body = closes (length s.base.calls) });
            })))
unfolding make_move task_move
task_cancelled t task s found body cancelled = rw (found, body, cancelled)
