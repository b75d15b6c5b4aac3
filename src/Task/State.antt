-- ===== src/Task/State.antt =====
-- TaskConnectionBase of src/flockwave/connections/base.py: a connection of which `_open` starts a task in a
-- nursery and `_close` cancels it. Its calls of `open` and `close` are those of Connection/Calls; here the
-- hooks have bodies, and end when the task lets them. A call is not cancelled inside a hook.
--
-- Tasks and events are known by their places in two lists. What a call awaits inside a hook is a task
-- (in `_open`, by `nursery.start`) or an event (in `_close`).
use flockwave_conn.Common.{
  ℕ, Bool, true, false, Option, none, some, List, [], ◌∷◌, ◌++◌, ◌==◌, get_elem?, set, length,
  if◌then◌else◌,
}
use flockwave_conn.Common.Results.{Fallible, ok, err}
use flockwave_conn.Connection.State.{new_connection, disconnected, state_eq}
use flockwave_conn.Connection.Calls.{
  Phase, open_called, opening, close_called, closing, returned, raised, Event, turn, hook_returns,
  hook_raises, cancel, System, step,
}

-- Where a task is: inside `_run`; behind it, in `await self.close()`, by the place of that call; or ended
-- by an exception of `_run`.
pub data Body : Type 0 where
  inside failed : Body
  closes : ℕ → Body

pub record Task : Type 0 where
  -- whether `_run` has called `started`
  pub started : Bool
  -- whether its cancel scope is cancelled
  pub cancelled : Bool
  pub body : Body

pub record TaskConnection : Type 0 where
  pub base : System
  pub awaited : ℕ → ℕ
  pub has_nursery : Bool
  pub cancel_scope : Option ℕ
  pub closed_event : Option ℕ
  pub tasks : List Task
  pub events : List Bool

abbrev pub new_task_connection : TaskConnection
new_task_connection = record {
  base = record { conn = new_connection; calls = [] };
  awaited = λ i. 0;
  has_nursery = false;
  cancel_scope = none;
  closed_event = none;
  tasks = [];
  events = [];
}

-- The RuntimeError of `assign_nursery`.
pub data NurseryError : Type 0 where
  not_closed : NurseryError

unfoldable pub assign_nursery : TaskConnection → Fallible NurseryError TaskConnection
assign_nursery s =
    if state_eq s.base.conn.state disconnected
    then ok (record s { has_nursery = true; cancel_scope = none; closed_event = none })
    else err not_closed

abbrev pub base_move : ℕ → Event → TaskConnection → TaskConnection
base_move i e s = record s { base = step (i, e) s.base }

abbrev pub awaits : ℕ → ℕ → TaskConnection → TaskConnection
awaits i n s = record s { awaited = λ j. if j == i then n else s.awaited j }

abbrev pub new_task : Task
new_task = record { started = false; cancelled = false; body = inside }

-- `_open`, up to its wait for the task.
unfoldable pub enter_open : ℕ → TaskConnection → TaskConnection
enter_open i s =
    if s.has_nursery
    then awaits i (length s.tasks) (record s {
      closed_event = some (length s.events);
      events = s.events ++ false ∷ [];
      tasks = s.tasks ++ new_task ∷ [];
    })
    else base_move i hook_raises s

unfoldable pub cancel_task : ℕ → Option Task → List Task → List Task
cancel_task t none tasks = tasks
cancel_task t (some task) tasks = set tasks t (record task { cancelled = true })

unfoldable pub wait_closed : ℕ → Option ℕ → TaskConnection → TaskConnection
wait_closed i none s = base_move i hook_returns s
wait_closed i (some e) s = awaits i e s

-- `_close`, up to its wait for the event: with no scope, or no event, it returns at once.
unfoldable pub enter_close : ℕ → Option ℕ → TaskConnection → TaskConnection
unfolding wait_closed cancel_task
enter_close i none s = base_move i hook_returns s
enter_close i (some t) s =
    wait_closed i s.closed_event
      (record s { cancel_scope = none; tasks = cancel_task t (get_elem? s.tasks t) s.tasks })

-- A call that has moved outside the hooks may have entered one.
unfoldable pub entered : Option Phase → ℕ → TaskConnection → TaskConnection
unfolding enter_open enter_close
entered (some opening) i s = enter_open i s
entered (some closing) i s = enter_close i s.cancel_scope s
entered _ i s = s

unfoldable pub has_ended : Option Phase → Bool
has_ended (some returned) = true
has_ended (some raised) = true
has_ended _ = false

-- `await self._nursery.start(...)`: the value that the task passes to `started`, or the end of a task that
-- has not called it.
unfoldable pub unstarted : Body → ℕ → TaskConnection → TaskConnection
unfolding has_ended
unstarted inside i s = s
unstarted failed i s = base_move i hook_raises s
unstarted (closes k) i s =
    if has_ended (get_elem? s.base.calls k) then base_move i hook_raises s else s

unfoldable pub opener_turn : Option Task → ℕ → TaskConnection → TaskConnection
unfolding unstarted
opener_turn none i s = s
opener_turn (some task) i s =
    if task.started
    then base_move i hook_returns (record s { cancel_scope = some (s.awaited i) })
    else unstarted task.body i s

-- `await self._closed_event.wait()`
unfoldable pub closer_turn : Option Bool → ℕ → TaskConnection → TaskConnection
closer_turn (some true) i s = base_move i hook_returns s
closer_turn _ i s = s

unfoldable pub turn_call : Option Phase → ℕ → TaskConnection → TaskConnection
unfolding opener_turn closer_turn entered
turn_call none i s = s
turn_call (some opening) i s = opener_turn (get_elem? s.tasks (s.awaited i)) i s
turn_call (some closing) i s = closer_turn (get_elem? s.events (s.awaited i)) i s
turn_call (some p) i s =
    let moved = base_move i turn s in entered (get_elem? moved.base.calls i) i moved

-- `if self._closed_event is not None: self._closed_event.set()`
unfoldable pub set_event : Option ℕ → TaskConnection → TaskConnection
set_event none s = s
set_event (some e) s = record s { events = set s.events e true }

abbrev pub make_call : Phase → TaskConnection → TaskConnection
make_call p s = record s { base = record s.base { calls = s.base.calls ++ p ∷ [] } }

-- The `finally` block of a task behind `_run`, and `await self.close()` up to where it may wait: nothing
-- runs in between.
unfoldable pub leave_run : ℕ → Task → TaskConnection → TaskConnection
unfolding set_event turn_call
leave_run t task s =
    let k = length s.base.calls in
    turn_call (some close_called) k (
      make_call close_called (
        set_event s.closed_event
          (record s { tasks = set s.tasks t (record task { body = closes k }) })))

unfoldable pub fail_run : ℕ → Task → TaskConnection → TaskConnection
unfolding set_event
fail_run t task s =
    set_event s.closed_event (record s { tasks = set s.tasks t (record task { body = failed }) })

-- What may happen inside `_run`.
pub data Happening : Type 0 where
  calls_started returns raises is_cancelled : Happening

unfoldable pub happen : Happening → ℕ → Task → TaskConnection → TaskConnection
unfolding leave_run fail_run
happen calls_started t task s = record s { tasks = set s.tasks t (record task { started = true }) }
happen returns t task s = leave_run t task s
happen raises t task s = fail_run t task s
happen is_cancelled t task s = if task.cancelled then leave_run t task s else s

unfoldable pub run_task : Happening → ℕ → Body → Task → TaskConnection → TaskConnection
unfolding happen
run_task h t inside task s = happen h t task s
run_task h t _ task s = s

unfoldable pub task_move : Happening → ℕ → Option Task → TaskConnection → TaskConnection
unfolding run_task
task_move h t none s = s
task_move h t (some task) s = run_task h t task.body task s

pub data Move : Type 0 where
  -- a call of `open` or `close` is made; a call runs; a wait of a call for a flag is cancelled
  open_made close_made : Move
  turns cancels : ℕ → Move
  in_task : Happening → ℕ → Move

unfoldable pub make_move : Move → TaskConnection → TaskConnection
unfolding turn_call task_move
make_move open_made s = make_call open_called s
make_move close_made s = make_call close_called s
make_move (turns i) s = turn_call (get_elem? s.base.calls i) i s
make_move (cancels i) s = base_move i cancel s
make_move (in_task h t) s = task_move h t (get_elem? s.tasks t) s

unfoldable pub make_moves : List Move → TaskConnection → TaskConnection
unfolding make_move
make_moves [] s = s
make_moves (m ∷ ms) s = make_moves ms (make_move m s)
