-- ===== src/Nursery/State.antt =====
-- TrioListenerBase of src/flockwave/listeners/base.py, of which `_open` starts an internal task and `_close`
-- cancels it. The calls of `open` and `close` are those of Listener/Calls; the hooks end when the task lets
-- them. A call is not cancelled inside a hook, and `_handle_exception` raises nothing.
--
-- Tasks and events are known by their places in two lists. A call inside `_open` awaits a task, one inside
-- `_close` an event.
use flockwave_conn.Common.{
  ℕ, Bool, true, false, Option, none, some, List, [], ◌∷◌, ◌++◌, ◌==◌, get_elem?, set, length,
  if◌then◌else◌,
}
use flockwave_conn.Connection.Calls.{
  Phase, open_called, opening, close_called, closing, Event, turn, hook_returns, hook_raises,
  cancel,
}
use flockwave_conn.Listener.State.{new_listener}
use flockwave_conn.Listener.Calls.{System, step}

-- A task is scheduled, inside `_run`, or over.
pub data Body : Type 0 where
  scheduled inside over : Body

pub record Task : Type 0 where
  pub started : Bool
  pub cancelled : Bool
  pub body : Body

pub record NurseryListener : Type 0 where
  pub base : System
  pub awaited : ℕ → ℕ
  pub has_nursery : Bool
  pub cancel_scope : Option ℕ
  pub task_exited : Option ℕ
  pub tasks : List Task
  pub events : List Bool

-- The constructor, with a nursery or without.
abbrev pub new_nursery_listener : Bool → NurseryListener
new_nursery_listener nursery = record {
  base = record { listener = new_listener; calls = [] };
  awaited = λ i. 0;
  has_nursery = nursery;
  cancel_scope = none;
  task_exited = none;
  tasks = [];
  events = [];
}

abbrev pub base_move : ℕ → Event → NurseryListener → NurseryListener
base_move i e s = record s { base = step (i, e) s.base }

abbrev pub awaits : ℕ → ℕ → NurseryListener → NurseryListener
awaits i n s = record s { awaited = λ j. if j == i then n else s.awaited j }

abbrev pub new_task : Task
new_task = record { started = false; cancelled = false; body = scheduled }

-- `_open`, up to its wait for the task.
unfoldable pub enter_open : ℕ → NurseryListener → NurseryListener
enter_open i s =
    if s.has_nursery
    then awaits i (length s.tasks) (record s { tasks = s.tasks ++ new_task ∷ [] })
    else base_move i hook_raises s

unfoldable pub cancel_task : ℕ → Option Task → List Task → List Task
cancel_task t none tasks = tasks
cancel_task t (some task) tasks = set tasks t (record task { cancelled = true })

unfoldable pub cancel_scope_of : Option ℕ → NurseryListener → NurseryListener
unfolding cancel_task
cancel_scope_of none s = s
cancel_scope_of (some t) s = record s {
  cancel_scope = none;
  tasks = cancel_task t (get_elem? s.tasks t) s.tasks;
}

unfoldable pub wait_exited : Option ℕ → ℕ → NurseryListener → NurseryListener
wait_exited none i s = base_move i hook_returns s
wait_exited (some e) i s = awaits i e s

-- `_close`, up to its wait for the event.
unfoldable pub enter_close : ℕ → NurseryListener → NurseryListener
unfolding cancel_scope_of wait_exited
enter_close i s = wait_exited s.task_exited i (cancel_scope_of s.cancel_scope s)

unfoldable pub entered : Option Phase → ℕ → NurseryListener → NurseryListener
unfolding enter_open enter_close
entered (some opening) i s = enter_open i s
entered (some closing) i s = enter_close i s
entered _ i s = s

-- `nursery.start` returns when the task has called `started`, and raises when it is over without that.
unfoldable pub unstarted : Body → ℕ → NurseryListener → NurseryListener
unstarted over i s = base_move i hook_raises s
unstarted _ i s = s

unfoldable pub opener_turn : Option Task → ℕ → NurseryListener → NurseryListener
unfolding unstarted
opener_turn none i s = s
opener_turn (some task) i s =
    if task.started then base_move i hook_returns s else unstarted task.body i s

unfoldable pub closer_turn : Option Bool → ℕ → NurseryListener → NurseryListener
closer_turn (some true) i s = base_move i hook_returns s
closer_turn _ i s = s

unfoldable pub turn_call : Option Phase → ℕ → NurseryListener → NurseryListener
unfolding opener_turn closer_turn entered
turn_call none i s = s
turn_call (some opening) i s = opener_turn (get_elem? s.tasks (s.awaited i)) i s
turn_call (some closing) i s = closer_turn (get_elem? s.events (s.awaited i)) i s
turn_call (some p) i s =
    let moved = base_move i turn s in entered (get_elem? moved.base.calls i) i moved

abbrev pub make_call : Phase → NurseryListener → NurseryListener
make_call p s = record s { base = record s.base { calls = s.base.calls ++ p ∷ [] } }

-- The first lines of `_run_internal_trio_task`.
unfoldable pub begin_task : ℕ → Task → NurseryListener → NurseryListener
begin_task t task s = record s {
  cancel_scope = some t;
  task_exited = some (length s.events);
  events = s.events ++ false ∷ [];
  tasks = set s.tasks t (record task { body = inside });
}

-- Its last two lines, behind the scope.
unfoldable pub set_exited : Option ℕ → NurseryListener → NurseryListener
set_exited none s = s
set_exited (some e) s = record s { events = set s.events e true }

unfoldable pub end_task : ℕ → Task → NurseryListener → NurseryListener
unfolding set_exited
end_task t task s =
    set_exited s.task_exited
      (record s { cancel_scope = none; tasks = set s.tasks t (record task { body = over }) })

-- What may happen to a task inside `_run`. An exception of `_run` is handled within.
pub data Happening : Type 0 where
  calls_started returns raises is_cancelled : Happening

-- `self._nursery.start_soon(self.close)`, unless the task is cancelled.
unfoldable pub happen : Happening → ℕ → Task → NurseryListener → NurseryListener
unfolding end_task
happen calls_started t task s = record s { tasks = set s.tasks t (record task { started = true }) }
happen returns t task s = end_task t task (make_call close_called s)
happen raises t task s = end_task t task (make_call close_called s)
happen is_cancelled t task s = if task.cancelled then end_task t task s else s

unfoldable pub run_task : Happening → ℕ → Body → Task → NurseryListener → NurseryListener
unfolding happen
run_task h t inside task s = happen h t task s
run_task h t _ task s = s

unfoldable pub task_move : Happening → ℕ → Option Task → NurseryListener → NurseryListener
unfolding run_task
task_move h t none s = s
task_move h t (some task) s = run_task h t task.body task s

begin_scheduled : Body → ℕ → Task → NurseryListener → NurseryListener
unfolding begin_task
begin_scheduled scheduled t task s = begin_task t task s
begin_scheduled _ t task s = s

unfoldable pub first_turn : ℕ → Option Task → NurseryListener → NurseryListener
unfolding begin_scheduled
first_turn t none s = s
first_turn t (some task) s = begin_scheduled task.body t task s

pub data Move : Type 0 where
  -- a call of `open` or `close` is made; a call runs; a wait of a call for a flag is cancelled
  open_made close_made : Move
  turns cancels : ℕ → Move
  -- a task runs for the first time; something happens to it
  begins : ℕ → Move
  in_task : Happening → ℕ → Move

unfoldable pub make_move : Move → NurseryListener → NurseryListener
unfolding turn_call task_move first_turn
make_move open_made s = make_call open_called s
make_move close_made s = make_call close_called s
make_move (turns i) s = turn_call (get_elem? s.base.calls i) i s
make_move (cancels i) s = base_move i cancel s
make_move (begins t) s = first_turn t (get_elem? s.tasks t) s
make_move (in_task h t) s = task_move h t (get_elem? s.tasks t) s

unfoldable pub make_moves : List Move → NurseryListener → NurseryListener
unfolding make_move
make_moves [] s = s
make_moves (m ∷ ms) s = make_moves ms (make_move m s)
