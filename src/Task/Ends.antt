-- ===== src/Task/Ends.antt =====
-- How a connection in a task is closed by the end of the task.
use flockwave_conn.Common.{
  ℕ, ◌≡◌, refl, true, false, none, some, List, [], ◌∷◌, ◌++◌, get_elem?, set, length, arith,
  get_elem?-set_self, get_elem?-middle, set-middle, ◌==◌, if◌then◌else◌,
}
use flockwave_conn.Connection.State.{Connection, disconnected, connected, disconnecting, set_state}
use flockwave_conn.Connection.Calls.{
  Phase, close_called, closing, returned, turn, hook_returns, System, step, advance,
}
use flockwave_conn.Task.State.{
  inside, closes, Task, TaskConnection, returns, turns, in_task, turn_call, enter_close, awaits,
  set_event, make_move, make_moves,
}
use flockwave_conn.Task.Lemmas.{task_returns}

-- A connection that is CONNECTED, with a task inside `_run` behind it, and any calls.
pub record IsLive (t e : ℕ) (task : Task) (s : TaskConnection) : Type 0 where
  pub now : s.base.conn.state ≡ connected
  pub scope : s.cancel_scope ≡ some t
  pub event : s.closed_event ≡ some e
  pub unset : get_elem? s.events e ≡ some false
  pub found : get_elem? s.tasks t ≡ some task
  pub body : task.body ≡ inside

module _ (conn : Connection) (calls rest : List Phase) where
  abbrev pub with_call : Phase → Connection → System
  with_call p c = record { conn = c; calls = calls ++ p ∷ rest }

  step_begin :
      conn.state ≡ connected
      → step (length calls, turn) (with_call close_called conn)
        ≡ with_call closing (set_state disconnecting conn)
  unfolding step advance
  step_begin now = rw (get_elem?-middle, now, set-middle)

  step_end :
      step (length calls, hook_returns) (with_call closing conn)
      ≡ with_call returned (set_state disconnected conn)
  unfolding step advance
  step_end = rw (get_elem?-middle, set-middle)

  -- A call of the list moves.
  pub turn_at :
      (p : Phase) (s : TaskConnection)
      → s.base ≡ with_call p conn
      → make_move (turns (length calls)) s ≡ turn_call (some p) (length calls) s
  unfolding make_move
  turn_at p s base = rw (base, get_elem?-middle)

  -- The turn in which `close` cancels the task, and the one in which it finds the event set.
  pub begin_close :
      (t e : ℕ) (task : Task) (s : TaskConnection)
      → conn.state ≡ connected
      → s.base ≡ with_call close_called conn
      → s.cancel_scope ≡ some t
      → s.closed_event ≡ some e
      → get_elem? s.tasks t ≡ some task
      → turn_call (some close_called) (length calls) s
        ≡ awaits (length calls) e (record s {
          base = with_call closing (set_state disconnecting conn);
          cancel_scope = none;
          tasks = set s.tasks t (record task { cancelled = true });
        })
  unfolding turn_call enter_close
  begin_close t e task s now base scope event found =
      rw (base, step_begin now, get_elem?-middle, scope, event, found) refl

  pub end_close :
      (e : ℕ) (s : TaskConnection)
      → s.base ≡ with_call closing conn
      → s.awaited (length calls) ≡ e
      → get_elem? s.events e ≡ some true
      → make_move (turns (length calls)) s
        ≡ record s { base = with_call returned (set_state disconnected conn) }
  unfolding make_move turn_call
  end_close e s base awaited up = rw (base, get_elem?-middle, awaited, up, step_end) refl

pub if_self : (k a b : ℕ) → (if k == k then a else b) ≡ a
if_self k a b = ground arith

-- What the connection is like when a task has left its `_run`, and has called `close`.
left : ℕ → ℕ → Task → TaskConnection → TaskConnection
left t e task s = record s {
  base = record s.base { calls = s.base.calls ++ close_called ∷ [] };
  events = set s.events e true;
  tasks = set s.tasks t (record task { body = closes (length s.base.calls) });
}

returns_live :
    (t e : ℕ) (task : Task) (s : TaskConnection)
    → IsLive t e task s
    → make_move (in_task returns t) s
      ≡ turn_call (some close_called) (length s.base.calls) (left t e task s)
unfolding left set_event
returns_live t e task s h = rw (task_returns t task s h.found h.body, h.event) refl

-- When the task of a CONNECTED connection ends by returning from `_run`, its own `close` makes the
-- connection DISCONNECTED at its next turn: the call returns, the scope is given up, and the other calls
-- are as before.
pub returned_run_closes :
    (t e : ℕ) (task : Task) (s : TaskConnection)
    → IsLive t e task s
    → let k = length s.base.calls in
      let s' = make_moves (in_task returns t ∷ turns k ∷ []) s in
      (s'.base.conn ≡ set_state disconnected (set_state disconnecting s.base.conn))
      × (s'.base.calls ≡ s.base.calls ++ returned ∷ [])
      × (s'.cancel_scope ≡ none)
      × (get_elem? s'.tasks t ≡ some (record task { cancelled = true; body = closes k }))
unfolding make_moves
returned_run_closes t e task s h =
    let gone : Task = record task { body = closes (length s.base.calls) } in
    let out = left t e task s in
    let at_close =
      begin_close s.base.conn s.base.calls [] t e gone out h.now (unfold left in refl)
        (unfold left in h.scope) (unfold left in h.event)
        (unfold left in get_elem?-set_self s.tasks t gone h.found) in
    let k = length s.base.calls in
    let mid : TaskConnection = awaits k e (record out {
      base = with_call s.base.conn s.base.calls [] closing (set_state disconnecting s.base.conn);
      cancel_scope = none;
      tasks = set out.tasks t (record gone { cancelled = true });
    }) in
    let at_end =
      end_close (set_state disconnecting s.base.conn) s.base.calls [] e mid refl
        (if_self k e (out.awaited k)) (unfold left in get_elem?-set_self s.events e true h.unset) in
    rw (returns_live t e task s h, at_close, at_end)
      (
        refl,
        refl,
        refl,
        unfold left in
            get_elem?-set_self (set s.tasks t gone) t (record gone { cancelled = true })
              (get_elem?-set_self s.tasks t gone h.found),
      )
