-- ===== src/Nursery/Ends.antt =====
-- How a listener in a nursery is closed: by the end of its task, and by a call of `close`.
use flockwave_conn.Common.{
  ℕ, ◌≡◌, refl, true, false, none, some, List, [], ◌∷◌, ◌++◌, get_elem?, set, length, arith,
  get_elem?-set_self, get_elem?-middle, set-middle, ◌==◌, if◌then◌else◌, ◌⊎◌, inl, inr,
}
use flockwave_conn.Listener.State.{Listener, closed, opened, closing, set_state}
use flockwave_conn.Listener.Calls.{System, step, advance}
use flockwave_conn.Connection.Calls as Conn
use flockwave_conn.Connection.Calls.{Phase, close_called, returned, turn, hook_returns}
use flockwave_conn.Nursery.State.{
  inside, over, Task, NurseryListener, Happening, returns, raises, is_cancelled, close_made, turns,
  in_task, turn_call, enter_close, awaits, end_task, task_move, make_call, make_move, make_moves,
}

-- A listener that is OPEN, with a task inside `_run` behind it, and any calls.
pub record IsLive (t e : ℕ) (task : Task) (s : NurseryListener) : Type 0 where
  pub now : s.base.listener.state ≡ opened
  pub scope : s.cancel_scope ≡ some t
  pub event : s.task_exited ≡ some e
  pub unset : get_elem? s.events e ≡ some false
  pub found : get_elem? s.tasks t ≡ some task
  pub body : task.body ≡ inside

-- Behind `_run`, but for a cancellation.
abbrev pub EndsRun : Happening → Type 0
EndsRun h = (h ≡ returns) ⊎ (h ≡ raises)

-- What a task leaves at its end.
abbrev left : ℕ → ℕ → Task → NurseryListener → NurseryListener
left t e task s = record s {
  cancel_scope = none;
  events = set s.events e true;
  tasks = set s.tasks t (record task { body = over });
}

end_task-left :
    (t e : ℕ) (task : Task) (s : NurseryListener)
    → s.task_exited ≡ some e
    → end_task t task s ≡ left t e task s
unfolding end_task
end_task-left t e task s event = rw event refl

ends_live :
    (h : Happening) (t e : ℕ) (task : Task) (s : NurseryListener)
    → EndsRun h
    → IsLive t e task s
    → make_move (in_task h t) s ≡ left t e task (make_call close_called s)
unfolding make_move task_move
ends_live h t e task s (inl r) live =
    rw (r, live.found, live.body) (end_task-left t e task (make_call close_called s) live.event)
ends_live h t e task s (inr r) live =
    rw (r, live.found, live.body) (end_task-left t e task (make_call close_called s) live.event)

cancelled_ends :
    (t e : ℕ) (task : Task) (s : NurseryListener)
    → get_elem? s.tasks t ≡ some task
    → task.body ≡ inside
    → task.cancelled ≡ true
    → s.task_exited ≡ some e
    → make_move (in_task is_cancelled t) s ≡ left t e task s
unfolding make_move task_move
cancelled_ends t e task s found body cancelled event =
    rw (found, body, cancelled) (unfold end_task in rw event refl)

if_self : (k a b : ℕ) → (if k == k then a else b) ≡ a
if_self k a b = ground arith

module _ (l : Listener) (calls : List Phase) where
  abbrev with_call : Phase → Listener → System
  with_call p l' = record { listener = l'; calls = calls ++ p ∷ [] }

  step_begin :
      l.state ≡ opened
      → step (length calls, turn) (with_call close_called l)
        ≡ with_call Conn.closing (set_state closing l)
  unfolding step advance
  step_begin now = rw (get_elem?-middle, now, set-middle)

  step_end :
      step (length calls, hook_returns) (with_call Conn.closing l)
      ≡ with_call returned (set_state closed l)
  unfolding step advance
  step_end = rw (get_elem?-middle, set-middle)

  -- The turn in which `close` enters `_close`, and the one in which it finds the event set.
  begin_close :
      (s : NurseryListener)
      → l.state ≡ opened
      → s.base ≡ with_call close_called l
      → make_move (turns (length calls)) s
        ≡ enter_close
            (length calls)
            (record s { base = with_call Conn.closing (set_state closing l) })
  unfolding make_move turn_call
  begin_close s now base = rw (base, get_elem?-middle, step_begin now, get_elem?-middle) refl

  end_close :
      (e : ℕ) (s : NurseryListener)
      → s.base ≡ with_call Conn.closing l
      → s.awaited (length calls) ≡ e
      → get_elem? s.events e ≡ some true
      → make_move (turns (length calls)) s
        ≡ record s { base = with_call returned (set_state closed l) }
  unfolding make_move turn_call
  end_close e s base awaited up = rw (base, get_elem?-middle, awaited, up, step_end) refl

-- When the task of an OPEN listener ends, by returning from `_run` or by an exception of it, two turns of
-- the `close` that it spawns make the listener CLOSED: that call returns, and the other calls are as
-- before.
pub ended_task_closes :
    (h : Happening) (t e : ℕ) (task : Task) (s : NurseryListener)
    → EndsRun h
    → IsLive t e task s
    → let k = length s.base.calls in
      let s' = make_moves (in_task h t ∷ turns k ∷ turns k ∷ []) s in
      (s'.base.listener ≡ set_state closed (set_state closing s.base.listener))
      × (s'.base.calls ≡ s.base.calls ++ returned ∷ [])
      × (s'.cancel_scope ≡ none)
unfolding make_moves
ended_task_closes h t e task s how live =
    let k = length s.base.calls in
    let l = set_state closing s.base.listener in
    let out = left t e task (make_call close_called s) in
    let entering : NurseryListener = record out {
      base = with_call s.base.listener s.base.calls Conn.closing l;
    } in
    let at_close = begin_close s.base.listener s.base.calls out live.now refl in
    let waiting : enter_close k entering ≡ awaits k e entering =
      unfold enter_close in rw (live.event) refl in
    let at_end =
      end_close l s.base.calls e (awaits k e entering) refl (if_self k e (s.awaited k))
        (get_elem?-set_self s.events e true live.unset) in
    rw (ends_live h t e task s how live, at_close, waiting, at_end) (refl, refl, refl)

-- A call of `close` on an OPEN listener, when the task then ends by the cancellation: two turns of the
-- call, before and after that, make the listener CLOSED, and the call returns. The task is over, and
-- no other call was made.
close_ends_the_task :
    (t e : ℕ) (task : Task) (s : NurseryListener)
    → IsLive t e task s
    → let k = length s.base.calls in
      let s' = make_moves (close_made ∷ turns k ∷ in_task is_cancelled t ∷ turns k ∷ []) s in
      (s'.base.listener ≡ set_state closed (set_state closing s.base.listener))
      × (s'.base.calls ≡ s.base.calls ++ returned ∷ [])
      × (s'.cancel_scope ≡ none)
      × (get_elem? s'.tasks t ≡ some (record task { cancelled = true; body = over }))
unfolding make_moves
close_ends_the_task t e task s live =
    let k = length s.base.calls in
    let l = set_state closing s.base.listener in
    let doomed : Task = record task { cancelled = true } in
    let entering : NurseryListener = record s {
      base = with_call s.base.listener s.base.calls Conn.closing l;
    } in
    let mid : NurseryListener =
      awaits k e (record entering { cancel_scope = none; tasks = set s.tasks t doomed }) in
    let at_close =
      begin_close s.base.listener s.base.calls (make_call close_called s) live.now refl in
    let waiting : enter_close k entering ≡ mid =
      unfold enter_close in rw (live.scope, live.found, live.event) refl in
    let found = get_elem?-set_self s.tasks t doomed live.found in
    let ends = cancelled_ends t e doomed mid found live.body refl live.event in
    let at_end =
      end_close l s.base.calls e (left t e doomed mid) refl (if_self k e (s.awaited k))
        (get_elem?-set_self s.events e true live.unset) in
    rw (at_close, waiting, ends, at_end)
      (
        refl,
        refl,
        refl,
        get_elem?-set_self (set s.tasks t doomed) t (record doomed { body = over }) found,
      )
