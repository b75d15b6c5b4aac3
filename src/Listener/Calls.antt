-- ===== src/Listener/Calls.antt =====
-- `open` and `close` of ListenerBase (src/flockwave/listeners/base.py) as steps between two
-- checkpoints of the event loop. The phases of a call and the events are those of connections.
use flockwave_conn.Common.{
  ℕ, Bool, true, false, Option, none, some, List, [], ◌∷◌, get_elem?, set, if◌then◌else◌,
}
use flockwave_conn.Connection.Calls.{
  Phase, open_called, open_joins, open_waits, open_woken, opening, close_called, close_joins,
  close_waits, close_woken, closing, returned, raised, Event, turn, hook_returns, hook_raises,
  cancel,
}
use flockwave_conn.Listener.State.{ListenerState, closed, preparing, opened, Listener, set_state}

abbrev begin_open : Listener → Phase × Listener
begin_open l = (opening, set_state preparing l)

abbrev begin_close : Listener → Phase × Listener
begin_close l = (closing, set_state ListenerState.closing l)

-- The `if` ladder of `open`, by the state.
pub call_open : ListenerState → Listener → Phase × Listener
call_open opened l = (returned, l)
call_open preparing l = (open_joins, l)
call_open ListenerState.closing l = (open_waits, l)
call_open closed l = begin_open l

-- The `if` ladder of `close`, by the state.
pub call_close : ListenerState → Listener → Phase × Listener
call_close closed l = (returned, l)
call_close ListenerState.closing l = (close_joins, l)
call_close preparing l = (close_waits, l)
call_close opened l = begin_close l

-- The `finally` block of `open`: the hook has ended, with success or not.
finish_open : Bool → Listener → Phase × Listener
finish_open success l =
    (if success then returned else raised, set_state (if success then opened else closed) l)

finish_close : Bool → Listener → Phase × Listener
finish_close success l =
    (if success then returned else raised, set_state (if success then closed else opened) l)

-- One move of one call. What cannot happen in a phase changes nothing.
unfoldable pub advance : Event → Phase → Listener → Phase × Listener
unfolding call_open call_close finish_open finish_close
advance turn open_called l = call_open l.state l
advance turn open_joins l = (if l.is_open then returned else open_joins, l)
advance turn open_waits l = (if l.is_closed then open_woken else open_waits, l)
advance turn open_woken l = begin_open l
advance turn close_called l = call_close l.state l
advance turn close_joins l = (if l.is_closed then returned else close_joins, l)
advance turn close_waits l = (if l.is_open then close_woken else close_waits, l)
advance turn close_woken l = begin_close l
advance hook_returns opening l = finish_open true l
advance hook_returns closing l = finish_close true l
advance hook_raises opening l = finish_open false l
advance hook_raises closing l = finish_close false l
advance cancel open_joins l = (raised, l)
advance cancel open_waits l = (raised, l)
advance cancel close_joins l = (raised, l)
advance cancel close_waits l = (raised, l)
advance _ p l = (p, l)

-- A listener with the calls that were made on it.
pub record System : Type 0 where
  pub listener : Listener
  pub calls : List Phase

move : ℕ → Event → System → Option Phase → System
move i e s none = s
move i e s (some p) =
    let (p', l') = advance e p s.listener in record { listener = l'; calls = set s.calls i p' }

-- One move of the call at a place of the list.
unfoldable pub step : ℕ × Event → System → System
unfolding move
step (i, e) s = move i e s (get_elem? s.calls i)

-- A schedule: which call moves, and how, one after another.
unfoldable pub run : List (ℕ × Event) → System → System
run [] s = s
run (x ∷ xs) s = run xs (step x s)
