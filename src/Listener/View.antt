-- ===== src/Listener/View.antt =====
-- A listener goes through its life as a connection does: what holds of the one holds of the other.
use flockwave_conn.Common.{
  ℕ, ◌≡◌, refl, ap, List, [], ◌∷◌, arith, map, get_elem?, Option-cases, inl, inr, ◌∙◌,
}
use mathlib.Core.List.{map-append}
use flockwave_conn.Connection.State as Conn
use flockwave_conn.Connection.State.{
  ConnectionState, disconnected, connecting, connected, disconnecting, Connection,
}
use flockwave_conn.Connection.Calls as ConnCalls
use flockwave_conn.Connection.Calls.{
  Phase, open_called, open_joins, open_waits, open_woken, opening, close_called, close_joins,
  close_waits, close_woken, closing, returned, raised, Event, turn, hook_returns, hook_raises,
  cancel,
}
use flockwave_conn.Listener.State.{
  ListenerState, closed, preparing, opened, Signal, state_changed, opened_sent, closed_sent,
  Listener, set_state, state_eq,
}
use flockwave_conn.Listener.Calls.{System, advance, step, run}

abbrev pub view_state : ListenerState → ConnectionState
view_state closed = disconnected
view_state preparing = connecting
view_state opened = connected
view_state ListenerState.closing = disconnecting

abbrev pub view_signal : Signal → Conn.Signal
view_signal (state_changed old new) = Conn.state_changed (view_state old) (view_state new)
view_signal opened_sent = Conn.connected_sent
view_signal closed_sent = Conn.disconnected_sent

-- The listener in the words of connections.
abbrev pub view : Listener → Connection
view l = record {
  state = view_state l.state;
  is_connected = l.is_open;
  is_disconnected = l.is_closed;
  sent = map view_signal l.sent;
}

abbrev pub view_system : System → ConnCalls.System
view_system s = record { conn = view s.listener; calls = s.calls }

state_eq-view : (s t : ListenerState) → Conn.state_eq (view_state s) (view_state t) ≡ state_eq s t
state_eq-view s t = ground arith

view-set_state :
    (new : ListenerState) (l : Listener)
    → view (set_state new l) ≡ Conn.set_state (view_state new) (view l)
unfolding set_state Conn.set_state
view-set_state new l = grind (arith, map-append)

-- The `if` ladders and the `finally` blocks agree, through the view.
abbrev Agree : Phase × Listener → Phase × Connection → Type 0
Agree a b = (a.0 ≡ b.0) × (view a.1 ≡ b.1)

view-advance :
    (e : Event) (p : Phase) (l : Listener) → Agree (advance e p l) (ConnCalls.advance e p (view l))
unfolding advance ConnCalls.advance
view-advance turn p l = grind (arith, view-set_state)
view-advance hook_returns p l = grind (arith, view-set_state)
view-advance hook_raises p l = grind (arith, view-set_state)
view-advance cancel p l = grind (arith, view-set_state)

view-step : (x : ℕ × Event) (s : System) → view_system (step x s) ≡ ConnCalls.step x (view_system s)
unfolding step ConnCalls.step
view-step (i, e) s = elim (Option-cases (get_elem? s.calls i)) [
  | inl missing ↦ rw missing
  | inr (p, found) ↦ rw found (let (same, seen) = view-advance e p s.listener in cc)
]

-- A listener and its calls, read in the words of connections, move as a connection and its calls
-- do, whatever the schedule.
pub view-run :
    (schedule : List (ℕ × Event)) (s : System)
    → view_system (run schedule s) ≡ ConnCalls.run schedule (view_system s)
unfolding run ConnCalls.run
view-run [] s = refl
view-run (x ∷ xs) s = view-run xs (step x s) ∙ ap (ConnCalls.run xs) (view-step x s)
