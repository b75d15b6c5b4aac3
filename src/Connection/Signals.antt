-- ===== src/Connection/Signals.antt =====
-- The flags and the signals follow the state, whatever the calls and their order.
use flockwave_conn.Common.{
  ℕ, ◌≡◌, refl, ◌≢◌, true, false, List, [], ◌∷◌, ◌++◌, append_assoc, arith, get_elem?, Bool-cases,
  Option-cases, ◌⊎◌, inl, inr,
}
use flockwave_conn.Connection.State.{
  ConnectionState, disconnected, connecting, connected, disconnecting, state_eq, Signal,
  state_changed, connected_sent, disconnected_sent, Connection, set_state,
}
use flockwave_conn.Connection.Calls.{
  Phase, open_called, open_joins, open_waits, open_woken, opening, close_called, close_joins,
  close_waits, close_woken, closing, Event, turn, hook_returns, hook_raises, cancel, System,
  call_open, call_close, advance, step, run,
}

-- What one change of the state sends: `state_changed`, and then `connected` or `disconnected` if
-- that is the new state.
abbrev pub announce : ConnectionState → ConnectionState → List Signal
announce old connected = state_changed old connected ∷ connected_sent ∷ []
announce old disconnected = state_changed old disconnected ∷ disconnected_sent ∷ []
announce old new = state_changed old new ∷ []

-- The lists of signals that a connection may have sent by the time that it is in a state: a chain
-- of changes from DISCONNECTED, each to another state, each announced in full.
pub data Log : ConnectionState → List Signal → Type 0 where
  silent : Log disconnected []
  changed :
      {old : ConnectionState} {l l' : List Signal} (new : ConnectionState)
      → Log old l
      → new ≢ old
      → l' ≡ l ++ announce old new
      → Log new l'

pub record IsFaithful (c : Connection) : Type 0 where
  pub connected_flag : c.is_connected ≡ state_eq c.state connected
  pub disconnected_flag : c.is_disconnected ≡ state_eq c.state disconnected
  pub log : Log c.state c.sent

pub state_eq-ne : (s t : ConnectionState) → state_eq s t ≡ false → s ≢ t
state_eq-ne s t h = ground arith

pub state-set_state : (new : ConnectionState) (c : Connection) → (set_state new c).state ≡ new
unfolding set_state
state-set_state new c = ground arith

module _ (new : ConnectionState) (c : Connection) (up : c.is_connected ≡ state_eq c.state connected)
    (down : c.is_disconnected ≡ state_eq c.state disconnected) where
  flags-set_state :
      ((set_state new c).is_connected ≡ state_eq new connected)
      × ((set_state new c).is_disconnected ≡ state_eq new disconnected)
  unfolding set_state
  flags-set_state = ground arith

  sent-set_state :
      state_eq new c.state ≡ false → (set_state new c).sent ≡ c.sent ++ announce c.state new
  unfolding set_state
  sent-set_state differ = grind (arith, append_assoc)

-- A call that sets the state it finds changes nothing.
set_state_self :
    (new : ConnectionState) (c : Connection) → state_eq new c.state ≡ true → set_state new c ≡ c
unfolding set_state
set_state_self new c same = rw same

pub set_state-IsFaithful :
    (new : ConnectionState) (c : Connection) → IsFaithful c → IsFaithful (set_state new c)
set_state-IsFaithful new c h = elim (Bool-cases (state_eq new c.state)) [
  | inl same ↦ rw (set_state_self new c same) h
  | inr differ ↦ record {
    connected_flag =
        rw state-set_state (flags-set_state new c h.connected_flag h.disconnected_flag).0;
    disconnected_flag =
        rw state-set_state (flags-set_state new c h.connected_flag h.disconnected_flag).1;
    log = rw state-set_state (
        changed new h.log (state_eq-ne new c.state differ)
          (sent-set_state new c h.connected_flag h.disconnected_flag differ));
  }
]

-- A move leaves the connection alone, or sets its state to some value.
advance-conn :
    (e : Event) (p : Phase) (c : Connection)
    → ((advance e p c).1 ≡ c) ⊎ ((new : ConnectionState) × ((advance e p c).1 ≡ set_state new c))
unfolding advance
advance-conn turn open_called c = call_open-conn c.state
  where
    call_open-conn :
        (s : ConnectionState)
        → ((call_open s c).1 ≡ c)
          ⊎ ((new : ConnectionState) × ((call_open s c).1 ≡ set_state new c))
    call_open-conn disconnected = inr (connecting, refl)
    call_open-conn _ = inl refl
advance-conn turn close_called c = call_close-conn c.state
  where
    call_close-conn :
        (s : ConnectionState)
        → ((call_close s c).1 ≡ c)
          ⊎ ((new : ConnectionState) × ((call_close s c).1 ≡ set_state new c))
    call_close-conn connected = inr (disconnecting, refl)
    call_close-conn _ = inl refl
advance-conn turn open_woken c = inr (connecting, refl)
advance-conn turn close_woken c = inr (disconnecting, refl)
advance-conn hook_returns opening c = inr (connected, refl)
advance-conn hook_returns closing c = inr (disconnected, refl)
advance-conn hook_raises opening c = inr (disconnected, refl)
advance-conn hook_raises closing c = inr (connected, refl)
advance-conn cancel open_joins c = inl refl
advance-conn cancel open_waits c = inl refl
advance-conn cancel close_joins c = inl refl
advance-conn cancel close_waits c = inl refl
advance-conn _ p c = inl refl

pub step-IsFaithful : (x : ℕ × Event) (s : System) → IsFaithful s.conn → IsFaithful (step x s).conn
unfolding step
step-IsFaithful (i, e) s h = elim (Option-cases (get_elem? s.calls i)) [
  | inl missing ↦ rw missing h
  | inr (p, found) ↦ rw found (elim (advance-conn e p s.conn) [
    | inl same ↦ rw same h
    | inr (new, set_to) ↦ rw set_to (set_state-IsFaithful new s.conn h)
  ])
]

-- Whatever calls of `open` and `close` run on a connection, and in whatever order they move, the
-- flags say which state it is in, and the signals that were sent are the full announcements of a
-- chain of state changes that leads from DISCONNECTED to that state.
pub run-IsFaithful :
    (schedule : List (ℕ × Event)) (s : System)
    → IsFaithful s.conn
    → IsFaithful (run schedule s).conn
unfolding run
run-IsFaithful [] s h = h
run-IsFaithful (x ∷ xs) s h = run-IsFaithful xs (step x s) (step-IsFaithful x s h)
