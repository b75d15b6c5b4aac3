-- ===== src/Connection/Alone.antt =====
-- What one call of `open` or `close` does from a settled state with no other call in progress.
use flockwave_conn.Common.{
  ◌≡◌, refl, Bool, true, false, List, [], ◌∷◌, ◌++◌, append_assoc, arith, if◌then◌else◌,
}
use flockwave_conn.Connection.State.{
  ConnectionState, disconnected, connecting, connected, disconnecting, state_eq, Connection, Signal,
  set_state,
}
use flockwave_conn.Connection.Calls.{
  Phase, open_called, close_called, returned, raised, Event, turn, hook_returns, hook_raises,
  System, advance, step, run,
}
use flockwave_conn.Connection.Signals.{IsFaithful, announce}

-- The connection as it stands in the state, with more signals sent.
abbrev pub settled : ConnectionState → List Signal → Connection → Connection
settled s sigs c = record {
  state = s;
  is_connected = state_eq s connected;
  is_disconnected = state_eq s disconnected;
  sent = c.sent ++ sigs;
}

abbrev pub hook_ends : Bool → Event
hook_ends ok = if ok then hook_returns else hook_raises

-- One call, its first turn and the end of the hook.
abbrev pub alone : Phase → Bool → Connection → System
alone p ok c = run ((0, turn) ∷ (0, hook_ends ok) ∷ []) (record { conn = c; calls = p ∷ [] })

-- Setting another state on a connection whose flags are right.
set_state-eq-settled :
    (t s : ConnectionState) (c : Connection)
    → c.state ≡ s
    → state_eq t s ≡ false
    → c.is_connected ≡ state_eq s connected
    → c.is_disconnected ≡ state_eq s disconnected
    → set_state t c ≡ settled t (announce s t) c
unfolding set_state
set_state-eq-settled t s c here differ up down = grind (arith, append_assoc)

-- Two changes one after the other.
set_state_twice :
    (u t s : ConnectionState) (c : Connection)
    → IsFaithful c
    → c.state ≡ s
    → state_eq t s ≡ false
    → state_eq u t ≡ false
    → set_state u (set_state t c) ≡ settled u (announce s t ++ announce t u) c
set_state_twice u t s c h here differ differ' =
    rw
      (set_state-eq-settled t s c here differ (rw (← here) h.connected_flag)
        (rw (← here) h.disconnected_flag))
      (rw (set_state-eq-settled u t (settled t (announce s t) c) refl differ' refl refl)
        (rw append_assoc))

module _ (c : Connection) (h : IsFaithful c) where
  -- With no other call in progress, `open` of a disconnected connection whose flags and signals are
  -- right goes through CONNECTING to CONNECTED and returns if the hook succeeds; it goes back to
  -- DISCONNECTED and raises if the hook raises. It sends the signals of these two changes.
  pub open_alone :
      c.state ≡ disconnected
      → (alone open_called true c ≡ record {
        conn =
            settled connected (announce disconnected connecting ++ announce connecting connected) c;
        calls = returned ∷ [];
      })
        × (alone open_called false c ≡ record {
          conn =
              settled disconnected
                (announce disconnected connecting ++ announce connecting disconnected)
                c;
          calls = raised ∷ [];
        })
  unfolding run step advance
  open_alone d = (
    ground (arith, d, set_state_twice connected connecting disconnected c h d refl refl),
    ground (arith, d, set_state_twice disconnected connecting disconnected c h d refl refl),
  )

  -- With no other call in progress, `close` of a connected connection whose flags and signals are
  -- right goes through DISCONNECTING to DISCONNECTED and returns if the hook succeeds; it goes back to
  -- CONNECTED and raises if the hook raises. It sends the signals of these two changes.
  pub close_alone :
      c.state ≡ connected
      → (alone close_called true c ≡ record {
        conn =
            settled disconnected
              (announce connected disconnecting ++ announce disconnecting disconnected)
              c;
        calls = returned ∷ [];
      })
        × (alone close_called false c ≡ record {
          conn =
              settled connected
                (announce connected disconnecting ++ announce disconnecting connected)
                c;
          calls = raised ∷ [];
        })
  unfolding run step advance
  close_alone d = (
    ground (arith, d, set_state_twice disconnected disconnecting connected c h d refl refl),
    ground (arith, d, set_state_twice connected disconnecting connected c h d refl refl),
  )
