-- ===== src/Connection/State.antt =====
-- ConnectionState, the fields of ConnectionBase, and `_set_state`
-- (src/flockwave/connections/base.py). The AsyncBool flags are the Booleans that they hold, and the
-- signals that were sent are kept in order. Signal handlers do not call back into the connection.
use flockwave_conn.Common.{Bool, true, false, not, ◌&&◌, ◌||◌, List, [], ◌∷◌, ◌++◌, if◌then◌else◌}

pub data ConnectionState : Type 0 where
  disconnected connecting connected disconnecting : ConnectionState

-- `==` and `is` on the states.
abbrev pub state_eq : ConnectionState → ConnectionState → Bool
state_eq disconnected disconnected = true
state_eq connecting connecting = true
state_eq connected connected = true
state_eq disconnecting disconnecting = true
state_eq _ _ = false

pub is_transitioning : ConnectionState → Bool
is_transitioning s = state_eq s connecting || state_eq s disconnecting

pub data Signal : Type 0 where
  state_changed : ConnectionState → ConnectionState → Signal
  connected_sent disconnected_sent : Signal

pub record Connection : Type 0 where
  pub state : ConnectionState
  pub is_connected : Bool
  pub is_disconnected : Bool
  pub sent : List Signal

abbrev pub new_connection : Connection
new_connection = record {
  state = disconnected;
  is_connected = false;
  is_disconnected = true;
  sent = [];
}

abbrev send : Signal → Connection → Connection
send sig c = record c { sent = c.sent ++ sig ∷ [] }

-- The four `if` statements of `_set_state`, in their order.
raise_connected : ConnectionState → Connection → Connection
raise_connected new c =
    if not c.is_connected && state_eq new connected
    then send connected_sent (record c { is_connected = true })
    else c

raise_disconnected : ConnectionState → Connection → Connection
raise_disconnected new c =
    if not c.is_disconnected && state_eq new disconnected
    then send disconnected_sent (record c { is_disconnected = true })
    else c

lower_connected : ConnectionState → Connection → Connection
lower_connected new c =
    if c.is_connected && not (state_eq new connected) then record c { is_connected = false } else c

lower_disconnected : ConnectionState → Connection → Connection
lower_disconnected new c =
    if c.is_disconnected && not (state_eq new disconnected)
    then record c { is_disconnected = false }
    else c

change_state : ConnectionState → Connection → Connection
unfolding raise_connected raise_disconnected lower_connected lower_disconnected
change_state new c = lower_disconnected new (
    lower_connected new (
      raise_disconnected new
        (raise_connected new (send (state_changed c.state new) (record c { state = new })))))

unfoldable pub set_state : ConnectionState → Connection → Connection
unfolding change_state
set_state new c = if state_eq new c.state then c else change_state new c
