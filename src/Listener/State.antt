-- ===== src/Listener/State.antt =====
-- ListenerState, the fields of ListenerBase, and `_set_state`
-- (src/flockwave/listeners/base.py). The AsyncBool flags are the Booleans that they hold, and the
-- signals that were sent are kept in order. Signal handlers do not call back into the listener.
use flockwave_conn.Common.{Bool, true, false, not, ◌&&◌, ◌||◌, List, [], ◌∷◌, ◌++◌, if◌then◌else◌}

pub data ListenerState : Type 0 where
  closed preparing opened closing : ListenerState

-- `==` and `is` on the states.
abbrev pub state_eq : ListenerState → ListenerState → Bool
state_eq closed closed = true
state_eq preparing preparing = true
state_eq opened opened = true
state_eq closing closing = true
state_eq _ _ = false

pub is_transitioning : ListenerState → Bool
is_transitioning s = state_eq s preparing || state_eq s closing

pub data Signal : Type 0 where
  state_changed : ListenerState → ListenerState → Signal
  opened_sent closed_sent : Signal

pub record Listener : Type 0 where
  pub state : ListenerState
  pub is_open : Bool
  pub is_closed : Bool
  pub sent : List Signal

abbrev pub new_listener : Listener
new_listener = record { state = closed; is_open = false; is_closed = true; sent = [] }

abbrev send : Signal → Listener → Listener
send sig l = record l { sent = l.sent ++ sig ∷ [] }

-- The four `if` statements of `_set_state`, in their order.
raise_open : ListenerState → Listener → Listener
raise_open new l =
    if not l.is_open && state_eq new opened
    then send opened_sent (record l { is_open = true })
    else l

raise_closed : ListenerState → Listener → Listener
raise_closed new l =
    if not l.is_closed && state_eq new closed
    then send closed_sent (record l { is_closed = true })
    else l

lower_open : ListenerState → Listener → Listener
lower_open new l =
    if l.is_open && not (state_eq new opened) then record l { is_open = false } else l

lower_closed : ListenerState → Listener → Listener
lower_closed new l =
    if l.is_closed && not (state_eq new closed) then record l { is_closed = false } else l

change_state : ListenerState → Listener → Listener
unfolding raise_open raise_closed lower_open lower_closed
change_state new l = lower_closed new (
    lower_open new (
      raise_closed new
        (raise_open new (send (state_changed l.state new) (record l { state = new })))))

unfoldable pub set_state : ListenerState → Listener → Listener
unfolding change_state
set_state new l = if state_eq new l.state then l else change_state new l
