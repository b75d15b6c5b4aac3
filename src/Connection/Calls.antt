-- ===== src/Connection/Calls.antt =====
-- `open` and `close` of ConnectionBase (src/flockwave/connections/base.py) as steps between two
-- checkpoints of the event loop, and a connection with any number of calls in progress.
--
-- A call is in one `Phase`. It moves when the scheduler runs it, or when the hook `_open` or
-- `_close` that it awaits ends. A call that waits for a flag is woken when the flag is up, and goes
-- on at a later turn: between the two, other calls may run.
use flockwave_conn.Common.{
  ℕ, Bool, true, false, Option, none, some, List, [], ◌∷◌, get_elem?, set, if◌then◌else◌,
}
use flockwave_conn.Connection.State.{
  ConnectionState, disconnected, connecting, connected, disconnecting, Connection, set_state,
}

pub data Phase : Type 0 where
  -- `open`: not begun; in `return await wait_until_connected()`; in `await
  -- wait_until_disconnected()`; woken from it; in `await _open()`
  open_called open_joins open_waits open_woken opening : Phase
  -- `close`, in the same way
  close_called close_joins close_waits close_woken closing : Phase
  returned raised : Phase

pub data Event : Type 0 where
  -- the scheduler runs the call; the awaited hook returns; it raises; a wait is cancelled
  turn hook_returns hook_raises cancel : Event

-- `_set_state(CONNECTING)`, up to the first checkpoint of `_open`.
abbrev begin_open : Connection → Phase × Connection
begin_open c = (opening, set_state connecting c)

abbrev begin_close : Connection → Phase × Connection
begin_close c = (closing, set_state disconnecting c)

-- The `if` ladder of `open`, by the state.
pub call_open : ConnectionState → Connection → Phase × Connection
call_open connected c = (returned, c)
call_open connecting c = (open_joins, c)
call_open disconnecting c = (open_waits, c)
call_open disconnected c = begin_open c

-- The `if` ladder of `close`, by the state.
pub call_close : ConnectionState → Connection → Phase × Connection
call_close disconnected c = (returned, c)
call_close disconnecting c = (close_joins, c)
call_close connecting c = (close_waits, c)
call_close connected c = begin_close c

-- The `finally` block of `open`: the hook has ended, with success or not.
finish_open : Bool → Connection → Phase × Connection
finish_open success c = (
  if success then returned else raised,
  set_state (if success then connected else disconnected) c,
)

finish_close : Bool → Connection → Phase × Connection
finish_close success c = (
  if success then returned else raised,
  set_state (if success then disconnected else connected) c,
)

-- One move of one call. What cannot happen in a phase changes nothing.
unfoldable pub advance : Event → Phase → Connection → Phase × Connection
unfolding call_open call_close finish_open finish_close
advance turn open_called c = call_open c.state c
advance turn open_joins c = (if c.is_connected then returned else open_joins, c)
advance turn open_waits c = (if c.is_disconnected then open_woken else open_waits, c)
advance turn open_woken c = begin_open c
advance turn close_called c = call_close c.state c
advance turn close_joins c = (if c.is_disconnected then returned else close_joins, c)
advance turn close_waits c = (if c.is_connected then close_woken else close_waits, c)
advance turn close_woken c = begin_close c
advance hook_returns opening c = finish_open true c
advance hook_returns closing c = finish_close true c
advance hook_raises opening c = finish_open false c
advance hook_raises closing c = finish_close false c
advance cancel open_joins c = (raised, c)
advance cancel open_waits c = (raised, c)
advance cancel close_joins c = (raised, c)
advance cancel close_waits c = (raised, c)
advance _ p c = (p, c)

-- A connection with the calls that were made on it.
pub record System : Type 0 where
  pub conn : Connection
  pub calls : List Phase

move : ℕ → Event → System → Option Phase → System
move i e s none = s
move i e s (some p) =
    let (p', c') = advance e p s.conn in record { conn = c'; calls = set s.calls i p' }

-- One move of the call at a place of the list.
unfoldable pub step : ℕ × Event → System → System
unfolding move
step (i, e) s = move i e s (get_elem? s.calls i)

-- A schedule: which call moves, and how, one after another.
unfoldable pub run : List (ℕ × Event) → System → System
run [] s = s
run (x ∷ xs) s = run xs (step x s)
