-- ===== src/Connection/Tests.antt =====
-- Calls of `open` and `close` on one connection, in orders that show what the results say.
use flockwave_conn.Common.{ℕ, ◌≡◌, refl, true, false, List, [], ◌∷◌, ◌++◌, inl, inr, arith}
use flockwave_conn.Connection.State.{
  disconnected, connecting, connected, disconnecting, Connection, new_connection, set_state,
}
use flockwave_conn.Connection.Calls.{
  open_called, open_joins, open_woken, opening, close_called, close_waits, returned, raised, Event,
  turn, hook_returns, hook_raises, System, advance, step, run,
}
use flockwave_conn.Connection.Signals.{
  IsFaithful, silent, announce, set_state-IsFaithful, run-IsFaithful,
}
use flockwave_conn.Connection.Hooks.{IsAttended, run-IsAttended}
use flockwave_conn.Connection.Exclusion.{IsExclusive, IsDirect, run-IsExclusive}
use flockwave_conn.Connection.Alone.{settled, alone, open_alone, close_alone}
use flockwave_conn.Connection.Races.{run_failed_open}

abbrev open_and_close : System
open_and_close = record { conn = new_connection; calls = open_called ∷ close_called ∷ [] }

-- `open` begins, `close` waits for it, `open` ends; `close` is woken and closes.
abbrev one_after_another : List (ℕ × Event)
one_after_another =
    (0, turn) ∷ (1, turn) ∷ (0, hook_returns) ∷ (1, turn) ∷ (1, turn) ∷ (1, hook_returns) ∷ []

new_connection-IsFaithful : IsFaithful new_connection
new_connection-IsFaithful = record { connected_flag = refl; disconnected_flag = refl; log = silent }

ends_disconnected :
    ((run one_after_another open_and_close).conn.state ≡ disconnected)
    × ((run one_after_another open_and_close).calls ≡ returned ∷ returned ∷ [])
unfolding run step advance set_state
ends_disconnected = (refl, refl)

run-IsFaithful_example : IsFaithful (run one_after_another open_and_close).conn
run-IsFaithful_example = run-IsFaithful one_after_another open_and_close new_connection-IsFaithful

new_connection-IsAttended : IsAttended open_and_close
new_connection-IsAttended = record {
  when_connecting = λ h. ground arith;
  when_disconnecting = λ h. ground arith;
}

run-IsAttended_example : IsAttended (run one_after_another open_and_close)
run-IsAttended_example = run-IsAttended one_after_another open_and_close new_connection-IsAttended

abbrev up_to_the_wait : List (ℕ × Event)
up_to_the_wait = (0, turn) ∷ (1, turn) ∷ (0, hook_returns) ∷ []

up_to_the_wait-IsDirect : IsDirect up_to_the_wait open_and_close
unfolding step advance set_state
up_to_the_wait-IsDirect = (
  λ h. ground arith,
  λ h. ground arith,
  (λ h. ground arith, λ h. ground arith, (λ h. ground arith, λ h. ground arith, tt)),
)

run-IsExclusive_example : IsExclusive (run up_to_the_wait open_and_close)
run-IsExclusive_example =
    run-IsExclusive up_to_the_wait open_and_close up_to_the_wait-IsDirect
      (record { opens = refl; closes = refl })

abbrev up : Connection
up = set_state connected new_connection

open_alone_example :
    (alone open_called true new_connection ≡ record {
      conn =
          settled connected
            (announce disconnected connecting ++ announce connecting connected)
            new_connection;
      calls = returned ∷ [];
    })
    × (alone open_called false new_connection ≡ record {
      conn =
          settled disconnected
            (announce disconnected connecting ++ announce connecting disconnected)
            new_connection;
      calls = raised ∷ [];
    })
open_alone_example = open_alone new_connection new_connection-IsFaithful refl

up-IsFaithful : IsFaithful up
up-IsFaithful = set_state-IsFaithful connected new_connection new_connection-IsFaithful

up_is_connected : up.state ≡ connected
unfolding set_state
up_is_connected = refl

close_alone_example :
    (alone close_called true up ≡ record {
      conn =
          settled disconnected
            (announce connected disconnecting ++ announce disconnecting disconnected)
            up;
      calls = returned ∷ [];
    })
    × (alone close_called false up ≡ record {
      conn =
          settled connected
            (announce connected disconnecting ++ announce disconnecting connected)
            up;
      calls = raised ∷ [];
    })
close_alone_example = close_alone up up-IsFaithful up_is_connected

abbrev joined : System
joined = record {
  conn = set_state connecting new_connection;
  calls = opening ∷ open_joins ∷ close_waits ∷ [];
}

abbrev later_turns : List (ℕ × Event)
later_turns = (1, turn) ∷ (2, turn) ∷ (0, turn) ∷ []

run_failed_open_example :
    (run ((0, hook_raises) ∷ later_turns) joined).calls ≡ raised ∷ open_joins ∷ close_waits ∷ []
run_failed_open_example =
    run_failed_open 0 later_turns joined
      (λ h. ground arith, (λ h. ground arith, (λ h. ground arith, tt)))
      (set_state-IsFaithful connecting new_connection new_connection-IsFaithful) refl
      (inr (inr (inr refl)), (inl refl, (inr (inl refl), tt)))

abbrev woken : System
woken = record { conn = new_connection; calls = open_woken ∷ open_woken ∷ [] }
