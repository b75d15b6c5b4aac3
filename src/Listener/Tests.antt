-- ===== src/Listener/Tests.antt =====
-- A listener that is opened and closed, read as a connection.
use flockwave_conn.Common.{ℕ, ◌≡◌, List, [], ◌∷◌}
use flockwave_conn.Connection.Calls as ConnCalls
use flockwave_conn.Connection.Calls.{open_called, close_called, Event, turn, hook_returns}
use flockwave_conn.Listener.State.{new_listener}
use flockwave_conn.Listener.Calls.{System, run}
use flockwave_conn.Listener.View.{view_system, view-run}

abbrev open_and_close : System
open_and_close = record { listener = new_listener; calls = open_called ∷ close_called ∷ [] }

abbrev one_after_another : List (ℕ × Event)
one_after_another =
    (0, turn) ∷ (1, turn) ∷ (0, hook_returns) ∷ (1, turn) ∷ (1, turn) ∷ (1, hook_returns) ∷ []

view-run_example :
    view_system (run one_after_another open_and_close)
    ≡ ConnCalls.run one_after_another (view_system open_and_close)
view-run_example = view-run one_after_another open_and_close
