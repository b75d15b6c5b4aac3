-- ===== src/Task/Tests.antt =====
-- A connection in a task, from its first `open` to the end of the task.
use flockwave_conn.Common.{
  ℕ, zero, suc, ◌≡◌, ◌≢◌, refl, true, false, none, some, [], ◌∷◌, ◌++◌, get_elem?, ◌⊎◌, inl, arith,
}
use flockwave_conn.Common.Results.{ok, err}
use flockwave_conn.Connection.State.{disconnected, connected, disconnecting, set_state}
use flockwave_conn.Connection.Calls.{
  Phase, open_joins, returned, raised, opening, closing, close_waits, step, advance,
}
use flockwave_conn.Task.State.{
  Task, new_task, inside, closes, TaskConnection, new_task_connection, assign_nursery, not_closed,
  calls_started, returns, raises, is_cancelled, open_made, close_made, turns, in_task, make_move,
  make_moves,
}
use flockwave_conn.Task.Frozen.{IsQuiet}
use flockwave_conn.Task.Stuck.{
  OthersAreOut, HasEnded, failed_run_goes_unnoticed, unstarted_run_deadlocks,
}
use flockwave_conn.Task.Ends.{IsLive, returned_run_closes}
use flockwave_conn.Task.Cancelled.{close_ends_the_run}

abbrev fresh : TaskConnection
fresh = record new_task_connection { has_nursery = true }

-- `open` is inside `_open`, and its task inside `_run`.
abbrev starting : TaskConnection
unfolding make_moves set_state step advance
starting = make_moves (open_made ∷ turns 0 ∷ []) fresh

abbrev live : TaskConnection
unfolding make_moves set_state step advance
live = make_moves (in_task calls_started 0 ∷ turns 0 ∷ []) starting

opens : (live.base.conn.state ≡ connected) × (live.base.calls ≡ returned ∷ [])
unfolding make_moves set_state step advance
opens = (refl, refl)

no_nursery_raises :
    (make_moves (open_made ∷ turns 0 ∷ []) new_task_connection).base.calls ≡ raised ∷ []
unfolding make_moves set_state step advance
no_nursery_raises = refl

assigned_when_closed : assign_nursery new_task_connection ≡ ok fresh
unfolding assign_nursery
assigned_when_closed = refl

refused_when_open : assign_nursery live ≡ err not_closed
unfolding assign_nursery make_moves set_state step advance
refused_when_open = refl

live-IsLive : IsLive 0 0 (record { started = true; cancelled = false; body = inside }) live
unfolding make_moves set_state step advance
live-IsLive = record {
  now = refl;
  scope = refl;
  event = refl;
  unset = refl;
  found = refl;
  body = refl;
}

returned_run_closes_example :
    let s' = make_moves (in_task returns 0 ∷ turns 1 ∷ []) live in
    (s'.base.conn ≡ set_state disconnected (set_state disconnecting live.base.conn))
    × (s'.base.calls ≡ live.base.calls ++ returned ∷ [])
    × (s'.cancel_scope ≡ none)
    × (get_elem? s'.tasks 0 ≡ some (record { started = true; cancelled = true; body = closes 1 }))
unfolding live
returned_run_closes_example =
    returned_run_closes 0 0 (record { started = true; cancelled = false; body = inside }) live
      live-IsLive

-- The call that closes the connection has three more turns before the task ends.
close_ends_the_run_example :
    let mid = make_moves (close_made ∷ turns 1 ∷ turns 1 ∷ turns 1 ∷ turns 1 ∷ []) live in
    let s' = make_moves (in_task is_cancelled 0 ∷ turns 1 ∷ turns 2 ∷ []) mid in
    (mid.base.conn ≡ set_state disconnecting live.base.conn)
    × (mid.base.calls ≡ live.base.calls ++ closing ∷ [])
    × (get_elem? mid.tasks 0 ≡ some (record { started = true; cancelled = true; body = inside }))
    × (mid.cancel_scope ≡ none)
    × (s'.base.conn ≡ set_state disconnected (set_state disconnecting live.base.conn))
    × (s'.base.calls ≡ live.base.calls ++ returned ∷ returned ∷ [])
    × (get_elem? s'.tasks 0 ≡ some (record { started = true; cancelled = true; body = closes 2 }))
unfolding live
close_ends_the_run_example =
    close_ends_the_run 0 0 3 (record { started = true; cancelled = false; body = inside }) live
      live-IsLive

only_one : (x : Task) → OthersAreOut 0 (x ∷ [])
only_one x zero task ne at = absurd (ne refl)
only_one x (suc u) task ne at = cc

turns-IsQuiet : (i : ℕ) → IsQuiet (turns i)
turns-IsQuiet i = (λ e. ground arith, λ e. ground arith, λ j e. ground arith)

ended : (i : ℕ) (p : Phase) → get_elem? (returned ∷ []) i ≡ some p → HasEnded p
ended zero p at = ground arith
ended (suc i) p at = cc

failed_run_goes_unnoticed_example :
    let s' = make_moves (turns 0 ∷ []) (make_move (in_task raises 0) live) in
    (s'.base ≡ live.base)
    × ((u : ℕ) (other : Task) → get_elem? s'.tasks u ≡ some other → other.body ≢ inside)
unfolding live
failed_run_goes_unnoticed_example =
    failed_run_goes_unnoticed 0 (record { started = true; cancelled = false; body = inside })
      (turns 0 ∷ []) live refl refl (only_one _) ended (turns-IsQuiet 0, tt)

only_opener :
    (j : ℕ) (p : Phase)
    → get_elem? (opening ∷ []) j ≡ some p
    → (j ≡ 0) ⊎ HasEnded p ⊎ (p ≡ open_joins) ⊎ (p ≡ close_waits)
only_opener zero p at = inl refl
only_opener (suc j) p at = cc

unstarted_run_deadlocks_example :
    let s' = make_moves (turns 0 ∷ turns 1 ∷ []) (make_move (in_task returns 0) starting) in
    (s'.base.conn ≡ starting.base.conn) × (s'.base.calls ≡ starting.base.calls ++ close_waits ∷ [])
unfolding starting
unstarted_run_deadlocks_example =
    unstarted_run_deadlocks 0 0 new_task (turns 0 ∷ turns 1 ∷ []) starting
      (record {
        now = refl;
        down = refl;
        opener = refl;
        awaited = refl;
        found = refl;
        body = refl;
        unstarted = refl;
        others = only_opener;
        others_out = only_one new_task;
      })
      (turns-IsQuiet 0, (turns-IsQuiet 1, tt))
