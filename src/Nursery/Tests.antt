-- ===== src/Nursery/Tests.antt =====
-- A listener in a nursery: opened, closed from both sides, and one of which the task fails at once.
use flockwave_conn.Common.{
  ℕ, zero, suc, ◌≡◌, refl, true, false, none, some, [], ◌∷◌, ◌++◌, get_elem?, map, ◌⊎◌, inl, inr,
}
use flockwave_conn.Connection.Calls.{Phase, opening, returned, raised, close_waits}
use flockwave_conn.Listener.State.{closed, opened, closing, set_state}
use flockwave_conn.Listener.Calls.{step, advance}
use flockwave_conn.Nursery.State.{
  Task, inside, NurseryListener, new_nursery_listener, calls_started, raises, open_made, turns,
  begins, in_task, make_moves,
}
use flockwave_conn.Nursery.Ends.{IsLive, ended_task_closes}
use flockwave_conn.Nursery.Stranded.{failed_start_strands_close}

abbrev starting : NurseryListener
unfolding make_moves set_state step advance
starting = make_moves (open_made ∷ turns 0 ∷ begins 0 ∷ []) (new_nursery_listener true)

abbrev live : NurseryListener
unfolding make_moves set_state step advance
live = make_moves (in_task calls_started 0 ∷ turns 0 ∷ []) starting

opens : (live.base.listener.state ≡ opened) × (live.base.calls ≡ returned ∷ [])
unfolding live
opens = (refl, refl)

no_nursery_raises :
    (make_moves (open_made ∷ turns 0 ∷ []) (new_nursery_listener false)).base.calls ≡ raised ∷ []
unfolding make_moves set_state step advance
no_nursery_raises = refl

abbrev running : Task
running = record { started = true; cancelled = false; body = inside }

live-IsLive : IsLive 0 0 running live
unfolding live
live-IsLive = record {
  now = refl;
  scope = refl;
  event = refl;
  unset = refl;
  found = refl;
  body = refl;
}

ended_task_closes_example :
    let s' = make_moves (in_task raises 0 ∷ turns 1 ∷ turns 1 ∷ []) live in
    (s'.base.listener ≡ set_state closed (set_state closing live.base.listener))
    × (s'.base.calls ≡ live.base.calls ++ returned ∷ [])
    × (s'.cancel_scope ≡ none)
unfolding live
ended_task_closes_example = ended_task_closes raises 0 0 running live (inr refl) live-IsLive

only_opener :
    (j : ℕ) (p : Phase)
    → get_elem? (opening ∷ []) j ≡ some p
    → (j ≡ 0) ⊎ (p ≡ returned) ⊎ (p ≡ raised)
only_opener zero p at = inl refl
only_opener (suc j) p at = cc

failed_start_strands_close_example :
    let s' =
      make_moves
        (map turns (1 ∷ 0 ∷ 1 ∷ []))
        (make_moves (in_task raises 0 ∷ turns 1 ∷ turns 0 ∷ []) starting) in
    (s'.base.listener ≡ set_state closed starting.base.listener)
    × (get_elem? s'.base.calls 0 ≡ some raised)
    × (get_elem? s'.base.calls 1 ≡ some close_waits)
unfolding starting
failed_start_strands_close_example =
    failed_start_strands_close 0 0 (record { started = false; cancelled = false; body = inside })
      (1 ∷ 0 ∷ 1 ∷ []) starting
      (record {
        now = refl;
        opener = refl;
        awaited = refl;
        found = refl;
        body = refl;
        unstarted = refl;
      })
      only_opener
