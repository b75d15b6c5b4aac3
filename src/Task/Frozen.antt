-- ===== src/Task/Frozen.antt =====
-- When nothing more can happen to a connection in a task.
use flockwave_conn.Common.{
  ℕ, ◌≡◌, ◌≢◌, refl, false, some, List, [], ◌∷◌, get_elem?, ◌⊎◌, inl, inr, Option-cases, arith, All,
}
use flockwave_conn.Connection.State.{Connection}
use flockwave_conn.Connection.Calls.{
  Phase, open_called, open_joins, open_waits, open_woken, opening, close_called, close_joins,
  close_waits, close_woken, closing, returned, raised, turn, System, step, advance,
}
use flockwave_conn.Connection.Races.{set_self}
use flockwave_conn.Task.State.{
  Body, inside, failed, closes, Task, TaskConnection, Happening, Move, open_made, close_made, turns,
  cancels, in_task, turn_call, unstarted, run_task, task_move, make_move, make_moves,
}

-- A call inside `_open` that waits for a task that waits, in its own `close`, for the connection.
abbrev pub IsCrossed : TaskConnection → ℕ → Type 0
IsCrossed s i =
    (task : Task) × (k : ℕ) × (get_elem? s.tasks (s.awaited i) ≡ some task)
    × (task.started ≡ false)
    × (task.body ≡ closes k)
    × (get_elem? s.base.calls k ≡ some close_waits)

-- Why a call does not go on: it has ended, it waits for a connection that is down, or as above.
abbrev pub IsHeld : TaskConnection → ℕ → Phase → Type 0
IsHeld s i p =
    (p ≡ returned)
    ⊎ (p ≡ raised)
    ⊎ ((p ≡ open_joins) ⊎ (p ≡ close_waits)) × (s.base.conn.is_connected ≡ false)
    ⊎ (p ≡ opening) × IsCrossed s i

pub record IsFrozen (s : TaskConnection) : Type 0 where
  pub calls : (i : ℕ) (p : Phase) → get_elem? s.base.calls i ≡ some p → IsHeld s i p
  pub tasks : (t : ℕ) (task : Task) → get_elem? s.tasks t ≡ some task → task.body ≢ inside

-- No new call, and no cancellation.
abbrev pub IsQuiet : Move → Type 0
IsQuiet m = (m ≢ open_made) × (m ≢ close_made) × ((i : ℕ) → m ≢ cancels i)

advance_held :
    (p : Phase) (c : Connection)
    → (p ≡ returned)
      ⊎ (p ≡ raised)
      ⊎ ((p ≡ open_joins) ⊎ (p ≡ close_waits)) × (c.is_connected ≡ false)
    → advance turn p c ≡ (p, c)
unfolding advance
advance_held p c h = ground arith

-- A phase outside the hooks in which a turn changes nothing.
abbrev IsResting : Phase → Connection → Type 0
IsResting p c =
    (p ≡ returned)
    ⊎ (p ≡ raised)
    ⊎ ((p ≡ open_joins) ⊎ (p ≡ close_waits)) × (c.is_connected ≡ false)

step_resting :
    (i : ℕ) (p : Phase) (s : System)
    → get_elem? s.calls i ≡ some p
    → IsResting p s.conn
    → step (i, turn) s ≡ s
unfolding step
step_resting i p s found h = rw (found, advance_held p s.conn h, set_self s.calls i p found)

module _ (i : ℕ) (s : TaskConnection) where
  turn_same :
      (p : Phase)
      → get_elem? s.base.calls i ≡ some p
      → step (i, turn) s.base ≡ s.base
      → (p ≡ returned) ⊎ (p ≡ raised) ⊎ ((p ≡ open_joins) ⊎ (p ≡ close_waits))
      → turn_call (some p) i s ≡ s
  unfolding turn_call
  turn_same returned found same h = rw (same, found)
  turn_same raised found same h = rw (same, found)
  turn_same open_joins found same h = rw (same, found)
  turn_same close_waits found same h = rw (same, found)
  turn_same open_called found same h = ground arith
  turn_same open_waits found same h = ground arith
  turn_same open_woken found same h = ground arith
  turn_same opening found same h = ground arith
  turn_same close_called found same h = ground arith
  turn_same close_joins found same h = ground arith
  turn_same close_woken found same h = ground arith
  turn_same closing found same h = ground arith

  turn_resting :
      (p : Phase)
      → get_elem? s.base.calls i ≡ some p
      → IsResting p s.base.conn
      → turn_call (some p) i s ≡ s
  turn_resting p found h =
      turn_same p found (step_resting i p s.base found h)
        (elim h [ inl e ↦ inl e | inr (inl e) ↦ inr (inl e) | inr (inr (e, down)) ↦ inr (inr e) ])

turn_crossed : (i : ℕ) (s : TaskConnection) → IsCrossed s i → turn_call (some opening) i s ≡ s
unfolding turn_call
turn_crossed i s (task, k, found, unstarted, body, waits) = rw (found, unstarted, body, waits)

run_idle :
    (e : Happening) (t : ℕ) (b : Body) (task : Task) (s : TaskConnection)
    → b ≢ inside
    → run_task e t b task s ≡ s
unfolding run_task
run_idle e t inside task s out = absurd (out refl)
run_idle e t failed task s out = refl
run_idle e t (closes k) task s out = refl

turn_held :
    (i : ℕ) (p : Phase) (s : TaskConnection)
    → get_elem? s.base.calls i ≡ some p
    → IsHeld s i p
    → turn_call (some p) i s ≡ s
turn_held i p s found (inl e) = turn_resting i s p found (inl e)
turn_held i p s found (inr (inl e)) = turn_resting i s p found (inr (inl e))
turn_held i p s found (inr (inr (inl e))) = turn_resting i s p found (inr (inr e))
turn_held i p s found (inr (inr (inr (e, crossed)))) = rw e (turn_crossed i s crossed)

make_move_frozen : (m : Move) (s : TaskConnection) → IsQuiet m → IsFrozen s → make_move m s ≡ s
unfolding make_move
make_move_frozen open_made s (a, b, c) h = absurd (a refl)
make_move_frozen close_made s (a, b, c) h = absurd (b refl)
make_move_frozen (cancels i) s (a, b, c) h = absurd (c i refl)
make_move_frozen (turns i) s q h = elim (Option-cases (get_elem? s.base.calls i)) [
  | inl missing ↦ rw missing (unfold turn_call in refl)
  | inr (p, found) ↦ rw found (turn_held i p s found (h.calls i p found))
]
make_move_frozen (in_task e t) s q h = elim (Option-cases (get_elem? s.tasks t)) [
  | inl missing ↦ rw missing (unfold task_move in refl)
  | inr (task, found) ↦
      rw found (unfold task_move in run_idle e t task.body task s (h.tasks t task found))
]

-- Nothing that the scheduler and the tasks do changes a frozen connection.
pub make_moves_frozen :
    (ms : List Move) (s : TaskConnection) → All IsQuiet ms → IsFrozen s → make_moves ms s ≡ s
unfolding make_moves
make_moves_frozen [] s q h = refl
make_moves_frozen (m ∷ ms) s (q, qs) h = rw (make_move_frozen m s q h) (make_moves_frozen ms s qs h)
