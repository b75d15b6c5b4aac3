-- ===== src/Nursery/Stranded.antt =====
-- A listener whose task fails before the listener is open.
use flockwave_conn.Common.{
  ℕ, ◌≡◌, ◌≢◌, refl, false, Option, none, some, List, [], ◌∷◌, ◌++◌, get_elem?, set, length, ◌⊎◌,
  inl, inr, Option-cases, ◌∙◌, ap, arith, get_elem?-set_self, get_elem?-set_ne, get_elem?-middle,
  set-middle, get_elem?-append_some, get_elem?-snoc, get_elem?-length, get_elem?-set_cases, map,
}
use flockwave_conn.Listener.State.{Listener, closed, preparing, set_state}
use flockwave_conn.Listener.Calls.{System, step, advance}
use flockwave_conn.Connection.Calls.{
  Phase, opening, close_called, close_waits, returned, raised, turn, hook_raises,
}
use flockwave_conn.Nursery.State.{
  inside, over, Task, NurseryListener, raises, turns, in_task, turn_call, end_task, set_exited,
  task_move, make_call, make_move, make_moves,
}
use flockwave_conn.Connection.Races.{set_self}

-- A call at place `i` is inside `_open` and waits for a task that has not called `started`.
pub record IsStarting (i t : ℕ) (task : Task) (s : NurseryListener) : Type 0 where
  pub now : s.base.listener.state ≡ preparing
  pub opener : get_elem? s.base.calls i ≡ some opening
  pub awaited : s.awaited i ≡ t
  pub found : get_elem? s.tasks t ≡ some task
  pub body : task.body ≡ inside
  pub unstarted : task.started ≡ false

-- What a task leaves when it ends by an exception of `_run`.
failed : ℕ → Task → NurseryListener → NurseryListener
unfolding end_task
failed t task s = end_task t task (make_call close_called s)

failed_same :
    (t : ℕ) (task : Task) (s : NurseryListener)
    → ((failed t task s).base
        ≡ record { listener = s.base.listener; calls = s.base.calls ++ close_called ∷ [] })
      × ((failed t task s).tasks ≡ set s.tasks t (record task { body = over }))
      × ((failed t task s).awaited ≡ s.awaited)
unfolding failed
failed_same t task s = exited s.task_exited
  where
    exited :
        (e : Option ℕ)
        → let s' = set_exited e (record (make_call close_called s) {
          cancel_scope = none;
          tasks = set s.tasks t (record task { body = over });
        }) in
          (s'.base
            ≡ record { listener = s.base.listener; calls = s.base.calls ++ close_called ∷ [] })
          × (s'.tasks ≡ set s.tasks t (record task { body = over }))
          × (s'.awaited ≡ s.awaited)
    exited none = (refl, refl, refl)
    exited (some e) = (refl, refl, refl)

task_raises :
    (t : ℕ) (task : Task) (s : NurseryListener)
    → get_elem? s.tasks t ≡ some task
    → task.body ≡ inside
    → make_move (in_task raises t) s ≡ failed t task s
unfolding make_move task_move failed
task_raises t task s found body = rw (found, body) refl

-- The first turn of the `close` that the task spawns, while the listener is PREPARING.
module _ (l : Listener) (calls : List Phase) (now : l.state ≡ preparing) where
  abbrev asked : System
  asked = record { listener = l; calls = calls ++ close_called ∷ [] }

  abbrev waits_for_open : System
  waits_for_open = record { listener = l; calls = calls ++ close_waits ∷ [] }

  step_close : step (length calls, turn) asked ≡ waits_for_open
  unfolding step advance
  step_close = rw (get_elem?-middle, now, set-middle)

  close_turn :
      (s : NurseryListener)
      → s.base ≡ asked
      → make_move (turns (length calls)) s ≡ record s { base = waits_for_open }
  unfolding make_move turn_call
  close_turn s base = rw (base, get_elem?-middle, step_close, get_elem?-middle) refl

step_opener :
    (i : ℕ) (l : Listener) (calls : List Phase)
    → get_elem? calls i ≡ some opening
    → step (i, hook_raises) (record { listener = l; calls = calls })
      ≡ record { listener = set_state closed l; calls = set calls i raised }
unfolding step advance
step_opener i l calls at = rw at

opener_turn :
    (i : ℕ) (task : Task) (s : NurseryListener)
    → get_elem? s.base.calls i ≡ some opening
    → get_elem? s.tasks (s.awaited i) ≡ some task
    → task.body ≡ over
    → task.started ≡ false
    → make_move (turns i) s ≡ record s {
      base = record {
        listener = set_state closed s.base.listener;
        calls = set s.base.calls i raised;
      };
    }
unfolding make_move turn_call
opener_turn i task s at found out unstarted =
    rw (at, found, unstarted, out, step_opener i s.base.listener s.base.calls at) refl

-- The call has ended, or waits for a listener that is not open.
abbrev pub IsHeld : Listener → Phase → Type 0
IsHeld l p = (p ≡ returned) ⊎ (p ≡ raised) ⊎ (p ≡ close_waits) × (l.is_open ≡ false)

advance_held : (p : Phase) (l : Listener) → IsHeld l p → advance turn p l ≡ (p, l)
unfolding advance
advance_held p l h = ground arith

step_held :
    (j : ℕ) (p : Phase) (s : System)
    → get_elem? s.calls j ≡ some p
    → IsHeld s.listener p
    → step (j, turn) s ≡ s
unfolding step
step_held j p s found h = rw (found, advance_held p s.listener h, set_self s.calls j p found)

turn_held :
    (j : ℕ) (p : Phase) (s : NurseryListener)
    → get_elem? s.base.calls j ≡ some p
    → IsHeld s.base.listener p
    → make_move (turns j) s ≡ s
unfolding make_move turn_call
turn_held j p s found (inl e) = rw (found, e, step_held j p s.base found (inl e), found, e) refl
turn_held j p s found (inr (inl e)) =
    rw (found, e, step_held j p s.base found (inr (inl e)), found, e) refl
turn_held j p s found (inr (inr (e, down))) =
    rw (found, e, step_held j p s.base found (inr (inr (e, down))), found, e) refl

turn_missing :
    (j : ℕ) (s : NurseryListener) → get_elem? s.base.calls j ≡ none → make_move (turns j) s ≡ s
unfolding make_move turn_call
turn_missing j s missing = rw missing refl

turns_held :
    (js : List ℕ) (s : NurseryListener)
    → ((j : ℕ) (p : Phase) → get_elem? s.base.calls j ≡ some p → IsHeld s.base.listener p)
    → make_moves (map turns js) s ≡ s
unfolding make_moves
turns_held [] s h = refl
turns_held (j ∷ js) s h = elim (Option-cases (get_elem? s.base.calls j)) [
  | inl missing ↦ ap (make_moves (map turns js)) (turn_missing j s missing) ∙ turns_held js s h
  | inr (p, found) ↦
      ap (make_moves (map turns js)) (turn_held j p s found (h j p found)) ∙ turns_held js s h
]

down_when_closed : (l : Listener) → l.state ≡ preparing → (set_state closed l).is_open ≡ false
unfolding set_state
down_when_closed l now = ground arith

-- When `_run` raises before it has called `started`, and the `close` that the task spawns has its first
-- turn before `open` goes on, `open` raises and the listener is CLOSED, and that `close` waits for ever
-- for the listener to become open: no turns of the calls change anything, if the other calls have ended.
pub failed_start_strands_close :
    (i t : ℕ) (task : Task) (js : List ℕ) (s : NurseryListener)
    → IsStarting i t task s
    → ((j : ℕ) (p : Phase)
        → get_elem? s.base.calls j ≡ some p
        → (j ≡ i) ⊎ (p ≡ returned) ⊎ (p ≡ raised))
    → let k = length s.base.calls in
      let s' =
        make_moves (map turns js) (make_moves (in_task raises t ∷ turns k ∷ turns i ∷ []) s) in
      (s'.base.listener ≡ set_state closed s.base.listener)
      × (get_elem? s'.base.calls i ≡ some raised)
      × (get_elem? s'.base.calls k ≡ some close_waits)
failed_start_strands_close i t task js s h others =
    let k = length s.base.calls in
    let l = set_state closed s.base.listener in
    let waiting = s.base.calls ++ close_waits ∷ [] in
    let gone = failed t task s in
    let (base, tasks, awaited) = failed_same t task s in
    let asked_at : NurseryListener = record gone {
      base = record { listener = s.base.listener; calls = waiting };
    } in
    let after : NurseryListener = record gone {
      base = record { listener = l; calls = set waiting i raised };
    } in
    let opener = get_elem?-append_some s.base.calls (close_waits ∷ []) i opening h.opener in
    let apart : i ≢ k =
      λ e. cc (h.opener, ap (get_elem? s.base.calls) e, get_elem?-length s.base.calls) in
    let task_there : get_elem? gone.tasks (gone.awaited i) ≡ some (record task { body = over }) =
      ap (λ (ts : List Task). get_elem? ts (gone.awaited i)) tasks
      ∙ ap (λ (f : ℕ → ℕ). get_elem? (set s.tasks t (record task { body = over })) (f i)) awaited
      ∙ ap (λ u. get_elem? (set s.tasks t (record task { body = over })) u) h.awaited
      ∙ get_elem?-set_self s.tasks t (record task { body = over }) h.found in
    let moved : make_moves (in_task raises t ∷ turns k ∷ turns i ∷ []) s ≡ after =
      unfold make_moves in
      ap (λ x. make_move (turns i) (make_move (turns k) x)) (task_raises t task s h.found h.body)
      ∙ ap (make_move (turns i)) (close_turn s.base.listener s.base.calls h.now gone base)
      ∙ opener_turn i (record task { body = over }) asked_at opener task_there refl h.unstarted in
    let held : (j : ℕ) (p : Phase) → get_elem? (set waiting i raised) j ≡ some p → IsHeld l p =
      λ j p at. elim (get_elem?-set_cases waiting i j raised p at) [
        | inl e ↦ inr (inl e)
        | inr (ne, there) ↦ elim (get_elem?-snoc s.base.calls close_waits j p there) [
          | inr e ↦ inr (inr (e, down_when_closed s.base.listener h.now))
          | inl old ↦ elim (others j p old) [
            | inl e ↦ absurd (ne e)
            | inr (inl e) ↦ inl e
            | inr (inr e) ↦ inr (inl e)
          ]
        ]
      ] in
    let final = ap (make_moves (map turns js)) moved ∙ turns_held js after held in
    rw final (
      refl,
      get_elem?-set_self waiting i raised opener,
      get_elem?-set_ne waiting raised apart ∙ get_elem?-middle s.base.calls close_waits [],
    )
