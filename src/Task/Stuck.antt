-- ===== src/Task/Stuck.antt =====
-- Two ways in which a task can end and its connection never learns of it.
use flockwave_conn.Common.{
  ℕ, zero, suc, ◌≡◌, ◌≢◌, refl, false, some, List, [], ◌∷◌, ◌++◌, get_elem?, set, length, ◌⊎◌, inl,
  inr, ◌∙◌, ap, sym, subst, arith, All, get_elem?-set_self, get_elem?-middle, set-middle,
  get_elem?-snoc,
}
use mathlib.Core.Option.{some-injective}
use flockwave_conn.Connection.State.{Connection, connecting}
use flockwave_conn.Connection.Calls.{
  Phase, open_joins, opening, close_called, close_waits, returned, raised, turn, System, step,
  advance,
}
use flockwave_conn.Task.State.{
  inside, failed, closes, Task, TaskConnection, returns, raises, Move, in_task, turn_call,
  set_event, make_call, make_move, make_moves,
}
use flockwave_conn.Task.Lemmas.{set_event_same, task_returns, task_raises}
use flockwave_conn.Task.Frozen.{IsFrozen, IsQuiet, IsCrossed, make_moves_frozen}

abbrev pub HasEnded : Phase → Type 0
HasEnded p = (p ≡ returned) ⊎ (p ≡ raised)

-- Every task but one is behind its `_run`.
abbrev pub OthersAreOut : ℕ → List Task → Type 0
OthersAreOut t tasks =
    (u : ℕ) (task : Task) → u ≢ t → get_elem? tasks u ≡ some task → task.body ≢ inside

-- The task at a place moves out of its `_run`.
all_out :
    (t : ℕ) (tasks : List Task) (task moved : Task)
    → get_elem? tasks t ≡ some task
    → OthersAreOut t tasks
    → moved.body ≢ inside
    → (u : ℕ) (other : Task) → get_elem? (set tasks t moved) u ≡ some other
    → other.body ≢ inside
all_out zero (x ∷ tasks) task moved found others out zero other at = ground (arith)
all_out zero (x ∷ tasks) task moved found others out (suc u) other at =
    others (suc u) other (λ e. ground arith) at
all_out (suc t) (x ∷ tasks) task moved found others out zero other at =
    others zero other (λ e. ground arith) at
all_out (suc t) (x ∷ tasks) task moved found others out (suc u) other at =
    all_out t tasks task moved found (λ v b ne. others (suc v) b (λ e. ne (omega arith))) out u
      other at
all_out t [] task moved found others out u other at = cc

-- When `_run` raises while every call on the connection has ended and no other task is inside its `_run`,
-- nothing that follows without a new call or a cancellation changes the connection: it stays in its
-- state, CONNECTED if it was so, with no task behind it.
pub failed_run_goes_unnoticed :
    (t : ℕ) (task : Task) (ms : List Move) (s : TaskConnection)
    → get_elem? s.tasks t ≡ some task
    → task.body ≡ inside
    → OthersAreOut t s.tasks
    → ((i : ℕ) (p : Phase) → get_elem? s.base.calls i ≡ some p → HasEnded p)
    → All IsQuiet ms
    → let s' = make_moves ms (make_move (in_task raises t) s) in
      (s'.base ≡ s.base)
      × ((u : ℕ) (other : Task) → get_elem? s'.tasks u ≡ some other → other.body ≢ inside)
failed_run_goes_unnoticed t task ms s found body others ended quiet =
    let gone : Task = record task { body = failed } in
    let after : TaskConnection =
      set_event s.closed_event (record s { tasks = set s.tasks t gone }) in
    let (base, tasks, awaited) =
      set_event_same s.closed_event (record s { tasks = set s.tasks t gone }) in
    let out = all_out t s.tasks task gone found others (λ e. ground arith) in
    let outside : (u : ℕ) (other : Task)
        → get_elem? after.tasks u ≡ some other
        → other.body ≢ inside =
      λ u other at. out u other (ap (λ l. get_elem? l u) (sym tasks) ∙ at) in
    let frozen : IsFrozen after = record {
      calls = λ i p at.
          elim (ended i p (ap (λ (b : System). get_elem? b.calls i) (sym base) ∙ at)) [
            | inl e ↦ inl e
            | inr e ↦ inr (inl e)
          ];
      tasks = outside;
    } in
    rw (task_raises t task s found body)
      (rw (make_moves_frozen ms after quiet frozen) (base, outside))

module _ (conn : Connection) (calls : List Phase) (now : conn.state ≡ connecting) where
  abbrev asked : System
  asked = record { conn = conn; calls = calls ++ close_called ∷ [] }

  abbrev waits_for_open : System
  waits_for_open = record { conn = conn; calls = calls ++ close_waits ∷ [] }

  step_close : step (length calls, turn) asked ≡ waits_for_open
  unfolding step advance
  step_close = rw (get_elem?-middle, now, set-middle)

  -- The first turn of a `close` that is made last, while the connection is CONNECTING.
  close_turn :
      (s : TaskConnection)
      → s.base ≡ asked
      → turn_call (some close_called) (length calls) s ≡ record s { base = waits_for_open }
  unfolding turn_call
  close_turn s base = rw (base, step_close, get_elem?-middle) refl

-- A call is inside `_open` and waits for a task that has not called `started`; the other calls have
-- ended or wait for the connection to become connected; the other tasks are behind their `_run`.
pub record IsStarting (i t : ℕ) (task : Task) (s : TaskConnection) : Type 0 where
  pub now : s.base.conn.state ≡ connecting
  pub down : s.base.conn.is_connected ≡ false
  pub opener : get_elem? s.base.calls i ≡ some opening
  pub awaited : s.awaited i ≡ t
  pub found : get_elem? s.tasks t ≡ some task
  pub body : task.body ≡ inside
  pub unstarted : task.started ≡ false
  pub others :
      (j : ℕ) (p : Phase)
      → get_elem? s.base.calls j ≡ some p
      → (j ≡ i) ⊎ HasEnded p ⊎ (p ≡ open_joins) ⊎ (p ≡ close_waits)
  pub others_out : OthersAreOut t s.tasks

-- When `_run` returns before it has called `started`, while `open` waits for that task, every other call
-- has ended or waits for the connection to become connected, and no other task is inside its `_run`,
-- then nothing moves any more without a new call or a cancellation: `open` waits for the task, the task
-- for its `close`, and that for the connection to become connected, which stays CONNECTING.
pub unstarted_run_deadlocks :
    (i t : ℕ) (task : Task) (ms : List Move) (s : TaskConnection)
    → IsStarting i t task s
    → All IsQuiet ms
    → let s' = make_moves ms (make_move (in_task returns t) s) in
      (s'.base.conn ≡ s.base.conn) × (s'.base.calls ≡ s.base.calls ++ close_waits ∷ [])
unstarted_run_deadlocks i t task ms s h quiet =
    let gone : Task = record task { body = closes (length s.base.calls) } in
    let left : TaskConnection =
      set_event s.closed_event (record s { tasks = set s.tasks t gone }) in
    let (base, tasks, awaited) =
      set_event_same s.closed_event (record s { tasks = set s.tasks t gone }) in
    let calls = s.base.calls ++ close_waits ∷ [] in
    let after : TaskConnection = record left {
      base = record { conn = s.base.conn; calls = calls };
    } in
    let moved : make_move (in_task returns t) s ≡ after =
      rw (task_returns t task s h.found h.body)
        (close_turn s.base.conn s.base.calls h.now (make_call close_called left) (rw base)) in
    let crossed : IsCrossed after i = (
      gone,
      length s.base.calls,
      ap (λ (l : List Task). get_elem? l (left.awaited i)) tasks
          ∙ ap (λ (f : ℕ → ℕ). get_elem? (set s.tasks t gone) (f i)) awaited
          ∙ ap (λ u. get_elem? (set s.tasks t gone) u) h.awaited
          ∙ get_elem?-set_self s.tasks t gone h.found,
      h.unstarted,
      refl,
      get_elem?-middle s.base.calls close_waits [],
    ) in
    let frozen : IsFrozen after = record {
      calls = λ j p at. elim (get_elem?-snoc s.base.calls close_waits j p at) [
        | inr e ↦ inr (inr (inl (inr e, h.down)))
        | inl old ↦ elim (h.others j p old) [
          | inl e ↦ inr (
              inr (
                inr (
                  some-injective p opening (sym old ∙ ap (get_elem? s.base.calls) e ∙ h.opener),
                  subst (IsCrossed after) (sym e) crossed,
                )))
          | inr (inl (inl e)) ↦ inl e
          | inr (inl (inr e)) ↦ inr (inl e)
          | inr (inr e) ↦ inr (inr (inl (e, h.down)))
        ]
      ];
      tasks = λ u other at.
          all_out t s.tasks task gone h.found h.others_out (λ e. ground arith) u other
            (ap (λ l. get_elem? l u) (sym tasks) ∙ at);
    } in
    rw moved (rw (make_moves_frozen ms after quiet frozen) (refl, refl))
