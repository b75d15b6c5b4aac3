-- ===== src/Task/Cancelled.antt =====
-- How a connection in a task is closed by a call of `close`.
use flockwave_conn.Common.{
  ℕ, zero, suc, ◌≡◌, refl, sym, true, false, none, some, List, [], ◌∷◌, ◌++◌, get_elem?, set,
  length, ◌∙◌, ap, arith, replicate, Bool-cases, inl, inr, get_elem?-set_self, get_elem?-middle,
  set-middle, append_assoc, length-append,
}
use flockwave_conn.Connection.State.{Connection, disconnected, disconnecting, set_state}
use flockwave_conn.Connection.Calls.{
  Phase, close_called, close_joins, closing, returned, step, advance,
}
use flockwave_conn.Connection.Signals.{state-set_state}
use flockwave_conn.Task.State.{
  closes, Task, TaskConnection, is_cancelled, close_made, turns, in_task, turn_call, awaits,
  set_event, make_call, make_move, make_moves,
}
use flockwave_conn.Task.Lemmas.{task_cancelled}
use flockwave_conn.Task.Ends.{IsLive, with_call, turn_at, begin_close, end_close, if_self}

module _ (conn : Connection) (calls rest : List Phase) where
  -- A `close` that is made while the connection is DISCONNECTING waits, and returns when it is down.
  join_close :
      (s : TaskConnection)
      → conn.state ≡ disconnecting
      → s.base ≡ with_call conn calls rest close_called conn
      → turn_call (some close_called) (length calls) s
        ≡ record s { base = with_call conn calls rest close_joins conn }
  unfolding turn_call step advance
  join_close s now base = rw (base, get_elem?-middle, now, set-middle, get_elem?-middle) refl

  joined_returns :
      (s : TaskConnection)
      → conn.is_disconnected ≡ true
      → s.base ≡ with_call conn calls rest close_joins conn
      → turn_call (some close_joins) (length calls) s
        ≡ record s { base = with_call conn calls rest returned conn }
  unfolding turn_call step advance
  joined_returns s down base = rw (base, get_elem?-middle, down, set-middle, get_elem?-middle) refl

  -- A `close` does not go on while the event is not set.
  still_closing :
      (e : ℕ) (s : TaskConnection)
      → s.base ≡ with_call conn calls rest closing conn
      → get_elem? s.events (s.awaited (length calls)) ≡ some false
      → make_move (turns (length calls)) s ≡ s
  unfolding turn_call
  still_closing e s base unset = turn_at conn calls rest closing s base ∙ rw unset

down_after :
    (c : Connection) → c.state ≡ disconnecting → (set_state disconnected c).is_disconnected ≡ true
unfolding set_state
down_after c now =
    rw now (elim (Bool-cases c.is_disconnected) [ inl up ↦ ground arith | inr down ↦ ground arith ])

down_at_last :
    (c : Connection) → (set_state disconnected (set_state disconnecting c)).is_disconnected ≡ true
down_at_last c = down_after (set_state disconnecting c) (state-set_state disconnecting c)

waits_on :
    (k n : ℕ) (s : TaskConnection)
    → make_move (turns k) s ≡ s
    → make_moves (replicate n (turns k)) s ≡ s
unfolding make_moves
waits_on k zero s same = refl
waits_on k (suc n) s same = ap (make_moves (replicate n (turns k))) same ∙ waits_on k n s same

snoc_snoc : (calls : List Phase) (p q : Phase) → (calls ++ p ∷ []) ++ q ∷ [] ≡ calls ++ p ∷ q ∷ []
snoc_snoc calls p q = append_assoc calls (p ∷ []) (q ∷ [])

length-snoc : (calls : List Phase) (p : Phase) → length (calls ++ p ∷ []) ≡ suc (length calls)
length-snoc calls p = omega (arith, length-append calls (p ∷ []))

-- The connection while `close` waits, and what the task, the call and the task's own `close` make of it.
module _ (t e : ℕ) (task : Task) (s : TaskConnection) (h : IsLive t e task s) where
  abbrev doomed : Task
  doomed = record task { cancelled = true }

  abbrev down : Connection
  down = set_state disconnecting s.base.conn

  abbrev waiting : TaskConnection
  waiting = awaits (length s.base.calls) e (record s {
    base = with_call s.base.conn s.base.calls [] closing down;
    cancel_scope = none;
    tasks = set s.tasks t doomed;
  })

  close_waits :
      (n : ℕ)
      → make_moves
          (close_made ∷ turns (length s.base.calls) ∷ replicate n (turns (length s.base.calls)))
          s
        ≡ waiting
  unfolding make_moves
  close_waits n =
      let calls = s.base.calls in
      let k = length calls in
      let asked = make_call close_called s in
      let at_close =
        turn_at s.base.conn calls [] close_called asked refl
        ∙ begin_close s.base.conn calls [] t e task asked h.now refl h.scope h.event h.found in
      let waits : make_move (turns k) waiting ≡ waiting =
        still_closing down calls [] e waiting refl
          (ap (get_elem? s.events) (if_self k e (s.awaited k)) ∙ h.unset) in
      ap (make_moves (replicate n (turns k))) at_close ∙ waits_on k n waiting waits

  abbrev gone : Task
  gone = record doomed { body = closes (length (s.base.calls ++ closing ∷ [])) }

  abbrev out : Connection → List Phase → TaskConnection
  out conn calls = record waiting {
    base = record { conn = conn; calls = calls };
    events = set s.events e true;
    tasks = set (set s.tasks t doomed) t gone;
  }

  task_ends :
      make_move (in_task is_cancelled t) waiting
      ≡ out down ((s.base.calls ++ closing ∷ []) ++ close_joins ∷ [])
  unfolding set_event
  task_ends =
      let calls = s.base.calls ++ closing ∷ [] in
      let behind : TaskConnection = record waiting { tasks = set (set s.tasks t doomed) t gone } in
      task_cancelled t doomed waiting (get_elem?-set_self s.tasks t doomed h.found) h.body refl
      ∙ ap
          (λ o.
            turn_call (some close_called) (length calls)
              (make_call close_called (set_event o behind)))
          h.event
      ∙ join_close down calls [] (out down (calls ++ close_called ∷ []))
          (state-set_state disconnecting s.base.conn) refl

  close_returns :
      make_move
        (turns (length s.base.calls))
        (out down ((s.base.calls ++ closing ∷ []) ++ close_joins ∷ []))
      ≡ out (set_state disconnected down) (s.base.calls ++ returned ∷ close_joins ∷ [])
  close_returns =
      let k = length s.base.calls in
      ap (λ l. make_move (turns k) (out down l)) (snoc_snoc s.base.calls closing close_joins)
      ∙ end_close down s.base.calls (close_joins ∷ []) e
          (out down (s.base.calls ++ closing ∷ close_joins ∷ [])) refl (if_self k e (s.awaited k))
          (get_elem?-set_self s.events e true h.unset)

  own_close_returns :
      make_move
        (turns (suc (length s.base.calls)))
        (out (set_state disconnected down) (s.base.calls ++ returned ∷ close_joins ∷ []))
      ≡ out (set_state disconnected down) (s.base.calls ++ returned ∷ returned ∷ [])
  own_close_returns =
      let calls = s.base.calls in
      let last = set_state disconnected down in
      let before = out last ((calls ++ returned ∷ []) ++ close_joins ∷ []) in
      ap (λ i. make_move (turns i) (out last (calls ++ returned ∷ close_joins ∷ [])))
        (sym (length-snoc calls returned))
      ∙ ap (λ l. make_move (turns (length (calls ++ returned ∷ []))) (out last l))
          (sym (snoc_snoc calls returned close_joins))
      ∙ turn_at last (calls ++ returned ∷ []) [] close_joins before refl
      ∙ joined_returns last (calls ++ returned ∷ []) [] before (down_at_last s.base.conn) refl
      ∙ ap (out last) (snoc_snoc calls returned returned)

  all_end :
      make_moves
        (in_task is_cancelled t
          ∷ turns (length s.base.calls)
          ∷ turns (suc (length s.base.calls))
          ∷ [])
        waiting
      ≡ out (set_state disconnected down) (s.base.calls ++ returned ∷ returned ∷ [])
  unfolding make_moves
  all_end =
      let k = length s.base.calls in
      ap (λ c. make_move (turns (suc k)) (make_move (turns k) c)) task_ends
      ∙ ap (make_move (turns (suc k))) close_returns
      ∙ own_close_returns

-- A call of `close` on a CONNECTED connection with a task cancels the task and waits for its end: however
-- often it has a turn before, the call is in the hook and the connection DISCONNECTING, with the scope
-- given up and cancelled. When the task then ends by the cancellation and the call and the `close` of the
-- task have a turn, the connection is DISCONNECTED and both calls have returned.
pub close_ends_the_run :
    (t e n : ℕ) (task : Task) (s : TaskConnection)
    → IsLive t e task s
    → let k = length s.base.calls in
      let mid = make_moves (close_made ∷ turns k ∷ replicate n (turns k)) s in
      let s' = make_moves (in_task is_cancelled t ∷ turns k ∷ turns (suc k) ∷ []) mid in
      (mid.base.conn ≡ set_state disconnecting s.base.conn)
      × (mid.base.calls ≡ s.base.calls ++ closing ∷ [])
      × (get_elem? mid.tasks t ≡ some (record task { cancelled = true }))
      × (mid.cancel_scope ≡ none)
      × (s'.base.conn ≡ set_state disconnected (set_state disconnecting s.base.conn))
      × (s'.base.calls ≡ s.base.calls ++ returned ∷ returned ∷ [])
      × (get_elem? s'.tasks t ≡ some (record task { cancelled = true; body = closes (suc k) }))
close_ends_the_run t e n task s h =
    let k = length s.base.calls in
    let ms = in_task is_cancelled t ∷ turns k ∷ turns (suc k) ∷ [] in
    let waits = close_waits t e task s h n in
    let ended = ap (make_moves ms) waits ∙ all_end t e task s h in
    let found = get_elem?-set_self s.tasks t (doomed t e task s h) h.found in
    (
      ap (λ (c : TaskConnection). c.base.conn) waits,
      ap (λ (c : TaskConnection). c.base.calls) waits,
      ap (λ (c : TaskConnection). get_elem? c.tasks t) waits ∙ found,
      ap (λ (c : TaskConnection). c.cancel_scope) waits,
      ap (λ (c : TaskConnection). c.base.conn) ended,
      ap (λ (c : TaskConnection). c.base.calls) ended,
      ap (λ (c : TaskConnection). get_elem? c.tasks t) ended
          ∙ get_elem?-set_self (set s.tasks t (doomed t e task s h)) t (gone t e task s h) found
          ∙ ap (λ j. some (record task { cancelled = true; body = closes j }))
              (length-snoc s.base.calls closing),
    )
