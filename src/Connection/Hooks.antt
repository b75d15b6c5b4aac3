-- ===== src/Connection/Hooks.antt =====
-- Which calls are inside the hooks `_open` and `_close`, against the state.
use flockwave_conn.Common.{
  ℕ, ◌≡◌, ◌≢◌, some, List, [], ◌∷◌, arith, get_elem?, set, get_elem?-set_self, get_elem?-set_ne,
  Option-cases, ◌⊎◌, inl, inr, sym, ◌∙◌, ap,
}
use flockwave_conn.Connection.State.{connecting, disconnecting, Connection}
use flockwave_conn.Connection.Calls.{
  Phase, opening, closing, Event, turn, hook_returns, hook_raises, cancel, System, advance, step,
  run,
}
use flockwave_conn.Connection.Signals.{state-set_state}
use mathlib.Core.Option.{some-injective}

-- Some call is in the phase.
abbrev pub Somewhere : Phase → List Phase → Type 0
Somewhere p calls = (i : ℕ) × (get_elem? calls i ≡ some p)

-- A transitional state has a call in the hook that will end it.
pub record IsAttended (s : System) : Type 0 where
  pub when_connecting : s.conn.state ≡ connecting → Somewhere opening s.calls
  pub when_disconnecting : s.conn.state ≡ disconnecting → Somewhere closing s.calls

ruleset sets = (arith, state-set_state)

advance_connecting :
    (e : Event) (p : Phase) (c : Connection)
    → (advance e p c).1.state ≡ connecting
    → ((advance e p c).0 ≡ opening) ⊎ (c.state ≡ connecting) × (p ≢ opening)
unfolding advance
advance_connecting turn p c = grind sets
advance_connecting hook_returns p c = grind sets
advance_connecting hook_raises p c = grind sets
advance_connecting cancel p c = grind sets

advance_disconnecting :
    (e : Event) (p : Phase) (c : Connection)
    → (advance e p c).1.state ≡ disconnecting
    → ((advance e p c).0 ≡ closing) ⊎ (c.state ≡ disconnecting) × (p ≢ closing)
unfolding advance
advance_disconnecting turn p c = grind sets
advance_disconnecting hook_returns p c = grind sets
advance_disconnecting hook_raises p c = grind sets
advance_disconnecting cancel p c = grind sets

-- One move keeps a call in the hook, for the call that moved and for the others.
module _ (hook : Phase) (i : ℕ) {p : Phase} (p' : Phase) (calls : List Phase)
    (found : get_elem? calls i ≡ some p) where
  keep_moved : p' ≡ hook → Somewhere hook (set calls i p')
  keep_moved h = (i, rw h (get_elem?-set_self calls i hook found))

  keep_other : p ≢ hook → Somewhere hook calls → Somewhere hook (set calls i p')
  keep_other h (j, at) = (
    j,
    rw
        (get_elem?-set_ne calls {i = i} {j = j} p'
          (λ e. h (some-injective _ _ (sym found ∙ ap (get_elem? calls) e ∙ at))))
        at,
  )

pub step-IsAttended : (x : ℕ × Event) (s : System) → IsAttended s → IsAttended (step x s)
unfolding step
step-IsAttended (i, e) s h = elim (Option-cases (get_elem? s.calls i)) [
  | inl missing ↦ rw missing h
  | inr (p, found) ↦ rw found (record {
    when_connecting = λ now. elim (advance_connecting e p s.conn now) [
      | inl enters ↦ keep_moved opening i (advance e p s.conn).0 s.calls found enters
      | inr (before, apart) ↦
          keep_other opening i (advance e p s.conn).0 s.calls found apart (h.when_connecting before)
    ];
    when_disconnecting = λ now. elim (advance_disconnecting e p s.conn now) [
      | inl enters ↦ keep_moved closing i (advance e p s.conn).0 s.calls found enters
      | inr (before, apart) ↦
          keep_other closing i (advance e p s.conn).0 s.calls found apart
            (h.when_disconnecting before)
    ];
  })
]

-- Whatever calls run and in whatever order, a connection that is CONNECTING has a call inside
-- `_open`, and one that is DISCONNECTING has a call inside `_close`: no transitional state is left
-- behind with nothing to end it.
pub run-IsAttended :
    (schedule : List (ℕ × Event)) (s : System) → IsAttended s → IsAttended (run schedule s)
unfolding run
run-IsAttended [] s h = h
run-IsAttended (x ∷ xs) s h = run-IsAttended xs (step x s) (step-IsAttended x s h)
