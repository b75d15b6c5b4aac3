-- ===== src/Connection/Exclusion.antt =====
-- Two hooks never run at once, as long as no call goes on from a wait.
use flockwave_conn.Common.{
  ℕ, zero, suc, ◌+◌, ◌≤◌, ◌≡◌, ◌≢◌, some, List, [], ◌∷◌, arith, get_elem?, set, Option-cases, ◌⊎◌,
  inl, inr, if◌then◌else◌,
}
use flockwave_conn.Connection.State.{
  ConnectionState, connecting, disconnecting, state_eq, Connection,
}
use flockwave_conn.Connection.Calls.{
  Phase, open_woken, opening, close_woken, closing, Event, turn, hook_returns, hook_raises, cancel,
  System, advance, step, run,
}
use flockwave_conn.Connection.Signals.{state-set_state}

abbrev pub in_open : Phase → ℕ
in_open opening = 1
in_open _ = 0

abbrev pub in_close : Phase → ℕ
in_close closing = 1
in_close _ = 0

-- How many calls are inside a hook.
abbrev pub total : (Phase → ℕ) → List Phase → ℕ
total w [] = 0
total w (p ∷ calls) = w p + total w calls

-- 1 if the state is the given one.
abbrev pub at : ConnectionState → ConnectionState → ℕ
at t s = if state_eq s t then 1 else 0

-- CONNECTING with exactly one call inside `_open`, DISCONNECTING with exactly one inside `_close`,
-- or a settled state with none in either.
pub record IsExclusive (s : System) : Type 0 where
  pub opens : total in_open s.calls ≡ at connecting s.conn.state
  pub closes : total in_close s.calls ≡ at disconnecting s.conn.state

module _ (w : Phase → ℕ) where
  le-total :
      (calls : List Phase) (i : ℕ) (p : Phase) → get_elem? calls i ≡ some p → w p ≤ total w calls
  le-total [] i p h = cc
  le-total (q ∷ calls) zero p h = ground arith
  le-total (q ∷ calls) (suc i) p h = omega (arith, le-total calls i p h)

  total-set :
      (calls : List Phase) (i : ℕ) (p p' : Phase)
      → get_elem? calls i ≡ some p
      → total w (set calls i p') + w p ≡ total w calls + w p'
  total-set [] i p p' h = cc
  total-set (q ∷ calls) zero p p' h = ground arith
  total-set (q ∷ calls) (suc i) p p' h = omega (arith, total-set calls i p p' h)

-- A call that has been woken from a wait is about to set the state.
abbrev IsWoken : Phase → Type 0
IsWoken p = (p ≡ open_woken) ⊎ (p ≡ close_woken)

module _ (p : Phase) (c : Connection) (direct : ¬ IsWoken p) (o : in_open p ≤ at connecting c.state)
    (k : in_close p ≤ at disconnecting c.state) where
  abbrev IsBalanced : Event → Type 0
  IsBalanced e =
      (in_open (advance e p c).0 + at connecting c.state
        ≡ in_open p + at connecting (advance e p c).1.state)
      × (in_close (advance e p c).0 + at disconnecting c.state
          ≡ in_close p + at disconnecting (advance e p c).1.state)

  advance-IsBalanced : (e : Event) → IsBalanced e
  unfolding advance
  advance-IsBalanced turn = grind (arith, state-set_state)
  advance-IsBalanced hook_returns = grind (arith, state-set_state)
  advance-IsBalanced hook_raises = grind (arith, state-set_state)
  advance-IsBalanced cancel = grind (arith, state-set_state)

-- No call of the schedule goes on from a wait for a flag.
abbrev pub IsDirect : List (ℕ × Event) → System → Type 0
IsDirect [] s = Unit
IsDirect (x ∷ xs) s =
    (get_elem? s.calls x.0 ≢ some open_woken)
    × (get_elem? s.calls x.0 ≢ some close_woken)
    × IsDirect xs (step x s)

step-IsExclusive :
    (i : ℕ) (e : Event) (s : System)
    → get_elem? s.calls i ≢ some open_woken
    → get_elem? s.calls i ≢ some close_woken
    → IsExclusive s
    → IsExclusive (step (i, e) s)
unfolding step
step-IsExclusive i e s no_open no_close h = elim (Option-cases (get_elem? s.calls i)) [
  | inl missing ↦ rw missing h
  | inr (p, found) ↦
      let direct : ¬ IsWoken p = λ woken. elim woken [
        | inl q ↦ no_open (rw (found, q))
        | inr q ↦ no_close (rw (found, q))
      ] in
      let balanced =
        advance-IsBalanced p s.conn direct
          (omega (arith, h.opens, le-total in_open s.calls i p found))
          (omega (arith, h.closes, le-total in_close s.calls i p found)) e in
      rw found (record {
        opens = omega (
          arith,
          h.opens,
          balanced.0,
          total-set in_open s.calls i p (advance e p s.conn).0 found,
        );
        closes = omega (
          arith,
          h.closes,
          balanced.1,
          total-set in_close s.calls i p (advance e p s.conn).0 found,
        );
      })
]

-- From a system in which the state and the calls inside the hooks agree, a schedule in which no
-- call goes on from a wait for a flag keeps them so: exactly one call is inside `_open` while the
-- connection is CONNECTING, exactly one inside `_close` while it is DISCONNECTING, and none is
-- inside a hook otherwise.
pub run-IsExclusive :
    (schedule : List (ℕ × Event)) (s : System)
    → IsDirect schedule s
    → IsExclusive s
    → IsExclusive (run schedule s)
unfolding run
run-IsExclusive [] s d h = h
run-IsExclusive ((i, e) ∷ xs) s d h =
    run-IsExclusive xs (step (i, e) s) d.2 (step-IsExclusive i e s d.0 d.1 h)
