-- ===== src/Connection/Races.antt =====
-- What the waits of `open` and `close` allow: a call that waits for a connection that never comes,
-- and two calls inside `_open` at once.
use flockwave_conn.Common.{
  ℕ, ◌≡◌, refl, ◌≢◌, false, some, List, [], ◌∷◌, arith, All, get_elem?, set, Option-cases,
  get_elem?-set_self, get_elem?-set_ne, ◌⊎◌, inl, inr, zero, suc, ap, subst, sym, ◌∙◌,
}
use mathlib.Core.Option.{some-injective}
use flockwave_conn.Connection.State.{disconnected, connecting, Connection, set_state}
use flockwave_conn.Connection.Calls.{
  Phase, open_joins, open_woken, opening, close_waits, returned, raised, Event, turn, hook_raises,
  cancel, System, advance, step, run,
}
use flockwave_conn.Connection.Signals.{state-set_state, set_state-IsFaithful, IsFaithful}

-- A call that has ended, or that waits for the connection to become connected.
abbrev pub IsStuck : Phase → Type 0
IsStuck p = (p ≡ open_joins) ⊎ (p ≡ close_waits) ⊎ (p ≡ returned) ⊎ (p ≡ raised)

-- No wait is cancelled.
abbrev pub IsUncancelled : List (ℕ × Event) → Type 0
IsUncancelled xs = All (λ x. x.1 ≢ cancel) xs

pub advance_stuck :
    (e : Event) (p : Phase) (c : Connection)
    → e ≢ cancel
    → c.is_connected ≡ false
    → IsStuck p
    → advance e p c ≡ (p, c)
unfolding advance
advance_stuck e p c live down stuck = ground arith

-- A move of a call that is there.
step_found :
    (i : ℕ) (e : Event) (s : System) {p : Phase}
    → get_elem? s.calls i ≡ some p
    → step (i, e) s
      ≡ record { conn = (advance e p s.conn).1; calls = set s.calls i (advance e p s.conn).0 }
unfolding step
step_found i e s found = rw found

pub set_self {ℓ} :
    {A : Type ℓ} (xs : List A) (i : ℕ) (v : A) → get_elem? xs i ≡ some v → set xs i v ≡ xs
set_self [] i v h = refl
set_self (x ∷ xs) zero v h = ground arith
set_self (x ∷ xs) (suc i) v h = ap (λ l. x ∷ l) (set_self xs i v h)

All-get_elem? {ℓ κ} :
    {A : Type ℓ} (P : A → Type κ) (xs : List A) (i : ℕ) (v : A)
    → All P xs
    → get_elem? xs i ≡ some v
    → P v
All-get_elem? P [] i v h e = cc
All-get_elem? P (x ∷ xs) zero v h e = subst P (some-injective x v e) h.0
All-get_elem? P (x ∷ xs) (suc i) v h e = All-get_elem? P xs i v h.1 e

step_stuck :
    (i : ℕ) (e : Event) (s : System)
    → e ≢ cancel
    → s.conn.is_connected ≡ false
    → All IsStuck s.calls
    → step (i, e) s ≡ s
unfolding step
step_stuck i e s live down stuck = elim (Option-cases (get_elem? s.calls i)) [
  | inl missing ↦ rw missing
  | inr (p, found) ↦
      rw (found, advance_stuck e p s.conn live down (All-get_elem? IsStuck s.calls i p stuck found))
        (rw (set_self s.calls i p found))
]

-- When a connection is not connected and each of its calls has ended or waits for it to become
-- connected, no schedule without a cancellation changes anything: the waiting calls never end.
pub run_stranded :
    (schedule : List (ℕ × Event)) (s : System)
    → IsUncancelled schedule
    → s.conn.is_connected ≡ false
    → All IsStuck s.calls
    → run schedule s ≡ s
unfolding run
run_stranded [] s live down stuck = refl
run_stranded ((i, e) ∷ xs) s live down stuck =
    rw (step_stuck i e s live.0 down stuck) (run_stranded xs s live.1 down stuck)

down_after : (c : Connection) → IsFaithful c → (set_state disconnected c).is_connected ≡ false
down_after c h = (set_state-IsFaithful disconnected c h).connected_flag ∙ rw state-set_state refl

-- When the one call inside `_open` fails and every other call has ended or waits for the connection
-- to become connected, the failing call raises and the others wait for ever: no schedule without a
-- cancellation changes anything from there.
pub run_failed_open :
    (i : ℕ) (schedule : List (ℕ × Event)) (s : System)
    → IsUncancelled schedule
    → IsFaithful s.conn
    → get_elem? s.calls i ≡ some opening
    → All IsStuck (set s.calls i raised)
    → (run ((i, hook_raises) ∷ schedule) s).calls ≡ set s.calls i raised
unfolding run
run_failed_open i schedule s live h found others =
    rw (step_found i hook_raises s found, run)
      (unfold advance in
        ap System.calls (
          run_stranded schedule
            (record { conn = set_state disconnected s.conn; calls = set s.calls i raised }) live
            (down_after s.conn h) others))

-- Two calls of `open` that have been woken from their wait for a closing connection both enter
-- `_open`, whatever the connection's state.
run_double_open :
    (i j : ℕ) (s : System)
    → i ≢ j
    → get_elem? s.calls i ≡ some open_woken
    → get_elem? s.calls j ≡ some open_woken
    → let calls' = (run ((i, turn) ∷ (j, turn) ∷ []) s).calls in
      (get_elem? calls' i ≡ some opening) × (get_elem? calls' j ≡ some opening)
unfolding run step advance
run_double_open i j s apart fi fj = rw (step_found i turn s fi) (
    unfold advance in
    rw
      (step_found j turn
        (record { conn = set_state connecting s.conn; calls = set s.calls i opening })
        (get_elem?-set_ne s.calls opening apart ∙ fj))
      (
        get_elem?-set_ne (set s.calls i opening) opening (λ e. apart (sym e))
            ∙ get_elem?-set_self s.calls i opening fi,
        get_elem?-set_self (set s.calls i opening) j opening
            (get_elem?-set_ne s.calls opening apart ∙ fj),
      ))
