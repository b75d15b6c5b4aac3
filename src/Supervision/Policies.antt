-- ===== src/Supervision/Policies.antt =====
-- The policies that src/flockwave/connections/supervision.py makes, and the loop under them.
use flockwave_conn.Common.{◌≡◌, refl, List, [], ◌∷◌, ◌++◌}
use flockwave_conn.Supervision.Loop.{
  Verdict, says_false, says_seconds, Notice, open_notice, close_notice, exception_notice, Round,
  open_raises, task_ends, disconnects, task_raises, finished, still_running, Act, opens, asks,
  sleeps, supervise, sleep_count,
}

module _ (Seconds : Type 0) where
  -- `_constant`: the same answer to every call. These policies have no state.
  unfoldable pub constant : Verdict Seconds → Notice → Unit {0} → Verdict Seconds × Unit {0}
  constant x notice p = (x, p)

  unfoldable pub constant_delay_policy : Seconds → Notice → Unit {0} → Verdict Seconds × Unit {0}
  unfolding constant
  constant_delay_policy seconds = constant (says_seconds seconds)

  unfoldable pub no_reconnection_policy : Notice → Unit {0} → Verdict Seconds × Unit {0}
  unfolding constant
  no_reconnection_policy = constant says_false

  -- `default_policy`: one second
  unfoldable pub default_policy : Seconds → Notice → Unit {0} → Verdict Seconds × Unit {0}
  unfolding constant_delay_policy
  default_policy one = constant_delay_policy one

module _ (Seconds : Type 0) (one seconds : Seconds) where
  -- One round under a constant delay: what is asked, and the sleep behind it.
  abbrev pub delayed_round :
      Round → List (Act Seconds one (Unit {0}) (constant_delay_policy Seconds seconds))
  delayed_round (open_raises e) = opens ∷ asks (exception_notice e) ∷ sleeps seconds ∷ []
  delayed_round (task_raises e) =
      opens ∷ asks open_notice ∷ asks (exception_notice e) ∷ sleeps seconds ∷ []
  delayed_round _ = opens ∷ asks open_notice ∷ asks close_notice ∷ sleeps seconds ∷ []

  abbrev pub delayed_rounds :
      List Round → List (Act Seconds one (Unit {0}) (constant_delay_policy Seconds seconds))
  delayed_rounds [] = []
  delayed_rounds (r ∷ rs) = delayed_round r ++ delayed_rounds rs

  -- Under a constant delay the function never ends by itself: whatever happens to the connection, it
  -- opens it, tells the policy how the round went, and sleeps for that delay, round after round.
  pub supervise-constant_delay :
      (rs : List Round)
      → supervise Seconds one (Unit {0}) (constant_delay_policy Seconds seconds) rs tt
        ≡ (delayed_rounds rs, still_running)
  unfolding supervise constant_delay_policy
  supervise-constant_delay [] = refl
  supervise-constant_delay (open_raises e ∷ rs) = rw (supervise-constant_delay rs)
  supervise-constant_delay (task_ends ∷ rs) = rw (supervise-constant_delay rs)
  supervise-constant_delay (disconnects ∷ rs) = rw (supervise-constant_delay rs)
  supervise-constant_delay (task_raises e ∷ rs) = rw (supervise-constant_delay rs)

module _ (Seconds : Type 0) (one : Seconds) where
  -- Without reconnection the function ends after the first round, with no error and no sleep,
  -- whatever happened in that round.
  supervise-no_reconnection :
      (r : Round) (rs : List Round)
      → let (acts, e) =
          supervise Seconds one (Unit {0}) (no_reconnection_policy Seconds) (r ∷ rs) tt in
        (e ≡ finished)
        × (sleep_count Seconds one (Unit {0}) (no_reconnection_policy Seconds) acts ≡ 0)
  unfolding supervise no_reconnection_policy
  supervise-no_reconnection (open_raises e) rs = (refl, refl)
  supervise-no_reconnection task_ends rs = (refl, refl)
  supervise-no_reconnection disconnects rs = (refl, refl)
  supervise-no_reconnection (task_raises e) rs = (refl, refl)
