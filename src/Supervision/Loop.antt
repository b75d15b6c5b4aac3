-- ===== src/Supervision/Loop.antt =====
-- `supervise` and the policies of src/flockwave/connections/supervision.py. What happens to the
-- connection is a list of rounds, one for each turn of the `while True` loop; past its end the
-- function is still running, until it is cancelled. A policy may keep a state of type `P`. The delays
-- are floats, which are only passed on.
use flockwave_conn.Common.{ℕ, suc, ◌+◌, Text, ◌≡◌, refl, List, [], ◌∷◌, ◌++◌, arith}

module _ (Seconds : Type 0) where
  -- What a policy answers: False, None, True, a number, something else; or it raises.
  pub data Verdict : Type 0 where
    says_false says_none says_true says_other : Verdict
    says_seconds : Seconds → Verdict
    policy_raises : Text → Verdict

-- What a policy is called with.
pub data Notice : Type 0 where
  open_notice close_notice : Notice
  exception_notice : Text → Notice

-- What happens in a round: `open` raises; or it returns, and then the task or the wait for the
-- disconnection ends (whichever is first cancels the other), or one of them raises.
pub data Round : Type 0 where
  open_raises : Text → Round
  task_ends : Round
  disconnects : Round
  task_raises : Text → Round

pub data Ending : Type 0 where
  finished still_running : Ending
  raised : Text → Ending
  invalid_action : Ending

module _ (Seconds : Type 0) (one : Seconds) (P : Type 0)
    (policy : Notice → P → Verdict Seconds × P) where
  -- What the function does, in order: calls of `open`, calls of the policy, sleeps.
  pub data Act : Type 0 where
    opens : Act
    asks : Notice → Act
    sleeps : Seconds → Act

  -- The end of a round with a call of the policy for the notice.
  abbrev concluded : Round → Notice
  concluded (open_raises e) = exception_notice e
  concluded task_ends = close_notice
  concluded disconnects = close_notice
  concluded (task_raises e) = exception_notice e

  -- The call `policy(connection, "open")`, whose exception is caught with the others.
  notice_after_open : Verdict Seconds → Round → Notice
  notice_after_open (policy_raises e) r = exception_notice e
  notice_after_open _ r = concluded r

  -- One turn of the loop up to the action: what was done, the action, and the policy's state.
  try_round : Round → P → List Act × Verdict Seconds × P
  unfolding notice_after_open
  try_round (open_raises e) p =
      let (v, p') = policy (exception_notice e) p in (opens ∷ asks (exception_notice e) ∷ [], v, p')
  try_round r p =
      let (v₀, p₀) = policy open_notice p in
      let n = notice_after_open v₀ r in
      let (v, p') = policy n p₀ in (opens ∷ asks open_notice ∷ asks n ∷ [], v, p')

  -- The action: to go on after a sleep, or to end. True counts as the integer 1.
  pub data Next : Type 0 where
    again : Seconds → Next
    ends : Ending → Next

  pub decide : Verdict Seconds → Next
  decide says_false = ends finished
  decide says_none = ends finished
  decide says_true = again one
  decide (says_seconds s) = again s
  decide says_other = ends invalid_action
  decide (policy_raises e) = ends (raised e)

  continue : Next → List Act → List Act × Ending → List Act × Ending
  continue (ends e) done rest = (done, e)
  continue (again s) done (later, e) = (done ++ sleeps s ∷ later, e)

  -- `supervise` over the rounds: everything that it does, and how it ends.
  unfoldable pub supervise : List Round → P → List Act × Ending
  unfolding try_round decide continue
  supervise [] p = ([], still_running)
  supervise (r ∷ rs) p =
      let (done, v, p') = try_round r p in
      let rest = supervise rs p' in continue (decide v) done rest

  -- How often the connection was opened, and how often the function slept.
  abbrev pub open_count : List Act → ℕ
  open_count [] = 0
  open_count (opens ∷ l) = suc (open_count l)
  open_count (asks _ ∷ l) = open_count l
  open_count (sleeps _ ∷ l) = open_count l

  abbrev pub sleep_count : List Act → ℕ
  sleep_count [] = 0
  sleep_count (opens ∷ l) = sleep_count l
  sleep_count (asks _ ∷ l) = sleep_count l
  sleep_count (sleeps _ ∷ l) = suc (sleep_count l)

  -- 0 for a run that is still going on, 1 for one that has ended
  abbrev pub ended : Ending → ℕ
  ended still_running = 0
  ended _ = 1

  Result-ended : (v : Verdict Seconds) (e : Ending) → decide v ≡ ends e → ended e ≡ 1
  unfolding decide
  Result-ended v e h = ground arith

  open_count-append : (a b : List Act) → open_count (a ++ b) ≡ open_count a + open_count b
  open_count-append [] b = omega arith
  open_count-append (opens ∷ a) b = omega (arith, open_count-append a b)
  open_count-append (asks _ ∷ a) b = open_count-append a b
  open_count-append (sleeps _ ∷ a) b = open_count-append a b

  sleep_count-append : (a b : List Act) → sleep_count (a ++ b) ≡ sleep_count a + sleep_count b
  sleep_count-append [] b = omega arith
  sleep_count-append (opens ∷ a) b = sleep_count-append a b
  sleep_count-append (asks _ ∷ a) b = sleep_count-append a b
  sleep_count-append (sleeps _ ∷ a) b = omega (arith, sleep_count-append a b)

  try_round-counts :
      (r : Round) (p : P) → (open_count (try_round r p).0 ≡ 1) × (sleep_count (try_round r p).0 ≡ 0)
  unfolding try_round
  try_round-counts (open_raises e) p = (refl, refl)
  try_round-counts task_ends p = (refl, refl)
  try_round-counts disconnects p = (refl, refl)
  try_round-counts (task_raises e) p = (refl, refl)

  continue-counts :
      (n : Next) (done : List Act) (rest : List Act × Ending)
      → ((e : Ending) → n ≡ ends e → ended e ≡ 1)
      → open_count done ≡ 1
      → sleep_count done ≡ 0
      → open_count rest.0 ≡ sleep_count rest.0 + ended rest.1
      → open_count (continue n done rest).0
        ≡ sleep_count (continue n done rest).0 + ended (continue n done rest).1
  unfolding continue
  continue-counts (ends e) done rest stop o s ih = omega (arith, stop e refl)
  continue-counts (again t) done rest stop o s ih = omega (
    arith,
    open_count-append done (sleeps t ∷ rest.0),
    sleep_count-append done (sleeps t ∷ rest.0),
  )

  -- Whatever the policy answers and whatever happens to the connection, there is one sleep between
  -- two attempts to open it: the attempts are as many as the sleeps while the function runs, and one
  -- more once it has ended.
  supervise-counts :
      (rs : List Round) (p : P)
      → let (acts, e) = supervise rs p in open_count acts ≡ sleep_count acts + ended e
  unfolding supervise
  supervise-counts [] p = refl
  supervise-counts (r ∷ rs) p =
      let (done, v, p') = try_round r p in
      let (o, s) = try_round-counts r p in
      continue-counts (decide v) done (supervise rs p') (λ e h. Result-ended v e h) o s
        (supervise-counts rs p')
