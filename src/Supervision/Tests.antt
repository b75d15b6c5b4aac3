-- ===== src/Supervision/Tests.antt =====
-- Runs of the supervision loop with delays in whole seconds, and a supervisor with one connection.
use flockwave_conn.Common.{ℕ, ◌+◌, codes, ◌≡◌, refl, true, false, none, some, List, [], ◌∷◌}
use flockwave_conn.Supervision.Loop.{
  Notice, Verdict, Round, open_raises, task_ends, disconnects, supervise, still_running,
}
use flockwave_conn.Supervision.Policies.{
  constant_delay_policy, delayed_rounds, supervise-constant_delay,
}
use flockwave_conn.Supervision.Supervisor.{
  Entry, Supervisor, Subject, Work, as_given, Ending, returns, raises, task_missing, ran,
  supervise_connection,
}

-- A policy that goes on after an error and stops after a close.
abbrev on_error : Notice → ℕ → Verdict ℕ × ℕ
on_error Notice.open_notice n = (Verdict.says_none, n)
on_error Notice.close_notice n = (Verdict.says_false, n)
on_error (Notice.exception_notice e) n = (Verdict.says_true, n + 1)

abbrev rounds : List Round
rounds = open_raises (codes "refused") ∷ disconnects ∷ task_ends ∷ []

supervise-constant_delay_example :
    supervise ℕ 1 (Unit {0}) (constant_delay_policy ℕ 3) rounds tt
    ≡ (delayed_rounds ℕ 1 3 rounds, still_running)
supervise-constant_delay_example = supervise-constant_delay ℕ 1 3 rounds

-- Policies and tasks are numbers here. The connection with the number 9 is added while the loop runs, and
-- the loop raises the policy that it runs under.
abbrev entry_of : ℕ → Entry ℕ
entry_of p = record { policy = p; cancelled = false }

abbrev supervisor : Supervisor ℕ
supervisor = record { policy = 1; entries = [] }

abbrev run_loop : ℕ → Work ℕ → Supervisor ℕ → Ending ℕ × Supervisor ℕ
run_loop p work s = (raises p, record s { entries = (9, entry_of 1) ∷ s.entries })

abbrev close_connection : Supervisor ℕ → Ending ℕ × Supervisor ℕ
close_connection s = (returns, s)

abbrev subject : Subject
subject = record { id = 7; is_connected = false; is_listener = false }

given_policy_is_ignored :
    supervise_connection ℕ run_loop close_connection subject (some 5) (some 2) supervisor ≡ (
      ran 1 (as_given (some 5)) true (raises 1),
      record supervisor { entries = (9, entry_of 1) ∷ [] },
    )
unfolding supervise_connection
given_policy_is_ignored = refl

listener_needs_task :
    (supervise_connection ℕ run_loop close_connection
      (record subject { is_listener = true })
      none
      none
      supervisor).0
    ≡ task_missing
unfolding supervise_connection
listener_needs_task = refl
