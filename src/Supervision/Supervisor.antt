-- ===== src/Supervision/Supervisor.antt =====
-- ConnectionSupervisor of src/flockwave/connections/supervision.py. A connection is named by a
-- number, a policy by a value of type `Policy`, a task by one of type `T`. What running the function
-- `supervise` and closing the connection come to are parameters, which may change the supervisor: other
-- entries come and go meanwhile.
use flockwave_conn.Common.{
  ℕ, Bool, true, false, not, Option, none, some, List, [], ◌∷◌, ◌==◌, if◌then◌else◌,
}

module _ (Policy : Type 0) where
  pub record Entry : Type 0 where
    pub policy : Policy
    pub cancelled : Bool

  -- `_policy` and `_entries`.
  pub record Supervisor : Type 0 where
    pub policy : Policy
    pub entries : List (ℕ × Entry)

-- What the methods read of a connection.
pub record Subject : Type 0 where
  pub id : ℕ
  pub is_connected : Bool
  pub is_listener : Bool

-- The task that `supervise` gets: the argument, or for a listener the loop that accepts clients for it.
pub data Work (T : Type 0) : Type 0 where
  as_given : Option T → Work T
  for_clients : T → Work T

-- How running the loop and closing the connection end.
pub data Ending (E : Type 0) : Type 0 where
  returns is_cancelled : Ending E
  raises : E → Ending E

-- `work_of` is `none` for the RuntimeError of a listener with no task.
work_of : {T : Type 0} → Bool → Option T → Option (Work T)
work_of true none = none
work_of true (some t) = some (for_clients t)
work_of false t = some (as_given t)

-- An exception of the `finally` block replaces that of the body.
after_finally : {E : Type 0} → Ending E → Ending E → Ending E
after_finally r returns = r
after_finally r is_cancelled = is_cancelled
after_finally r (raises e) = raises e

-- The cancel scope of the entry ends a cancellation by it.
leave_scope : {E : Type 0} → Ending E → Ending E
leave_scope is_cancelled = returns
leave_scope r = r

module _ (T E : Type 0) where
  -- What the method did: it refused, or it ran the loop under a policy with a task, closed the
  -- connection or not, and ended.
  pub data Supervised (Policy : Type 0) : Type 0 where
    already_supervised task_missing : Supervised Policy
    ran : Policy → Work T → Bool → Ending E → Supervised Policy

module _ (Policy : Type 0) where
  find_entry : ℕ → List (ℕ × Entry Policy) → Option (Entry Policy)
  find_entry c [] = none
  find_entry c ((d, e) ∷ l) = if d == c then some e else find_entry c l

  -- `del self._entries[connection]`
  drop_entry : ℕ → List (ℕ × Entry Policy) → List (ℕ × Entry Policy)
  drop_entry c [] = []
  drop_entry c ((d, e) ∷ l) = let rest = drop_entry c l in if d == c then rest else (d, e) ∷ rest

  cancel_entry : ℕ → List (ℕ × Entry Policy) → List (ℕ × Entry Policy)
  cancel_entry c [] = []
  cancel_entry c ((d, e) ∷ l) =
      (if d == c then (d, record e { cancelled = true }) else (d, e)) ∷ cancel_entry c l

  or_default : Option Policy → Policy → Policy
  or_default none p = p
  or_default (some q) p = q

  is_known : Option (Entry Policy) → Bool
  is_known none = false
  is_known (some _) = true

  module _ {T E : Type 0} (run : Policy → Work T → Supervisor Policy → Ending E × Supervisor Policy)
      (close : Supervisor Policy → Ending E × Supervisor Policy) where
    close_if : Bool → Ending E → Supervisor Policy → Ending E × Supervisor Policy
    unfolding after_finally
    close_if false r s = (r, s)
    close_if true r s = let (x, s') = close s in (after_finally r x, s')

    -- The body of the `with CancelScope()` block: the entry holds the given policy, and the loop is
    -- run under `self._policy`. The `finally` block removes the entry, and closes the connection if it
    -- was not connected before.
    run_supervised :
        Subject → Work T → Policy → Supervisor Policy → Supervised T E Policy × Supervisor Policy
    unfolding close_if leave_scope
    run_supervised c work policy s =
        let (r, s') = run s.policy work (record s {
          entries = (c.id, record { policy = policy; cancelled = false }) ∷ s.entries;
        }) in
        let (r', end) =
          close_if (not c.is_connected) r (record s' { entries = drop_entry c.id s'.entries }) in
        (ran s.policy work (not c.is_connected) (leave_scope r'), end)

    start_work :
        Option (Work T)
        → Subject
        → Policy
        → Supervisor Policy
        → Supervised T E Policy × Supervisor Policy
    unfolding run_supervised
    start_work none c policy s = (task_missing, s)
    start_work (some work) c policy s = run_supervised c work policy s

    unfoldable pub supervise_connection :
        Subject
        → Option T
        → Option Policy
        → Supervisor Policy
        → Supervised T E Policy × Supervisor Policy
    unfolding start_work is_known or_default find_entry drop_entry work_of
    supervise_connection c task policy s =
        if is_known (find_entry c.id s.entries)
        then (already_supervised, s)
        else start_work (work_of c.is_listener task) c (or_default policy s.policy) s

module _ (Policy T : Type 0) where
  -- The commands of the queue, and what the main loop does with one: it starts a task that runs
  -- `supervise`, or cancels the entry of the connection if there is one.
  pub data Command : Type 0 where
    add_command : Subject → Option T → Option Policy → Command
    remove_command : ℕ → Command

  pub data Started : Type 0 where
    starts : Subject → Option T → Option Policy → Started
    starts_nothing : Started

  unfoldable pub main_loop_step : Command → Supervisor Policy → Started × Supervisor Policy
  unfolding cancel_entry
  main_loop_step (add_command c task p) s = (starts c task p, s)
  main_loop_step (remove_command c) s =
      (starts_nothing, record s { entries = cancel_entry Policy c s.entries })

-- What each call of `accept` gives: a client, or an exception.
pub data Accept (C : Type 0) : Type 0 where
  client : C → Accept C
  accept_raises : Accept C

-- `_handle_incoming_connections_from_listener`: the clients for which the task is started, and whether
-- the loop has ended. It returns when `accept` raises.
unfoldable pub handle_incoming : {C : Type 0} → List (Accept C) → List C × Bool
handle_incoming [] = ([], false)
handle_incoming (client c ∷ rest) = let (cs, over) = handle_incoming rest in (c ∷ cs, over)
handle_incoming (accept_raises ∷ rest) = ([], true)
