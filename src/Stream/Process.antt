-- ===== src/Stream/Process.antt =====
-- ProcessConnection of src/flockwave/connections/process.py, one call at a time. A process is known by a
-- number; how starting it ends, whether it exits within the five seconds that follow `terminate`, and its
-- exit code, negative if a signal ended it, are given with the calls. The factory of process descriptors, `terminate`, `kill` and
-- `wait` do not raise, and both pipes of a process are there.
use flockwave_conn.Common.{
  ℕ, ℤ, Text, ◌≡◌, Option, none, some, List, [], ◌∷◌, ◌++◌, append_assoc, arith,
}
use flockwave_conn.Common.Results.{Fallible, ok, err}
use flockwave_conn.Connection.State.{
  ConnectionState, disconnected, connecting, connected, disconnecting, Connection, new_connection,
  set_state,
}
use flockwave_conn.Connection.Signals.{state-set_state}

pub data Error : Type 0 where
  assertion_error attribute_error : Error
  foreign : Text → Error

abbrev pub Result {ℓ} : Type ℓ → Type ℓ
Result A = Fallible Error A

-- What is done to the processes, in order.
pub data Action : Type 0 where
  terminates kills waits : ℕ → Action

-- `_stdin` and `_stdout`, which have no value before the first `open`.
pub data Pipe : Type 0 where
  unset no_pipe : Pipe
  pipe_of : ℕ → Pipe

pub record ProcessConnection : Type 0 where
  pub base : Connection
  pub process : Option ℕ
  pub stdin : Pipe
  pub stdout : Pipe
  pub exit_code : Option ℤ
  pub actions : List Action
  -- what was written to the standard input of the process
  pub input : Text

unfoldable pub new_process_connection : ProcessConnection
new_process_connection = record {
  base = new_connection;
  process = none;
  stdin = unset;
  stdout = unset;
  exit_code = none;
  actions = [];
  input = [];
}

abbrev pub Called : Type 0 → Type 0
Called A = Result A × ProcessConnection

abbrev pub move_to : ConnectionState → ProcessConnection → ProcessConnection
move_to s c = record c { base = set_state s c.base }

-- `_open`: the exit code of an earlier process is forgotten before the new one starts.
unfoldable pub open_hook : Result ℕ → ProcessConnection → Called (Unit {0})
open_hook (err e) c = (err e, record c { exit_code = none })
open_hook (ok p) c =
    (ok tt, record c { exit_code = none; process = some p; stdin = pipe_of p; stdout = pipe_of p })

-- What the system answers while a process is ended: the exit code, if the process exits within five
-- seconds, and the one that it has after `kill`.
pub record Exit : Type 0 where
  pub in_time : Option ℤ
  pub after_kill : ℤ

kill_if_needed : Option ℤ → Exit → ℕ → ProcessConnection → ProcessConnection
kill_if_needed (some code) exit p c = record c { exit_code = some code }
kill_if_needed none exit p c = record c {
  actions = c.actions ++ kills p ∷ waits p ∷ [];
  exit_code = some exit.after_kill;
}

close_process : Option ℕ → Exit → ProcessConnection → ProcessConnection
unfolding kill_if_needed
close_process none exit c = c
close_process (some p) exit c = kill_if_needed exit.in_time exit p (record c {
  process = none;
  stdin = no_pipe;
  stdout = no_pipe;
  actions = c.actions ++ terminates p ∷ waits p ∷ [];
})

-- `_close`
unfoldable pub close_hook : Exit → ProcessConnection → ProcessConnection
unfolding close_process
close_hook exit c = close_process c.process exit c

finish_open : Called (Unit {0}) → Called (Unit {0})
finish_open (ok _, c) = (ok tt, move_to connected c)
finish_open (err e, c) = (err e, move_to disconnected c)

open_from : ConnectionState → Result ℕ → ProcessConnection → Called (Unit {0})
open_from disconnected started c = finish_open (open_hook started (move_to connecting c))
open_from _ started c = (ok tt, c)

unfoldable pub open_process : Result ℕ → ProcessConnection → Called (Unit {0})
unfolding open_from finish_open open_hook
open_process started c = open_from c.base.state started c

close_from : ConnectionState → Exit → ProcessConnection → ProcessConnection
close_from connected exit c = move_to disconnected (close_hook exit (move_to disconnecting c))
close_from _ exit c = c

unfoldable pub close : Exit → ProcessConnection → ProcessConnection
unfolding close_from close_hook
close exit c = close_from c.base.state exit c

read_from : Pipe → Result Text → ProcessConnection → Called Text
read_from unset answer c = (err attribute_error, c)
read_from no_pipe answer c = (err assertion_error, c)
read_from (pipe_of p) answer c = (answer, c)

unfoldable pub read : Result Text → ProcessConnection → Called Text
unfolding read_from
read answer c = read_from c.stdout answer c

write_to : Pipe → Text → Result (Unit {0}) → ProcessConnection → Called (Unit {0})
write_to unset bytes answer c = (err attribute_error, c)
write_to no_pipe bytes answer c = (err assertion_error, c)
write_to (pipe_of p) bytes (err e) c = (err e, c)
write_to (pipe_of p) bytes (ok _) c = (ok tt, record c { input = c.input ++ bytes })

unfoldable pub write : Text → Result (Unit {0}) → ProcessConnection → Called (Unit {0})
unfolding write_to
write bytes answer c = write_to c.stdin bytes answer c

-- The connection after opening and closing it: what was done to the process, and the exit code.
abbrev pub ended_actions : ℕ → Exit → List Action
ended_actions p exit =
    terminates p ∷ waits p ∷ elim exit.in_time [ some code ↦ [] | none ↦ kills p ∷ waits p ∷ [] ]

abbrev pub ended_code : Exit → ℤ
ended_code exit = elim exit.in_time [ some code ↦ code | none ↦ exit.after_kill ]

-- Opening a disconnected connection with a process that starts, and closing it, leaves it disconnected
-- with no process and no pipe: the process was terminated and waited for, killed and waited for again
-- only if it did not exit in time, and its exit code is stored, in place of that of an earlier
-- process.
pub close-open :
    (p : ℕ) (exit : Exit) (c : ProcessConnection)
    → c.base.state ≡ disconnected
    → let c' = close exit (open_process (ok p) c).1 in
      (c'.base.state ≡ disconnected)
      × (c'.process ≡ none)
      × (c'.stdin ≡ no_pipe)
      × (c'.stdout ≡ no_pipe)
      × (c'.exit_code ≡ some (ended_code exit))
      × (c'.actions ≡ c.actions ++ ended_actions p exit)
unfolding close open_process
close-open p exit c down = grind (arith, state-set_state, append_assoc)
