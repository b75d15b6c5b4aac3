-- ===== src/Stream/Tests.antt =====
-- A stream at its end, a wrapped stream, a process that has to be killed, and a loopback pair over
-- channels that are lists with a capacity.
use flockwave_conn.Common.{
  ℕ, negsuc, codes, ◌≡◌, refl, none, some, List, [], ◌∷◌, ◌++◌, arith, ltb, length, if◌then◌else◌,
}
use flockwave_conn.Common.Results.{ok, err}
use flockwave_conn.Connection.State.{connected, disconnected, set_state, new_connection}
use flockwave_conn.Stream.Base.{StreamConnection, stream_error, read}
use flockwave_conn.Stream.Laws.{read-IsFinal}
use flockwave_conn.Stream.Wrapper.{Request, open_request, close_request, write_request}
use flockwave_conn.Stream.Process as Process
use flockwave_conn.Stream.Process.{
  ProcessConnection, new_process_connection, no_pipe, Exit, terminates, kills, waits, close-open,
}
use flockwave_conn.Stream.Loopback.{
  Sent, sent, send_blocks, Got, got, receive_blocks, MemoryChannels, left, right, new_pair, tx_of,
}
use flockwave_conn.Stream.Fifo.{
  Action, writes, reads, opens, act_all, written_by, read_by, loopback_fifo,
}

abbrev open_connection : StreamConnection
open_connection = record {
  base = set_state connected new_connection;
  stream = some (record { sent = [] });
  closed = [];
}

is_open : open_connection.base.state ≡ connected
unfolding set_state
is_open = refl

-- Closing the stream fails after a read that failed: the second error is the one that is raised.
read-IsFinal_example :
    let (r, c') =
      read (err (stream_error (codes "a"))) (err (stream_error (codes "b"))) open_connection in
    (r ≡ err (stream_error (codes "b")))
    × (c'.stream ≡ none)
    × (c'.closed ≡ record { sent = [] } ∷ [])
    × (c'.base.state ≡ connected)
read-IsFinal_example =
    read-IsFinal (err (stream_error (codes "a"))) (err (stream_error (codes "b"))) open_connection
      (record { sent = [] }) tt is_open refl

abbrev closed_connection : StreamConnection
closed_connection = record { base = new_connection; stream = none; closed = [] }

abbrev requests : List Request
requests = open_request ∷ write_request (codes "x") (ok tt) ∷ close_request (ok tt) ∷ []

abbrev stubborn : Exit
stubborn = record { in_time = none; after_kill = negsuc 8 }

abbrev process_connection : ProcessConnection
unfolding new_process_connection
process_connection = new_process_connection

close-open_example :
    let c' = Process.close stubborn (Process.open_process (ok 4) process_connection).1 in
    (c'.base.state ≡ disconnected)
    × (c'.process ≡ none)
    × (c'.stdin ≡ no_pipe)
    × (c'.stdout ≡ no_pipe)
    × (c'.exit_code ≡ some (negsuc 8))
    × (c'.actions ≡ terminates 4 ∷ waits 4 ∷ kills 4 ∷ waits 4 ∷ [])
unfolding new_process_connection
close-open_example = close-open 4 stubborn process_connection refl

-- A capacity and the messages.
abbrev Queue : Type 0
Queue = ℕ × List ℕ

abbrev put : ℕ → Queue → Sent Queue
put m (n, l) = if ltb (length l) n then sent (n, l ++ m ∷ []) else send_blocks

abbrev take_first : Queue → Got ℕ Queue
take_first (n, []) = receive_blocks
take_first (n, m ∷ l) = got m (n, l)

put-contents : (m : ℕ) (c c' : Queue) → put m c ≡ sent c' → c'.1 ≡ c.1 ++ m ∷ []
put-contents m (n, l) (n', l') h = ground arith

take_first-contents : (m : ℕ) (c c' : Queue) → take_first c ≡ got m c' → c.1 ≡ m ∷ c'.1
take_first-contents m (n, []) (n', l') h = cc
take_first-contents m (n, k ∷ l) (n', l') h = ground arith

abbrev queues : MemoryChannels ℕ
queues = record {
  Channel = Queue;
  contents = λ c. c.1;
  open_channel = λ n. (n, []);
  send = put;
  receive = take_first;
  close_tx = λ c. c;
  close_rx = λ c. (c.0, []);
  contents-open = λ n. refl;
  contents-send = put-contents;
  contents-receive = take_first-contents;
}

abbrev actions : List (Action ℕ)
actions =
    opens left
    ∷ writes left 1
    ∷ writes left 2
    ∷ writes right 3
    ∷ reads right
    ∷ writes left 4
    ∷ reads left
    ∷ []

loopback_fifo_example :
    let (os, q) = act_all ℕ queues actions (new_pair ℕ queues 2) in
    written_by ℕ queues left os ≡ read_by ℕ queues right os ++ q.forward.1
unfolding tx_of
loopback_fifo_example = loopback_fifo ℕ queues 2 actions left
