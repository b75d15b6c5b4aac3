-- ===== src/Serial/Streams.antt =====
-- ConflictDetector, and the streams over a serial port (src/flockwave/connections/serial.py). The device
-- of pySerial is what it answers, in order: how much each write takes, and the bytes that are waiting
-- at each look. Another task may close the stream while it sleeps.
use flockwave_conn.Common.{
  ℕ, Text, Bool, true, false, Option, none, some, List, [], ◌∷◌, ◌++◌, ltb, if◌then◌else◌, length,
  take, drop,
}
use flockwave_conn.Common.Results.{Fallible, ok, err}

pub data StreamError : Type 0 where
  busy closed_resource negative_count : StreamError
  stream_foreign : Text → StreamError

-- `_held`
pub record ConflictDetector : Type 0 where
  pub held : Bool

abbrev pub new_detector : ConflictDetector
new_detector = record { held = false }

unfoldable pub enter : ConflictDetector → Fallible StreamError ConflictDetector
enter d = if d.held then err busy else ok (record { held = true })

unfoldable pub leave : ConflictDetector → ConflictDetector
leave d = record { held = false }

-- What `device.write` returns: a negative number, or how many bytes it took.
pub data Written : Type 0 where
  negative : Written
  took : ℕ → Written

-- One look at the device: the bytes that wait there. `closes` is a look before which another task has
-- closed the stream.
pub data Look : Type 0 where
  waiting_bytes : Text → Look
  closes : Look

pub record ThreadedStream : Type 0 where
  pub sending : ConflictDetector
  pub receiving : ConflictDetector
  pub closing : Bool
  -- what the device has taken
  pub output : Text
  pub device_closed : Bool

abbrev pub new_threaded_stream : ThreadedStream
new_threaded_stream = record {
  sending = new_detector;
  receiving = new_detector;
  closing = false;
  output = [];
  device_closed = false;
}

-- How a call ends: it returns, raises, or still runs when the answers of the device are used up.
pub data Ended (A : Type 0) : Type 0 where
  returned : A → Ended A
  raised : StreamError → Ended A
  runs : Ended A

unfoldable pub aclose : ThreadedStream → ThreadedStream
aclose s = record s { closing = true; device_closed = true }

-- The loop of `send_all`, on the data that is left, with what the device has taken so far.
unfoldable pub send_loop : List Written → Text → Text → Ended (Unit {0}) × Text
send_loop answers [] out = (returned tt, out)
send_loop [] (b ∷ bytes) out = (runs, out)
send_loop (negative ∷ answers) (b ∷ bytes) out = (raised negative_count, out)
send_loop (took n ∷ answers) (b ∷ bytes) out =
    send_loop answers (drop n (b ∷ bytes)) (out ++ take n (b ∷ bytes))

-- Leaving the `with` block, however it was left.
unfoldable pub after_send :
    Ended (Unit {0}) × Text → ThreadedStream → Ended (Unit {0}) × ThreadedStream
after_send (runs, out) s = (runs, record s { sending = record { held = true }; output = out })
after_send (r, out) s = (r, record s { sending = leave s.sending; output = out })

send_entered :
    Fallible StreamError ConflictDetector
    → List Written
    → Text
    → ThreadedStream
    → Ended (Unit {0}) × ThreadedStream
unfolding send_loop after_send leave
send_entered (err e) answers bytes s = (raised e, s)
send_entered (ok _) answers bytes s = after_send (send_loop answers bytes s.output) s

unfoldable pub send_all : List Written → Text → ThreadedStream → Ended (Unit {0}) × ThreadedStream
unfolding send_entered enter
send_all answers [] s = (returned tt, s)
send_all answers (b ∷ bytes) s = send_entered (enter s.sending) answers (b ∷ bytes) s

abbrev pub smaller : ℕ → ℕ → ℕ
smaller a b = if ltb b a then b else a

abbrev pub default_receive_size : ℕ
default_receive_size = 65536

abbrev pub limit_of : Option ℕ → ℕ
limit_of none = default_receive_size
limit_of (some n) = n

-- The loop of `receive_some`: the result, and whether the stream is closing behind it.
unfoldable pub receive_loop : ℕ → List Look → Bool → Ended Text × Bool
receive_loop limit looks true = (raised closed_resource, true)
receive_loop limit [] false = (runs, false)
receive_loop limit (closes ∷ looks) false = (raised closed_resource, true)
receive_loop limit (waiting_bytes [] ∷ looks) false = receive_loop limit looks false
receive_loop limit (waiting_bytes (b ∷ bytes) ∷ looks) false =
    (returned (take (smaller (length (b ∷ bytes)) limit) (b ∷ bytes)), false)

unfoldable pub after_receive : Ended Text × Bool → ThreadedStream → Ended Text × ThreadedStream
after_receive (runs, closing) s =
    (runs, record s { receiving = record { held = true }; closing = closing })
after_receive (r, closing) s = (r, record s { receiving = leave s.receiving; closing = closing })

receive_entered :
    Fallible StreamError ConflictDetector
    → ℕ
    → List Look
    → ThreadedStream
    → Ended Text × ThreadedStream
unfolding receive_loop after_receive leave
receive_entered (err e) limit looks s = (raised e, s)
receive_entered (ok _) limit looks s = after_receive (receive_loop limit looks s.closing) s

unfoldable pub receive_some : Option ℕ → List Look → ThreadedStream → Ended Text × ThreadedStream
unfolding receive_entered enter
receive_some max_bytes looks s = receive_entered (enter s.receiving) (limit_of max_bytes) looks s

-- `_FdStreamBasedSerialPortStream`: what the FdStream of Trio gives to one `receive_some`.
pub data FdAnswer : Type 0 where
  gives : Text → FdAnswer
  fails : StreamError → FdAnswer

pub record FdSerialStream : Type 0 where
  pub fd_closed : Bool

second_try : FdAnswer → FdSerialStream → Fallible StreamError Text × FdSerialStream
second_try (gives t) s = (ok t, s)
second_try (fails e) s = (err e, record s { fd_closed = true })

-- `receive_some`: an empty answer is tried again, once, when the port is readable, and waiting for that
-- raises nothing; if the second try fails, the stream is closed.
unfoldable pub fd_receive_some :
    FdAnswer → FdAnswer → FdSerialStream → Fallible StreamError Text × FdSerialStream
unfolding second_try
fd_receive_some (fails e) second s = (err e, s)
fd_receive_some (gives (b ∷ t)) second s = (ok (b ∷ t), s)
fd_receive_some (gives []) second s = second_try second s
