-- ===== src/Stream/Base.antt =====
-- StreamConnectionBase and StreamWrapperConnection of src/flockwave/connections/stream.py, one call at a
-- time. What the wrapped stream answers is given with each call; what was sent over it is kept.
use flockwave_conn.Common.{Text, Option, none, some, List, [], ◌∷◌, ◌++◌}
use flockwave_conn.Common.Results.{Fallible, ok, err}
use flockwave_conn.Connection.State.{
  ConnectionState, disconnected, connecting, connected, disconnecting, Connection, new_connection,
  set_state,
}

pub data Error : Type 0 where
  attribute_error runtime_error value_error : Error
  -- whatever the stream raises
  stream_error : Text → Error

abbrev pub Result {ℓ} : Type ℓ → Type ℓ
Result A = Fallible Error A

pub record Stream : Type 0 where
  pub sent : Text

pub record StreamConnection : Type 0 where
  pub base : Connection
  pub stream : Option Stream
  -- how many streams were closed
  pub closed : List Stream

abbrev pub Called : Type 0 → Type 0
Called A = Result A × StreamConnection

abbrev pub move_to : ConnectionState → StreamConnection → StreamConnection
move_to s c = record c { base = set_state s c.base }

unfoldable pub new_stream_connection : StreamConnection
new_stream_connection = record { base = new_connection; stream = none; closed = [] }

-- `_open`, from what `_create_stream` returned or raised.
unfoldable pub open_hook : Result Stream → StreamConnection → Called (Unit {0})
open_hook (err e) c = (err e, c)
open_hook (ok stream) c = (ok tt, record c { stream = some stream })

unfoldable pub finish_open : Called (Unit {0}) → Called (Unit {0})
finish_open (ok _, c) = (ok tt, move_to connected c)
finish_open (err e, c) = (err e, move_to disconnected c)

unfoldable pub open_from : ConnectionState → Result Stream → StreamConnection → Called (Unit {0})
open_from disconnected created c = finish_open (open_hook created (move_to connecting c))
open_from _ created c = (ok tt, c)

unfoldable pub open_stream : Result Stream → StreamConnection → Called (Unit {0})
unfolding open_from finish_open open_hook
open_stream created c = open_from c.base.state created c

close_wrapped : Option Stream → Result (Unit {0}) → StreamConnection → Called (Unit {0})
close_wrapped none answer c = (ok tt, c)
close_wrapped (some s) answer c = (answer, record c { stream = none; closed = c.closed ++ s ∷ [] })

-- `_close`, from what `aclose` of the stream gave: the stream is forgotten in any case.
unfoldable pub close_hook : Result (Unit {0}) → StreamConnection → Called (Unit {0})
unfolding close_wrapped
close_hook answer c = close_wrapped c.stream answer c

unfoldable pub finish_close : Called (Unit {0}) → Called (Unit {0})
finish_close (ok _, c) = (ok tt, move_to disconnected c)
finish_close (err e, c) = (err e, move_to connected c)

unfoldable pub close_from :
    ConnectionState → Result (Unit {0}) → StreamConnection → Called (Unit {0})
close_from connected answer c = finish_close (close_hook answer (move_to disconnecting c))
close_from _ answer c = (ok tt, c)

unfoldable pub close : Result (Unit {0}) → StreamConnection → Called (Unit {0})
unfolding close_from finish_close close_hook
close answer c = close_from c.base.state answer c

-- `raise ex` behind `await self.close()`: what the latter raises comes first.
then_raise : Error → Called (Unit {0}) → Called Text
then_raise e (ok _, c) = (err e, c)
then_raise e (err e', c) = (err e', c)

then_return : Text → Called (Unit {0}) → Called Text
then_return t (ok _, c) = (ok t, c)
then_return t (err e, c) = (err e, c)

-- What follows the call of `receive_some`.
unfoldable pub received : Result Text → Result (Unit {0}) → StreamConnection → Called Text
unfolding then_raise then_return
received (err e) on_close c = then_raise e (close on_close c)
received (ok []) on_close c = then_return [] (close on_close c)
received (ok (b ∷ t)) on_close c = (ok (b ∷ t), c)

-- With no stream the call raises an AttributeError within the same `try` block.
read_stream : Option Stream → Result Text → Result (Unit {0}) → StreamConnection → Called Text
unfolding received
read_stream none answer on_close c = received (err attribute_error) on_close c
read_stream (some s) answer on_close c = received answer on_close c

unfoldable pub read : Result Text → Result (Unit {0}) → StreamConnection → Called Text
unfolding read_stream
read answer on_close c = read_stream c.stream answer on_close c

write_stream : Option Stream → Text → Result (Unit {0}) → StreamConnection → Called (Unit {0})
write_stream none bytes answer c = (err attribute_error, c)
write_stream (some s) bytes (err e) c = (err e, c)
write_stream (some s) bytes (ok _) c =
    (ok tt, record c { stream = some (record s { sent = s.sent ++ bytes }) })

unfoldable pub write : Text → Result (Unit {0}) → StreamConnection → Called (Unit {0})
unfolding write_stream
write bytes answer c = write_stream c.stream bytes answer c

-- The constructor of StreamWrapperConnection, and its `_create_stream`.
unfoldable pub new_wrapper : Option Stream → Result StreamConnection
unfolding new_stream_connection
new_wrapper none = err value_error
new_wrapper (some s) = ok (move_to connected (record new_stream_connection { stream = some s }))

abbrev pub create_wrapped : Result Stream
create_wrapped = err runtime_error
