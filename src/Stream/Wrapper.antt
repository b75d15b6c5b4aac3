-- ===== src/Stream/Wrapper.antt =====
-- A StreamWrapperConnection is open only once.
use flockwave_conn.Common.{Text, ◌≡◌, List, [], ◌∷◌, arith}
use flockwave_conn.Common.Results.{err}
use flockwave_conn.Connection.State.{disconnected}
use flockwave_conn.Connection.Signals.{state-set_state}
use flockwave_conn.Stream.Base.{
  runtime_error, Result, StreamConnection, open_stream, close, read, write, create_wrapped,
}

-- What is done with the connection, with the answers of the stream and of closing it.
pub data Request : Type 0 where
  open_request : Request
  close_request : Result (Unit {0}) → Request
  read_request : Result Text → Result (Unit {0}) → Request
  write_request : Text → Result (Unit {0}) → Request

unfoldable pub perform : Request → StreamConnection → StreamConnection
perform open_request c = (open_stream create_wrapped c).1
perform (close_request answer) c = (close answer c).1
perform (read_request answer on_close) c = (read answer on_close c).1
perform (write_request bytes answer) c = (write bytes answer c).1

unfoldable pub perform_all : List Request → StreamConnection → StreamConnection
unfolding perform
perform_all [] c = c
perform_all (r ∷ rs) c = perform_all rs (perform r c)

pub perform-stays :
    (r : Request) (c : StreamConnection)
    → c.base.state ≡ disconnected
    → (perform r c).base.state ≡ disconnected
unfolding perform open_stream close read write
perform-stays open_request c down = grind (arith, state-set_state)
perform-stays (close_request answer) c down = ground arith
perform-stays (read_request answer on_close) c down = ground arith
perform-stays (write_request bytes answer) c down = ground arith

-- A connection that wraps a given stream is disconnected for good once it is disconnected: whatever is
-- done with it, and however the stream answers, it stays so, and to open it again raises a
-- RuntimeError.
wrapper_stays_closed :
    (rs : List Request) (c : StreamConnection)
    → c.base.state ≡ disconnected
    → ((perform_all rs c).base.state ≡ disconnected)
      × ((open_stream create_wrapped (perform_all rs c)).0 ≡ err runtime_error)
unfolding perform_all open_stream
wrapper_stays_closed [] c down = (down, ground arith)
wrapper_stays_closed (r ∷ rs) c down =
    wrapper_stays_closed rs (perform r c) (perform-stays r c down)
