-- ===== src/Socket/Once.antt =====
-- An incoming TCP connection, as a listener accepts it, uses its socket once.
use flockwave_conn.Common.{
  ℕ, Text, ◌≡◌, ◌≢◌, refl, Option, none, some, List, [], ◌∷◌, arith, ◌⊎◌, inl, inr,
}
use flockwave_conn.Connection.State.{
  ConnectionState, disconnected, connecting, connected, disconnecting,
}
use flockwave_conn.Socket.Binding.{err, Address}
use flockwave_conn.Stream.Base as Stream
use flockwave_conn.Stream.Base.{
  StreamConnection, close, read, write, open_stream, new_stream_connection,
}
use flockwave_conn.Stream.Wrapper as Wrapper
use flockwave_conn.Stream.Wrapper.{perform-stays}
use flockwave_conn.Socket.Tcp.{IncomingTcp, new_incoming, open_incoming, open_from}

-- What is done with the connection, with the answers of its stream.
pub data Request : Type 0 where
  opens : Request
  closes : Stream.Result (Unit {0}) → Request
  reads : Stream.Result Text → Stream.Result (Unit {0}) → Request
  writes : Text → Stream.Result (Unit {0}) → Request

unfoldable pub perform : Request → IncomingTcp → IncomingTcp
perform opens c = (open_incoming c).1
perform (closes answer) c = record c { stream = (close answer c.stream).1 }
perform (reads answer on_close) c = record c { stream = (read answer on_close c.stream).1 }
perform (writes bytes answer) c = record c { stream = (write bytes answer c.stream).1 }

unfoldable pub perform_all : List Request → IncomingTcp → IncomingTcp
unfolding perform
perform_all [] c = c
perform_all (r ∷ rs) c = perform_all rs (perform r c)

-- Not opened yet, with the socket at hand; or the socket was used, and the connection is or was open.
abbrev IsOnce : ℕ → IncomingTcp → Type 0
IsOnce socket c =
    (c.stored_socket ≡ some socket) × (c.wrapped ≡ []) × (c.stream.base.state ≡ disconnected)
    ⊎ (c.stored_socket ≡ none) × (c.wrapped ≡ socket ∷ [])

open_from-IsOnce :
    (socket : ℕ) (s : ConnectionState) (stored : Option ℕ) (c : IncomingTcp)
    → c.stored_socket ≡ stored
    → IsOnce socket c
    → IsOnce socket (open_from s c).1
unfolding open_from
open_from-IsOnce socket disconnected (some n) c e h = ground arith
open_from-IsOnce socket disconnected none c e h = ground arith
open_from-IsOnce socket connecting stored c e h = h
open_from-IsOnce socket connected stored c e h = h
open_from-IsOnce socket disconnecting stored c e h = h

perform-IsOnce :
    (socket : ℕ) (r : Request) (c : IncomingTcp) → IsOnce socket c → IsOnce socket (perform r c)
unfolding perform close read write Wrapper.perform open_incoming
perform-IsOnce socket opens c h =
    open_from-IsOnce socket c.stream.base.state c.stored_socket c refl h
perform-IsOnce socket (closes answer) c (inl (stored, wrapped, down)) =
    inl (stored, wrapped, perform-stays (Wrapper.close_request answer) c.stream down)
perform-IsOnce socket (closes answer) c (inr h) = inr h
perform-IsOnce socket (reads answer on_close) c (inl (stored, wrapped, down)) =
    inl (stored, wrapped, perform-stays (Wrapper.read_request answer on_close) c.stream down)
perform-IsOnce socket (reads answer on_close) c (inr h) = inr h
perform-IsOnce socket (writes bytes answer) c (inl (stored, wrapped, down)) =
    inl (stored, wrapped, perform-stays (Wrapper.write_request bytes answer) c.stream down)
perform-IsOnce socket (writes bytes answer) c (inr h) = inr h

perform_all-IsOnce :
    (socket : ℕ) (rs : List Request) (c : IncomingTcp)
    → IsOnce socket c
    → IsOnce socket (perform_all rs c)
unfolding perform_all
perform_all-IsOnce socket [] c h = h
perform_all-IsOnce socket (r ∷ rs) c h =
    perform_all-IsOnce socket rs (perform r c) (perform-IsOnce socket r c h)

state_cases : (s : ConnectionState) → (s ≡ disconnected) ⊎ (s ≢ disconnected)
state_cases disconnected = inl refl
state_cases connecting = inr (λ e. ground arith)
state_cases connected = inr (λ e. ground arith)
state_cases disconnecting = inr (λ e. ground arith)

used_raises :
    (c : IncomingTcp)
    → c.stored_socket ≡ none
    → c.stream.base.state ≡ disconnected
    → (open_incoming c).0 ≡ err Stream.runtime_error
unfolding open_incoming open_stream
used_raises c used down = rw (down, used) refl

-- Whatever is done with an incoming connection, and however its stream answers: either its socket is still
-- stored, no stream was made and it is disconnected, or one stream was made, around that socket, and
-- there will be no other: the connection is not disconnected, or to open it raises a RuntimeError.
pub incoming_opens_once :
    (address : Address) (socket : ℕ) (rs : List Request)
    → let c = perform_all rs (new_incoming address socket) in
      (c.stored_socket ≡ some socket) × (c.wrapped ≡ []) × (c.stream.base.state ≡ disconnected)
      ⊎ (c.stored_socket ≡ none)
        × (c.wrapped ≡ socket ∷ [])
        × ((c.stream.base.state ≢ disconnected) ⊎ ((open_incoming c).0 ≡ err Stream.runtime_error))
incoming_opens_once address socket rs =
    let c = perform_all rs (new_incoming address socket) in
    elim (perform_all-IsOnce socket rs (new_incoming address socket)
      (unfold new_incoming in inl (refl, refl, refl))) [
        | inl h ↦ inl h
        | inr (used, wrapped) ↦ inr (
          used,
          wrapped,
          elim (state_cases c.stream.base.state) [
            | inl down ↦ inr (used_raises c used down)
            | inr up ↦ inl up
          ],
        )
      ]
