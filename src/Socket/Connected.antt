-- ===== src/Socket/Connected.antt =====
-- UDPSocketConnection of src/flockwave/connections/socket.py, one call at a time. A socket is the address to
-- which it is connected and what was sent over it; what the operating system answers is given with the
-- calls.
use flockwave_conn.Common.{
  ℕ, Text, ◌≡◌, refl, ◌∙◌, ap, Bool, true, false, Option, none, some, List, [], ◌∷◌, ◌++◌, arith,
  ◌⊎◌,
}
use flockwave_conn.Connection.State.{
  ConnectionState, disconnected, connecting, connected, disconnecting, Connection, new_connection,
  set_state, state_eq,
}
use flockwave_conn.Connection.Signals.{state-set_state}
use flockwave_conn.Socket.Binding.{assertion_error, runtime_error, Result, ok, err, Address}

pub record PeerSocket : Type 0 where
  pub peer : Address
  pub sent : List Text

pub record UdpSocket : Type 0 where
  pub base : Connection
  pub socket : Option PeerSocket
  pub address : Address

unfoldable pub new_udp_socket : Text → ℕ → UdpSocket
new_udp_socket host port = record { base = new_connection; socket = none; address = (host, port) }

abbrev pub Called : Type 0 → Type 0
Called A = Result A × UdpSocket

abbrev pub move_to : ConnectionState → UdpSocket → UdpSocket
move_to s u = record u { base = set_state s u.base }

-- `_open`, from what `connect` gave for the address, and the end of `open`.
connect_socket : Result (Unit {0}) → UdpSocket → Called (Unit {0})
connect_socket (ok _) u =
    (ok tt, move_to connected (record u { socket = some (record { peer = u.address; sent = [] }) }))
connect_socket (err e) u = (err e, move_to disconnected u)

open_from : ConnectionState → Result (Unit {0}) → UdpSocket → Called (Unit {0})
unfolding connect_socket
open_from disconnected connect u = connect_socket connect (move_to connecting u)
open_from _ connect u = (ok tt, u)

unfoldable pub open_socket : Result (Unit {0}) → UdpSocket → Called (Unit {0})
unfolding open_from
open_socket connect u = open_from u.base.state connect u

-- `_close`, and the end of `close`.
close_socket : Option PeerSocket → UdpSocket → Called (Unit {0})
close_socket none u = (err assertion_error, move_to connected u)
close_socket (some sock) u = (ok tt, move_to disconnected (record u { socket = none }))

close_from : ConnectionState → UdpSocket → Called (Unit {0})
unfolding close_socket
close_from connected u = close_socket u.socket (move_to disconnecting u)
close_from _ u = (ok tt, u)

unfoldable pub close : UdpSocket → Called (Unit {0})
unfolding close_from
close u = close_from u.base.state u

then_return : Text → Called (Unit {0}) → Called Text
then_return t (ok _, u) = (ok t, u)
then_return t (err e, u) = (err e, u)

-- What follows `recv`: an empty result closes the connection.
received : Result Text → UdpSocket → Called Text
unfolding close then_return
received (err e) u = (err e, u)
received (ok []) u = then_return [] (close u)
received (ok (b ∷ t)) u = (ok (b ∷ t), u)

read_from : Option PeerSocket → Result Text → UdpSocket → Called Text
unfolding received
read_from none answer u = (ok [], u)
read_from (some sock) answer u = received answer u

unfoldable pub read : Result Text → UdpSocket → Called Text
unfolding read_from
read answer u = read_from u.socket answer u

write_to : Option PeerSocket → Text → Result (Unit {0}) → UdpSocket → Called (Unit {0})
write_to none bytes answer u = (err runtime_error, u)
write_to (some sock) bytes (err e) u = (err e, u)
write_to (some sock) bytes (ok _) u =
    (ok tt, record u { socket = some (record sock { sent = sock.sent ++ bytes ∷ [] }) })

unfoldable pub write : Text → Result (Unit {0}) → UdpSocket → Called (Unit {0})
unfolding write_to
write bytes answer u = write_to u.socket bytes answer u

abbrev is_some {ℓ} : {A : Type ℓ} → Option A → Bool
is_some none = false
is_some (some _) = true

-- Settled, with a socket exactly when connected.
pub record IsConsistent (u : UdpSocket) : Type 0 where
  pub settled : (u.base.state ≡ connected) ⊎ (u.base.state ≡ disconnected)
  pub has_socket : is_some u.socket ≡ state_eq u.base.state connected

-- What is done with an open connection, with the answers of the operating system.
pub data Request : Type 0 where
  closes : Request
  reads : Result Text → Request
  writes : Text → Result (Unit {0}) → Request

unfoldable pub perform : Request → UdpSocket → UdpSocket
perform closes u = (close u).1
perform (reads answer) u = (read answer u).1
perform (writes bytes answer) u = (write bytes answer u).1

unfoldable pub perform_all : List Request → UdpSocket → UdpSocket
unfolding perform
perform_all [] u = u
perform_all (r ∷ rs) u = perform_all rs (perform r u)

-- A datagram is received that is empty.
abbrev pub empty_read : Request
empty_read = reads (ok [])

empty_read_closes :
    (u : UdpSocket)
    → IsConsistent u
    → ((read (ok []) u).0 ≡ ok [])
      × ((read (ok []) u).1.base.state ≡ disconnected)
      × ((read (ok []) u).1.socket ≡ none)
unfolding read close
empty_read_closes u h = grind (arith, state-set_state)

closed_inert :
    (r : Request) (u : UdpSocket) → u.base.state ≡ disconnected → u.socket ≡ none → perform r u ≡ u
unfolding perform close read write
closed_inert closes u down gone = rw down refl
closed_inert (reads answer) u down gone = rw gone refl
closed_inert (writes bytes answer) u down gone = rw gone refl

closed_all_inert :
    (rs : List Request) (u : UdpSocket)
    → u.base.state ≡ disconnected
    → u.socket ≡ none
    → perform_all rs u ≡ u
unfolding perform_all
closed_all_inert [] u down gone = refl
closed_all_inert (r ∷ rs) u down gone =
    ap (perform_all rs) (closed_inert r u down gone) ∙ closed_all_inert rs u down gone

no_socket_refuses :
    (bytes : Text) (heard : Result Text) (sent : Result (Unit {0})) (u : UdpSocket)
    → u.socket ≡ none
    → ((read heard u).0 ≡ ok []) × ((write bytes sent u).0 ≡ err runtime_error)
unfolding read write
no_socket_refuses bytes heard sent u gone = rw gone (refl, refl)

-- An empty datagram closes the connection for good: `read` returns it, the connection is DISCONNECTED
-- without a socket, and until it is opened again no read, write or close changes anything, reads give
-- no data and writes raise a RuntimeError.
pub empty_datagram_closes :
    (u : UdpSocket) (rs : List Request) (bytes : Text) (heard : Result Text)
    (sent : Result (Unit {0}))
    → IsConsistent u
    → let (r, u') = read (ok []) u in
      (r ≡ ok [])
      × (u'.base.state ≡ disconnected)
      × (perform_all rs u' ≡ u')
      × ((read heard u').0 ≡ ok [])
      × ((write bytes sent u').0 ≡ err runtime_error)
empty_datagram_closes u rs bytes heard sent h =
    let (r, down, gone) = empty_read_closes u h in
    let after = (read (ok []) u).1 in
    let (silent, refused) = no_socket_refuses bytes heard sent after gone in
    (r, down, closed_all_inert rs after down gone, silent, refused)
