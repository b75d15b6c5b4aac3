-- ===== src/Socket/Udp/Operations.antt =====
-- The operations of UDPListenerConnection of src/flockwave/connections/socket.py, and of its base
-- classes SocketConnectionBase and ConnectionBase, while no other call is in progress: `open` and
-- `close` with their hooks, `read`, `write` and `broadcast`.
use flockwave_conn.Common.{Text, true, Option, none, some, [], ◌∷◌, ◌++◌, if◌then◌else◌}
use flockwave_conn.Connection.State.{
  ConnectionState, disconnected, connecting, connected, disconnecting, set_state,
}
use flockwave_conn.Socket.Binding.{
  Error, address_not_available, runtime_error, assertion_error, no_broadcast_address, value_error,
  Result, ok, err, Address,
}
use flockwave_conn.Socket.Udp.{Socket, Machine, UdpListener, create_and_open_socket}
use flockwave_conn.Capabilities.{Capabilities}

abbrev move_to : ConnectionState → UdpListener → UdpListener
move_to s u = record u { base = set_state s u.base }

-- A call's result and the state that it leaves.
abbrev pub Called : Type 0 → Type 0
Called A = Result A × UdpListener

-- `SocketConnectionBase._close`
close_socket : Option Socket → UdpListener → Called (Unit {0})
close_socket none u = (err assertion_error, u)
close_socket (some sock) u = (ok tt, record u { socket = none })

-- `UDPListenerConnection._close`
unfoldable pub close_hook : UdpListener → Called (Unit {0})
unfolding close_socket
close_hook u = close_socket u.socket (record u { inferred_broadcast_address = none })

finish_close : Called (Unit {0}) → Called (Unit {0})
finish_close (ok _, u) = (ok tt, move_to disconnected u)
finish_close (err e, u) = (err e, move_to connected u)

-- `close`, by the state. With no other call in progress no state is transitional.
close_from : ConnectionState → UdpListener → Called (Unit {0})
close_from connected u = finish_close (close_hook (move_to disconnecting u))
close_from _ u = (ok tt, u)

unfoldable pub close : UdpListener → Called (Unit {0})
unfolding close_from finish_close close_hook
close u = close_from u.base.state u

-- `SocketConnectionBase._open`, and the end of `open`.
unfoldable pub finish_open : Result Socket × UdpListener → Called (Unit {0})
finish_open (ok sock, u) = (ok tt, move_to connected (record u { socket = some sock }))
finish_open (err e, u) = (err e, move_to disconnected u)

-- The property `broadcast_address`.
broadcast_address_from : Option Address → Option Address → Option Address
broadcast_address_from (some a) inferred = some a
broadcast_address_from none inferred = inferred

unfoldable pub broadcast_address : UdpListener → Option Address
unfolding broadcast_address_from
broadcast_address u =
    broadcast_address_from u.user_defined_broadcast_address u.inferred_broadcast_address

-- `set_user_defined_broadcast_address`
unfoldable pub set_user_defined_broadcast_address : Option Address → UdpListener → Called (Unit {0})
set_user_defined_broadcast_address none u =
    (ok tt, record u { user_defined_broadcast_address = none })
set_user_defined_broadcast_address (some a) u =
    if u.allow_broadcast
    then (ok tt, record u { user_defined_broadcast_address = some a })
    else (err runtime_error, u)

unfoldable pub clear_user_defined_broadcast_address : UdpListener → Called (Unit {0})
unfolding set_user_defined_broadcast_address
clear_user_defined_broadcast_address u = set_user_defined_broadcast_address none u

-- The capabilities that the class reports, whatever its fields.
unfoldable pub get_capabilities : UdpListener → Capabilities
get_capabilities u = record { can_broadcast = true; can_receive = true; can_send = true }

-- `address` of SocketConnectionBase: that of the socket, or that of the fixed binding.
address_from : Option Socket → Option Address → Result Address
address_from (some sock) stored = ok sock.bound_to
address_from none (some a) = ok a
address_from none none = err value_error

unfoldable pub get_address : UdpListener → Result Address
unfolding address_from
get_address u = address_from u.socket u.address

then_raise : Error → Called (Unit {0}) → Called (Unit {0})
then_raise e (ok _, u) = (err e, u)
then_raise e (err e', u) = (err e', u)

-- `except OSError`: an address that is no longer available closes the connection.
handle_error : Error → UdpListener → Called (Unit {0})
unfolding then_raise close
handle_error address_not_available u = then_raise address_not_available (close u)
handle_error e u = (err e, u)

-- What the data of a read that is empty does: the connection is closed.
then_return : Text × Option Address → Called (Unit {0}) → Called (Text × Option Address)
then_return r (ok _, u) = (ok r, u)
then_return r (err e, u) = (err e, u)

read_from : Option Socket → Text × Address → UdpListener → Called (Text × Option Address)
unfolding then_return close
read_from none datagram u = (ok ([], none), u)
read_from (some sock) ([], addr) u = then_return ([], some addr) (close u)
read_from (some sock) (c ∷ cs, addr) u = (ok (c ∷ cs, some addr), u)

-- `read`, of the next datagram that the socket receives.
unfoldable pub read : Text × Address → UdpListener → Called (Text × Option Address)
unfolding read_from
read datagram u = read_from u.socket datagram u

-- What may be broadcast: the data, or a pair whose address is ignored.
pub data Payload : Type 0 where
  plain : Text → Payload
  addressed : Text → Address → Payload

abbrev pub payload : Payload → Text
payload (plain d) = d
payload (addressed d _) = d

module _ (machine : Machine) where
  open machine use {send_error}

  unfoldable pub open_from : ConnectionState → UdpListener → Called (Unit {0})
  open_from disconnected u = finish_open (create_and_open_socket machine (move_to connecting u))
  open_from _ u = (ok tt, u)

  unfoldable pub open_udp : UdpListener → Called (Unit {0})
  unfolding open_from finish_open
  open_udp u = open_from u.base.state u

  send_result : Option Error → Socket → Text × Address → UdpListener → Called (Unit {0})
  unfolding handle_error
  send_result (some e) sock datagram u = handle_error e u
  send_result none sock datagram u =
      (ok tt, record u { socket = some (record sock { sent = sock.sent ++ datagram ∷ [] }) })

  write_to : Option Socket → Text × Address → UdpListener → Called (Unit {0})
  unfolding send_result
  write_to none datagram u = (err runtime_error, u)
  write_to (some sock) datagram u = send_result (send_error datagram.1) sock datagram u

  unfoldable pub write : Text × Address → UdpListener → Called (Unit {0})
  unfolding write_to
  write datagram u = write_to u.socket datagram u

  broadcast_to : Option Address → Text → UdpListener → Called (Unit {0})
  unfolding write
  broadcast_to none data' u = (err no_broadcast_address, u)
  broadcast_to (some a) data' u = write (data', a) u

  unfoldable pub broadcast : Payload → UdpListener → Called (Unit {0})
  unfolding broadcast_to broadcast_address
  broadcast p u = broadcast_to (broadcast_address u) (payload p) u
