-- ===== src/Socket/Multicast.antt =====
-- MulticastUDPListenerConnection of src/flockwave/connections/socket.py: a UDPListenerConnection of which the
-- socket joins a multicast group when it is created. Whether a text is a multicast address is the answer
-- of the module ipaddress.
use flockwave_conn.Common.{
  ℕ, Text, codes, ◌≡◌, refl, Bool, true, false, Option, none, some, [], ◌∷◌, ◌++◌,
}
use flockwave_conn.Connection.State.{ConnectionState, disconnected, connecting, set_state}
use flockwave_conn.Socket.Binding.{
  Error, value_error, runtime_error, assertion_error, Result, ok, err, Address,
  get_broadcast_address, resolve, resolve_address,
}
use flockwave_conn.Socket.Udp.{
  Socket, Machine, UdpListener, new_udp_listener, create_and_open_socket, membership,
}
use flockwave_conn.Socket.Udp.Operations.{finish_open, broadcast, Payload}
use flockwave_conn.Socket.Variants.{default_arguments, argument_or_path}

pub record MulticastListener : Type 0 where
  pub udp : UdpListener
  pub interface : Option Text

unfoldable pub multicast_at : Text → ℕ → Option Text → MulticastListener
unfolding new_udp_listener
multicast_at group port interface = record {
  udp =
      new_udp_listener
        (record default_arguments { host = some group; port = port; allow_broadcast = true });
  interface = interface;
}

checked_group : Result Bool → Text → ℕ → Option Text → Result MulticastListener
unfolding multicast_at
checked_group (err e) group port interface = err e
checked_group (ok false) group port interface = err value_error
checked_group (ok true) group port interface = ok (multicast_at group port interface)

listener_for : (Text → Result Bool) → Result Text → ℕ → Option Text → Result MulticastListener
unfolding checked_group
listener_for is_multicast (err e) port interface = err e
listener_for is_multicast (ok group) port interface =
    checked_group (is_multicast group) group port interface

-- The constructor; `host` is the alias of `group`.
unfoldable pub new_multicast_listener :
    (Text → Result Bool) → Option Text → Option Text → ℕ → Option Text → Result MulticastListener
unfolding argument_or_path listener_for
new_multicast_listener is_multicast group host port interface =
    listener_for is_multicast (argument_or_path group host) port interface

abbrev pub any_address : Text
any_address = codes "0.0.0.0"

-- A machine, and what joining a group on an interface raises, if it does.
module _ (machine : Machine) (join : Text → Text → Option Error) where
  open machine use {resolve_interface}

  -- `if self._interface`
  unfoldable pub interface_address : Option Text → Result Text
  interface_address none = ok any_address
  interface_address (some []) = ok any_address
  interface_address (some (c ∷ cs)) = resolve_interface (c ∷ cs)

  joined : Option Error → Text → Text → Socket → Result Socket
  joined (some e) host address sock = err e
  joined none host address sock =
      ok (record sock { options = sock.options ++ membership host address ∷ [] })

  join_group : Result Text → Option Address → Socket → Result Socket
  unfolding joined
  join_group (err e) group sock = err e
  join_group (ok address) none sock = err assertion_error
  join_group (ok address) (some (host, port)) sock = joined (join host address) host address sock

  unfoldable pub after_create :
      Option Text → Result Socket × UdpListener → Result Socket × UdpListener
  unfolding join_group interface_address
  after_create interface (err e, u) = (err e, u)
  after_create interface (ok sock, u) = (join_group (interface_address interface) u.address sock, u)

  -- `_create_and_open_socket`
  unfoldable pub create_multicast : Option Text → UdpListener → Result Socket × UdpListener
  unfolding after_create
  create_multicast interface u = after_create interface (create_and_open_socket machine u)

  open_from : ConnectionState → MulticastListener → Result (Unit {0}) × MulticastListener
  unfolding create_multicast
  open_from disconnected c =
      let begun : UdpListener = record c.udp { base = set_state connecting c.udp.base } in
      let (r, u) = finish_open (create_multicast c.interface begun) in (r, record c { udp = u })
  open_from _ c = (ok tt, c)

  unfoldable pub open_multicast : MulticastListener → Result (Unit {0}) × MulticastListener
  unfolding open_from
  open_multicast c = open_from c.udp.base.state c

  -- When the interface of a new listener cannot be resolved, after the socket was created and bound,
  -- `open` raises and the connection is DISCONNECTED with no socket, and yet it has a broadcast address,
  -- with the port of the socket that was given up. To broadcast then raises a RuntimeError.
  pub failed_join_keeps_address :
      (group : Text) (port : ℕ) (c : ℕ) (name : Text) (bound : Address) (e : Error) (p : Payload)
      → machine.bind (group, port) ≡ some bound
      → resolve_interface (c ∷ name) ≡ err e
      → let (r, l') = open_multicast (multicast_at group port (some (c ∷ name))) in
        (r ≡ err e)
        × (l'.udp.base.state ≡ disconnected)
        × (l'.udp.socket ≡ none)
        × (l'.udp.inferred_broadcast_address ≡ some (codes "255.255.255.255", bound.1))
        × ((broadcast machine p l'.udp).0 ≡ err runtime_error)
  unfolding open_multicast multicast_at create_and_open_socket broadcast get_broadcast_address
      resolve resolve_address set_state finish_open
  failed_join_keeps_address group port c name bound e p binds fails =
      rw (binds, fails) (refl, refl, refl, refl, refl)
