-- ===== src/Socket/Udp.antt =====
-- The fields, the constructor and `_create_and_open_socket` of UDPListenerConnection of src/flockwave/connections/socket.py.
-- A socket is what it is bound to, the options that were set on it, and the
-- datagrams that it has sent; what the operating system answers is a record parameter.
pub mod Operations
use flockwave_conn.Common.{
  ℕ, zero, suc, Text, codes, ◌≡◌, refl, Bool, true, false, ◌||◌, not, ◌&&◌, Option, none, some,
  List, [], ◌∷◌, ◌++◌, if◌then◌else◌,
}
use flockwave_conn.Connection.State.{
  ConnectionState, disconnected, connecting, connected, disconnecting, Connection, new_connection,
  set_state,
}
use flockwave_conn.Socket.Binding.{
  Error, connection_error, value_error, os_error, address_not_available, runtime_error,
  assertion_error, no_broadcast_address, Result, ok, err, Address, Network, SocketBinding,
  binding_fixed, binding_to_interface, binding_to_subnet, fixed_address, get_broadcast_address,
  resolve, ◌>>=◌, or_raise,
}

pub data SocketOption : Type 0 where
  maximized_receive_buffer maximized_send_buffer so_broadcast : SocketOption
  broadcast_if multicast_if : Text → SocketOption
  multicast_ttl : ℕ → SocketOption
  -- the group that the socket joins, and the address of an interface
  membership : Text → Text → SocketOption

pub record Socket : Type 0 where
  pub bound_to : Address
  pub options : List SocketOption
  pub sent : List (Text × Address)

-- The machine: its interfaces, the address that a bind gives (the port is chosen if it is 0), the
-- resolution of an interface or address to an address, whether the platform has IP_BROADCAST_IF, and
-- what `sendto` answers for a destination.
pub record Machine : Type 0 where
  pub network : Network
  pub bind : Address → Option Address
  pub resolve_interface : Text → Result Text
  pub has_broadcast_if : Bool
  pub send_error : Address → Option Error

pub record UdpListener : Type 0 where
  pub base : Connection
  pub socket : Option Socket
  pub allow_broadcast : Bool
  pub binding : SocketBinding
  pub broadcast_interface : Option Text
  pub broadcast_port : Option ℕ
  pub inferred_broadcast_address : Option Address
  pub maximize_receive_buffer : Bool
  pub maximize_send_buffer : Bool
  pub multicast_interface : Option Text
  pub multicast_ttl : Option ℕ
  pub user_defined_broadcast_address : Option Address
  pub address : Option Address

-- The arguments of the constructor.
pub record Arguments : Type 0 where
  pub host : Option Text
  pub port : ℕ
  pub interface : Option Text
  pub subnet : Option Text
  pub allow_broadcast : Bool
  pub broadcast_interface : Option Text
  pub broadcast_port : Option ℕ
  pub multicast_interface : Option Text
  pub multicast_ttl : Option ℕ
  pub maximize_receive_buffer : Bool
  pub maximize_send_buffer : Bool

abbrev get_or {ℓ} : {A : Type ℓ} → Option A → A → A
get_or none d = d
get_or (some a) d = a

abbrev is_some {ℓ} : {A : Type ℓ} → Option A → Bool
is_some none = false
is_some (some _) = true

-- The interface is used if there is one, then the subnet, then the host.
unfoldable pub choose_binding : Option Text → Option Text → Option Text → ℕ → SocketBinding
choose_binding (some interface) subnet host port = binding_to_interface interface port
choose_binding none (some subnet) host port = binding_to_subnet subnet port
choose_binding none none host port = binding_fixed (get_or host []) port

unfoldable pub new_udp_listener : Arguments → UdpListener
unfolding choose_binding fixed_address
new_udp_listener a =
    let binding = choose_binding a.interface a.subnet a.host a.port in
    record {
      base = new_connection;
      socket = none;
      allow_broadcast = is_some a.broadcast_port || a.allow_broadcast;
      binding = binding;
      broadcast_interface = a.broadcast_interface;
      broadcast_port = a.broadcast_port;
      inferred_broadcast_address = none;
      maximize_receive_buffer = a.maximize_receive_buffer;
      maximize_send_buffer = a.maximize_send_buffer;
      multicast_interface = a.multicast_interface;
      multicast_ttl = a.multicast_ttl;
      user_defined_broadcast_address = none;
      address = fixed_address binding;
    }

module _ (machine : Machine) where
  open machine use {network, bind, resolve_interface, has_broadcast_if, send_error}

  buffer_options : UdpListener → List SocketOption
  buffer_options u =
      (if u.maximize_receive_buffer then maximized_receive_buffer ∷ [] else [])
      ++ (if u.maximize_send_buffer then maximized_send_buffer ∷ [] else [])

  interface_option : Option Text → Result (List SocketOption)
  interface_option none = ok (so_broadcast ∷ [])
  interface_option (some i) = do
    a ← resolve_interface i
    if has_broadcast_if then ok (so_broadcast ∷ broadcast_if a ∷ []) else err runtime_error

  broadcast_options : UdpListener → Result (List SocketOption)
  unfolding interface_option
  broadcast_options u = if u.allow_broadcast then interface_option u.broadcast_interface else ok []

  ttl_options : Option ℕ → List SocketOption
  ttl_options none = []
  ttl_options (some n) = SocketOption.multicast_ttl n ∷ []

  multicast_options : Option Text → Result (List SocketOption)
  multicast_options none = ok []
  multicast_options (some i) = do a ← resolve_interface i; ok (multicast_if a ∷ [])

  -- The options that are set before the bind, or what looking an interface up raises.
  unfoldable pub socket_options : UdpListener → Result (List SocketOption)
  unfolding buffer_options broadcast_options ttl_options multicast_options
  socket_options u = do
    bo ← broadcast_options u
    mo ← multicast_options u.multicast_interface
    ok (buffer_options u ++ (bo ++ (ttl_options u.multicast_ttl ++ mo)))

  -- `_create_and_open_socket` up to `_bind_socket`.
  unfoldable pub bind_socket : UdpListener → Result Socket
  unfolding socket_options
  bind_socket u = do
    options ← socket_options u
    wanted ← resolve network u.binding
    bound ← or_raise (bind wanted) os_error
    ok (record { bound_to = bound; options = options; sent = [] })

  -- `self._inferred_broadcast_address = ...`, once the host is known.
  store_inferred : Result Text → ℕ → Socket → UdpListener → Result Socket × UdpListener
  store_inferred (err e) port sock u = (err e, u)
  store_inferred (ok host) port sock u =
      (ok sock, record u { inferred_broadcast_address = some (host, port) })

  -- What follows the bind if broadcasts are allowed: the port of the socket becomes the broadcast port
  -- if there is none yet, and the broadcast address is derived.
  infer_broadcast : Socket → UdpListener → Result Socket × UdpListener
  unfolding store_inferred
  infer_broadcast sock u =
      let port = get_or u.broadcast_port sock.bound_to.1 in
      store_inferred (get_broadcast_address network u.binding) port sock
        (record u { broadcast_port = some port })

  unfoldable pub after_bind : Result Socket → UdpListener → Result Socket × UdpListener
  unfolding infer_broadcast
  after_bind (err e) u = (err e, u)
  after_bind (ok sock) u = if u.allow_broadcast then infer_broadcast sock u else (ok sock, u)

  unfoldable pub create_and_open_socket : UdpListener → Result Socket × UdpListener
  unfolding bind_socket after_bind
  create_and_open_socket u = after_bind (bind_socket u) u
