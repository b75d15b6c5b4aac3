-- ===== src/Socket/Variants.antt =====
-- BroadcastUDPListenerConnection and SubnetBindingUDPListenerConnection of
-- src/flockwave/connections/socket.py. They differ from UDPListenerConnection in their constructors.
use flockwave_conn.Common.{
  ℕ, Text, Bool, true, false, ◌||◌, Option, none, some, [], ◌∷◌, ◌==◌, if◌then◌else◌,
}
use flockwave_conn.Socket.Binding.{value_error, Result, ok, err, bind_to_broadcast}
use flockwave_conn.Socket.Udp.{UdpListener, Arguments, new_udp_listener}

-- The defaults of the constructor of UDPListenerConnection.
abbrev pub default_arguments : Arguments
default_arguments = record {
  host = some [];
  port = 0;
  interface = none;
  subnet = none;
  allow_broadcast = false;
  broadcast_interface = none;
  broadcast_port = none;
  multicast_interface = none;
  multicast_ttl = none;
  maximize_receive_buffer = true;
  maximize_send_buffer = false;
}

-- An argument, or the alias `path`; a ValueError if both are missing.
unfoldable pub argument_or_path : Option Text → Option Text → Result Text
argument_or_path (some a) path = ok a
argument_or_path none (some p) = ok p
argument_or_path none none = err value_error

-- `"/" in interface`
unfoldable pub has_slash : Text → Bool
has_slash [] = false
has_slash (c ∷ s) = c == 47 || has_slash s

-- The two calls of the superclass's constructor.
unfoldable pub listener_on : Text → ℕ → UdpListener
unfolding has_slash new_udp_listener
listener_on interface port =
    if has_slash interface
    then new_udp_listener (record default_arguments { subnet = some interface; port = port })
    else new_udp_listener (record default_arguments { interface = some interface; port = port })

to_broadcast_address : Result UdpListener → Result UdpListener
to_broadcast_address (err e) = err e
to_broadcast_address (ok u) = ok (record u { binding = bind_to_broadcast true u.binding })

listener_for : Result Text → ℕ → Result UdpListener
unfolding listener_on
listener_for (err e) port = err e
listener_for (ok interface) port = ok (listener_on interface port)

-- The constructor of BroadcastUDPListenerConnection.
unfoldable pub new_broadcast_listener : Option Text → Option Text → ℕ → Result UdpListener
unfolding argument_or_path listener_for to_broadcast_address bind_to_broadcast
new_broadcast_listener interface path port =
    to_broadcast_address (listener_for (argument_or_path interface path) port)

abbrev or_true : Option Bool → Bool
or_true none = true
or_true (some b) = b

subnet_listener_for : Result Text → ℕ → Option Bool → Arguments → Result UdpListener
unfolding new_udp_listener
subnet_listener_for (err e) port allow rest = err e
subnet_listener_for (ok network) port allow rest = ok (
    new_udp_listener
      (record rest { subnet = some network; port = port; allow_broadcast = or_true allow }))

-- The constructor of SubnetBindingUDPListenerConnection: the argument `allow_broadcast`, if it is
-- given, and the other arguments are passed on.
unfoldable pub new_subnet_listener :
    Option Text → Option Text → ℕ → Option Bool → Arguments → Result UdpListener
unfolding argument_or_path subnet_listener_for
new_subnet_listener network path port allow rest =
    subnet_listener_for (argument_or_path network path) port allow rest
