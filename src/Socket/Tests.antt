-- ===== src/Socket/Tests.antt =====
-- A UDP listener on a machine that gives every socket a port of its own.
use flockwave_conn.Common.{
  ℕ, codes, ◌≡◌, refl, true, false, none, some, List, [], ◌∷◌, inr, if◌then◌else◌, arith, ◌==◌,
}
use flockwave_conn.Socket.Binding.{err, no_broadcast_address, bind_to_broadcast, Network, ok}
use flockwave_conn.Socket.Udp.{so_broadcast, Socket, Machine, UdpListener, new_udp_listener}
use flockwave_conn.Socket.Udp.Operations.{open_udp, broadcast, plain}
use flockwave_conn.Socket.Laws.{
  IsConsistent, Request, open_request, set_request, read_request, write_request, broadcast_request,
  perform_all, perform_all-IsConsistent,
}
use flockwave_conn.Socket.Variants.{new_broadcast_listener, listener_on, has_slash}
use flockwave_conn.Socket.Silent.{broadcast_listener_is_silent}

abbrev network : Network
network = record {
  address_of_interface = λ i. some (codes "10.0.0.1");
  broadcast_of_interface = λ i. some (codes "10.0.0.255");
  interfaces_in_network = λ n. [];
  broadcast_of_network = λ n. none;
}

-- A machine that gives a socket the port if none is asked for.
abbrev machine : ℕ → Machine
machine port = record {
  network = network;
  bind = λ a. some (a.0, if a.1 == 0 then port else a.1);
  resolve_interface = λ i. ok (codes "10.0.0.1");
  has_broadcast_if = true;
  send_error = λ a. none;
}

abbrev listener : UdpListener
unfolding new_udp_listener
listener = new_udp_listener (record {
  host = some (codes "10.0.0.1");
  port = 0;
  interface = none;
  subnet = none;
  allow_broadcast = true;
  broadcast_interface = none;
  broadcast_port = none;
  multicast_interface = none;
  multicast_ttl = none;
  maximize_receive_buffer = false;
  maximize_send_buffer = false;
})

listener-IsConsistent : IsConsistent listener
unfolding new_udp_listener
listener-IsConsistent = record {
  settled = inr refl;
  has_socket = refl;
  inferred_open = λ h. ground arith;
  inferred_allowed = λ h. ground arith;
  user_allowed = λ h. ground arith;
}

abbrev requests : List Request
requests =
    open_request (machine 4000)
    ∷ write_request (machine 4000) (codes "x", (codes "10.0.0.2", 5000))
    ∷ read_request ([], (codes "10.0.0.2", 5000))
    ∷ open_request (machine 4001)
    ∷ set_request (some (codes "10.0.0.9", 9))
    ∷ broadcast_request (machine 4001) (plain (codes "y"))
    ∷ []

perform_all-IsConsistent_example : IsConsistent (perform_all requests listener)
perform_all-IsConsistent_example = perform_all-IsConsistent requests listener listener-IsConsistent

abbrev opened : UdpListener
opened = (open_udp (machine 4000) listener).1

abbrev its_socket : Socket
its_socket = record { bound_to = (codes "10.0.0.1", 4000); options = so_broadcast ∷ []; sent = [] }

-- A listener on the broadcast address of an interface, opened and asked to broadcast.
abbrev broadcast_listener : UdpListener
unfolding new_broadcast_listener listener_on has_slash new_udp_listener
broadcast_listener = record (listener_on (codes "eth0") 4000) {
  binding = bind_to_broadcast true (listener_on (codes "eth0") 4000).binding;
}

broadcast_listener_is_silent_example :
    broadcast (machine 4000) (plain (codes "x")) (perform_all requests broadcast_listener)
    ≡ (err no_broadcast_address, perform_all requests broadcast_listener)
unfolding new_broadcast_listener
broadcast_listener_is_silent_example =
    broadcast_listener_is_silent (some (codes "eth0")) none 4000 requests (machine 4000)
      (plain (codes "x")) refl
