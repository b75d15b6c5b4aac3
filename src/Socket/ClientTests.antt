-- ===== src/Socket/ClientTests.antt =====
-- TCP, connected UDP and multicast connections on a machine with one interface.
use flockwave_conn.Common.{codes, ◌≡◌, ◌≢◌, refl, true, false, none, some, [], ◌∷◌, ◌⊎◌, inl}
use flockwave_conn.Connection.State.{disconnected, set_state}
use flockwave_conn.Socket.Binding.{
  os_error, runtime_error, assertion_error, value_error, ok, err, Address, Network, resolve,
  resolve_address,
}
use flockwave_conn.Stream.Base as Stream
use flockwave_conn.Socket.Udp as Udp
use flockwave_conn.Socket.Udp.Operations.{broadcast, plain}
use flockwave_conn.Socket.Tcp.{
  new_incoming, open_incoming, new_tcp_listener, open_listener, accept, accept_raises, Machine,
  TcpListener, port_of, create_unix_stream,
}
use flockwave_conn.Socket.Once as Once
use flockwave_conn.Socket.Once.{incoming_opens_once}
use flockwave_conn.Socket.Connected as Connected
use flockwave_conn.Socket.Connected.{empty_datagram_closes}
use flockwave_conn.Socket.Multicast.{
  new_multicast_listener, multicast_at, open_multicast, failed_join_keeps_address,
}

abbrev peer : Address
peer = (codes "10.0.0.7", 5000)

incoming_opens_once_example :
    let c =
      Once.perform_all (Once.opens ∷ Once.closes (ok tt) ∷ Once.opens ∷ []) (new_incoming peer 3) in
    (c.stored_socket ≡ some 3) × (c.wrapped ≡ []) × (c.stream.base.state ≡ disconnected)
    ⊎ (c.stored_socket ≡ none)
      × (c.wrapped ≡ 3 ∷ [])
      × ((c.stream.base.state ≢ disconnected) ⊎ ((open_incoming c).0 ≡ err Stream.runtime_error))
incoming_opens_once_example =
    incoming_opens_once peer 3 (Once.opens ∷ Once.closes (ok tt) ∷ Once.opens ∷ [])

abbrev network : Network
network = record {
  address_of_interface = λ i. none;
  broadcast_of_interface = λ i. none;
  interfaces_in_network = λ n. [];
  broadcast_of_network = λ n. none;
}

abbrev host : Machine
host = record { network = network; bind = λ a. ok a; listen = λ a. none }

abbrev listener : TcpListener
unfolding new_tcp_listener
listener = new_tcp_listener [] 8080 (some 5)

listens :
    (open_listener host listener).1.socket
    ≡ some (record { bound_to = ([], 8080); backlog = some 5 })
unfolding open_listener new_tcp_listener set_state resolve resolve_address
listens = refl

closed_listener_accepts_none : accept (ok (3, peer)) listener ≡ accept_raises assertion_error
unfolding accept new_tcp_listener
closed_listener_accepts_none = refl

no_address_no_port : port_of none ≡ err runtime_error
unfolding port_of
no_address_no_port = refl

no_unix_sockets :
    create_unix_stream false (λ p. ok (record { sent = [] })) [] ≡ err Stream.runtime_error
unfolding create_unix_stream
no_unix_sockets = refl

abbrev linked : Connected.UdpSocket
unfolding Connected.open_socket Connected.new_udp_socket set_state
linked = (Connected.open_socket (ok tt) (Connected.new_udp_socket (codes "10.0.0.7") 5000)).1

linked-IsConsistent : Connected.IsConsistent linked
unfolding linked
linked-IsConsistent = record { settled = inl refl; has_socket = refl }

empty_datagram_closes_example :
    let (r, u') = Connected.read (ok []) linked in
    (r ≡ ok [])
    × (u'.base.state ≡ disconnected)
    × (Connected.perform_all (Connected.writes (codes "x") (ok tt) ∷ []) u' ≡ u')
    × ((Connected.read (ok (codes "late")) u').0 ≡ ok [])
    × ((Connected.write (codes "x") (ok tt) u').0 ≡ err runtime_error)
empty_datagram_closes_example =
    empty_datagram_closes linked (Connected.writes (codes "x") (ok tt) ∷ []) (codes "x")
      (ok (codes "late")) (ok tt) linked-IsConsistent

-- A machine of which no interface can be resolved.
abbrev machine : Udp.Machine
machine = record {
  network = network;
  bind = λ a. some a;
  resolve_interface = λ i. err os_error;
  has_broadcast_if = true;
  send_error = λ a. none;
}

not_a_group :
    new_multicast_listener (λ t. ok false) (some (codes "10.0.0.7")) none 5000 none
    ≡ err value_error
unfolding new_multicast_listener
not_a_group = refl

failed_join_keeps_address_example :
    let (r, l') =
      open_multicast machine
        (λ g a. none)
        (multicast_at (codes "224.0.0.1") 5000 (some (codes "eth9"))) in
    (r ≡ err os_error)
    × (l'.udp.base.state ≡ disconnected)
    × (l'.udp.socket ≡ none)
    × (l'.udp.inferred_broadcast_address ≡ some (codes "255.255.255.255", 5000))
    × ((broadcast machine (plain (codes "x")) l'.udp).0 ≡ err runtime_error)
failed_join_keeps_address_example =
    failed_join_keeps_address machine (λ g a. none) (codes "224.0.0.1") 5000 101 (codes "th9")
      (codes "224.0.0.1", 5000) os_error (plain (codes "x")) refl refl
