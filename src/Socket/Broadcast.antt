-- ===== src/Socket/Broadcast.antt =====
-- Where broadcasts go.
use flockwave_conn.Common.{◌≡◌, Option, none, some, [], ◌∷◌, ◌++◌, arith, ◌⊎◌}
use flockwave_conn.Connection.State.{connecting, connected, set_state}
use flockwave_conn.Socket.Binding.{Result, ok, Address}
use flockwave_conn.Socket.Udp.{Socket, Machine, UdpListener}
use flockwave_conn.Socket.Udp.Operations.{Called, broadcast, Payload, payload}

module _ (machine : Machine) (p : Payload) (u : UdpListener) where
  -- A broadcast on an open socket, to an address that the system can reach, sends one datagram: the
  -- data, to the address that the user has set or else to the inferred one; nothing else changes.
  broadcast_sends :
      (sock : Socket) (user inferred : Option Address) (a : Address)
      → u.socket ≡ some sock
      → u.user_defined_broadcast_address ≡ user
      → u.inferred_broadcast_address ≡ inferred
      → (user ≡ some a) ⊎ (user ≡ none) × (inferred ≡ some a)
      → machine.send_error a ≡ none
      → broadcast machine p u ≡ (
        ok tt,
        record u { socket = some (record sock { sent = sock.sent ++ (payload p, a) ∷ [] }) },
      )
  unfolding broadcast
  broadcast_sends sock user inferred a open_ eu ei which reach = ground arith

-- A successful `open` of a disconnected connection, by what `_create_and_open_socket` gave.
record Opened (r : Result Socket × UdpListener) (o : Called (Unit {0})) : Type 0 where
  sock : Socket
  created : r.0 ≡ ok sock
  socket : o.1.socket ≡ some sock
  state : o.1.base.state ≡ connected
  port : o.1.broadcast_port ≡ r.1.broadcast_port
  allow : o.1.allow_broadcast ≡ r.1.allow_broadcast
  inferred : o.1.inferred_broadcast_address ≡ r.1.inferred_broadcast_address

-- The connection as `open` hands it to `_open`.
abbrev begun : UdpListener → UdpListener
begun u = record u { base = set_state connecting u.base }
