-- ===== src/Socket/Laws.antt =====
-- What the operations of UDPListenerConnection keep and do.
use flockwave_conn.Common.{
  Text, ◌≡◌, refl, Bool, true, false, Option, none, some, List, [], ◌∷◌, arith, ◌⊎◌, inl, inr,
  Bool-cases,
}
use flockwave_conn.Connection.State.{
  ConnectionState, disconnected, connecting, connected, state_eq, set_state,
}
use flockwave_conn.Connection.Signals.{state-set_state}
use flockwave_conn.Socket.Binding.{Result, ok, err, Address, get_broadcast_address, Result-cases}
use flockwave_conn.Socket.Udp.{
  Socket, Machine, UdpListener, create_and_open_socket, bind_socket, after_bind,
}
use flockwave_conn.Socket.Udp.Operations.{
  close, open_udp, open_from, finish_open, set_user_defined_broadcast_address, read, write,
  broadcast, Payload,
}

abbrev is_some {ℓ} : {A : Type ℓ} → Option A → Bool
is_some none = false
is_some (some _) = true

-- The connection is settled and has a socket exactly if it is connected; an inferred broadcast
-- address is there only with a socket, and a broadcast address of either kind only if broadcasts are
-- allowed.
pub record IsConsistent (u : UdpListener) : Type 0 where
  pub settled : (u.base.state ≡ connected) ⊎ (u.base.state ≡ disconnected)
  pub has_socket : is_some u.socket ≡ state_eq u.base.state connected
  pub inferred_open : is_some u.inferred_broadcast_address ≡ true → u.base.state ≡ connected
  pub inferred_allowed : is_some u.inferred_broadcast_address ≡ true → u.allow_broadcast ≡ true
  pub user_allowed : is_some u.user_defined_broadcast_address ≡ true → u.allow_broadcast ≡ true

pub close-IsConsistent : (u : UdpListener) → IsConsistent u → IsConsistent (close u).1
unfolding close
close-IsConsistent u h = grind (arith, state-set_state)

set_user_defined-IsConsistent :
    (a : Option Address) (u : UdpListener)
    → IsConsistent u
    → IsConsistent (set_user_defined_broadcast_address a u).1
unfolding set_user_defined_broadcast_address
set_user_defined-IsConsistent a u h = ground arith

read-IsConsistent :
    (d : Text × Address) (u : UdpListener) → IsConsistent u → IsConsistent (read d u).1
unfolding read
read-IsConsistent d u h = grind (arith, close-IsConsistent)

-- What `_create_and_open_socket` leaves alone, and when it infers a broadcast address.
pub record Keeps (u : UdpListener) (r : Result Socket × UdpListener) : Type 0 where
  base : r.1.base ≡ u.base
  socket : r.1.socket ≡ u.socket
  pub allow : r.1.allow_broadcast ≡ u.allow_broadcast
  user : r.1.user_defined_broadcast_address ≡ u.user_defined_broadcast_address
  inferred :
      (r.1.inferred_broadcast_address ≡ u.inferred_broadcast_address)
      ⊎ (u.allow_broadcast ≡ true) × ((sock : Socket) × (r.0 ≡ ok sock))

ruleset sets = (arith, state-set_state)

finish_open-IsConsistent :
    (u : UdpListener) (r : Result Socket × UdpListener)
    → IsConsistent u
    → u.base.state ≡ disconnected
    → Keeps (record u { base = set_state connecting u.base }) r
    → IsConsistent (finish_open r).1
unfolding finish_open
finish_open-IsConsistent u (ok sock, u') h down k = grind sets
finish_open-IsConsistent u (err e, u') h down k = grind sets

module _ (machine : Machine) where
  after_bind-Keeps : (b : Result Socket) (u : UdpListener) → Keeps u (after_bind machine b u)
  unfolding after_bind
  after_bind-Keeps (err e) u = ground arith
  after_bind-Keeps (ok sock) u = elim (Bool-cases u.allow_broadcast) [
    | inl allowed ↦
        rw (allowed, after_bind)
          (elim (Result-cases (get_broadcast_address machine.network u.binding)) [
            | inl (host, e) ↦ rw e (record {
              base = refl;
              socket = refl;
              allow = refl;
              user = refl;
              inferred = inr (refl, (sock, refl));
            })
            | inr (x, e) ↦ rw e (record {
              base = refl;
              socket = refl;
              allow = refl;
              user = refl;
              inferred = inl refl;
            })
          ])
    | inr denied ↦
        rw (denied, after_bind)
          (record { base = refl; socket = refl; allow = refl; user = refl; inferred = inl refl })
  ]

  pub create_and_open_socket-Keeps : (u : UdpListener) → Keeps u (create_and_open_socket machine u)
  unfolding create_and_open_socket
  create_and_open_socket-Keeps u = after_bind-Keeps (bind_socket machine u) u

  open_from-IsConsistent :
      (s : ConnectionState) (u : UdpListener)
      → u.base.state ≡ s
      → IsConsistent u
      → IsConsistent (open_from machine s u).1
  unfolding open_from
  open_from-IsConsistent disconnected u down h =
      finish_open-IsConsistent u
        (create_and_open_socket machine (record u { base = set_state connecting u.base })) h down
        (create_and_open_socket-Keeps (record u { base = set_state connecting u.base }))
  open_from-IsConsistent _ u down h = h

  open-IsConsistent : (u : UdpListener) → IsConsistent u → IsConsistent (open_udp machine u).1
  unfolding open_udp
  open-IsConsistent u h = open_from-IsConsistent u.base.state u refl h

  write-IsConsistent :
      (d : Text × Address) (u : UdpListener) → IsConsistent u → IsConsistent (write machine d u).1
  unfolding write
  write-IsConsistent d u h = grind (arith, close-IsConsistent)

  broadcast-IsConsistent :
      (p : Payload) (u : UdpListener) → IsConsistent u → IsConsistent (broadcast machine p u).1
  unfolding broadcast
  broadcast-IsConsistent p u h = grind (arith, write-IsConsistent)

-- One operation of the connection, with what it is given from outside.
pub data Request : Type 0 where
  open_request : Machine → Request
  close_request : Request
  set_request : Option Address → Request
  read_request : Text × Address → Request
  write_request : Machine → Text × Address → Request
  broadcast_request : Machine → Payload → Request

unfoldable pub perform : Request → UdpListener → UdpListener
perform (open_request m) u = (open_udp m u).1
perform close_request u = (close u).1
perform (set_request a) u = (set_user_defined_broadcast_address a u).1
perform (read_request d) u = (read d u).1
perform (write_request m d) u = (write m d u).1
perform (broadcast_request m p) u = (broadcast m p u).1

unfoldable pub perform_all : List Request → UdpListener → UdpListener
perform_all [] u = u
perform_all (r ∷ rs) u = perform_all rs (perform r u)

perform-IsConsistent : (r : Request) (u : UdpListener) → IsConsistent u → IsConsistent (perform r u)
unfolding perform
perform-IsConsistent (open_request m) u h = open-IsConsistent m u h
perform-IsConsistent close_request u h = close-IsConsistent u h
perform-IsConsistent (set_request a) u h = set_user_defined-IsConsistent a u h
perform-IsConsistent (read_request d) u h = read-IsConsistent d u h
perform-IsConsistent (write_request m d) u h = write-IsConsistent m d u h
perform-IsConsistent (broadcast_request m p) u h = broadcast-IsConsistent m p u h

-- Any sequence of operations, one at a time and failing or not, on machines that may change between
-- them, keeps a UDP listener consistent: it is settled, it has a socket exactly when it is connected,
-- an inferred broadcast address only while it is connected, and a broadcast address of either kind
-- only if broadcasts are allowed.
pub perform_all-IsConsistent :
    (rs : List Request) (u : UdpListener) → IsConsistent u → IsConsistent (perform_all rs u)
unfolding perform_all
perform_all-IsConsistent [] u h = h
perform_all-IsConsistent (r ∷ rs) u h =
    perform_all-IsConsistent rs (perform r u) (perform-IsConsistent r u h)
