-- ===== src/Socket/Silent.antt =====
-- BroadcastUDPListenerConnection of src/flockwave/connections/socket.py cannot broadcast.
use flockwave_conn.Common.{
  ℕ, Text, ◌≡◌, refl, ◌∙◌, subst, Bool-cases, true, false, Option, none, some, List, [], ◌∷◌, arith,
  inl, inr,
}
use flockwave_conn.Connection.State.{ConnectionState, disconnected, connecting, set_state}
use flockwave_conn.Socket.Binding.{
  Result, ok, err, no_broadcast_address, Address, SocketBinding, bind_to_broadcast,
}
use flockwave_conn.Socket.Udp.{
  Socket, Machine, UdpListener, create_and_open_socket, Arguments, new_udp_listener,
}
use flockwave_conn.Socket.Udp.Operations.{
  close, open_udp, open_from, finish_open, set_user_defined_broadcast_address, read, write,
  broadcast, Payload,
}
use flockwave_conn.Socket.Laws.{
  IsConsistent, Request, open_request, close_request, set_request, read_request, write_request,
  broadcast_request, perform, perform_all, perform_all-IsConsistent, create_and_open_socket-Keeps,
}
use flockwave_conn.Socket.Variants.{
  new_broadcast_listener, listener_on, default_arguments, has_slash,
}

close-allow : (u : UdpListener) → (close u).1.allow_broadcast ≡ u.allow_broadcast
unfolding close
close-allow u = ground arith

set-allow :
    (a : Option Address) (u : UdpListener)
    → (set_user_defined_broadcast_address a u).1.allow_broadcast ≡ u.allow_broadcast
unfolding set_user_defined_broadcast_address
set-allow a u = ground arith

read-allow :
    (d : Text × Address) (u : UdpListener) → (read d u).1.allow_broadcast ≡ u.allow_broadcast
unfolding read
read-allow d u = grind (arith, close-allow)

module _ (m : Machine) where
  write-allow :
      (d : Text × Address) (u : UdpListener) → (write m d u).1.allow_broadcast ≡ u.allow_broadcast
  unfolding write
  write-allow d u = grind (arith, close-allow)

  broadcast-allow :
      (p : Payload) (u : UdpListener) → (broadcast m p u).1.allow_broadcast ≡ u.allow_broadcast
  unfolding broadcast
  broadcast-allow p u = grind (arith, write-allow)

  finish_open-allow :
      (r : Result Socket × UdpListener) → (finish_open r).1.allow_broadcast ≡ r.1.allow_broadcast
  unfolding finish_open
  finish_open-allow (ok sock, u) = refl
  finish_open-allow (err e, u) = refl

  open_from-allow :
      (s : ConnectionState) (u : UdpListener)
      → (open_from m s u).1.allow_broadcast ≡ u.allow_broadcast
  unfolding open_from
  open_from-allow disconnected u =
      let begun : UdpListener = record u { base = set_state connecting u.base } in
      finish_open-allow (create_and_open_socket m begun)
      ∙ (create_and_open_socket-Keeps m begun).allow
  open_from-allow _ u = refl

  open-allow : (u : UdpListener) → (open_udp m u).1.allow_broadcast ≡ u.allow_broadcast
  unfolding open_udp
  open-allow u = open_from-allow u.base.state u

perform-allow : (r : Request) (u : UdpListener) → (perform r u).allow_broadcast ≡ u.allow_broadcast
unfolding perform
perform-allow (open_request m) u = open-allow m u
perform-allow close_request u = close-allow u
perform-allow (set_request a) u = set-allow a u
perform-allow (read_request d) u = read-allow d u
perform-allow (write_request m d) u = write-allow m d u
perform-allow (broadcast_request m p) u = broadcast-allow m p u

perform_all-allow :
    (rs : List Request) (u : UdpListener) → (perform_all rs u).allow_broadcast ≡ u.allow_broadcast
unfolding perform_all
perform_all-allow [] u = refl
perform_all-allow (r ∷ rs) u = perform_all-allow rs (perform r u) ∙ perform-allow r u

-- A connection that may not broadcast has no address to broadcast to.
broadcast_denied :
    (m : Machine) (p : Payload) (u : UdpListener)
    → IsConsistent u
    → u.allow_broadcast ≡ false
    → broadcast m p u ≡ (err no_broadcast_address, u)
unfolding broadcast
broadcast_denied m p u h denied = ground arith

abbrev IsSilent : UdpListener → Type 0
IsSilent u = IsConsistent u × (u.allow_broadcast ≡ false)

new_udp_listener-IsSilent :
    (a : Arguments)
    → a.allow_broadcast ≡ false
    → a.broadcast_port ≡ none
    → IsSilent (new_udp_listener a)
unfolding new_udp_listener
new_udp_listener-IsSilent a denied no_port = ground arith

listener_on-IsSilent : (i : Text) (port : ℕ) → IsSilent (listener_on i port)
unfolding listener_on
listener_on-IsSilent i port = elim (Bool-cases (has_slash i)) [
  | inl slash ↦ rw slash (
      new_udp_listener-IsSilent (record default_arguments { subnet = some i; port = port }) refl
        refl)
  | inr plain ↦ rw plain (
      new_udp_listener-IsSilent (record default_arguments { interface = some i; port = port }) refl
        refl)
]

rebound-IsSilent :
    (b : SocketBinding) (u : UdpListener) → IsSilent u → IsSilent (record u { binding = b })
rebound-IsSilent b u h = ground arith

made_on :
    (i : Text) (port : ℕ) {u : UdpListener}
    → ◌≡◌ {A = Result UdpListener}
        (ok (record (listener_on i port) {
          binding = bind_to_broadcast true (listener_on i port).binding;
        }))
        (ok u)
    → IsSilent u
made_on i port {u = u} made =
    let made_is : record (listener_on i port) {
      binding = bind_to_broadcast true (listener_on i port).binding;
    }
        ≡ u =
      cc in
    subst IsSilent made_is (
      rebound-IsSilent (bind_to_broadcast true (listener_on i port).binding) (listener_on i port)
        (listener_on-IsSilent i port))

new-IsSilent :
    (interface path : Option Text) (port : ℕ) {u : UdpListener}
    → new_broadcast_listener interface path port ≡ ok u
    → IsSilent u
unfolding new_broadcast_listener
new-IsSilent (some i) path port made = made_on i port made
new-IsSilent none (some i) port made = made_on i port made
new-IsSilent none none port made = cc

module _ (interface path : Option Text) (port : ℕ) where
  -- Whatever is done with a broadcast listener after it was constructed, on any machines, `broadcast`
  -- raises NoBroadcastAddressError and changes nothing.
  pub broadcast_listener_is_silent :
      {u : UdpListener} (rs : List Request) (m : Machine) (p : Payload)
      → new_broadcast_listener interface path port ≡ ok u
      → broadcast m p (perform_all rs u) ≡ (err no_broadcast_address, perform_all rs u)
  broadcast_listener_is_silent {u = u} rs m p made =
      let (fine, denied) = new-IsSilent interface path port made in
      broadcast_denied m p (perform_all rs u) (perform_all-IsConsistent rs u fine)
        (perform_all-allow rs u ∙ denied)
