-- ===== src/Socket/Tcp.antt =====
-- The TCP classes of src/flockwave/connections/socket.py: TCPStreamConnection, IncomingTCPStreamConnection
-- and TCPListenerConnection, and UnixDomainSocketConnection, one call at a time. A connected socket is
-- known by a number; what the operating system answers is given with the calls, or by a record.
use flockwave_conn.Common.{ℕ, Text, Bool, true, false, Option, none, some, List, [], ◌∷◌, ◌++◌}
use flockwave_conn.Connection.State.{
  ConnectionState, disconnected, connecting, connected, disconnecting, Connection, new_connection,
  set_state,
}
use flockwave_conn.Socket.Binding.{
  Error, assertion_error, runtime_error, Result, ok, err, ◌>>=◌, Address, Network, SocketBinding,
  binding_fixed, fixed_address, resolve,
}
use flockwave_conn.Stream.Base as Stream
use flockwave_conn.Stream.Base.{StreamConnection, new_stream_connection, open_stream}

-- The properties `ip` and `port` of InternetAddressMixin.
unfoldable pub ip_of : Option Address → Result Text
ip_of none = err runtime_error
ip_of (some (host, port)) = ok host

unfoldable pub port_of : Option Address → Result ℕ
port_of none = err runtime_error
port_of (some (host, port)) = ok port

pub record TcpStream : Type 0 where
  pub stream : StreamConnection
  pub address : Address

abbrev or_empty : Option Text → Text
or_empty none = []
or_empty (some t) = t

abbrev or_zero : Option ℕ → ℕ
or_zero none = 0
or_zero (some n) = n

unfoldable pub new_tcp_stream : Option Text → Option ℕ → TcpStream
unfolding new_stream_connection
new_tcp_stream host port = record {
  stream = new_stream_connection;
  address = (or_empty host, or_zero port);
}

-- `open`, with what `open_tcp_stream` gives for a host and a port.
unfoldable pub open_tcp :
    (Address → Stream.Result Stream.Stream) → TcpStream → Stream.Result (Unit {0}) × TcpStream
unfolding open_stream
open_tcp connect c =
    let (r, s) = open_stream (connect c.address) c.stream in (r, record c { stream = s })

-- `_create_stream` of UnixDomainSocketConnection, with what connecting to the path gives.
unfoldable pub create_unix_stream :
    Bool → (Text → Stream.Result Stream.Stream) → Text → Stream.Result Stream.Stream
create_unix_stream false connect path = err Stream.runtime_error
create_unix_stream true connect path = connect path

pub record IncomingTcp : Type 0 where
  pub stream : StreamConnection
  pub address : Address
  pub stored_socket : Option ℕ
  -- the sockets around which a stream was made
  pub wrapped : List ℕ

unfoldable pub new_incoming : Address → ℕ → IncomingTcp
unfolding new_stream_connection
new_incoming address socket = record {
  stream = new_stream_connection;
  address = address;
  stored_socket = some socket;
  wrapped = [];
}

-- `_create_stream` of IncomingTCPStreamConnection
unfoldable pub create_from : Option ℕ → IncomingTcp → Stream.Result Stream.Stream × IncomingTcp
create_from none c = (err Stream.runtime_error, c)
create_from (some socket) c = (
  ok (record { sent = [] }),
  record c { stored_socket = none; wrapped = c.wrapped ++ socket ∷ [] },
)

unfoldable pub create_stream : IncomingTcp → Stream.Result Stream.Stream × IncomingTcp
unfolding create_from
create_stream c = create_from c.stored_socket c

-- `open`: the stream is created only if the connection is closed.
unfoldable pub open_from : ConnectionState → IncomingTcp → Stream.Result (Unit {0}) × IncomingTcp
unfolding create_stream open_stream
open_from disconnected c =
    let (created, c') = create_stream c in
    let (r, s) = open_stream created c'.stream in (r, record c' { stream = s })
open_from _ c = (ok tt, c)

unfoldable pub open_incoming : IncomingTcp → Stream.Result (Unit {0}) × IncomingTcp
unfolding open_from
open_incoming c = open_from c.stream.base.state c

pub record ListeningSocket : Type 0 where
  pub bound_to : Address
  -- the argument of `listen`, if there is one
  pub backlog : Option ℕ

pub record TcpListener : Type 0 where
  pub base : Connection
  pub socket : Option ListeningSocket
  -- a negative number is `none` here
  pub backlog : Option ℕ
  pub binding : SocketBinding
  pub address : Option Address

unfoldable pub new_tcp_listener : Text → ℕ → Option ℕ → TcpListener
unfolding fixed_address
new_tcp_listener host port backlog = record {
  base = new_connection;
  socket = none;
  backlog = backlog;
  binding = binding_fixed host port;
  address = fixed_address (binding_fixed host port);
}

-- The machine: its network, the address that a bind gives, and what `listen` raises, if it does.
pub record Machine : Type 0 where
  pub network : Network
  pub bind : Address → Result Address
  pub listen : Address → Option Error

abbrev pub Called : Type 0 → Type 0
Called A = Result A × TcpListener

abbrev pub move_to : ConnectionState → TcpListener → TcpListener
move_to s l = record l { base = set_state s l.base }

listening : Option Error → Address → Option ℕ → Result ListeningSocket
listening (some e) bound backlog = err e
listening none bound backlog = ok (record { bound_to = bound; backlog = backlog })

unfoldable pub create_and_listen : Machine → TcpListener → Result ListeningSocket
unfolding listening
create_and_listen machine l = do
  wanted ← resolve machine.network l.binding
  bound ← machine.bind wanted
  listening (machine.listen bound) bound l.backlog

finish_open : Result ListeningSocket → TcpListener → Called (Unit {0})
finish_open (ok sock) l = (ok tt, move_to connected (record l { socket = some sock }))
finish_open (err e) l = (err e, move_to disconnected l)

open_listener_from : Machine → ConnectionState → TcpListener → Called (Unit {0})
unfolding finish_open create_and_listen
open_listener_from machine disconnected l =
    finish_open (create_and_listen machine l) (move_to connecting l)
open_listener_from machine _ l = (ok tt, l)

unfoldable pub open_listener : Machine → TcpListener → Called (Unit {0})
unfolding open_listener_from
open_listener machine l = open_listener_from machine l.base.state l

-- `_close`, and the end of `close`.
close_socket : Option ListeningSocket → TcpListener → Called (Unit {0})
close_socket none l = (err assertion_error, move_to connected l)
close_socket (some sock) l = (ok tt, move_to disconnected (record l { socket = none }))

close_from : ConnectionState → TcpListener → Called (Unit {0})
unfolding close_socket
close_from connected l = close_socket l.socket (move_to disconnecting l)
close_from _ l = (ok tt, l)

unfoldable pub close_listener : TcpListener → Called (Unit {0})
unfolding close_from
close_listener l = close_from l.base.state l

-- What `accept` gives: a connection that was opened, or an exception: of the listening socket, or of
-- opening the connection.
pub data Accepted : Type 0 where
  accepted : IncomingTcp → Accepted
  accept_raises : Error → Accepted
  open_raises : Stream.Error → Accepted

opened : Stream.Result (Unit {0}) × IncomingTcp → Accepted
opened (ok _, c) = accepted c
opened (err e, c) = open_raises e

accept_client : Result (ℕ × Address) → Accepted
unfolding open_incoming new_incoming opened
accept_client (err e) = accept_raises e
accept_client (ok (socket, address)) = opened (open_incoming (new_incoming address socket))

accept_on : Option ListeningSocket → Result (ℕ × Address) → Accepted
unfolding accept_client
accept_on none client = accept_raises assertion_error
accept_on (some sock) client = accept_client client

unfoldable pub accept : Result (ℕ × Address) → TcpListener → Accepted
unfolding accept_on
accept client l = accept_on l.socket client
