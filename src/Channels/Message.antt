-- ===== src/Channels/Message.antt =====
-- MessageChannel and BroadcastMessageChannel of src/flockwave/channels/message.py. The loop of
-- `receive` and `_read` is that of ParserChannel, on the readings of the connection. The connection
-- that is written to is a parameter.
use flockwave_conn.Common.{◌≡◌, refl, ◌≢◌, Bool, true, List, [], if◌then◌else◌, ◌⊎◌, inl, inr}
use flockwave_conn.Capabilities.{ConnectionClass, get_connection_capabilities}
use flockwave_conn.Channels.Parser as Parser
use flockwave_conn.Channels.Parser.{
  Outcome, Protocol, ParserChannel, Reading, to_come, ending, Takes, receive-Takes,
}

-- How a write ends: it returns, it raises NoBroadcastAddressError, or another exception.
pub data Reply : Type 0 where
  done no_broadcast_address failed : Reply

-- What the channel uses of the connection beside `read`.
pub record Link (R : Type 0) : Type 1 where
  pub Conn : Type 0
  pub class_of : Conn → ConnectionClass
  pub write : R → Conn → Reply × Conn
  pub broadcast : R → Conn → Reply × Conn
  pub close : Conn → Reply × Conn

module _ (protocol : Protocol) (link : Link protocol.Raw) (B : Type 0) where
  open protocol use {Raw, Message, State}
  open link use {Conn, class_of, write, close}

  pub record MessageChannel : Type 0 where
    pub connection : Conn
    pub inbound : ParserChannel protocol
    pub encoder : Message → Raw
    pub broadcast_encoder : B → Raw
    pub can_broadcast : Bool

  -- The constructor of BroadcastMessageChannel.
  unfoldable pub new_message_channel :
      Conn → List (Reading Raw) → State → (Message → Raw) → (B → Raw) → MessageChannel
  new_message_channel conn readings parser encoder broadcast_encoder = record {
    connection = conn;
    inbound = record { pending = []; parser = parser; readings = readings };
    encoder = encoder;
    broadcast_encoder = broadcast_encoder;
    can_broadcast = (get_connection_capabilities (class_of conn)).can_broadcast;
  }

  unfoldable pub receive : MessageChannel → Outcome Message × MessageChannel
  receive ch =
      let (r, inbound') = Parser.receive protocol ch.inbound in
      (r, record ch { inbound = inbound' })

  after : MessageChannel → Reply × Conn → Reply × MessageChannel
  after ch (r, conn) = (r, record ch { connection = conn })

  unfoldable pub send : Message → MessageChannel → Reply × MessageChannel
  unfolding after
  send value ch = after ch (write (ch.encoder value) ch.connection)

  unfoldable pub aclose : MessageChannel → Reply × MessageChannel
  unfolding after
  aclose ch = after ch (close ch.connection)

  -- `except NoBroadcastAddressError: pass`
  forgive : Reply → Reply
  forgive no_broadcast_address = done
  forgive r = r

  forgive-cases :
      (r : Reply) → ((forgive r ≡ done) × (r ≢ failed)) ⊎ ((forgive r ≡ failed) × (r ≡ failed))
  unfolding forgive
  forgive-cases done = inl (refl, λ h. cc)
  forgive-cases no_broadcast_address = inl (refl, λ h. cc)
  forgive-cases failed = inr (refl, refl)

  forgiving : Reply × Conn → Reply × Conn
  unfolding forgive
  forgiving (r, conn) = (forgive r, conn)

  unfoldable pub broadcast : B → MessageChannel → Reply × MessageChannel
  unfolding after forgiving
  broadcast value ch =
      let encoded = ch.broadcast_encoder value in
      if ch.can_broadcast
      then after ch (forgiving (link.broadcast encoded ch.connection))
      else after ch (write encoded ch.connection)

  -- On a channel that can broadcast, `broadcast` hands the encoded message to the connection's
  -- `broadcast`, leaves the connection as that does and the messages to be received as they were; it
  -- fails if the connection fails, and returns otherwise, also when there is no broadcast address.
  broadcast_forgives :
      (value : B) (ch : MessageChannel)
      → ch.can_broadcast ≡ true
      → let (r, ch') = broadcast value ch in
        let (rb, cb) = link.broadcast (ch.broadcast_encoder value) ch.connection in
        (ch'.connection ≡ cb)
        × (ch'.inbound ≡ ch.inbound)
        × (((r ≡ done) × (rb ≢ failed)) ⊎ ((r ≡ failed) × (rb ≡ failed)))
  unfolding broadcast
  broadcast_forgives value ch can =
      rw can
        (refl, refl, forgive-cases (link.broadcast (ch.broadcast_encoder value) ch.connection).0)
