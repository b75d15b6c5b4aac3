-- ===== src/Stream/Loopback.antt =====
-- ChannelConnection of src/flockwave/connections/channel.py, and the pair that
-- `create_loopback_connection_pair` of src/flockwave/connections/factory.py makes of two memory channels.
-- Trio's memory channel is an interface, with the law that it is first in, first out.
use flockwave_conn.Common.{ℕ, ◌≡◌, List, [], ◌∷◌, ◌++◌}
use flockwave_conn.Connection.State.{
  ConnectionState, disconnected, connecting, connected, disconnecting, Connection, new_connection,
  set_state,
}

pub data Sent (C : Type 0) : Type 0 where
  sent : C → Sent C
  send_blocks send_raises : Sent C

pub data Got (M C : Type 0) : Type 0 where
  got : M → C → Got M C
  receive_blocks receive_raises : Got M C

pub record MemoryChannels (M : Type 0) : Type 1 where
  pub Channel : Type 0
  pub contents : Channel → List M
  pub open_channel : ℕ → Channel
  pub send : M → Channel → Sent Channel
  pub receive : Channel → Got M Channel
  -- closing the sending and the receiving end
  pub close_tx : Channel → Channel
  pub close_rx : Channel → Channel
  pub contents-open : (n : ℕ) → contents (open_channel n) ≡ []
  pub contents-send :
      (m : M) (c c' : Channel) → send m c ≡ sent c' → contents c' ≡ contents c ++ m ∷ []
  pub contents-receive :
      (m : M) (c c' : Channel) → receive c ≡ got m c' → contents c ≡ m ∷ contents c'

pub data Side : Type 0 where
  left right : Side

module _ (M : Type 0) (channels : MemoryChannels M) where
  open channels use {Channel, open_channel, send, receive, close_tx, close_rx}

  -- The two channels, and the states of the two connections. The left one sends on the forward channel
  -- and receives from the backward one.
  pub record Pair : Type 0 where
    pub forward : Channel
    pub backward : Channel
    pub left_base : Connection
    pub right_base : Connection

  -- `create_loopback_connection_pair`
  unfoldable pub new_pair : ℕ → Pair
  new_pair buffer_size = record {
    forward = open_channel buffer_size;
    backward = open_channel buffer_size;
    left_base = new_connection;
    right_base = new_connection;
  }

  pub data Outcome : Type 0 where
    -- a write returned; a read returned a message; a call waits, or raises
    wrote : Side → M → Outcome
    read_message : Side → M → Outcome
    waits raises : Outcome

  with_tx : Side → Channel → Pair → Pair
  with_tx left c p = record p { forward = c }
  with_tx right c p = record p { backward = c }

  with_rx : Side → Channel → Pair → Pair
  with_rx left c p = record p { backward = c }
  with_rx right c p = record p { forward = c }

  unfoldable pub tx_of : Side → Pair → Channel
  tx_of left p = p.forward
  tx_of right p = p.backward

  unfoldable pub rx_of : Side → Pair → Channel
  rx_of left p = p.backward
  rx_of right p = p.forward

  unfoldable pub written : Side → M → Sent Channel → Pair → Outcome × Pair
  unfolding with_tx
  written side m (sent c) p = (wrote side m, with_tx side c p)
  written side m send_blocks p = (waits, p)
  written side m send_raises p = (raises, p)

  unfoldable pub write : Side → M → Pair → Outcome × Pair
  unfolding written tx_of
  write side m p = written side m (send m (tx_of side p)) p

  unfoldable pub received : Side → Got M Channel → Pair → Outcome × Pair
  unfolding with_rx
  received side (got m c) p = (read_message side m, with_rx side c p)
  received side receive_blocks p = (waits, p)
  received side receive_raises p = (raises, p)

  unfoldable pub read : Side → Pair → Outcome × Pair
  unfolding received rx_of
  read side p = received side (receive (rx_of side p)) p

  unfoldable pub base_of : Side → Pair → Connection
  base_of left p = p.left_base
  base_of right p = p.right_base

  with_base : Side → Connection → Pair → Pair
  with_base left c p = record p { left_base = c }
  with_base right c p = record p { right_base = c }

  -- `open`, of which the hook is only a checkpoint.
  unfoldable pub open_from : ConnectionState → Side → Pair → Pair
  unfolding with_base base_of
  open_from disconnected side p =
      with_base side (set_state connected (set_state connecting (base_of side p))) p
  open_from _ side p = p

  unfoldable pub open_side : Side → Pair → Pair
  unfolding open_from
  open_side side p = open_from (base_of side p).state side p

  close_ends : Side → Pair → Pair
  unfolding with_tx with_rx tx_of rx_of
  close_ends side p =
      let q = with_tx side (close_tx (tx_of side p)) p in with_rx side (close_rx (rx_of side q)) q

  -- `close`: the hook closes the sending end and the receiving end.
  close_from : ConnectionState → Side → Pair → Pair
  unfolding with_base base_of close_ends
  close_from connected side p =
      with_base side (set_state disconnected (set_state disconnecting (base_of side p)))
        (close_ends side p)
  close_from _ side p = p

  unfoldable pub close_side : Side → Pair → Pair
  unfolding close_from
  close_side side p = close_from (base_of side p).state side p
