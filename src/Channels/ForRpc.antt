-- ===== src/Channels/ForRpc.antt =====
-- The constructor of MessageChannel, `for_rpc_protocol` and `serve_rpc_requests` of
-- src/flockwave/channels/message.py. The parser and the encoder of a protocol come from outside, and so
-- does the function that serves the requests.
use flockwave_conn.Common.{Option, none, some}
use flockwave_conn.Common.Results.{Fallible, ok, ◌>>=◌}
use flockwave_conn.Channels.Built.{TypeError, ParserObject, Parser, pick_parser}

-- What `create_rpc_parser` and `create_rpc_encoder` make of a protocol.
pub record RpcCodecs (P E : Type 0) : Type 0 where
  pub create_rpc_parser : P → ParserObject
  pub create_rpc_encoder : P → E

-- `P` is the type of the protocols, `C` that of the connections, `E` that of the encoders.
pub record MessageChannel (P C E : Type 0) : Type 0 where
  pub connection : C
  pub encoder : E
  pub parser : Parser
  pub protocol : Option P

-- `serve_rpc_requests` raises a ValueError, or serves with the request factory of a protocol.
pub data Served (P R : Type 0) : Type 0 where
  value_error : Served P R
  serves : R → Served P R

module _ (P C E : Type 0) where
  unfoldable pub new_message_channel :
      C → ParserObject → E → Fallible TypeError (MessageChannel P C E)
  new_message_channel connection parser encoder = do
    picked ← pick_parser parser
    ok (record { connection = connection; encoder = encoder; parser = picked; protocol = none })

  unfoldable pub for_rpc_protocol :
      RpcCodecs P E → P → C → Fallible TypeError (MessageChannel P C E)
  unfolding new_message_channel
  for_rpc_protocol codecs protocol connection = do
    result ←
        new_message_channel connection (codecs.create_rpc_parser protocol)
          (codecs.create_rpc_encoder protocol)
    ok (record result { protocol = some protocol })

  module _ (R : Type 0) (serve : MessageChannel P C E → P → R) where
    serve_with : Option P → MessageChannel P C E → Served P R
    serve_with none ch = value_error
    serve_with (some protocol) ch = serves (serve ch protocol)

    unfoldable pub serve_rpc_requests : MessageChannel P C E → Served P R
    unfolding serve_with
    serve_rpc_requests ch = serve_with ch.protocol ch
