-- ===== src/Channels/Tests.antt =====
-- Channels of numbers: a parser that splits the raw data into its bytes, a link that refuses to
-- broadcast, and a lossy channel that loses every second message.
use flockwave_conn.Common.{
  ℕ, suc, ◌%◌, codes, ◌≡◌, refl, Bool, true, false, none, List, [], ◌∷◌, ◌++◌, leb, text_eq, ◌+◌,
  ◌==◌, if◌then◌else◌, some,
}
use flockwave_conn.Common.Dict.{lookup}
use flockwave_conn.Capabilities.{get_connection_capabilities}
use flockwave_conn.Common.Results.{ok, err}
use flockwave_conn.Channels.Built as Built
use flockwave_conn.Channels.ForRpc as ForRpc
use flockwave_conn.Channels.Parser as Parser
use flockwave_conn.Channels.Parser.{Protocol, ParserChannel, data_read, reader_raises}
use flockwave_conn.Channels.Lossy as Lossy
use flockwave_conn.Channels.Lossy.{Floats}
use flockwave_conn.Channels.Message as Message
use flockwave_conn.Channels.Message.{
  Link, Reply, done, no_broadcast_address, failed, MessageChannel,
}
use flockwave_conn.Channels.Encoder.{Writer, coroutine, value, new_encoder_channel, attribute_error}

abbrev is_nil : List ℕ → Bool
is_nil [] = true
is_nil (_ ∷ _) = false

-- The bytes before a zero, and whether there is one.
abbrev before_zero : List ℕ → List ℕ × Bool
before_zero [] = ([], false)
before_zero (b ∷ bs) = let (l, z) = before_zero bs in if b == 0 then ([], true) else (b ∷ l, z)

-- The parser counts the pieces of data that it was given, gives their bytes, and raises at a zero.
abbrev bytes_protocol : Protocol
bytes_protocol = record {
  Raw = List ℕ;
  Message = ℕ;
  State = ℕ;
  is_empty = is_nil;
  feed = λ s d. record { messages = (before_zero d).0; state = suc s; raises = (before_zero d).1 };
}

abbrev parser_channel : ParserChannel bytes_protocol
parser_channel = record {
  pending = [];
  parser = 0;
  readings = data_read (5 ∷ 6 ∷ []) ∷ data_read (7 ∷ 0 ∷ 8 ∷ []) ∷ reader_raises ∷ [];
}

receive-Takes_example :
    Parser.Takes bytes_protocol
      (5 ∷ 6 ∷ [])
      (Parser.parse_error, record { pending = 7 ∷ []; parser = 2; readings = reader_raises ∷ [] })
      (Parser.receive bytes_protocol parser_channel)
receive-Takes_example = Parser.receive-Takes bytes_protocol parser_channel

-- Natural numbers in place of floats: the draws are 0 and 1 in turn, and a draw of 0 loses.
abbrev whole_numbers : Floats
whole_numbers = record { Number = ℕ; ge = λ a b. leb b a }

abbrev every_second : Lossy.Lossy whole_numbers ℕ
every_second = record {
  loss_probability = 1;
  random = λ n. n % 2;
  drawn = 0;
  to_deliver = 10 ∷ 11 ∷ 12 ∷ [];
  delivered = [];
  is_closed = false;
}

-- A connection that is the list of what was written to it, and that has no broadcast address.
abbrev list_link : Link (List ℕ)
list_link = record {
  Conn = List (List ℕ);
  class_of = λ c. record {
    own_capabilities = none;
    is_broadcast_connection = true;
    is_readable_connection = true;
    is_writable_connection = true;
  };
  write = λ d c. (done, c ++ d ∷ []);
  broadcast = λ d c. (no_broadcast_address, c);
  close = λ c. (done, c);
}

abbrev message_channel : MessageChannel bytes_protocol list_link ℕ
message_channel =
    Message.new_message_channel bytes_protocol list_link ℕ [] [] 0 (λ m. m ∷ []) (λ b. b ∷ b ∷ [])

message_channel_can_broadcast : message_channel.can_broadcast ≡ true
unfolding Message.new_message_channel get_connection_capabilities
message_channel_can_broadcast = refl

-- A writer as the connections are: `write` and `close` are coroutine functions.
abbrev connection_writer : Writer
connection_writer = record {
  attributes =
      (codes "write", coroutine (codes "write")) ∷ (codes "close", coroutine (codes "close")) ∷ [];
  itself = value;
}

connection_is_no_writer : new_encoder_channel connection_writer ≡ attribute_error
unfolding new_encoder_channel lookup text_eq
connection_is_no_writer = refl

-- A connection can be read from through a parser that is a function.
connection_is_a_reader :
    Built.new_parser_channel
      (record { attributes = (codes "read", coroutine (codes "read")) ∷ []; itself = value })
      (record { has_feed = false; is_callable = true })
    ≡ ok (record {
      source = record { reader = coroutine (codes "read"); closer = none };
      parser = Built.itself;
    })
unfolding Built.new_parser_channel lookup text_eq
connection_is_a_reader = refl

number_is_no_parser :
    Built.pick_parser (record { has_feed = false; is_callable = false }) ≡ err Built.type_error
unfolding Built.pick_parser
number_is_no_parser = refl

-- Protocols, connections and encoders are numbers; serving gives the protocol.
abbrev codecs : ForRpc.RpcCodecs ℕ ℕ
codecs = record {
  create_rpc_parser = λ p. record { has_feed = false; is_callable = true };
  create_rpc_encoder = λ p. p + 1;
}

abbrev rpc_channel : ForRpc.MessageChannel ℕ ℕ ℕ
rpc_channel = record { connection = 7; encoder = 3; parser = Built.itself; protocol = some 2 }

channel_for_protocol : ForRpc.for_rpc_protocol ℕ ℕ ℕ codecs 2 7 ≡ ok rpc_channel
unfolding ForRpc.for_rpc_protocol Built.pick_parser
channel_for_protocol = refl

rpc_channel_serves : ForRpc.serve_rpc_requests ℕ ℕ ℕ ℕ (λ ch p. p) rpc_channel ≡ ForRpc.serves 2
unfolding ForRpc.serve_rpc_requests
rpc_channel_serves = refl

plain_channel_does_not :
    ForRpc.serve_rpc_requests ℕ ℕ ℕ ℕ (λ ch p. p) (record rpc_channel { protocol = none })
    ≡ ForRpc.value_error
unfolding ForRpc.serve_rpc_requests
plain_channel_does_not = refl
