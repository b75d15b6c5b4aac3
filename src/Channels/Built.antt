-- ===== src/Channels/Built.antt =====
-- The constructor of ParserChannel and its `aclose` (src/flockwave/channels/parser.py), and the parser that
-- MessageChannel picks (src/flockwave/channels/message.py). A reader is an object as the writers of
-- Channels/Encoder are.
use flockwave_conn.Common.{codes, Bool, Option, none, some, if◌then◌else◌}
use flockwave_conn.Common.Results.{Fallible, ok, err, ◌>>=◌}
use flockwave_conn.Common.Dict.{lookup}
use flockwave_conn.Channels.Encoder.{Attribute, coroutine, Writer, is_coroutine, Call, aclose}

pub data TypeError : Type 0 where
  type_error : TypeError

-- Whether a parser has a method `feed`, and whether it is callable itself.
pub record ParserObject : Type 0 where
  pub has_feed : Bool
  pub is_callable : Bool

pub data Parser : Type 0 where
  feed_method itself : Parser

unfoldable pub pick_parser : ParserObject → Fallible TypeError Parser
pick_parser p =
    if p.has_feed then ok feed_method else if p.is_callable then ok itself else err type_error

-- The fields `_reader` and `_closer`.
pub record Source : Type 0 where
  pub reader : Attribute
  pub closer : Option Attribute

-- A reader that has a method `read` is a connection, of which `close` is kept.
from_connection : Option Attribute → Option Attribute → Fallible TypeError Source
from_connection (some (coroutine f)) closer = ok (record { reader = coroutine f; closer = closer })
from_connection _ closer = err type_error

unfoldable pub pick_reader : Writer → Fallible TypeError Source
unfolding from_connection
pick_reader r =
    if is_coroutine (lookup (codes "read") r.attributes)
    then from_connection (lookup (codes "read") r.attributes) (lookup (codes "close") r.attributes)
    else if is_coroutine (some r.itself)
    then ok (record { reader = r.itself; closer = none })
    else err type_error

pub record Built : Type 0 where
  pub source : Source
  pub parser : Parser

unfoldable pub new_parser_channel : Writer → ParserObject → Fallible TypeError Built
unfolding pick_reader pick_parser
new_parser_channel reader parser = do
  source ← pick_reader reader
  picked ← pick_parser parser
  ok (record { source = source; parser = picked })

-- `aclose` is that of EncoderChannel.
unfoldable pub close_source : Source → Call (Unit {0})
unfolding aclose
close_source s = aclose (record { writer = s.reader; closer = s.closer })
