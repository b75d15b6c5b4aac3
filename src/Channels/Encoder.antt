-- ===== src/Channels/Encoder.antt =====
-- EncoderChannel of src/flockwave/channels/encoder.py. A writer is an object of which the
-- constructor looks attributes up, and that may itself be a coroutine function.
use flockwave_conn.Common.{Text, codes, ◌≡◌, Bool, true, false, Option, none, some, if◌then◌else◌}
use flockwave_conn.Common.Dict.{Dict, lookup}

pub data Attribute : Type 0 where
  -- a coroutine function, by a name for it, and anything else
  coroutine : Text → Attribute
  value : Attribute

pub record Writer : Type 0 where
  pub attributes : Dict Attribute
  pub itself : Attribute

abbrev pub is_coroutine : Option Attribute → Bool
is_coroutine (some (coroutine _)) = true
is_coroutine _ = false

-- The fields `_writer` and `_closer`.
pub record EncoderChannel : Type 0 where
  pub writer : Attribute
  pub closer : Option Attribute

pub data Built : Type 0 where
  built : EncoderChannel → Built
  attribute_error type_error : Built

-- `self._writer = writer.writer` and the line below it.
from_connection : Option Attribute → Option Attribute → Built
from_connection none closer = attribute_error
from_connection (some w) closer = built (record { writer = w; closer = closer })

unfoldable pub new_encoder_channel : Writer → Built
unfolding from_connection
new_encoder_channel w =
    if is_coroutine (lookup (codes "write") w.attributes)
    then from_connection (lookup (codes "writer") w.attributes)
        (lookup (codes "close") w.attributes)
    else if is_coroutine (some w.itself)
    then built (record { writer = w.itself; closer = none })
    else type_error

-- A writer with a coroutine method `write` and no attribute `writer` cannot be wrapped: the
-- constructor raises an AttributeError.
new_encoder_channel-connection :
    (w : Writer) (f : Text)
    → lookup (codes "write") w.attributes ≡ some (coroutine f)
    → lookup (codes "writer") w.attributes ≡ none
    → new_encoder_channel w ≡ attribute_error
unfolding new_encoder_channel
new_encoder_channel-connection w f has lacks = rw (has, lacks)

-- A call of a method by its name, with what it is given; a TypeError; or no call.
pub data Call (R : Type 0) : Type 0 where
  calls : Text → R → Call R
  call_type_error no_call : Call R

call_attribute : {R : Type 0} → Attribute → R → Call R
call_attribute (coroutine f) r = calls f r
call_attribute value r = call_type_error

-- `send`, with the encoder.
unfoldable pub send : {M R : Type 0} → (M → R) → M → EncoderChannel → Call R
unfolding call_attribute
send encoder m ch = call_attribute ch.writer (encoder m)

call_closer : Option Attribute → Call (Unit {0})
unfolding call_attribute
call_closer none = no_call
call_closer (some a) = call_attribute a tt

-- `aclose`; an attribute that is there counts as true.
unfoldable pub aclose : EncoderChannel → Call (Unit {0})
unfolding call_closer
aclose ch = call_closer ch.closer
