-- ===== src/Channels/Parser.antt =====
-- ParserChannel of src/flockwave/channels/parser.py. The parser is an object with a state of type
-- `S`, or a function if the state is trivial; the reader is the list of what its next calls return
-- or raise. A call of the reader past that list does not return.
use flockwave_conn.Common.{
  ◌≡◌, refl, Bool, List, [], ◌∷◌, ◌++◌, if◌then◌else◌, Bool-cases, inl, inr,
}

-- One call of the reader: the data that it returns, or the exception that it raises.
pub data Reading (R : Type 0) : Type 0 where
  data_read : R → Reading R
  reader_raises : Reading R

pub data Outcome (M : Type 0) : Type 0 where
  message : M → Outcome M
  -- EndOfChannel; the reader's exception; the parser's; the reader does not return
  end_of_channel read_error parse_error blocked : Outcome M

-- One call of the parser: the messages that it gives, the state that it leaves, and whether it raises
-- behind them.
pub record Parsed (M S : Type 0) : Type 0 where
  pub messages : List M
  pub state : S
  pub raises : Bool

-- What the raw data and the parser are: the test `not data`, and one call of the parser.
pub record Protocol : Type 1 where
  pub Raw : Type 0
  pub Message : Type 0
  pub State : Type 0
  pub is_empty : Raw → Bool
  pub feed : State → Raw → Parsed Message State

module _ (protocol : Protocol) where
  open protocol use {Raw, Message, State, is_empty, feed}

  pub record ParserChannel : Type 0 where
    pub pending : List Message
    pub parser : State
    pub readings : List (Reading Raw)

  -- `popleft` once a message is pending, and what the loop does while there is none: `_read` adds the
  -- messages of one reading, those before an exception of the parser included.
  receive_from : List Message → State → List (Reading Raw) → Outcome Message × ParserChannel
  receive_from (m ∷ ms) p rs = (message m, record { pending = ms; parser = p; readings = rs })
  receive_from [] p [] = (blocked, record { pending = []; parser = p; readings = [] })
  receive_from [] p (reader_raises ∷ rs) =
      (read_error, record { pending = []; parser = p; readings = rs })
  receive_from [] p (data_read d ∷ rs) =
      let fed = feed p d in
      let more = receive_from fed.messages fed.state rs in
      if is_empty d
      then (end_of_channel, record { pending = []; parser = p; readings = rs })
      else if fed.raises
      then (parse_error, record { pending = fed.messages; parser = fed.state; readings = rs })
      else more

  unfoldable pub receive : ParserChannel → Outcome Message × ParserChannel
  unfolding receive_from
  receive ch = receive_from ch.pending ch.parser ch.readings

  -- The messages that the readings hold for the parser, up to the end of the data or an exception.
  abbrev pub decoded : State → List (Reading Raw) → List Message
  decoded p [] = []
  decoded p (reader_raises ∷ rs) = []
  decoded p (data_read d ∷ rs) =
      let rest = decoded (feed p d).state rs in
      if is_empty d then [] else if (feed p d).raises then [] else (feed p d).messages ++ rest

  -- How the readings end for the parser, and the channel that is left then.
  abbrev pub ending : State → List (Reading Raw) → Outcome Message × ParserChannel
  ending p [] = (blocked, record { pending = []; parser = p; readings = [] })
  ending p (reader_raises ∷ rs) = (read_error, record { pending = []; parser = p; readings = rs })
  ending p (data_read d ∷ rs) =
      let rest = ending (feed p d).state rs in
      if is_empty d
      then (end_of_channel, record { pending = []; parser = p; readings = rs })
      else if (feed p d).raises
      then (
        parse_error,
        record { pending = (feed p d).messages; parser = (feed p d).state; readings = rs },
      )
      else rest

  -- Everything that the channel is still to deliver.
  abbrev pub to_come : ParserChannel → List Message
  to_come ch = ch.pending ++ decoded ch.parser ch.readings

  -- One `receive`, against what is to come and how it ends.
  abbrev pub Takes :
      List Message → Outcome Message × ParserChannel → Outcome Message × ParserChannel → Type 0
  Takes [] end result = result ≡ end
  Takes (m ∷ ms) end (r, ch') =
      (r ≡ message m) × (to_come ch' ≡ ms) × (ending ch'.parser ch'.readings ≡ end)

  receive_from-Takes :
      (ms : List Message) (p : State) (rs : List (Reading Raw))
      → Takes (ms ++ decoded p rs) (ending p rs) (receive_from ms p rs)
  unfolding receive_from
  receive_from-Takes (m ∷ ms) p rs = (refl, refl, refl)
  receive_from-Takes [] p [] = refl
  receive_from-Takes [] p (reader_raises ∷ rs) = refl
  receive_from-Takes [] p (data_read d ∷ rs) = elim (Bool-cases (is_empty d)) [
    | inl over ↦ rw over refl
    | inr more ↦ rw more (elim (Bool-cases (feed p d).raises) [
      | inl broken ↦ rw broken refl
      | inr fine ↦ rw fine (receive_from-Takes (feed p d).messages (feed p d).state rs)
    ])
  ]

  -- `receive` delivers the parsed messages one by one: it returns the first of all that are pending
  -- or held by the readings before they end, and leaves exactly the others to come, with the same end.
  -- When there is none, it ends as the readings do, with EndOfChannel at empty data, with the reader's
  -- exception, with the parser's, or not at all; only the messages that the parser gave before its
  -- exception are pending then.
  pub receive-Takes :
      (ch : ParserChannel) → Takes (to_come ch) (ending ch.parser ch.readings) (receive ch)
  unfolding receive
  receive-Takes ch = receive_from-Takes ch.pending ch.parser ch.readings
