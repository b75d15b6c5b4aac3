-- ===== src/Stream/Laws.antt =====
-- What a read from a stream does when there is nothing to read.
use flockwave_conn.Common.{Text, ◌≡◌, ap, ◌∙◌, none, some, [], ◌∷◌, ◌++◌, arith}
use flockwave_conn.Common.Results.{ok, err}
use flockwave_conn.Connection.State.{ConnectionState, disconnected, connected}
use flockwave_conn.Connection.Signals.{state-set_state}
use flockwave_conn.Stream.Base.{Result, Stream, StreamConnection, read, received, close}

-- The state that closing leaves, by what closing the stream gave.
abbrev pub state_after : Result (Unit {0}) → ConnectionState
state_after (err e) = connected
state_after (ok _) = disconnected

close-connected :
    (answer : Result (Unit {0})) (c : StreamConnection) (s : Stream)
    → c.base.state ≡ connected
    → c.stream ≡ some s
    → ((close answer c).0 ≡ answer)
      × ((close answer c).1.stream ≡ none)
      × ((close answer c).1.closed ≡ c.closed ++ s ∷ [])
      × ((close answer c).1.base.state ≡ state_after answer)
unfolding close
close-connected answer c s up has = grind (arith, state-set_state)

-- What is returned or raised by a read that ends the connection.
abbrev pub final : Result Text → Result (Unit {0}) → Result Text
final answer (err e) = err e
final answer (ok _) = answer

abbrev pub IsFinal : Result Text → Type 0
IsFinal (ok (b ∷ t)) = ⊥
IsFinal _ = Unit

received-final :
    (answer : Result Text) (on_close : Result (Unit {0})) (c : StreamConnection)
    → IsFinal answer
    → (close on_close c).0 ≡ on_close
    → ((received answer on_close c).0 ≡ final answer on_close)
      × ((received answer on_close c).1 ≡ (close on_close c).1)
unfolding received
received-final answer on_close c ends closes = ground arith

-- A read of a connected connection at the end of the stream, or that the stream fails, closes the
-- stream and forgets it. If closing the stream succeeds, the connection is disconnected, and the read
-- returns the empty data or raises the error of the stream; if it raises, that error comes in place of
-- both, and the connection is CONNECTED with no stream.
pub read-IsFinal :
    (answer : Result Text) (on_close : Result (Unit {0})) (c : StreamConnection) (s : Stream)
    → IsFinal answer
    → c.base.state ≡ connected
    → c.stream ≡ some s
    → let (r, c') = read answer on_close c in
      (r ≡ final answer on_close)
      × (c'.stream ≡ none)
      × (c'.closed ≡ c.closed ++ s ∷ [])
      × (c'.base.state ≡ state_after on_close)
unfolding read
read-IsFinal answer on_close c s ends up has =
    let (gave, gone, kept, state) = close-connected on_close c s up has in
    let (r, after) = received-final answer on_close c ends gave in
    simp has (
      r,
      ap StreamConnection.stream after ∙ gone,
      ap StreamConnection.closed after ∙ kept,
      ap (λ (d : StreamConnection). d.base.state) after ∙ state,
    )
