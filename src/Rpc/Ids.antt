-- ===== src/Rpc/Ids.antt =====
-- Identifiers that are numbers: src/flockwave/channels/rpc.py keeps the future of a request under the text of
-- its `unique_id`, and looks for the `unique_id` of a response as it is.
use flockwave_conn.Common.{ℤ, Text, ◌≡◌, refl, ◌∙◌, true, false, some, List, [], ◌∷◌, arith, All}
use flockwave_conn.Rpc.Futures.{RequestId, text_id, number_id, id_eq, waiting, FutureMap}
use flockwave_conn.Rpc.Serve.{
  Message, request, error_response, response, response_with_error, unknown, Handled, Rpc, too_slow,
  still_waits, handle_messages, begin_request, wait_response, outcome,
}
use flockwave_conn.Rpc.Answers.{first_answer, wait_response-first_answer}

-- The message does not answer a request whose identifier is a text.
abbrev pub IsNumbered : {V : Type 0} → Message V → Type 0
IsNumbered (error_response (text_id t) e) = ⊥
IsNumbered (response (text_id t) v) = ⊥
IsNumbered (response_with_error (text_id t) e) = ⊥
IsNumbered _ = Unit

module _ (V : Type 0) (futures : FutureMap V) (handler : Text → Handled)
    (str : RequestId → Text) where
  no_answer :
      (t : Text) (ms : List (Message V))
      → All IsNumbered ms
      → first_answer V futures handler (text_id t) ms ≡ waiting
  unfolding id_eq
  no_answer t [] h = refl
  no_answer t (request r one_way ∷ ms) h = ground (arith, no_answer t ms h.1)
  no_answer t (error_response (number_id n) e ∷ ms) h = no_answer t ms h.1
  no_answer t (error_response (text_id u) e ∷ ms) h = absurd h.0
  no_answer t (response (number_id n) v ∷ ms) h = no_answer t ms h.1
  no_answer t (response (text_id u) v ∷ ms) h = absurd h.0
  no_answer t (response_with_error (number_id n) e ∷ ms) h = no_answer t ms h.1
  no_answer t (response_with_error (text_id u) e ∷ ms) h = absurd h.0
  no_answer t (unknown ∷ ms) h = no_answer t ms h.1

  -- A request of which the `unique_id` is a number is not answered by a peer whose answers all bear
  -- identifiers that are numbers: whatever it sends, `send_request` waits until the time is up and then
  -- raises a TooSlowError, also if an answer bears the `unique_id` of the request.
  pub number_is_too_slow :
      (method : Text) (n : ℤ) (ms : List (Message V)) (s : Rpc V futures)
      → All IsNumbered ms
      → let s' =
          (handle_messages V futures handler ms
            (begin_request V futures str method (some (number_id n)) false s)).1 in
        ((wait_response V futures str (number_id n) true s').0 ≡ too_slow)
        × ((wait_response V futures str (number_id n) false s').0 ≡ still_waits)
  unfolding outcome
  number_is_too_slow method n ms s numbered =
      let silent = no_answer (str (number_id n)) ms numbered in
      (
        wait_response-first_answer V futures handler str method (number_id n) ms true s
            ∙ rw silent refl,
        wait_response-first_answer V futures handler str method (number_id n) ms false s
            ∙ rw silent refl,
      )
