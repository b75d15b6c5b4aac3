-- ===== src/Rpc/Replies.antt =====
-- What is sent to the peer: the replies to its requests.
use flockwave_conn.Common.{
  Text, ◌≡◌, refl, ap, ◌∙◌, Bool, true, false, Option, List, [], ◌∷◌, ◌++◌, append_assoc,
  append-nil, arith, if◌then◌else◌,
}
use flockwave_conn.Rpc.Futures.{RequestId, Future, resolved, failed, carried, FutureMap}
use flockwave_conn.Rpc.Serve.{
  Message, request, error_response, response, response_with_error, unknown, Warning, unknown_type,
  Handled, replies, no_reply, handler_raises, Rpc, Outgoing, reply, error_of, settle_with, reply_to,
  go_on, handle_messages, duplicate, stale, duplicate_error, stale_error,
}

module _ (V : Type 0) (futures : FutureMap V) (handler : Text → Handled) where
  abbrev pub reply_of : Handled → Bool → List Outgoing
  reply_of (replies t) false = reply t ∷ []
  reply_of _ _ = []

  abbrev pub stops : Handled → Bool
  stops handler_raises = true
  stops _ = false

  -- The replies to the requests among the messages, in their order, and whether a request is among them
  -- on which the handler raises: it is the last that counts.
  abbrev pub replies_to : List (Message V) → List Outgoing
  replies_to [] = []
  replies_to (request t one_way ∷ ms) =
      let rest = replies_to ms in
      if stops (handler t) then [] else reply_of (handler t) one_way ++ rest
  replies_to (_ ∷ ms) = replies_to ms

  abbrev pub raises_on : List (Message V) → Bool
  raises_on [] = false
  raises_on (request t one_way ∷ ms) =
      let rest = raises_on ms in if stops (handler t) then true else rest
  raises_on (_ ∷ ms) = raises_on ms

  outbound-settle_with :
      (o : Option (Future V)) (id : RequestId) (f : Future V) (dup old : Warning)
      (s : Rpc V futures)
      → (settle_with V futures o id f dup old s).outbound ≡ s.outbound
  unfolding settle_with
  outbound-settle_with o id f dup old s = ground arith

  -- One request and what follows it.
  request_then :
      (h : Handled) (one_way : Bool) (ms : List (Message V)) (s : Rpc V futures)
      → ((s' : Rpc V futures)
          → ((handle_messages V futures handler ms s').1.outbound ≡ s'.outbound ++ replies_to ms)
            × ((handle_messages V futures handler ms s').0 ≡ raises_on ms))
      → let r = reply_to V futures h one_way s in
        let whole = go_on V futures handler r (handle_messages V futures handler ms r.1) in
        (whole.1.outbound
          ≡ s.outbound ++ (if stops h then [] else reply_of h one_way ++ replies_to ms))
        × (whole.0 ≡ (if stops h then true else raises_on ms))
  unfolding reply_to go_on
  request_then handler_raises one_way ms s ih = (rw append-nil, refl)
  request_then no_reply one_way ms s ih = ih s
  request_then (replies t) true ms s ih = ih s
  request_then (replies t) false ms s ih =
      let (sent, ended) = ih (record s { outbound = s.outbound ++ reply t ∷ [] }) in
      (sent ∙ append_assoc s.outbound (reply t ∷ []) (replies_to ms), ended)

  -- One response and what follows it.
  response_then :
      (o : Option (Future V)) (id : RequestId) (f : Future V) (dup old : Warning)
      (ms : List (Message V)) (s : Rpc V futures)
      → ((s' : Rpc V futures)
          → ((handle_messages V futures handler ms s').1.outbound ≡ s'.outbound ++ replies_to ms)
            × ((handle_messages V futures handler ms s').0 ≡ raises_on ms))
      → let s' = settle_with V futures o id f dup old s in
        ((handle_messages V futures handler ms s').1.outbound ≡ s.outbound ++ replies_to ms)
        × ((handle_messages V futures handler ms s').0 ≡ raises_on ms)
  response_then o id f dup old ms s ih =
      let (sent, ended) = ih (settle_with V futures o id f dup old s) in
      (sent ∙ ap (λ l. l ++ replies_to ms) (outbound-settle_with o id f dup old s), ended)

  -- Whatever the peer sends, exactly the replies of the handler to its requests are queued, up to the
  -- first request on which the handler raises, in their order and behind what was queued before, without
  -- those to one-way requests. The serving ends with an exception exactly if there is such a request.
  pub handle_messages-replies :
      (ms : List (Message V)) (s : Rpc V futures)
      → ((handle_messages V futures handler ms s).1.outbound ≡ s.outbound ++ replies_to ms)
        × ((handle_messages V futures handler ms s).0 ≡ raises_on ms)
  unfolding handle_messages go_on
  handle_messages-replies [] s = (rw append-nil, refl)
  handle_messages-replies (request t one_way ∷ ms) s =
      request_then (handler t) one_way ms s (handle_messages-replies ms)
  handle_messages-replies (error_response id e ∷ ms) s =
      response_then (futures.get id s.pending) id (failed (error_of e)) (duplicate_error id)
        (stale_error id) ms s (handle_messages-replies ms)
  handle_messages-replies (response id v ∷ ms) s =
      response_then (futures.get id s.pending) id (resolved v) (duplicate id) (stale id) ms s
        (handle_messages-replies ms)
  handle_messages-replies (response_with_error id e ∷ ms) s =
      response_then (futures.get id s.pending) id (failed (carried e)) (duplicate id) (stale id) ms
        s (handle_messages-replies ms)
  handle_messages-replies (unknown ∷ ms) s =
      handle_messages-replies ms (record s { warnings = s.warnings ++ unknown_type ∷ [] })
