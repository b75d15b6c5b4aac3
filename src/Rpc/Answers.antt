-- ===== src/Rpc/Answers.antt =====
-- Which answer a waiting request gets.
use flockwave_conn.Common.{
  Text, ◌≡◌, refl, sym, ap, ◌∙◌, Bool, true, false, some, List, [], ◌∷◌, ◌++◌, arith, if◌then◌else◌,
  Option-cases, inl, inr,
}
use mathlib.Core.Option.{some-injective}
use flockwave_conn.Rpc.Futures.{
  RequestId, text_id, id_eq, id_eq_iff, carried, Future, waiting, resolved, failed, FutureMap,
}
use flockwave_conn.Rpc.Serve.{
  Message, request, error_response, response, response_with_error, unknown, Warning, unknown_type,
  Handled, replies, no_reply, handler_raises, Rpc, error_of, settle_with, reply_to, go_on,
  handle_messages, begin_request, wait_response, outcome, leave, Returned, reply, stale, duplicate,
  stale_error, duplicate_error,
}

module _ (V : Type 0) (futures : FutureMap V) where
  open futures use {Map, get, settle, get-new, get-settle}

  -- What an answer makes of a future: only the first one counts.
  abbrev pub settled_by : Future V → Future V → Future V
  settled_by waiting f = f
  settled_by (resolved v) f = resolved v
  settled_by (failed e) f = failed e

  abbrev pub goes_on : Handled → Bool
  goes_on handler_raises = false
  goes_on _ = true

  settled_by-waiting : (g : Future V) → settled_by g waiting ≡ g
  settled_by-waiting g = ground arith

  -- Two answers, of which the first is one.
  settled_merge :
      (b : Bool) (g f r : Future V)
      → settled_by f r ≡ f
      → settled_by (if b then settled_by g f else g) r ≡ settled_by g (if b then f else r)
  settled_merge b g f r answer = ground arith

  same_future :
      (k id : RequestId) (g h : Future V) (m : Map)
      → get k m ≡ some g
      → get id m ≡ some h
      → id_eq id k ≡ true
      → h ≡ g
  same_future k id g h m at there same =
      let e : id ≡ k = (id_eq_iff id k).0 same in
      some-injective h g (sym there ∙ ap (λ j. get j m) e ∙ at)

  settle_with-get :
      (k id : RequestId) (f g : Future V) (dup old : Warning) (s : Rpc V futures)
      → get k s.pending ≡ some g
      → get k (settle_with V futures (get id s.pending) id f dup old s).pending
        ≡ some (if id_eq id k then settled_by g f else g)
  unfolding settle_with
  settle_with-get k id f g dup old s at = elim (Option-cases (get id s.pending)) [
    | inl missing ↦
        let other : id_eq id k ≡ false = ground (arith, id_eq_iff id k) in rw (missing, other) at
    | inr (h, there) ↦ rw there (
        ground
          (arith, same_future k id g h s.pending at there, get-settle k id f h s.pending there))
  ]

  module _ (handler : Text → Handled) where
    -- The first answer to a request among the messages; a request on which the handler raises is the
    -- last message that counts.
    abbrev pub first_answer : RequestId → List (Message V) → Future V
    first_answer k [] = waiting
    first_answer k (request t one_way ∷ ms) =
        let rest = first_answer k ms in if goes_on (handler t) then rest else waiting
    first_answer k (error_response id e ∷ ms) =
        let rest = first_answer k ms in if id_eq id k then failed (error_of e) else rest
    first_answer k (response id v ∷ ms) =
        let rest = first_answer k ms in if id_eq id k then resolved v else rest
    first_answer k (response_with_error id e ∷ ms) =
        let rest = first_answer k ms in if id_eq id k then failed (carried e) else rest
    first_answer k (unknown ∷ ms) = first_answer k ms

    handle_request-get :
        (h : Handled) (one_way : Bool) (ms : List (Message V)) (k : RequestId) (g : Future V)
        (s : Rpc V futures)
        → get k s.pending ≡ some g
        → ((s' : Rpc V futures)
            → get k s'.pending ≡ some g
            → get k (handle_messages V futures handler ms s').1.pending
              ≡ some (settled_by g (first_answer k ms)))
        → let r = reply_to V futures h one_way s in
          get k (go_on V futures handler r (handle_messages V futures handler ms r.1)).1.pending
          ≡ some (settled_by g (if goes_on h then first_answer k ms else waiting))
    unfolding reply_to go_on
    handle_request-get handler_raises one_way ms k g s at ih =
        at ∙ ap some (sym (settled_by-waiting g))
    handle_request-get no_reply one_way ms k g s at ih = ih s at
    handle_request-get (replies t) true ms k g s at ih = ih s at
    handle_request-get (replies t) false ms k g s at ih =
        ih (record s { outbound = s.outbound ++ reply t ∷ [] }) at

    -- A future that is there, whatever it holds, holds after the messages what the first answer makes
    -- of it.
    handle_messages-get :
        (ms : List (Message V)) (k : RequestId) (g : Future V) (s : Rpc V futures)
        → get k s.pending ≡ some g
        → get k (handle_messages V futures handler ms s).1.pending
          ≡ some (settled_by g (first_answer k ms))
    unfolding handle_messages go_on
    handle_messages-get [] k g s at = at ∙ ap some (sym (settled_by-waiting g))
    handle_messages-get (request t one_way ∷ ms) k g s at =
        handle_request-get (handler t) one_way ms k g s at (handle_messages-get ms k g)
    handle_messages-get (error_response id e ∷ ms) k g s at =
        handle_messages-get ms k _ _
          (settle_with-get k id (failed (error_of e)) g (duplicate_error id) (stale_error id) s at)
        ∙ ap some (settled_merge (id_eq id k) g (failed (error_of e)) (first_answer k ms) refl)
    handle_messages-get (response id v ∷ ms) k g s at =
        handle_messages-get ms k _ _
          (settle_with-get k id (resolved v) g (duplicate id) (stale id) s at)
        ∙ ap some (settled_merge (id_eq id k) g (resolved v) (first_answer k ms) refl)
    handle_messages-get (response_with_error id e ∷ ms) k g s at =
        handle_messages-get ms k _ _
          (settle_with-get k id (failed (carried e)) g (duplicate id) (stale id) s at)
        ∙ ap some (settled_merge (id_eq id k) g (failed (carried e)) (first_answer k ms) refl)
    handle_messages-get (unknown ∷ ms) k g s at =
        handle_messages-get ms k g (record s { warnings = s.warnings ++ unknown_type ∷ [] }) at

  module _ (handler : Text → Handled) (str : RequestId → Text) where
    returned-leave :
        (key : RequestId) (r : Returned V) (s : Rpc V futures) → (leave V futures str key r s).0 ≡ r
    unfolding leave
    returned-leave key r s = ground arith

    -- A request that is sent and needs a response has, after any messages of the peer, exactly the
    -- first answer among them that bears its identifier as a text, of the messages before the first
    -- request on which the handler raises, or of all if there is none: `send_request` returns the value
    -- or raises the error of that answer, however many follow. While there is none it waits, and raises
    -- TooSlowError when the time is up.
    pub wait_response-first_answer :
        (method : Text) (id : RequestId) (ms : List (Message V)) (timed_out : Bool)
        (s : Rpc V futures)
        → let s' =
            (handle_messages V futures handler ms
              (begin_request V futures str method (some id) false s)).1 in
          (wait_response V futures str id timed_out s').0
          ≡ outcome V futures str timed_out (some (first_answer handler (text_id (str id)) ms))
    unfolding wait_response begin_request
    wait_response-first_answer method id ms timed_out s =
        let key : RequestId = text_id (str id) in
        let begun = begin_request V futures str method (some id) false s in
        let there : get key begun.pending ≡ some waiting =
          get-new key key s.pending ∙ rw ((id_eq_iff key key).1 refl) in
        returned-leave key _ (handle_messages V futures handler ms begun).1
        ∙ ap (outcome V futures str timed_out)
            (handle_messages-get handler ms key waiting begun there)
