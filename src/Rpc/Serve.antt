-- ===== src/Rpc/Serve.antt =====
-- `serve_rpc_requests` of src/flockwave/channels/rpc.py: one inbound message, the loop over them, and
-- `send_request` up to its wait and behind it. The values are of type `V`; the requests of the peer and
-- the replies to them are texts. What the handler does with a request is a parameter. There is a logger.
-- The tasks that run beside the loop and end with it are left out.
use flockwave_conn.Common.{
  ℤ, pos, Text, Bool, true, false, Option, none, some, List, [], ◌∷◌, ◌++◌, if◌then◌else◌,
}
use flockwave_conn.Rpc.Futures.{
  RequestId, text_id, Failure, rpc_error, carried, Future, waiting, resolved, failed, FutureMap,
}

-- The member `error` of an error response: a dictionary with a code and a message, of which either may
-- be missing, or anything else, by its text.
pub data ErrorBody : Type 0 where
  dictionary : Option ℤ → Option Text → ErrorBody
  other_error : Text → ErrorBody

pub data Message (V : Type 0) : Type 0 where
  -- a request, and whether it is one-way
  request : Text → Bool → Message V
  error_response : RequestId → ErrorBody → Message V
  -- a response with a result, and one that has an attribute `error`
  response : RequestId → V → Message V
  response_with_error : RequestId → Text → Message V
  unknown : Message V

pub data Warning : Type 0 where
  duplicate_error stale_error duplicate stale : RequestId → Warning
  unknown_type : Warning

-- What the handler makes of a request: a reply, nothing, or an exception.
pub data Handled : Type 0 where
  replies : Text → Handled
  no_reply handler_raises : Handled

pub data Outgoing : Type 0 where
  reply : Text → Outgoing
  -- a request by its method and arguments, its `unique_id` and whether it is one-way
  call : Text → Option RequestId → Bool → Outgoing

abbrev pub get_or {ℓ} : {A : Type ℓ} → Option A → A → A
get_or none d = d
get_or (some a) d = a

unfoldable pub error_of : ErrorBody → Failure
error_of (dictionary code message) = rpc_error (get_or code (pos 0)) (get_or message [])
error_of (other_error t) = rpc_error (pos 0) t

-- How the wait of `send_request` ends, if it does.
pub data Returned (V : Type 0) : Type 0 where
  returns : V → Returned V
  raises : Failure → Returned V
  too_slow still_waits : Returned V

module _ (V : Type 0) (futures : FutureMap V) where
  open futures use {Map, get, new, settle, drop}

  pub record Rpc : Type 0 where
    pub pending : Map
    pub outbound : List Outgoing
    pub warnings : List Warning

  abbrev pub warn : Warning → Rpc → Rpc
  warn w s = record s { warnings = s.warnings ++ w ∷ [] }

  -- `future = pending_requests.get(request_id)`, and what is done with it.
  unfoldable pub settle_with :
      Option (Future V) → RequestId → Future V → Warning → Warning → Rpc → Rpc
  settle_with none id f dup old s = warn old s
  settle_with (some waiting) id f dup old s = record s { pending = settle id f s.pending }
  settle_with (some (resolved _)) id f dup old s = warn dup s
  settle_with (some (failed _)) id f dup old s = warn dup s

  -- Whether the handler raised, and the state.
  unfoldable pub reply_to : Handled → Bool → Rpc → Bool × Rpc
  reply_to handler_raises one_way s = (true, s)
  reply_to no_reply one_way s = (false, s)
  reply_to (replies t) one_way s =
      (false, if one_way then s else record s { outbound = s.outbound ++ reply t ∷ [] })

  module _ (handler : Text → Handled) where
    -- `handle_single_inbound_message`
    unfoldable pub handle_message : Message V → Rpc → Bool × Rpc
    unfolding settle_with reply_to error_of
    handle_message (request t one_way) s = reply_to (handler t) one_way s
    handle_message (error_response id e) s = (
      false,
      settle_with (get id s.pending) id (failed (error_of e)) (duplicate_error id) (stale_error id)
          s,
    )
    handle_message (response id v) s =
        (false, settle_with (get id s.pending) id (resolved v) (duplicate id) (stale id) s)
    handle_message (response_with_error id e) s =
        (false, settle_with (get id s.pending) id (failed (carried e)) (duplicate id) (stale id) s)
    handle_message unknown s = (false, warn unknown_type s)

    unfoldable pub go_on : Bool × Rpc → Bool × Rpc → Bool × Rpc
    go_on (true, s) rest = (true, s)
    go_on (false, s) rest = rest

    -- `handle_inbound_messages`: an exception of the handler ends the loop.
    unfoldable pub handle_messages : List (Message V) → Rpc → Bool × Rpc
    unfolding go_on handle_message
    handle_messages [] s = (false, s)
    handle_messages (m ∷ ms) s =
        let rest = handle_messages ms (handle_message m s).1 in go_on (handle_message m s) rest

  module _ (str : RequestId → Text) where
    unfoldable pub register : Bool → Option RequestId → Map → Map
    register true id pending = pending
    register false none pending = pending
    register false (some id) pending = new (text_id (str id)) pending

    -- `send_request` up to the wait: the future is there before the request is sent.
    unfoldable pub begin_request : Text → Option RequestId → Bool → Rpc → Rpc
    unfolding register
    begin_request method id one_way s = record s {
      pending = register one_way id s.pending;
      outbound = s.outbound ++ call method id one_way ∷ [];
    }

    unfoldable pub outcome : Bool → Option (Future V) → Returned V
    outcome timed_out (some (resolved v)) = returns v
    outcome timed_out (some (failed e)) = raises e
    outcome timed_out _ = if timed_out then too_slow else still_waits

    unfoldable pub leave : RequestId → Returned V → Rpc → Returned V × Rpc
    leave key still_waits s = (still_waits, s)
    leave key r s = (r, record s { pending = drop key s.pending })

    -- The wait of `send_request`, at a moment at which the time is up or not: what is returned or
    -- raised takes the future away.
    unfoldable pub wait_response : RequestId → Bool → Rpc → Returned V × Rpc
    unfolding outcome leave
    wait_response id timed_out s =
        leave (text_id (str id)) (outcome timed_out (get (text_id (str id)) s.pending)) s
