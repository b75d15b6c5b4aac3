-- ===== src/Rpc/Context.antt =====
-- The tasks of `serve_rpc_requests` of src/flockwave/channels/rpc.py: the loops `handle_inbound_messages`
-- and `handle_outbound_messages`, the body of the context, its cancel scope, and the queue between those
-- that send and the outbound loop. The queue has no room: a send waits for the loop, unless that waits
-- already. Moves are the events between two checkpoints; a move that cannot happen changes nothing. A loop
-- closes its half of the queue and ends in one move.
--
-- Of the messages that come in, the requests are moves, by what the handler makes of them; the others are
-- handled without a wait, by Serve. The calls of `send_request` are numbered and may be made by any task.
use flockwave_conn.Common.{
  ℕ, Bool, true, false, not, ◌&&◌, ◌||◌, List, [], ◌∷◌, ◌++◌, ◌==◌, if◌then◌else◌,
}
use flockwave_conn.Rpc.Serve.{Handled, replies, no_reply, handler_raises}

-- The inbound loop reads from the channel, waits in the queue, was woken by an error of the queue, or is
-- over.
pub data Inbound : Type 0 where
  reads offers broken inbound_over : Inbound

-- The outbound loop waits for the queue, sends on the channel, was woken by the end of the queue, or is
-- over.
pub data Outbound : Type 0 where
  receives sends ends outbound_over : Outbound

pub data Sender : Type 0 where
  inbound_loop : Sender
  call_number : ℕ → Sender

-- ClosedResourceError and BrokenResourceError
pub data Refusal : Type 0 where
  closed_resource broken_resource : Refusal

pub record Context : Type 0 where
  pub inbound : Inbound
  pub outbound : Outbound
  pub body_over : Bool
  -- the two halves of the queue, and the sends that wait
  pub tx_open : Bool
  pub rx_open : Bool
  pub offered : List Sender
  pub refused : List (ℕ × Refusal)
  -- `cancel_scope`, the nursery, and whether an exception leaves the nursery
  pub scope_cancelled : Bool
  pub nursery_cancelled : Bool
  pub error : Bool

abbrev pub new_context : Context
new_context = record {
  inbound = reads;
  outbound = receives;
  body_over = false;
  tx_open = true;
  rx_open = true;
  offered = [];
  refused = [];
  scope_cancelled = false;
  nursery_cancelled = false;
  error = false;
}

unfoldable pub refuse_all : Refusal → List Sender → List (ℕ × Refusal)
refuse_all r [] = []
refuse_all r (inbound_loop ∷ l) = refuse_all r l
refuse_all r (call_number k ∷ l) = (k, r) ∷ refuse_all r l

abbrev pub wake_outbound : Outbound → Outbound
wake_outbound receives = ends
wake_outbound o = o

-- The end of `async with out_queue_tx`: the sends that wait raise, and a receive that waits ends.
unfoldable pub close_tx : Context → Context
unfolding refuse_all
close_tx c = record c {
  tx_open = false;
  offered = [];
  refused = c.refused ++ refuse_all closed_resource c.offered;
  outbound = wake_outbound c.outbound;
}

abbrev pub wake_inbound : Inbound → Inbound
wake_inbound offers = broken
wake_inbound i = i

-- The end of `async with out_queue_rx`.
unfoldable pub close_rx : Context → Context
unfolding refuse_all
close_rx c = record c {
  rx_open = false;
  offered = [];
  refused = c.refused ++ refuse_all broken_resource c.offered;
  inbound = wake_inbound c.inbound;
}

unfoldable pub end_inbound : Context → Context
unfolding close_tx
end_inbound c = record (close_tx c) { inbound = inbound_over }

unfoldable pub end_outbound : Context → Context
unfolding close_rx
end_outbound c = record (close_rx c) { outbound = outbound_over }

-- An exception of a child or of the body cancels the nursery.
abbrev pub fail : Context → Context
fail c = record c { nursery_cancelled = true; error = true }

-- `out_queue_tx.send` on an open queue: the outbound loop takes the message, or the send waits.
unfoldable pub offer : Outbound → Sender → Context → Context
offer receives sender c = record c { outbound = sends }
offer _ sender c = record c { offered = c.offered ++ sender ∷ [] }

abbrev pub waits_in : Outbound → Inbound
waits_in receives = reads
waits_in _ = offers

-- The reply of the inbound loop.
unfoldable pub send_reply : Context → Context
unfolding end_inbound offer
send_reply c =
    if c.nursery_cancelled
    then end_inbound c
    else if c.rx_open
    then record (offer c.outbound inbound_loop c) { inbound = waits_in c.outbound }
    else fail (end_inbound c)

-- `handle_single_inbound_message` for a request, by what the handler does and whether it is one-way.
unfoldable pub handle_request : Handled → Bool → Context → Context
unfolding send_reply
handle_request handler_raises one_way c = fail (end_inbound c)
handle_request no_reply one_way c = c
handle_request (replies t) one_way c = if one_way then c else send_reply c

unfoldable pub arrive : Inbound → Handled → Bool → Context → Context
unfolding handle_request
arrive reads h one_way c = handle_request h one_way c
arrive _ h one_way c = c

-- The channel has no more messages: the queue is closed and the body cancelled.
unfoldable pub end_channel : Inbound → Context → Context
unfolding end_inbound
end_channel reads c = record (end_inbound c) { scope_cancelled = true }
end_channel _ c = c

unfoldable pub fail_channel : Inbound → Context → Context
unfolding end_inbound
fail_channel reads c = fail (end_inbound c)
fail_channel _ c = c

unfoldable pub inbound_turn : Inbound → Context → Context
unfolding end_inbound
inbound_turn broken c = fail (end_inbound c)
inbound_turn inbound_over c = c
inbound_turn _ c = if c.nursery_cancelled then end_inbound c else c

abbrev pub take_from : Sender → Inbound → Inbound
take_from inbound_loop i = reads
take_from (call_number k) i = i

-- `out_queue_rx.receive`, once a message is sent.
unfoldable pub receive_next : List Sender → Context → Context
unfolding end_outbound
receive_next (sender ∷ rest) c = record c { offered = rest; inbound = take_from sender c.inbound }
receive_next [] c = if c.tx_open then record c { outbound = receives } else end_outbound c

unfoldable pub finish_send : Outbound → Context → Context
unfolding end_outbound receive_next
finish_send sends c = if c.nursery_cancelled then end_outbound c else receive_next c.offered c
finish_send _ c = c

unfoldable pub fail_send : Outbound → Context → Context
unfolding end_outbound
fail_send sends c = fail (end_outbound c)
fail_send _ c = c

unfoldable pub outbound_turn : Outbound → Context → Context
unfolding end_outbound
outbound_turn ends c = end_outbound c
outbound_turn outbound_over c = c
outbound_turn _ c = if c.nursery_cancelled then end_outbound c else c

abbrev pub refuse : ℕ → Refusal → Context → Context
refuse k r c = record c { refused = c.refused ++ (k, r) ∷ [] }

-- `await out_queue_tx.send(request)` of `send_request`
unfoldable pub ask : ℕ → Context → Context
unfolding offer
ask k c =
    if not c.tx_open
    then refuse k closed_resource c
    else if not c.rx_open
    then refuse k broken_resource c
    else offer c.outbound (call_number k) c

unfoldable pub forget_call : ℕ → List Sender → List Sender
forget_call k [] = []
forget_call k (inbound_loop ∷ l) = inbound_loop ∷ forget_call k l
forget_call k (call_number j ∷ l) =
    let rest = forget_call k l in if j == k then rest else call_number j ∷ rest

pub data Move : Type 0 where
  -- a request arrives; the channel ends, or raises; the inbound loop goes on from a wait
  arrives : Handled → Bool → Move
  channel_ends channel_fails turns_inbound : Move
  -- a send on the channel returns, or raises; the outbound loop goes on from a wait
  sent send_fails turns_outbound : Move
  -- a call of `send_request` sends, or is cancelled while it waits
  asks gives_up : ℕ → Move
  -- the body ends, or raises, or is cancelled if that is due
  body_leaves body_raises turns_body : Move

unfoldable pub perform : Move → Context → Context
unfolding arrive end_channel fail_channel inbound_turn finish_send fail_send outbound_turn ask
perform (arrives h one_way) c = arrive c.inbound h one_way c
perform channel_ends c = end_channel c.inbound c
perform channel_fails c = fail_channel c.inbound c
perform turns_inbound c = inbound_turn c.inbound c
perform sent c = finish_send c.outbound c
perform send_fails c = fail_send c.outbound c
perform turns_outbound c = outbound_turn c.outbound c
perform (asks k) c = ask k c
perform (gives_up k) c = record c { offered = forget_call k c.offered }
perform body_leaves c = record c { body_over = true }
perform body_raises c = if c.body_over then c else fail (record c { body_over = true })
perform turns_body c =
    if c.scope_cancelled || c.nursery_cancelled then record c { body_over = true } else c

unfoldable pub perform_all : List Move → Context → Context
perform_all [] c = c
perform_all (m ∷ ms) c = perform_all ms (perform m c)

abbrev is_inbound_over : Inbound → Bool
is_inbound_over inbound_over = true
is_inbound_over _ = false

abbrev is_outbound_over : Outbound → Bool
is_outbound_over outbound_over = true
is_outbound_over _ = false

-- The nursery ends when its two tasks and the body are over.
abbrev pub is_over : Context → Bool
is_over c = is_inbound_over c.inbound && (is_outbound_over c.outbound && c.body_over)
