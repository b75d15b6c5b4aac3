-- ===== src/Rpc/Serving.antt =====
-- What keeps the context of `serve_rpc_requests` (src/flockwave/channels/rpc.py) open.
use flockwave_conn.Common.{
  ℕ, Bool, ◌≡◌, refl, ap, true, false, not, List, [], ◌∷◌, ◌++◌, ◌||◌, ◌⊎◌, inl, inr, All,
  if◌then◌else◌,
}
use flockwave_conn.Rpc.Serve.{replies, no_reply, handler_raises}
use flockwave_conn.Rpc.Context.{
  Context, Inbound, Outbound, Move, arrives, channel_ends, channel_fails, turns_inbound, sent,
  send_fails, turns_outbound, asks, gives_up, body_leaves, body_raises, turns_body, reads, offers,
  broken, inbound_over, inbound_loop, call_number, waits_in, receives, sends, ends, outbound_over,
  new_context, perform, perform_all, is_over, arrive, handle_request, send_reply, offer,
  inbound_turn, finish_send, receive_next, outbound_turn, ask, Sender,
}

-- A move that neither ends nor fails the channel, and raises nothing; the body may end.
pub data IsQuiet : Move → Type 0 where
  quiet_reply : {t : List ℕ} {o : Bool} → IsQuiet (arrives (replies t) o)
  quiet_request : {o : Bool} → IsQuiet (arrives no_reply o)
  quiet_inbound : IsQuiet turns_inbound
  quiet_sent : IsQuiet sent
  quiet_outbound : IsQuiet turns_outbound
  quiet_call : {k : ℕ} → IsQuiet (asks k)
  quiet_cancel : {k : ℕ} → IsQuiet (gives_up k)
  quiet_leave : IsQuiet body_leaves
  quiet_body : IsQuiet turns_body

-- Both loops are at work, nothing is closed or cancelled, and no call was refused.
pub record IsServing (c : Context) : Type 0 where
  pub inbound : (c.inbound ≡ reads) ⊎ (c.inbound ≡ offers)
  pub outbound : (c.outbound ≡ receives) ⊎ (c.outbound ≡ sends)
  pub tx : c.tx_open ≡ true
  pub rx : c.rx_open ≡ true
  pub scope : c.scope_cancelled ≡ false
  pub nursery : c.nursery_cancelled ≡ false
  pub refused : c.refused ≡ []

serving-ne-over : (c : Context) → (c.inbound ≡ reads) ⊎ (c.inbound ≡ offers) → is_over c ≡ false
serving-ne-over c (inl e) = rw e
serving-ne-over c (inr e) = rw e

pub either : (P : Context → Type 0) (b : Bool) {x y : Context} → P x → P y → P (if b then x else y)
either P true px py = px
either P false px py = py

pub on_true :
    (P : Context → Type 0) (x y : Context) (b : Bool) → b ≡ true → P x → P (if b then x else y)
on_true P x y true e px = px
on_true P x y false e px = absurd cc

pub on_false :
    (P : Context → Type 0) (x y : Context) (b : Bool) → b ≡ false → P y → P (if b then x else y)
on_false P x y true e py = absurd cc
on_false P x y false e py = py

-- The same tasks and flags, with other sends that wait.
serves_on : (c : Context) (l : List Sender) → IsServing c → IsServing (record c { offered = l })
serves_on c l h = record {
  inbound = h.inbound;
  outbound = h.outbound;
  tx = h.tx;
  rx = h.rx;
  scope = h.scope;
  nursery = h.nursery;
  refused = h.refused;
}

serves_without_body : (c : Context) → IsServing c → IsServing (record c { body_over = true })
serves_without_body c h = record {
  inbound = h.inbound;
  outbound = h.outbound;
  tx = h.tx;
  rx = h.rx;
  scope = h.scope;
  nursery = h.nursery;
  refused = h.refused;
}

-- The same queue, with the loops at other places.
serves_at :
    (c : Context) (i : Inbound) (o : Outbound)
    → (i ≡ reads) ⊎ (i ≡ offers)
    → (o ≡ receives) ⊎ (o ≡ sends)
    → IsServing c
    → IsServing (record c { inbound = i; outbound = o })
serves_at c i o at_i at_o h = record {
  inbound = at_i;
  outbound = at_o;
  tx = h.tx;
  rx = h.rx;
  scope = h.scope;
  nursery = h.nursery;
  refused = h.refused;
}

reply-IsServing :
    (o : Outbound) (c : Context)
    → (o ≡ receives) ⊎ (o ≡ sends)
    → IsServing c
    → IsServing (record (offer o inbound_loop c) { inbound = waits_in o })
unfolding offer
reply-IsServing receives c at_o h = serves_at c reads sends (inl refl) (inr refl) h
reply-IsServing sends c at_o h =
    serves_at (record c { offered = c.offered ++ inbound_loop ∷ [] }) offers c.outbound (inr refl)
      h.outbound (serves_on c _ h)
reply-IsServing ends c (inl e) h = absurd cc
reply-IsServing ends c (inr e) h = absurd cc
reply-IsServing outbound_over c (inl e) h = absurd cc
reply-IsServing outbound_over c (inr e) h = absurd cc

offer-IsServing :
    (o : Outbound) (sender : Sender) (c : Context) → IsServing c → IsServing (offer o sender c)
unfolding offer
offer-IsServing receives sender c h = serves_at c c.inbound sends h.inbound (inr refl) h
offer-IsServing sends sender c h = serves_on c _ h
offer-IsServing ends sender c h = serves_on c _ h
offer-IsServing outbound_over sender c h = serves_on c _ h

send_reply-IsServing : (c : Context) → IsServing c → IsServing (send_reply c)
unfolding send_reply
send_reply-IsServing c h =
    on_false IsServing _ _ c.nursery_cancelled h.nursery
      (on_true IsServing _ _ c.rx_open h.rx (reply-IsServing c.outbound c h.outbound h))

reply_arrives-IsServing :
    (i : Inbound) (t : List ℕ) (o : Bool) (c : Context)
    → IsServing c
    → IsServing (arrive i (replies t) o c)
unfolding arrive handle_request
reply_arrives-IsServing reads t o c h = either IsServing o h (send_reply-IsServing c h)
reply_arrives-IsServing offers t o c h = h
reply_arrives-IsServing broken t o c h = h
reply_arrives-IsServing inbound_over t o c h = h

request_arrives-IsServing :
    (i : Inbound) (o : Bool) (c : Context) → IsServing c → IsServing (arrive i no_reply o c)
unfolding arrive handle_request
request_arrives-IsServing reads o c h = h
request_arrives-IsServing offers o c h = h
request_arrives-IsServing broken o c h = h
request_arrives-IsServing inbound_over o c h = h

inbound_turn-IsServing :
    (i : Inbound) (c : Context)
    → (i ≡ reads) ⊎ (i ≡ offers)
    → IsServing c
    → IsServing (inbound_turn i c)
unfolding inbound_turn
inbound_turn-IsServing reads c at_i h = on_false IsServing _ _ c.nursery_cancelled h.nursery h
inbound_turn-IsServing offers c at_i h = on_false IsServing _ _ c.nursery_cancelled h.nursery h
inbound_turn-IsServing broken c (inl e) h = absurd cc
inbound_turn-IsServing broken c (inr e) h = absurd cc
inbound_turn-IsServing inbound_over c at_i h = h

receive_next-IsServing :
    (l : List Sender) (c : Context) → IsServing c → IsServing (receive_next l c)
unfolding receive_next
receive_next-IsServing [] c h =
    on_true IsServing _ _ c.tx_open h.tx (serves_at c c.inbound receives h.inbound (inl refl) h)
receive_next-IsServing (inbound_loop ∷ l) c h =
    serves_at (record c { offered = l }) reads c.outbound (inl refl) h.outbound (serves_on c l h)
receive_next-IsServing (call_number k ∷ l) c h = serves_on c l h

finish_send-IsServing : (o : Outbound) (c : Context) → IsServing c → IsServing (finish_send o c)
unfolding finish_send
finish_send-IsServing receives c h = h
finish_send-IsServing sends c h =
    on_false IsServing _ _ c.nursery_cancelled h.nursery (receive_next-IsServing c.offered c h)
finish_send-IsServing ends c h = h
finish_send-IsServing outbound_over c h = h

outbound_turn-IsServing :
    (o : Outbound) (c : Context)
    → (o ≡ receives) ⊎ (o ≡ sends)
    → IsServing c
    → IsServing (outbound_turn o c)
unfolding outbound_turn
outbound_turn-IsServing receives c at_o h = on_false IsServing _ _ c.nursery_cancelled h.nursery h
outbound_turn-IsServing sends c at_o h = on_false IsServing _ _ c.nursery_cancelled h.nursery h
outbound_turn-IsServing ends c (inl e) h = absurd cc
outbound_turn-IsServing ends c (inr e) h = absurd cc
outbound_turn-IsServing outbound_over c at_o h = h

perform-IsServing : (m : Move) (c : Context) → IsQuiet m → IsServing c → IsServing (perform m c)
unfolding perform ask
perform-IsServing (arrives (replies t) o) c quiet_reply h =
    reply_arrives-IsServing c.inbound t o c h
perform-IsServing (arrives no_reply o) c quiet_request h = request_arrives-IsServing c.inbound o c h
perform-IsServing (arrives handler_raises o) c q h = elim q [ ]
perform-IsServing channel_ends c q h = elim q [ ]
perform-IsServing channel_fails c q h = elim q [ ]
perform-IsServing send_fails c q h = elim q [ ]
perform-IsServing body_raises c q h = elim q [ ]
perform-IsServing turns_inbound c quiet_inbound h = inbound_turn-IsServing c.inbound c h.inbound h
perform-IsServing sent c quiet_sent h = finish_send-IsServing c.outbound c h
perform-IsServing turns_outbound c quiet_outbound h =
    outbound_turn-IsServing c.outbound c h.outbound h
perform-IsServing (asks k) c quiet_call h = on_false IsServing _ _ (not c.tx_open) (ap not h.tx) (
    on_false IsServing _ _ (not c.rx_open) (ap not h.rx)
      (offer-IsServing c.outbound (call_number k) c h))
perform-IsServing (gives_up k) c quiet_cancel h = serves_on c _ h
perform-IsServing body_leaves c quiet_leave h = serves_without_body c h
perform-IsServing turns_body c quiet_body h =
    on_false IsServing _ _ (c.scope_cancelled || c.nursery_cancelled) (rw (h.scope, h.nursery)) h

perform_all-IsServing :
    (ms : List Move) (c : Context) → All IsQuiet ms → IsServing c → IsServing (perform_all ms c)
unfolding perform_all
perform_all-IsServing [] c q h = h
perform_all-IsServing (m ∷ ms) c q h =
    perform_all-IsServing ms (perform m c) q.1 (perform-IsServing m c q.0 h)

-- As long as the channel neither ends nor raises, and neither the handler, a send on the channel nor the
-- body raises, both loops stay at work, whether the body has ended or not: nothing is closed or
-- cancelled, no call of `send_request` is refused, and the context does not end.
pub quiet_context_serves :
    (ms : List Move)
    → All IsQuiet ms
    → let c = perform_all ms new_context in IsServing c × (is_over c ≡ false)
quiet_context_serves ms q =
    let h = perform_all-IsServing ms new_context q (record {
      inbound = inl refl;
      outbound = inl refl;
      tx = refl;
      rx = refl;
      scope = refl;
      nursery = refl;
      refused = refl;
    }) in
    (h, serving-ne-over (perform_all ms new_context) h.inbound)
