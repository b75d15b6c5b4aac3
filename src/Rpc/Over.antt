-- ===== src/Rpc/Over.antt =====
-- How the end of the channel ends the context of `serve_rpc_requests` (src/flockwave/channels/rpc.py).
use flockwave_conn.Common.{
  ℕ, Bool, subst, sym, ◌≡◌, refl, ap, ◌≢◌, true, false, List, [], ◌∷◌, ◌||◌, not,
}
use flockwave_conn.Rpc.Context.{
  Context, Inbound, Outbound, Move, arrives, channel_ends, channel_fails, turns_inbound, sent,
  send_fails, turns_outbound, asks, gives_up, body_leaves, body_raises, turns_body, reads,
  inbound_over, receives, sends, ends, outbound_over, closed_resource, perform, perform_all,
  is_over, refuse, arrive, end_channel, fail_channel, inbound_turn, finish_send, receive_next,
  fail_send, outbound_turn, ask, forget_call, end_inbound, end_outbound, close_tx, close_rx,
  wake_inbound, wake_outbound, Refusal, Sender,
}
use flockwave_conn.Rpc.Serving.{either, on_true, on_false}

-- What the end of the channel leaves.
pub record IsEnded (c : Context) : Type 0 where
  pub inbound : c.inbound ≡ inbound_over
  pub outbound : c.outbound ≢ receives
  pub tx : c.tx_open ≡ false
  pub offered : c.offered ≡ []
  pub scope : c.scope_cancelled ≡ true

end_outbound-IsEnded : (c : Context) → IsEnded c → IsEnded (end_outbound c)
unfolding end_outbound close_rx
end_outbound-IsEnded c h = record {
  inbound = ap wake_inbound h.inbound;
  outbound = λ e. cc;
  tx = h.tx;
  offered = refl;
  scope = h.scope;
}

-- Changes that leave the queue and the inbound loop.
stays-IsEnded :
    (c : Context) (b n e : Bool) (r : List (ℕ × Refusal))
    → IsEnded c
    → IsEnded (record c { body_over = b; nursery_cancelled = n; error = e; refused = r })
stays-IsEnded c b n e r h = record {
  inbound = h.inbound;
  outbound = h.outbound;
  tx = h.tx;
  offered = h.offered;
  scope = h.scope;
}

-- No message waits, and the queue is closed: the outbound loop ends.
receive_next-ends :
    (l : List Sender) (c : Context) → l ≡ [] → c.tx_open ≡ false → receive_next l c ≡ end_outbound c
unfolding receive_next
receive_next-ends [] c e tx = on_false (λ d. d ≡ end_outbound c) _ _ c.tx_open tx refl
receive_next-ends (s ∷ l) c e tx = absurd cc

finish_send-IsEnded : (o : Outbound) (c : Context) → IsEnded c → IsEnded (finish_send o c)
unfolding finish_send
finish_send-IsEnded receives c h = h
finish_send-IsEnded sends c h =
    either IsEnded c.nursery_cancelled (end_outbound-IsEnded c h) (
      subst IsEnded (sym (receive_next-ends c.offered c h.offered h.tx)) (end_outbound-IsEnded c h))
finish_send-IsEnded ends c h = h
finish_send-IsEnded outbound_over c h = h

fail_send-IsEnded : (o : Outbound) (c : Context) → IsEnded c → IsEnded (fail_send o c)
unfolding fail_send
fail_send-IsEnded receives c h = h
fail_send-IsEnded sends c h =
    let d = end_outbound c in
    stays-IsEnded d d.body_over true true d.refused (end_outbound-IsEnded c h)
fail_send-IsEnded ends c h = h
fail_send-IsEnded outbound_over c h = h

outbound_turn-IsEnded : (o : Outbound) (c : Context) → IsEnded c → IsEnded (outbound_turn o c)
unfolding outbound_turn
outbound_turn-IsEnded receives c h = either IsEnded c.nursery_cancelled (end_outbound-IsEnded c h) h
outbound_turn-IsEnded sends c h = either IsEnded c.nursery_cancelled (end_outbound-IsEnded c h) h
outbound_turn-IsEnded ends c h = end_outbound-IsEnded c h
outbound_turn-IsEnded outbound_over c h = h

ask-refuses : (k : ℕ) (c : Context) → IsEnded c → ask k c ≡ refuse k closed_resource c
unfolding ask
ask-refuses k c h =
    on_true (λ d. d ≡ refuse k closed_resource c) _ _ (not c.tx_open) (ap not h.tx) refl

-- The moves of the inbound loop change nothing.
idle :
    (P : Context → Type 0) (f : Inbound → Context → Context) (c : Context)
    → IsEnded c
    → P (f inbound_over c)
    → P (f c.inbound c)
idle P f c h p = subst (λ i. P (f i c)) (sym h.inbound) p

perform-IsEnded : (m : Move) (c : Context) → IsEnded c → IsEnded (perform m c)
unfolding perform arrive end_channel fail_channel inbound_turn forget_call
perform-IsEnded (arrives r o) c h = idle IsEnded (λ i. arrive i r o) c h h
perform-IsEnded channel_ends c h = idle IsEnded end_channel c h h
perform-IsEnded channel_fails c h = idle IsEnded fail_channel c h h
perform-IsEnded turns_inbound c h = idle IsEnded inbound_turn c h h
perform-IsEnded sent c h = finish_send-IsEnded c.outbound c h
perform-IsEnded send_fails c h = fail_send-IsEnded c.outbound c h
perform-IsEnded turns_outbound c h = outbound_turn-IsEnded c.outbound c h
perform-IsEnded (asks k) c h =
    subst IsEnded (sym (ask-refuses k c h))
      (stays-IsEnded c c.body_over c.nursery_cancelled c.error _ h)
perform-IsEnded (gives_up k) c h = record {
  inbound = h.inbound;
  outbound = h.outbound;
  tx = h.tx;
  offered = ap (forget_call k) h.offered;
  scope = h.scope;
}
perform-IsEnded body_leaves c h = stays-IsEnded c true c.nursery_cancelled c.error c.refused h
perform-IsEnded body_raises c h =
    either IsEnded c.body_over h (stays-IsEnded c true true true c.refused h)
perform-IsEnded turns_body c h =
    either IsEnded (c.scope_cancelled || c.nursery_cancelled)
      (stays-IsEnded c true c.nursery_cancelled c.error c.refused h) h

perform_all-IsEnded : (ms : List Move) (c : Context) → IsEnded c → IsEnded (perform_all ms c)
unfolding perform_all
perform_all-IsEnded [] c h = h
perform_all-IsEnded (m ∷ ms) c h = perform_all-IsEnded ms (perform m c) (perform-IsEnded m c h)

wakes : (o : Outbound) → wake_outbound o ≢ receives
wakes receives e = cc
wakes sends e = cc
wakes ends e = cc
wakes outbound_over e = cc

channel_ends-IsEnded : (c : Context) → c.inbound ≡ reads → IsEnded (perform channel_ends c)
unfolding perform end_channel end_inbound close_tx
channel_ends-IsEnded c at =
    subst (λ i. IsEnded (end_channel i c)) (sym at)
      (record {
        inbound = refl;
        outbound = wakes c.outbound;
        tx = refl;
        offered = refl;
        scope = refl;
      })

sent-ne-sends :
    (o : Outbound) (c : Context) → c.outbound ≡ o → IsEnded c → (finish_send o c).outbound ≢ sends
unfolding finish_send end_outbound
sent-ne-sends receives c e h = absurd (h.outbound e)
sent-ne-sends sends c e h =
    either (λ d. d.outbound ≢ sends) c.nursery_cancelled (λ q. cc)
      (subst (λ d. d.outbound ≢ sends) (sym (receive_next-ends c.offered c h.offered h.tx))
        (λ q. cc))
sent-ne-sends ends c e h = λ q. cc
sent-ne-sends outbound_over c e h = λ q. cc

turn-ends :
    (o : Outbound) (c : Context)
    → c.outbound ≡ o
    → o ≢ receives
    → o ≢ sends
    → (outbound_turn o c).outbound ≡ outbound_over
unfolding outbound_turn end_outbound
turn-ends receives c e r s = absurd (r refl)
turn-ends sends c e r s = absurd (s refl)
turn-ends ends c e r s = refl
turn-ends outbound_over c e r s = e

body-ends : (c : Context) → IsEnded c → perform turns_body c ≡ record c { body_over = true }
unfolding perform
body-ends c h =
    on_true (λ d. d ≡ record c { body_over = true }) _ _ (c.scope_cancelled || c.nursery_cancelled)
      (rw h.scope) refl

over_of :
    (c : Context)
    → c.inbound ≡ inbound_over
    → c.outbound ≡ outbound_over
    → is_over (record c { body_over = true }) ≡ true
over_of c i o = rw (i, o)

ended-over :
    (c : Context)
    → IsEnded c
    → is_over (perform_all (sent ∷ turns_outbound ∷ turns_body ∷ []) c) ≡ true
unfolding perform_all perform
ended-over c h =
    let c1 = perform sent c in
    let h1 = perform-IsEnded sent c h in
    let c2 = perform turns_outbound c1 in
    let h2 = perform-IsEnded turns_outbound c1 h1 in
    subst (λ d. is_over d ≡ true) (sym (body-ends c2 h2))
      (over_of c2 h2.inbound
        (turn-ends c1.outbound c1 refl h1.outbound (sent-ne-sends c.outbound c refl h)))

-- When the channel ends while the inbound loop reads from it, then whatever happens next, a call of
-- `send_request` is refused with a ClosedResourceError, and the context is over once the message that is
-- being sent is sent and the outbound loop and the body had a turn.
pub channel_end_ends_context :
    (c : Context) (ms : List Move) (k : ℕ)
    → c.inbound ≡ reads
    → let d = perform_all ms (perform channel_ends c) in
      (perform (asks k) d ≡ refuse k closed_resource d)
      × (is_over (perform_all (sent ∷ turns_outbound ∷ turns_body ∷ []) d) ≡ true)
unfolding perform
channel_end_ends_context c ms k at =
    let d = perform_all ms (perform channel_ends c) in
    let h = perform_all-IsEnded ms (perform channel_ends c) (channel_ends-IsEnded c at) in
    (ask-refuses k d h, ended-over d h)
