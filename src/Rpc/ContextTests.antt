-- ===== src/Rpc/ContextTests.antt =====
-- Contexts of RPC on concrete runs.
use flockwave_conn.Common.{codes, ◌≡◌, refl, true, false, List, [], ◌∷◌}
use flockwave_conn.Rpc.Serve.{replies}
use flockwave_conn.Rpc.Context.{
  Context, Move, arrives, channel_ends, sent, turns_outbound, asks, gives_up, body_leaves,
  turns_body, closed_resource, sends, call_number, new_context, perform, perform_all, is_over,
  refuse,
}
use flockwave_conn.Rpc.Serving.{
  IsServing, quiet_reply, quiet_call, quiet_sent, quiet_leave, quiet_cancel, quiet_context_serves,
}
use flockwave_conn.Rpc.Over.{channel_end_ends_context}

-- A request is answered, two calls are made, one of them is given up, and the body ends.
abbrev quiet_moves : List Move
quiet_moves =
    arrives (replies (codes "ok")) false ∷ asks 1 ∷ asks 2 ∷ sent ∷ gives_up 2 ∷ body_leaves ∷ []

quiet_context_serves_example :
    let c = perform_all quiet_moves new_context in IsServing c × (is_over c ≡ false)
quiet_context_serves_example =
    quiet_context_serves quiet_moves
      (quiet_reply, (quiet_call, (quiet_call, (quiet_sent, (quiet_cancel, (quiet_leave, tt))))))

-- A call is being sent, and another one waits.
abbrev busy : Context
busy = record new_context { outbound = sends; offered = call_number 2 ∷ [] }

channel_end_ends_context_example :
    let d = perform_all (asks 3 ∷ []) (perform channel_ends busy) in
    (perform (asks 4) d ≡ refuse 4 closed_resource d)
    × (is_over (perform_all (sent ∷ turns_outbound ∷ turns_body ∷ []) d) ≡ true)
channel_end_ends_context_example = channel_end_ends_context busy (asks 3 ∷ []) 4 refl

calls_refused :
    (perform_all (channel_ends ∷ asks 3 ∷ []) busy).refused
    ≡ (2, closed_resource) ∷ (3, closed_resource) ∷ []
unfolding perform_all perform
calls_refused = refl
