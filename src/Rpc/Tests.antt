-- ===== src/Rpc/Tests.antt =====
-- A future map that is a list of futures with their identifiers, and a peer that answers.
use flockwave_conn.Common.{
  ℕ, pos, negsuc, Text, codes, ◌≡◌, refl, true, false, Option, none, some, List, [], ◌∷◌, arith,
  if◌then◌else◌, text_eq,
}
use flockwave_conn.Rpc.Futures.{
  RequestId, text_id, number_id, id_eq, id_eq_iff, rpc_error, Future, waiting, FutureMap,
}
use flockwave_conn.Rpc.Serve.{
  Message, request, error_response, response, unknown, dictionary, Handled, replies, handler_raises,
  reply, Rpc, raises, too_slow, still_waits, handle_messages, begin_request, wait_response, outcome,
  error_of,
}
use flockwave_conn.Rpc.Answers.{wait_response-first_answer}
use flockwave_conn.Rpc.Replies.{handle_messages-replies}
use flockwave_conn.Rpc.Ids.{number_is_too_slow}

abbrev Futures : Type 0
Futures = List (RequestId × Future ℕ)

abbrev find : RequestId → Futures → Option (Future ℕ)
find k [] = none
find k ((i, f) ∷ m) = if id_eq i k then some f else find k m

abbrev assign : RequestId → Future ℕ → Futures → Futures
assign k f [] = []
assign k f ((i, g) ∷ m) = (i, if id_eq i k then f else g) ∷ assign k f m

abbrev remove : RequestId → Futures → Futures
remove k [] = []
remove k ((i, g) ∷ m) = let rest = remove k m in if id_eq i k then rest else (i, g) ∷ rest

find-assign_other :
    (j k : RequestId) (f : Future ℕ) (m : Futures)
    → id_eq k j ≡ false
    → find j (assign k f m) ≡ find j m
find-assign_other j k f [] h = refl
find-assign_other j k f ((i, v) ∷ m) h =
    ground (arith, id_eq_iff i k, id_eq_iff k j, id_eq_iff i j, find-assign_other j k f m)

find-assign :
    (j k : RequestId) (f g : Future ℕ) (m : Futures)
    → find k m ≡ some g
    → find j (assign k f m) ≡ (if id_eq k j then some f else find j m)
find-assign j k f g [] h = cc
find-assign j k f g ((i, v) ∷ m) h = ground (
  arith,
  id_eq_iff i k,
  id_eq_iff k j,
  id_eq_iff i j,
  find-assign j k f g m,
  find-assign_other j k f m,
)

find-remove :
    (j k : RequestId) (m : Futures) → find j (remove k m) ≡ (if id_eq k j then none else find j m)
find-remove j k [] = ground arith
find-remove j k ((i, v) ∷ m) =
    ground (arith, id_eq_iff i k, id_eq_iff k j, id_eq_iff i j, find-remove j k m)

abbrev futures : FutureMap ℕ
futures = record {
  Map = Futures;
  empty = [];
  get = find;
  new = λ k m. (k, waiting) ∷ m;
  settle = assign;
  drop = remove;
  get-empty = λ j. refl;
  get-new = λ j k m. refl;
  get-settle = find-assign;
  get-drop = find-remove;
}

-- A handler that echoes; on an empty request it raises.
abbrev echo : Text → Handled
echo [] = handler_raises
echo (c ∷ t) = replies (c ∷ t)

abbrev names : RequestId → Text
names (text_id t) = t
names (number_id n) = codes "7"

abbrev start : Rpc ℕ futures
start = record { pending = []; outbound = []; warnings = [] }

abbrev messages : List (Message ℕ)
messages =
    response (text_id (codes "other")) 1
    ∷ error_response (text_id (codes "id")) (dictionary (some (negsuc 32600)) none)
    ∷ response (text_id (codes "id")) 2
    ∷ []

wait_response-first_answer_example :
    (wait_response ℕ futures names
      (text_id (codes "id"))
      false
      (handle_messages ℕ futures echo messages (
        begin_request ℕ futures names (codes "sum") (some (text_id (codes "id"))) false start)).1).0
    ≡ raises (rpc_error (negsuc 32600) [])
unfolding outcome id_eq text_eq error_of
wait_response-first_answer_example =
    wait_response-first_answer ℕ futures echo names (codes "sum") (text_id (codes "id")) messages
      false start

number_is_too_slow_example :
    let s' =
      (handle_messages ℕ futures echo
        (response (number_id (pos 7)) 2 ∷ [])
        (begin_request ℕ futures names (codes "sum") (some (number_id (pos 7))) false start)).1 in
    ((wait_response ℕ futures names (number_id (pos 7)) true s').0 ≡ too_slow)
    × ((wait_response ℕ futures names (number_id (pos 7)) false s').0 ≡ still_waits)
number_is_too_slow_example =
    number_is_too_slow ℕ futures echo names (codes "sum") (pos 7)
      (response (number_id (pos 7)) 2 ∷ []) start (tt, tt)

abbrev requests : List (Message ℕ)
requests =
    request (codes "a") false
    ∷ request (codes "b") true
    ∷ unknown
    ∷ request (codes "c") false
    ∷ request [] false
    ∷ request (codes "d") false
    ∷ []

handle_messages-replies_example :
    let (ended, s') = handle_messages ℕ futures echo requests start in
    (s'.outbound ≡ reply (codes "a") ∷ reply (codes "c") ∷ []) × (ended ≡ true)
handle_messages-replies_example = handle_messages-replies ℕ futures echo requests start
