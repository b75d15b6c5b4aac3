-- ===== src/Serial/Transfer.antt =====
-- What goes over a threaded serial port stream.
use flockwave_conn.Common.{
  ℕ, ◌≤◌, ◌<◌, Text, ◌≡◌, refl, sym, ap, ◌∙◌, Bool, true, false, Option, List, [], ◌∷◌, ◌++◌,
  append_assoc, append-nil, arith, length, take, drop, length-drop, length-take, take-append-drop,
  All,
}
use flockwave_conn.Serial.Streams.{
  Written, negative, took, Look, waiting_bytes, closes, ThreadedStream, Ended, returned, raised,
  runs, send_loop, send_all, smaller, limit_of, receive_loop, receive_some, after_send,
  after_receive,
}

-- The device took a byte at least.
abbrev pub IsProgress : Written → Type 0
IsProgress negative = ⊥
IsProgress (took n) = 0 < n

send_loop-total :
    (answers : List Written) (bytes out : Text)
    → All IsProgress answers
    → length bytes ≤ length answers
    → send_loop answers bytes out ≡ (returned tt, out ++ bytes)
unfolding send_loop
send_loop-total answers [] out progress enough = rw append-nil
send_loop-total [] (b ∷ bytes) out progress enough = absurd (omega arith)
send_loop-total (negative ∷ answers) (b ∷ bytes) out progress enough = absurd progress.0
send_loop-total (took n ∷ answers) (b ∷ bytes) out progress enough =
    send_loop-total answers (drop n (b ∷ bytes)) (out ++ take n (b ∷ bytes)) progress.1
      (omega (arith, progress.0, length-drop n (b ∷ bytes)))
    ∙ ap (λ l. (returned tt, l))
        (append_assoc out (take n (b ∷ bytes)) (drop n (b ∷ bytes))
          ∙ ap (λ l. out ++ l) (take-append-drop n (b ∷ bytes)))

-- While no other task sends, and the device takes a byte at least of each write and answers as many
-- writes as there are bytes, `send_all` returns, the device has taken all the bytes in their order,
-- behind what it had taken before, and the stream is free to send again.
pub send_all_total :
    (answers : List Written) (bytes : Text) (s : ThreadedStream)
    → s.sending.held ≡ false
    → All IsProgress answers
    → length bytes ≤ length answers
    → let (r, s') = send_all answers bytes s in
      (r ≡ returned tt) × (s'.output ≡ s.output ++ bytes) × (s'.sending.held ≡ false)
unfolding send_all
send_all_total answers [] s free progress enough = (refl, rw append-nil, free)
send_all_total answers (b ∷ bytes) s free progress enough =
    rw (free, send_all)
      (rw (send_loop-total answers (b ∷ bytes) s.output progress enough, after_send)
        (refl, refl, refl))

-- The first bytes that wait before another task closes the stream.
abbrev pub FirstBytes : List Look → Text → Type 0
FirstBytes [] bytes = ⊥
FirstBytes (closes ∷ looks) bytes = ⊥
FirstBytes (waiting_bytes [] ∷ looks) bytes = FirstBytes looks bytes
FirstBytes (waiting_bytes (b ∷ t) ∷ looks) bytes = bytes ≡ b ∷ t

-- A result that is returned is a beginning of the first bytes that wait, is not empty and is no longer
-- than the limit.
abbrev pub IsWithin : ℕ → List Look → Ended Text → Type 0
IsWithin limit looks (returned t) =
    (bytes : Text) × FirstBytes looks bytes
    × (t ≡ take (length t) bytes)
    × (0 < length t)
    × (length t ≤ limit)
IsWithin limit looks _ = Unit

smaller_bounds :
    (a b : ℕ) → 0 < a → 0 < b → (smaller a b ≤ a) × (smaller a b ≤ b) × (0 < smaller a b)
smaller_bounds a b pos pos' = ground arith

length-take_le : (n : ℕ) (bytes : Text) → n ≤ length bytes → length (take n bytes) ≡ n
length-take_le n bytes h = omega (arith, length-take n bytes)

skip_empty :
    (limit : ℕ) (looks : List Look) (r : Ended Text)
    → IsWithin limit looks r
    → IsWithin limit (waiting_bytes [] ∷ looks) r
skip_empty limit looks (returned t) h = h
skip_empty limit looks (raised e) h = tt
skip_empty limit looks runs h = tt

receive_loop-IsWithin :
    (limit : ℕ) (looks : List Look) (closing : Bool)
    → 0 < limit
    → IsWithin limit looks (receive_loop limit looks closing).0
unfolding receive_loop
receive_loop-IsWithin limit looks true pos = tt
receive_loop-IsWithin limit [] false pos = tt
receive_loop-IsWithin limit (closes ∷ looks) false pos = tt
receive_loop-IsWithin limit (waiting_bytes [] ∷ looks) false pos =
    skip_empty limit looks (receive_loop limit looks false).0
      (receive_loop-IsWithin limit looks false pos)
receive_loop-IsWithin limit (waiting_bytes (b ∷ bytes) ∷ looks) false pos =
    let n = smaller (length (b ∷ bytes)) limit in
    let (le, le', pos') = smaller_bounds (length (b ∷ bytes)) limit (omega arith) pos in
    let size : length (take n (b ∷ bytes)) ≡ n = length-take_le n (b ∷ bytes) le in
    (b ∷ bytes, refl, ap (λ k. take k (b ∷ bytes)) (sym size), rw size pos', rw size le')

after_receive-0 : (r : Ended Text × Bool) (s : ThreadedStream) → (after_receive r s).0 ≡ r.0
unfolding after_receive
after_receive-0 (returned t, closing) s = refl
after_receive-0 (raised e, closing) s = refl
after_receive-0 (runs, closing) s = refl

-- While no other task receives, and the limit is positive, what `receive_some` returns is a beginning of
-- the first bytes that wait at the device; it is not empty, and no longer than `max_bytes`, or 65536
-- bytes if that is None.
pub receive_some-IsWithin :
    (max_bytes : Option ℕ) (looks : List Look) (s : ThreadedStream)
    → s.receiving.held ≡ false
    → 0 < limit_of max_bytes
    → IsWithin (limit_of max_bytes) looks (receive_some max_bytes looks s).0
unfolding receive_some
receive_some-IsWithin max_bytes looks s free pos =
    rw (free, receive_some)
      (rw
        (after_receive-0 (receive_loop (limit_of max_bytes) looks s.closing)
          (record s { receiving = record { held = false } }))
        (receive_loop-IsWithin (limit_of max_bytes) looks s.closing pos))
