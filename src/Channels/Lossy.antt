-- ===== src/Channels/Lossy.antt =====
-- LossyChannelWrapper of src/flockwave/channels/lossy.py. The wrapped channel has messages to
-- deliver and remembers those that it was given; the random numbers are the values of a function at
-- 0, 1, 2, …, in the order in which they are drawn. `Number` stands for the floats, with their `>=`.
use flockwave_conn.Common.{
  ℕ, suc, ◌≡◌, refl, ◌∙◌, ap, Bool, true, false, List, [], ◌∷◌, ◌++◌, append_assoc, append-nil,
  if◌then◌else◌, Bool-cases, inl, inr,
}

pub record Floats : Type 1 where
  pub Number : Type 0
  pub ge : Number → Number → Bool

pub data Received (M : Type 0) : Type 0 where
  message : M → Received M
  -- the wrapped channel has no more messages, and raises
  end_of_channel : Received M

module _ (floats : Floats) (M : Type 0) where
  open floats use {Number, ge}

  pub record Lossy : Type 0 where
    pub loss_probability : Number
    pub random : ℕ → Number
    pub drawn : ℕ
    pub to_deliver : List M
    pub delivered : List M
    pub is_closed : Bool

  -- `self._random() >= self._loss_probability` for the draw with the given number
  abbrev pub survives : Lossy → ℕ → Bool
  survives ch n = ge (ch.random n) ch.loss_probability

  unfoldable pub send : M → Lossy → Lossy
  send value ch =
      if survives ch ch.drawn
      then record ch { drawn = suc ch.drawn; delivered = ch.delivered ++ value ∷ [] }
      else record ch { drawn = suc ch.drawn }

  unfoldable pub aclose : Lossy → Lossy
  aclose ch = record ch { is_closed = true }

  -- The `while True` loop of `receive` over what the wrapped channel still delivers.
  receive_from : Lossy → ℕ → List M → Received M × Lossy
  receive_from ch n [] = (end_of_channel, record ch { drawn = n; to_deliver = [] })
  receive_from ch n (m ∷ ms) =
      let again = receive_from ch (suc n) ms in
      if survives ch n then (message m, record ch { drawn = suc n; to_deliver = ms }) else again

  unfoldable pub receive : Lossy → Received M × Lossy
  unfolding receive_from
  receive ch = receive_from ch ch.drawn ch.to_deliver

  -- The messages of a list whose draws, from the given one on, do not lose them.
  abbrev pub survivors : Lossy → ℕ → List M → List M
  survivors ch n [] = []
  survivors ch n (m ∷ ms) =
      if survives ch n then m ∷ survivors ch (suc n) ms else survivors ch (suc n) ms

  -- What the receiver will still get.
  abbrev pub to_come : Lossy → List M
  to_come ch = survivors ch ch.drawn ch.to_deliver

  abbrev pub send_all : List M → Lossy → Lossy
  send_all [] ch = ch
  send_all (m ∷ ms) ch = send_all ms (send m ch)

  -- What one `receive` does, against what is to come: it takes the first message of it and leaves the
  -- rest to come, or ends the channel if nothing is; it passes nothing to the other side.
  abbrev pub TakesKept : Lossy → List M → Received M × Lossy → Type 0
  TakesKept ch [] (r, ch') =
      (r ≡ end_of_channel) × (to_come ch' ≡ []) × (ch'.delivered ≡ ch.delivered)
  TakesKept ch (m ∷ ms) (r, ch') =
      (r ≡ message m) × (to_come ch' ≡ ms) × (ch'.delivered ≡ ch.delivered)

  receive_from-TakesKept :
      (ch : Lossy) (n : ℕ) (ms : List M) → TakesKept ch (survivors ch n ms) (receive_from ch n ms)
  unfolding receive_from
  receive_from-TakesKept ch n [] = (refl, refl, refl)
  receive_from-TakesKept ch n (m ∷ ms) = elim (Bool-cases (survives ch n)) [
    | inl kept ↦ rw kept (refl, refl, refl)
    | inr lost ↦ rw lost (receive_from-TakesKept ch (suc n) ms)
  ]

  -- `receive` returns the first message that is not lost and leaves the later ones to come, whatever
  -- was lost before it; when all the messages left are lost it ends as the wrapped channel does.
  receive-TakesKept : (ch : Lossy) → TakesKept ch (to_come ch) (receive ch)
  unfolding receive
  receive-TakesKept ch = receive_from-TakesKept ch ch.drawn ch.to_deliver

  send-kept :
      (m : M) (ch : Lossy)
      → survives ch ch.drawn ≡ true
      → send m ch ≡ record ch { drawn = suc ch.drawn; delivered = ch.delivered ++ m ∷ [] }
  unfolding send
  send-kept m ch kept = rw (kept, send)

  send-lost :
      (m : M) (ch : Lossy)
      → survives ch ch.drawn ≡ false
      → send m ch ≡ record ch { drawn = suc ch.drawn }
  unfolding send
  send-lost m ch lost = rw (lost, send)

  -- Sending messages one after another passes on, in their order, exactly those whose draws do not
  -- lose them, and takes nothing from what is to be received.
  delivered-send_all :
      (ms : List M) (ch : Lossy)
      → ((send_all ms ch).delivered ≡ ch.delivered ++ survivors ch ch.drawn ms)
        × ((send_all ms ch).to_deliver ≡ ch.to_deliver)
  delivered-send_all [] ch = (rw append-nil, refl)
  delivered-send_all (m ∷ ms) ch = elim (Bool-cases (survives ch ch.drawn)) [
    | inl kept ↦
        let (d, t) =
          delivered-send_all ms
            (record ch { drawn = suc ch.drawn; delivered = ch.delivered ++ m ∷ [] }) in
        rw kept (
          rw (send-kept m ch kept, send_all)
            (d ∙ append_assoc ch.delivered (m ∷ []) (survivors ch (suc ch.drawn) ms), t))
    | inr lost ↦ rw lost (
        rw (send-lost m ch lost, send_all)
          (delivered-send_all ms (record ch { drawn = suc ch.drawn })))
  ]

  survivors_all :
      (ch : Lossy)
      → ((n : ℕ) → survives ch n ≡ true)
      → (n : ℕ) (ms : List M) → survivors ch n ms ≡ ms
  survivors_all ch never n [] = refl
  survivors_all ch never n (m ∷ ms) =
      rw (never n) (ap (λ l. m ∷ l) (survivors_all ch never (suc n) ms))
