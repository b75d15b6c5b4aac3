-- ===== src/Stream/Fifo.antt =====
-- What is written to one connection of a loopback pair is read from the other.
use flockwave_conn.Common.{
  ℕ, ◌≡◌, refl, sym, ap, ◌∙◌, Bool, true, false, List, [], ◌∷◌, ◌++◌, append_assoc, append-nil,
  arith, if◌then◌else◌,
}
use flockwave_conn.Connection.State.{ConnectionState, disconnected}
use flockwave_conn.Stream.Loopback.{
  Sent, sent, send_blocks, send_raises, Got, got, receive_blocks, receive_raises, MemoryChannels,
  Side, left, right, Pair, new_pair, Outcome, wrote, read_message, waits, raises, read, write,
  open_side, tx_of, rx_of, base_of, open_from, written, received,
}

-- A use of the pair: a write, a read, or `open` of one side.
pub data Action (M : Type 0) : Type 0 where
  writes : Side → M → Action M
  reads opens : Side → Action M

abbrev pub other : Side → Side
other left = right
other right = left

abbrev pub side_eq : Side → Side → Bool
side_eq left left = true
side_eq right right = true
side_eq _ _ = false

module _ (M : Type 0) (channels : MemoryChannels M) where
  open channels use {
    Channel, contents, send, receive, contents-open, contents-send, contents-receive,
  }

  unfoldable pub act : Action M → Pair M channels → List (Outcome M channels) × Pair M channels
  act (writes side m) p = let (o, q) = write M channels side m p in (o ∷ [], q)
  act (reads side) p = let (o, q) = read M channels side p in (o ∷ [], q)
  act (opens side) p = ([], open_side M channels side p)

  -- The outcomes of the uses, in order, and the pair.
  unfoldable pub act_all :
      List (Action M) → Pair M channels → List (Outcome M channels) × Pair M channels
  unfolding act
  act_all [] p = ([], p)
  act_all (a ∷ as_) p = let (os, q) = act a p in let (rest, q') = act_all as_ q in (os ++ rest, q')

  -- The messages that were written to a side, and those that were read from it.
  abbrev pub written_by : Side → List (Outcome M channels) → List M
  written_by s [] = []
  written_by s (wrote t m ∷ os) =
      let rest = written_by s os in if side_eq t s then m ∷ rest else rest
  written_by s (_ ∷ os) = written_by s os

  abbrev pub read_by : Side → List (Outcome M channels) → List M
  read_by s [] = []
  read_by s (read_message t m ∷ os) =
      let rest = read_by s os in if side_eq t s then m ∷ rest else rest
  read_by s (_ ∷ os) = read_by s os

  written_by-append :
      (s : Side) (os os' : List (Outcome M channels))
      → written_by s (os ++ os') ≡ written_by s os ++ written_by s os'
  written_by-append s [] os' = refl
  written_by-append s (wrote t m ∷ os) os' = ground (arith, written_by-append s os os')
  written_by-append s (read_message t m ∷ os) os' = written_by-append s os os'
  written_by-append s (waits ∷ os) os' = written_by-append s os os'
  written_by-append s (raises ∷ os) os' = written_by-append s os os'

  read_by-append :
      (s : Side) (os os' : List (Outcome M channels))
      → read_by s (os ++ os') ≡ read_by s os ++ read_by s os'
  read_by-append s [] os' = refl
  read_by-append s (read_message t m ∷ os) os' = ground (arith, read_by-append s os os')
  read_by-append s (wrote t m ∷ os) os' = read_by-append s os os'
  read_by-append s (waits ∷ os) os' = read_by-append s os os'
  read_by-append s (raises ∷ os) os' = read_by-append s os os'

  -- What flows from a side to the other: what was in its channel and what was written to it is what was
  -- read at the other side and what is in the channel afterwards.
  abbrev pub Flows : Pair M channels → List (Outcome M channels) → Pair M channels → Side → Type 0
  Flows p os q s =
      contents (tx_of M channels s p) ++ written_by s os
      ≡ read_by (other s) os ++ contents (tx_of M channels s q)

  Flows-append :
      (p q r : Pair M channels) (os os' : List (Outcome M channels)) (s : Side)
      → Flows p os q s
      → Flows q os' r s
      → Flows p (os ++ os') r s
  Flows-append p q r os os' s f g =
      rw (written_by-append s os os', read_by-append (other s) os os')
        (sym (append_assoc (contents (tx_of M channels s p)) (written_by s os) (written_by s os'))
          ∙ ap (λ l. l ++ written_by s os') f
          ∙ append_assoc (read_by (other s) os) (contents (tx_of M channels s q)) (written_by s os')
          ∙ ap (λ l. read_by (other s) os ++ l) g
          ∙ sym (
              append_assoc (read_by (other s) os) (read_by (other s) os')
                (contents (tx_of M channels s r))))

  written-Flows :
      (t : Side) (m : M) (a : Sent Channel) (p : Pair M channels) (s : Side)
      → send m (tx_of M channels t p) ≡ a
      → let (o, q) = written M channels t m a p in Flows p (o ∷ []) q s
  unfolding written tx_of
  written-Flows left m (sent c) p left e = sym (contents-send m p.forward c e)
  written-Flows left m (sent c) p right e = rw append-nil
  written-Flows right m (sent c) p right e = sym (contents-send m p.backward c e)
  written-Flows right m (sent c) p left e = rw append-nil
  written-Flows t m send_blocks p s e = rw append-nil
  written-Flows t m send_raises p s e = rw append-nil

  received-Flows :
      (t : Side) (a : Got M Channel) (p : Pair M channels) (s : Side)
      → receive (rx_of M channels t p) ≡ a
      → let (o, q) = received M channels t a p in Flows p (o ∷ []) q s
  unfolding received tx_of rx_of
  received-Flows left (got m c) p right e = rw append-nil (contents-receive m p.backward c e)
  received-Flows left (got m c) p left e = rw append-nil
  received-Flows right (got m c) p left e = rw append-nil (contents-receive m p.forward c e)
  received-Flows right (got m c) p right e = rw append-nil
  received-Flows t receive_blocks p s e = rw append-nil
  received-Flows t receive_raises p s e = rw append-nil

  open-Flows :
      (t : Side) (c : ConnectionState) (p : Pair M channels) (s : Side)
      → Flows p [] (open_from M channels c t p) s
  unfolding open_from tx_of
  open-Flows left disconnected p left = rw append-nil
  open-Flows left disconnected p right = rw append-nil
  open-Flows right disconnected p left = rw append-nil
  open-Flows right disconnected p right = rw append-nil
  open-Flows t _ p s = rw append-nil

  act-Flows :
      (a : Action M) (p : Pair M channels) (s : Side) → let (os, q) = act a p in Flows p os q s
  unfolding act write read open_side
  act-Flows (writes t m) p s = written-Flows t m (send m (tx_of M channels t p)) p s refl
  act-Flows (reads t) p s = received-Flows t (receive (rx_of M channels t p)) p s refl
  act-Flows (opens t) p s = open-Flows t (base_of M channels t p).state p s

  act_all-Flows :
      (as_ : List (Action M)) (p : Pair M channels) (s : Side)
      → let (os, q) = act_all as_ p in Flows p os q s
  unfolding act_all
  act_all-Flows [] p s = rw append-nil
  act_all-Flows (a ∷ as_) p s =
      let (os, q) = act a p in
      let (rest, q') = act_all as_ q in
      Flows-append p q q' os rest s (act-Flows a p s) (act_all-Flows as_ q s)

  -- After any writes and reads on both sides of a new loopback pair, what was written to one side, for
  -- the calls that returned, is what was read at the other, in the same order, followed by what is still
  -- in the channel between them.
  pub loopback_fifo :
      (buffer_size : ℕ) (as_ : List (Action M)) (s : Side)
      → let (os, q) = act_all as_ (new_pair M channels buffer_size) in
        written_by s os ≡ read_by (other s) os ++ contents (tx_of M channels s q)
  unfolding new_pair tx_of
  loopback_fifo n as_ left =
      let p = new_pair M channels n in
      ap (λ l. l ++ written_by left (act_all as_ p).0) (sym (contents-open n))
      ∙ act_all-Flows as_ p left
  loopback_fifo n as_ right =
      let p = new_pair M channels n in
      ap (λ l. l ++ written_by right (act_all as_ p).0) (sym (contents-open n))
      ∙ act_all-Flows as_ p right
