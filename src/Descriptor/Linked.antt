-- ===== src/Descriptor/Linked.antt =====
-- Every operation of FDConnectionBase keeps the handle, the object and the signals in agreement.
use flockwave_conn.Common.{
  ℕ, Text, ◌≡◌, refl, sym, ap, ◌∙◌, Bool, true, false, Option, none, some, List, [], ◌∷◌, arith,
  ◌⊎◌, inl, inr,
}
use flockwave_conn.Common.Results.{ok, err, Result-cases}
use flockwave_conn.Connection.State.{
  ConnectionState, disconnected, connecting, connected, disconnecting, state_eq,
}
use flockwave_conn.Connection.Signals.{state-set_state}
use flockwave_conn.Descriptor.State.{
  Error, Result, FileObject, Stored, Attachment, nothing, handle, object, Descriptor, System,
  attach, detach,
}
use flockwave_conn.Descriptor.Operations.{
  Called, Answers, move_to, open_descriptor, open_hook, open_from, finish_open, close, close_hook,
  close_from, finish_close, close_object, read, write, flush,
}
use flockwave_conn.Descriptor.Laws.{is_some, Trail, Attached, store-Attached, IsLinked}

-- `_attach` raises and changes nothing, or it attaches a handle and an object of which both are there
-- or neither.
abbrev Attempt : Bool → Descriptor → Called (Unit {0}) → Type 0
Attempt there d (r, d') =
    ((e : Error) × (r ≡ err e) × (d' ≡ d))
    ⊎ ((new : Option ℕ) × (obj : Option Stored) × (r ≡ ok tt)
        × (is_some new ≡ there)
        × (is_some obj ≡ there)
        × Attached new obj d d')

attach_handle : (sys : System) (n : ℕ) (d : Descriptor) → Attempt true d (attach sys (handle n) d)
unfolding attach
attach_handle sys n d = elim (Result-cases (sys.fdopen n)) [
  | inl (obj, e) ↦ rw e (inr (some n, _, refl, refl, refl, store-Attached _ _ _ d))
  | inr (x, e) ↦ rw e (inl (x, refl, refl))
]

attach_object :
    (sys : System) (obj : FileObject) (d : Descriptor) → Attempt true d (attach sys (object obj) d)
unfolding attach
attach_object sys obj d = elim (Result-cases (sys.fileno obj)) [
  | inl (n, e) ↦ rw e (inr (some n, _, refl, refl, refl, store-Attached _ _ _ d))
  | inr (x, e) ↦ rw e (inl (x, refl, refl))
]

attach_nothing :
    (sys : System) (d : Descriptor)
    → Attached none none d (attach sys nothing d).1 × ((attach sys nothing d).0 ≡ ok tt)
unfolding attach
attach_nothing sys d = (store-Attached none none false d, refl)

-- The state set last, on a connection of which the other parts agree.
move_to-IsLinked :
    (s : ConnectionState) (d : Descriptor)
    → (s ≡ connected) ⊎ (s ≡ disconnected)
    → is_some d.file_object ≡ state_eq s connected
    → is_some d.file_handle ≡ is_some d.file_object
    → Trail none d.changes d.file_handle
    → IsLinked (move_to s d)
move_to-IsLinked s d settled obj handles trail = record {
  settled = rw state-set_state settled;
  has_object = rw state-set_state obj;
  has_handle = handles;
  trail = trail;
}

Attached-IsLinked :
    (s : ConnectionState) (new : Option ℕ) (obj : Option Stored) (d d' : Descriptor)
    → (s ≡ connected) ⊎ (s ≡ disconnected)
    → is_some new ≡ state_eq s connected
    → is_some obj ≡ state_eq s connected
    → Trail none d.changes d.file_handle
    → Attached new obj d d'
    → IsLinked (move_to s d')
Attached-IsLinked s new obj d d' settled n o trail a =
    move_to-IsLinked s d' settled (a.there ∙ o) (ap is_some a.now ∙ n ∙ sym (a.there ∙ o))
      (rw a.now (a.trail trail))

finish_open-IsLinked :
    (d : Descriptor) (r : Called (Unit {0}))
    → IsLinked d
    → d.base.state ≡ disconnected
    → Attempt true (move_to connecting d) r
    → IsLinked (finish_open r).1
unfolding finish_open
finish_open-IsLinked d (err x, d') h down (inl (y, e, same)) = rw same (
    move_to-IsLinked disconnected (move_to connecting d) (inr refl) (h.has_object ∙ rw down refl)
      h.has_handle h.trail)
finish_open-IsLinked d (ok v, d') h down (inl (y, e, same)) = cc
finish_open-IsLinked d (err x, d') h down (inr (new, obj, e, n, o, a)) = cc
finish_open-IsLinked d (ok v, d') h down (inr (new, obj, e, n, o, a)) =
    Attached-IsLinked connected new obj (move_to connecting d) d' (inl refl) n o h.trail a

finish_close-IsLinked :
    (d : Descriptor) (r : Called (Unit {0}))
    → Trail none d.changes d.file_handle
    → Attached none none d r.1
    → r.0 ≡ ok tt
    → IsLinked (finish_close r).1
unfolding finish_close
finish_close-IsLinked d (err x, d') trail a e = cc
finish_close-IsLinked d (ok v, d') trail a e =
    Attached-IsLinked disconnected none none d d' (inr refl) refl refl trail a

module _ (sys : System) where
  open_hook-Attempt :
      (got : Result Attachment) (d : Descriptor) → Attempt true d (open_hook sys got d)
  unfolding open_hook
  open_hook-Attempt (err x) d = inl (x, refl, refl)
  open_hook-Attempt (ok nothing) d = inl (_, refl, refl)
  open_hook-Attempt (ok (handle n)) d = attach_handle sys n d
  open_hook-Attempt (ok (object obj)) d = attach_object sys obj d

  open_from-IsLinked :
      (s : ConnectionState) (got : Result Attachment) (d : Descriptor)
      → d.base.state ≡ s
      → IsLinked d
      → IsLinked (open_from sys s got d).1
  unfolding open_from
  open_from-IsLinked disconnected got d down h =
      finish_open-IsLinked d (open_hook sys got (move_to connecting d)) h down
        (open_hook-Attempt got (move_to connecting d))
  open_from-IsLinked _ got d down h = h

  open-IsLinked :
      (got : Result Attachment) (d : Descriptor)
      → IsLinked d
      → IsLinked (open_descriptor sys got d).1
  unfolding open_descriptor
  open-IsLinked got d h = open_from-IsLinked d.base.state got d refl h

  close_object-IsLinked :
      (obj : Option Stored) (d : Descriptor)
      → is_some obj ≡ true
      → Trail none d.changes d.file_handle
      → IsLinked (finish_close (close_object sys obj d)).1
  unfolding close_object detach
  close_object-IsLinked none d there trail = cc
  close_object-IsLinked (some obj) d there trail =
      finish_close-IsLinked d (attach sys nothing d) trail (attach_nothing sys d).0
        (attach_nothing sys d).1

  close_from-IsLinked :
      (s : ConnectionState) (d : Descriptor)
      → d.base.state ≡ s
      → IsLinked d
      → IsLinked (close_from sys s d).1
  unfolding close_from close_hook
  close_from-IsLinked connected d up h =
      close_object-IsLinked d.file_object (move_to disconnecting d) (h.has_object ∙ rw up refl)
        h.trail
  close_from-IsLinked _ d up h = h

  close-IsLinked : (d : Descriptor) → IsLinked d → IsLinked (close sys d).1
  unfolding close
  close-IsLinked d h = close_from-IsLinked d.base.state d refl h

-- One operation of the connection, with what it is given from outside.
pub data Request : Type 0 where
  open_request : System → Result Attachment → Request
  close_request : System → Request
  read_request : Answers → Option ℕ → Request
  write_request : Answers → Text → Request
  flush_request : Answers → Request

unfoldable pub perform : Request → Descriptor → Descriptor
perform (open_request sys got) d = (open_descriptor sys got d).1
perform (close_request sys) d = (close sys d).1
perform (read_request answers size) d = (read answers size d).1
perform (write_request answers bytes) d = (write answers bytes d).1
perform (flush_request answers) d = (flush answers d).1

unfoldable pub perform_all : List Request → Descriptor → Descriptor
unfolding perform
perform_all [] d = d
perform_all (r ∷ rs) d = perform_all rs (perform r d)

perform-IsLinked : (r : Request) (d : Descriptor) → IsLinked d → IsLinked (perform r d)
unfolding perform read write flush
perform-IsLinked (open_request sys got) d h = open-IsLinked sys got d h
perform-IsLinked (close_request sys) d h = close-IsLinked sys d h
perform-IsLinked (read_request answers size) d h = ground arith
perform-IsLinked (write_request answers bytes) d h = ground arith
perform-IsLinked (flush_request answers) d h = ground arith

-- Any sequence of operations of a connection to a file, failing or not, keeps its parts in agreement: it
-- is settled, it has a file object and a file handle exactly while it is connected, and the signals
-- `file_handle_changed` lead, change by change and each to another handle, from none to the handle
-- that it has.
pub perform_all-IsLinked :
    (rs : List Request) (d : Descriptor) → IsLinked d → IsLinked (perform_all rs d)
unfolding perform_all
perform_all-IsLinked [] d h = h
perform_all-IsLinked (r ∷ rs) d h = perform_all-IsLinked rs (perform r d) (perform-IsLinked r d h)
