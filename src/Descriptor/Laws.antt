-- ===== src/Descriptor/Laws.antt =====
-- What the operations of FDConnectionBase keep: the handle, the object and the signals agree.
use flockwave_conn.Common.{
  ℕ, ◌≡◌, ap, ◌∙◌, Bool, true, false, Option, none, some, List, [], ◌∷◌, ◌++◌, arith, ◌⊎◌, inl, inr,
  Bool-cases,
}
use flockwave_conn.Connection.State.{disconnected, connected, state_eq}
use flockwave_conn.Descriptor.State.{
  Stored, Descriptor, handle_eq, announce, store, set_file_handle, set_file_object,
}

abbrev pub is_some {ℓ} : {A : Type ℓ} → Option A → Bool
is_some none = false
is_some (some _) = true

-- A chain of changes from one handle to another, each to a handle that differs.
abbrev pub Trail : Option ℕ → List (Option ℕ × Option ℕ) → Option ℕ → Type 0
Trail from [] to = from ≡ to
Trail from ((old, new) ∷ l) to = (old ≡ from) × ((handle_eq old new ≡ false) × Trail new l to)

Trail-append :
    (a : Option ℕ) (l : List (Option ℕ × Option ℕ)) (b c : Option ℕ)
    → Trail a l b
    → handle_eq b c ≡ false
    → Trail a (l ++ (b, c) ∷ []) c
Trail-append a [] b c t differ = ground arith
Trail-append a ((old, new) ∷ l) b c t differ = (t.0, (t.1.0, Trail-append new l b c t.1.1 differ))

handle_eq-eq : (a b : Option ℕ) → handle_eq a b ≡ true → a ≡ b
handle_eq-eq a b h = ground (arith)

-- What storing a handle and an object does.
pub record Attached (new : Option ℕ) (obj : Option Stored) (d d' : Descriptor) : Type 0 where
  pub now : d'.file_handle ≡ new
  pub there : is_some d'.file_object ≡ is_some obj
  pub base : d'.base ≡ d.base
  pub trail : Trail none d.changes d.file_handle → Trail none d'.changes new

file_handle-set_file_handle :
    (new : Option ℕ) (d : Descriptor) → (set_file_handle new d).1 ≡ record d { file_handle = new }
unfolding set_file_handle
file_handle-set_file_handle new d = elim (Bool-cases (handle_eq d.file_handle new)) [
  | inl same ↦
      rw same (let e : d.file_handle ≡ new = handle_eq-eq d.file_handle new same in rw (← e))
  | inr other ↦ rw other
]

there-set_file_object :
    (obj : Option Stored) (d : Descriptor)
    → is_some (set_file_object obj d).1.file_object ≡ is_some obj
unfolding set_file_object
there-set_file_object obj d = ground arith

kept-set_file_object :
    (obj : Option Stored) (d : Descriptor)
    → ((set_file_object obj d).1.file_handle ≡ d.file_handle)
      × ((set_file_object obj d).1.base ≡ d.base)
      × ((set_file_object obj d).1.changes ≡ d.changes)
unfolding set_file_object
kept-set_file_object obj d = ground arith

announce_kept :
    (old : Option ℕ) (d : Descriptor)
    → ((announce old d).file_handle ≡ d.file_handle)
      × ((announce old d).base ≡ d.base)
      × ((announce old d).file_object ≡ d.file_object)
unfolding announce
announce_kept old d = ground arith

announce-Trail :
    (old new : Option ℕ) (d : Descriptor)
    → Trail none d.changes old
    → d.file_handle ≡ new
    → Trail none (announce old d).changes new
unfolding announce
announce-Trail old new d t now = elim (Bool-cases (handle_eq old d.file_handle)) [
  | inl same ↦ rw same (rw (← now) (rw (← (handle_eq-eq old d.file_handle same)) t))
  | inr differ ↦ rw differ (rw (← now) (Trail-append none d.changes old d.file_handle t differ))
]

pub store-Attached :
    (new : Option ℕ) (obj : Option Stored) (owned : Bool) (d : Descriptor)
    → Attached new obj d (store new obj owned d)
unfolding store
store-Attached new obj owned d =
    let handled = (set_file_handle new d).1 in
    let stored : Descriptor = record (set_file_object obj handled).1 {
      file_handle_owned = owned;
    } in
    let kept = kept-set_file_object obj handled in
    let h = file_handle-set_file_handle new d in
    let a = announce_kept d.file_handle stored in
    record {
      now = a.0 ∙ kept.0 ∙ ap Descriptor.file_handle h;
      there = ap is_some a.2 ∙ there-set_file_object obj handled;
      base = a.1 ∙ kept.1 ∙ ap Descriptor.base h;
      trail = λ t.
          announce-Trail d.file_handle new stored (rw (kept.2 ∙ ap Descriptor.changes h) t)
            (kept.0 ∙ ap Descriptor.file_handle h);
    }

-- The connection is settled; it has an object exactly while it is connected, and a handle exactly with
-- an object; and the signals that were sent lead from no handle to the one that it has.
pub record IsLinked (d : Descriptor) : Type 0 where
  pub settled : (d.base.state ≡ connected) ⊎ (d.base.state ≡ disconnected)
  pub has_object : is_some d.file_object ≡ state_eq d.base.state connected
  pub has_handle : is_some d.file_handle ≡ is_some d.file_object
  pub trail : Trail none d.changes d.file_handle
