-- ===== src/Descriptor/State.antt =====
-- The fields of FDConnectionBase, and `_attach` and `_detach` (src/flockwave/connections/base.py).
-- A file-like object is known by a number; what it answers is a record parameter. The calls that are
-- made of it are kept in order, as are the signals `file_handle_changed`.
use flockwave_conn.Common.{
  ℕ, Text, Bool, true, false, Option, none, some, List, [], ◌∷◌, ◌++◌, ◌==◌, if◌then◌else◌,
}
use flockwave_conn.Common.Results.{Fallible, ok, err, ◌>>=◌}
use flockwave_conn.Connection.State.{Connection, new_connection}

pub data Error : Type 0 where
  assertion_error runtime_error : Error
  -- whatever the operating system or the file-like object raises
  foreign : Text → Error

abbrev pub Result {ℓ} : Type ℓ → Type ℓ
Result A = Fallible Error A

-- A file-like object; one without `aclose` is wrapped by Trio before it is stored.
pub record FileObject : Type 0 where
  pub id : ℕ
  pub has_aclose : Bool

pub data Stored : Type 0 where
  as_is wrapped : FileObject → Stored

-- `==` on the stored objects is identity; each wrapper is a new object.
abbrev stored_eq : Stored → Stored → Bool
stored_eq (as_is a) (as_is b) = a.id == b.id
stored_eq _ _ = false

-- What a connection may be attached to.
pub data Attachment : Type 0 where
  nothing : Attachment
  handle : ℕ → Attachment
  object : FileObject → Attachment

pub data FileCall : Type 0 where
  reads : ℕ → FileCall
  reads_all flushes : FileCall
  writes : Text → FileCall

pub record Descriptor : Type 0 where
  pub base : Connection
  pub file_handle : Option ℕ
  pub file_handle_owned : Bool
  pub file_object : Option Stored
  pub autoflush : Bool
  -- the old and the new handle of each signal
  pub changes : List (Option ℕ × Option ℕ)
  pub calls : List (Stored × FileCall)

unfoldable pub new_descriptor : Bool → Descriptor
new_descriptor autoflush = record {
  base = new_connection;
  file_handle = none;
  file_handle_owned = false;
  file_object = none;
  autoflush = autoflush;
  changes = [];
  calls = [];
}

-- `os.fdopen`, and the method `fileno` of an object.
pub record System : Type 0 where
  pub fdopen : ℕ → Result FileObject
  pub fileno : FileObject → Result ℕ

abbrev pub handle_eq : Option ℕ → Option ℕ → Bool
handle_eq none none = true
handle_eq (some a) (some b) = a == b
handle_eq _ _ = false

abbrev object_eq : Option Stored → Option Stored → Bool
object_eq none none = true
object_eq (some a) (some b) = stored_eq a b
object_eq _ _ = false

unfoldable pub set_file_handle : Option ℕ → Descriptor → Bool × Descriptor
set_file_handle value d =
    if handle_eq d.file_handle value then (false, d) else (true, record d { file_handle = value })

unfoldable pub set_file_object : Option Stored → Descriptor → Bool × Descriptor
set_file_object value d =
    if object_eq d.file_object value then (false, d) else (true, record d { file_object = value })

unfoldable pub wrap_file : FileObject → Stored
wrap_file obj = if obj.has_aclose then as_is obj else wrapped obj

-- `self.file_handle_changed.send`, unless the handle is the old one.
unfoldable pub announce : Option ℕ → Descriptor → Descriptor
announce old d =
    if handle_eq old d.file_handle
    then d
    else record d { changes = d.changes ++ (old, d.file_handle) ∷ [] }

-- The second half of `_attach`.
unfoldable pub store : Option ℕ → Option Stored → Bool → Descriptor → Descriptor
unfolding set_file_handle set_file_object announce
store new obj owned d =
    announce d.file_handle
      (record (set_file_object obj (set_file_handle new d).1).1 { file_handle_owned = owned })

module _ (sys : System) where
  open sys use {fdopen, fileno}

  -- The handle, the object and whether the handle is owned.
  unfoldable pub resolve : Attachment → Result (Option ℕ × Option Stored × Bool)
  unfolding wrap_file
  resolve nothing = ok (none, none, false)
  resolve (handle n) = do obj ← fdopen n; ok (some n, some (wrap_file obj), false)
  resolve (object obj) = do n ← fileno obj; ok (some n, some (wrap_file obj), true)

  unfoldable pub store_resolved :
      Descriptor → Result (Option ℕ × Option Stored × Bool) → Result (Unit {0}) × Descriptor
  unfolding store
  store_resolved d (err e) = (err e, d)
  store_resolved d (ok (h, obj, owned)) = (ok tt, store h obj owned d)

  unfoldable pub attach : Attachment → Descriptor → Result (Unit {0}) × Descriptor
  unfolding resolve store_resolved
  attach a d = store_resolved d (resolve a)

  unfoldable pub detach : Descriptor → Result (Unit {0}) × Descriptor
  unfolding attach
  detach d = attach nothing d
