-- ===== src/Descriptor/Operations.antt =====
-- The operations of FDConnectionBase (src/flockwave/connections/base.py), one call at a time: `open`
-- and `close` with their hooks, `read`, `write` and `flush`.
use flockwave_conn.Common.{ℕ, Text, Option, none, some, [], ◌∷◌, ◌++◌, if◌then◌else◌}
use flockwave_conn.Common.Results.{ok, err}
use flockwave_conn.Connection.State.{
  ConnectionState, disconnected, connecting, connected, disconnecting, set_state,
}
use flockwave_conn.Descriptor.State.{
  assertion_error, runtime_error, Result, Stored, Attachment, nothing, handle, object, FileCall,
  reads, reads_all, flushes, writes, Descriptor, System, attach, detach,
}

abbrev pub Called : Type 0 → Type 0
Called A = Result A × Descriptor

abbrev pub move_to : ConnectionState → Descriptor → Descriptor
move_to s d = record d { base = set_state s d.base }

abbrev make_call : Stored → FileCall → Descriptor → Descriptor
make_call obj call d = record d { calls = d.calls ++ (obj, call) ∷ [] }

-- What the stored objects answer to the calls.
pub record Answers : Type 0 where
  pub on_read : Stored → Option ℕ → Result Text
  pub on_write : Stored → Text → Result (Unit {0})
  pub on_flush : Stored → Result (Unit {0})

-- The size -1 is `none` here.
read_call : Option ℕ → FileCall
read_call none = reads_all
read_call (some n) = reads n

-- The ends of `open` and `close`, when the hook has ended.
unfoldable pub finish_open : Called (Unit {0}) → Called (Unit {0})
finish_open (ok _, d) = (ok tt, move_to connected d)
finish_open (err e, d) = (err e, move_to disconnected d)

unfoldable pub finish_close : Called (Unit {0}) → Called (Unit {0})
finish_close (ok _, d) = (ok tt, move_to disconnected d)
finish_close (err e, d) = (err e, move_to connected d)

module _ (sys : System) where
  -- `_open`, from what `_get_file_object_during_open` returned or raised.
  unfoldable pub open_hook : Result Attachment → Descriptor → Called (Unit {0})
  open_hook (err e) d = (err e, d)
  open_hook (ok nothing) d = (err runtime_error, d)
  open_hook (ok (handle n)) d = attach sys (handle n) d
  open_hook (ok (object obj)) d = attach sys (object obj) d

  unfoldable pub open_from : ConnectionState → Result Attachment → Descriptor → Called (Unit {0})
  open_from disconnected got d = finish_open (open_hook got (move_to connecting d))
  open_from _ got d = (ok tt, d)

  unfoldable pub open_descriptor : Result Attachment → Descriptor → Called (Unit {0})
  unfolding open_from finish_open open_hook
  open_descriptor got d = open_from d.base.state got d

  unfoldable pub close_object : Option Stored → Descriptor → Called (Unit {0})
  close_object none d = (err assertion_error, d)
  close_object (some _) d = detach sys d

  -- `_close`
  unfoldable pub close_hook : Descriptor → Called (Unit {0})
  unfolding close_object
  close_hook d = close_object d.file_object d

  unfoldable pub close_from : ConnectionState → Descriptor → Called (Unit {0})
  close_from connected d = finish_close (close_hook (move_to disconnecting d))
  close_from _ d = (ok tt, d)

  unfoldable pub close : Descriptor → Called (Unit {0})
  unfolding close_from finish_close close_hook
  close d = close_from d.base.state d

module _ (answers : Answers) where
  open answers use {on_read, on_write, on_flush}

  read_object : Option Stored → Option ℕ → Descriptor → Called Text
  unfolding read_call
  read_object none size d = (err assertion_error, d)
  read_object (some obj) size d = (on_read obj size, make_call obj (read_call size) d)

  unfoldable pub read : Option ℕ → Descriptor → Called Text
  unfolding read_object
  read size d = read_object d.file_object size d

  flush_object : Option Stored → Descriptor → Called (Unit {0})
  flush_object none d = (ok tt, d)
  flush_object (some obj) d = (on_flush obj, make_call obj flushes d)

  unfoldable pub flush : Descriptor → Called (Unit {0})
  unfolding flush_object
  flush d = flush_object d.file_object d

  -- `if self.autoflush: await self.flush()`
  after_write : Called (Unit {0}) → Called (Unit {0})
  unfolding flush
  after_write (err e, d) = (err e, d)
  after_write (ok _, d) = if d.autoflush then flush d else (ok tt, d)

  write_object : Option Stored → Text → Descriptor → Called (Unit {0})
  unfolding after_write
  write_object none bytes d = (err assertion_error, d)
  write_object (some obj) bytes d = after_write (on_write obj bytes, make_call obj (writes bytes) d)

  unfoldable pub write : Text → Descriptor → Called (Unit {0})
  unfolding write_object
  write bytes d = write_object d.file_object bytes d
