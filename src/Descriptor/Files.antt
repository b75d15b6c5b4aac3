-- ===== src/Descriptor/Files.antt =====
-- `_get_file_object_during_open` of FileConnection and FDConnection
-- (src/flockwave/connections/file.py). `open_file` and `fdopen` of the operating system, and the three
-- standard streams, are parameters.
use flockwave_conn.Common.{ℕ, Text, codes, Bool, ◌||◌, Option, none, some, ◌==◌, if◌then◌else◌}
use flockwave_conn.Common.Results.{ok, err, ◌>>=◌}
use flockwave_conn.Descriptor.State.{
  runtime_error, Result, FileObject, Attachment, object, Descriptor, new_descriptor,
}

pub record FileSystem : Type 0 where
  pub open_file : Text → Text → Result FileObject
  pub fdopen : ℕ → Text → Result FileObject
  pub stdin : FileObject
  pub stdout : FileObject
  pub stderr : FileObject

pub record FileConnection : Type 0 where
  pub path : Text
  pub mode : Text
  pub descriptor : Descriptor

pub record FdConnection : Type 0 where
  pub fd : ℕ
  pub mode : Option Text
  pub descriptor : Descriptor

unfoldable pub new_file_connection : Text → Text → Bool → FileConnection
new_file_connection path mode autoflush = record {
  path = path;
  mode = mode;
  descriptor = new_descriptor autoflush;
}

-- The path is the number already, as `int(path)` gives it.
unfoldable pub new_fd_connection : ℕ → Option Text → Bool → FdConnection
new_fd_connection path mode autoflush = record {
  fd = path;
  mode = mode;
  descriptor = new_descriptor autoflush;
}

module _ (fs : FileSystem) where
  open fs use {open_file, fdopen, stdin, stdout, stderr}

  unfoldable pub get_file_object : FileConnection → Result Attachment
  get_file_object c = do obj ← open_file c.path c.mode; ok (object obj)

  mode_of : ℕ → Option Text → Result Text
  mode_of fd (some mode) = ok mode
  mode_of fd none =
      if fd == 0
      then ok (codes "r")
      else if (fd == 1) || (fd == 2)
      then ok (codes "w")
      else err runtime_error

  object_for : ℕ → Text → Result FileObject
  object_for fd mode =
      if fd == 0
      then ok stdin
      else if fd == 1
      then ok stdout
      else if fd == 2
      then ok stderr
      else fdopen fd mode

  unfoldable pub get_fd_object : FdConnection → Result Attachment
  unfolding mode_of object_for
  get_fd_object c = do mode ← mode_of c.fd c.mode; obj ← object_for c.fd mode; ok (object obj)
