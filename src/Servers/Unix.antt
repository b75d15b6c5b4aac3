-- ===== src/Servers/Unix.antt =====
-- UnixSocketListener of src/flockwave/connections/servers.py. A file system is the files by their paths;
-- which calls of the operating system fail, the text that `uuid4` adds to the path and the inode of the
-- new socket are a record parameter.
use flockwave_conn.Common.{
  ℕ, ◌+◌, ◌-◌, Text, Bool, true, false, not, Option, none, some, ◌∷◌, ◌++◌, ◌==◌, ltb,
  if◌then◌else◌,
}
use flockwave_conn.Common.Results.{Fallible, ok, err}
use flockwave_conn.Common.Dict.{Dict, lookup, insert, erase}

pub data Error : Type 0 where
  runtime_error file_exists_error : Error
  os_error : Text → Error

abbrev pub Result {ℓ} : Type ℓ → Type ℓ
Result A = Fallible Error A

pub data File : Type 0 where
  socket_file : ℕ → File
  other_file : ℕ → File

abbrev pub inode_of : File → ℕ
inode_of (socket_file n) = n
inode_of (other_file n) = n

abbrev pub is_socket : File → Bool
is_socket (socket_file _) = true
is_socket (other_file _) = false

pub record Machine : Type 0 where
  pub files : Dict File
  pub umask : ℕ
  pub open_sockets : ℕ

-- What the calls answer: the error that each raises, if it does.
pub record Answers : Type 0 where
  pub has_unix_sockets : Bool
  pub suffix : Text
  pub inode : ℕ
  pub bind : Option Error
  pub stat : Option Error
  pub chmod : Option Error
  pub listen : Option Error
  pub rename : Option Error
  -- the call that takes the temporary file away
  pub unlink : Option Error

pub record Listener : Type 0 where
  pub path : Text
  pub inode : ℕ

-- `_compute_backlog`; `none` is None, which counts as infinity.
unfoldable pub compute_backlog : Option ℕ → ℕ
compute_backlog none = 0xFFFF
compute_backlog (some n) = if ltb 0xFFFF n then 0xFFFF else n

-- `backlog or 0xFFFF`
unfoldable pub backlog_argument : Option ℕ → ℕ
backlog_argument none = 0xFFFF
backlog_argument (some n) = if n == 0 then 0xFFFF else n

-- `os.path.exists(path) and not S_ISSOCK(...)`
unfoldable pub is_in_the_way : Option File → Bool
is_in_the_way none = false
is_in_the_way (some f) = not (is_socket f)

-- The first call that raises.
abbrev pub first_error : Option Error → Option Error → Option Error
first_error (some e) rest = some e
first_error none rest = rest

module _ (answers : Answers) where
  abbrev pub tmp_path : Text → Text
  tmp_path path = path ++ (46 ∷ answers.suffix)

  -- `sock.close()` in the outer `except`.
  unfoldable pub fail_create : Error → Machine → Result Listener × Machine
  fail_create e m = (err e, record m { open_sockets = m.open_sockets - 1 })

  -- The calls behind the bind, in their order: `stat`, `chmod`, `listen` and `rename`.
  unfoldable pub publish_error : Option Error
  publish_error =
      first_error answers.stat
        (first_error answers.chmod (first_error answers.listen answers.rename))

  -- The inner `except` takes the temporary file away; an exception of `unlink` replaces the other one.
  unfoldable pub unlink_tmp : Option Error → Error → Text → Machine → Result Listener × Machine
  unfolding fail_create
  unlink_tmp none e path m = fail_create e (record m { files = erase (tmp_path path) m.files })
  unlink_tmp (some u) e path m = fail_create u m

  unfoldable pub publish : Option Error → Text → Machine → Result Listener × Machine
  unfolding unlink_tmp
  publish (some e) path m = unlink_tmp answers.unlink e path m
  publish none path m = (
    ok (record { path = path; inode = answers.inode }),
    record m { files = insert path (socket_file answers.inode) (erase (tmp_path path) m.files) },
  )

  -- The bind under the mask, which is put back whether the bind raises or not.
  unfoldable pub bind_masked : Option Error → Text → Machine → Machine
  bind_masked (some e) path m = m
  bind_masked none path m = record m {
    files = insert (tmp_path path) (socket_file answers.inode) m.files;
  }

  unfoldable pub under_mask : ℕ → (Machine → Machine) → Machine → Machine
  under_mask mask body m = record (body (record m { umask = mask })) { umask = m.umask }

  unfoldable pub after_bind : Option Error → Text → Machine → Result Listener × Machine
  unfolding publish fail_create publish_error
  after_bind (some e) path m = fail_create e m
  after_bind none path m = publish publish_error path m

  unfoldable pub bind_tmp : Text → Machine → Result Listener × Machine
  unfolding bind_masked under_mask after_bind
  bind_tmp path m =
      after_bind answers.bind path (under_mask 0o777 (bind_masked answers.bind path) m)

  -- `UnixSocketListener._create`
  unfoldable pub create : Text → Machine → Result Listener × Machine
  unfolding bind_tmp is_in_the_way
  create path m =
      if not answers.has_unix_sockets
      then (err runtime_error, m)
      else if is_in_the_way (lookup path m.files)
      then (err file_exists_error, m)
      else bind_tmp path (record m { open_sockets = m.open_sockets + 1 })

-- What connecting to the path of a listener gives.
pub data Connected : Type 0 where
  accepted refused fails : Connected

unfoldable pub unlink_own : Option File → Listener → Machine → Machine
unlink_own none l m = m
unlink_own (some f) l m =
    if l.inode == inode_of f then record m { files = erase l.path m.files } else m

-- `_close`: only a path that nobody answers for, and that is still the file of this listener, is taken
-- away. Whatever the calls raise is ignored.
unfoldable pub close : Bool → Connected → Listener → Machine → Result (Unit {0}) × Machine
unfolding unlink_own
close false _ l m = (err runtime_error, m)
close true refused l m = (ok tt, unlink_own (lookup l.path m.files) l m)
close true _ l m = (ok tt, m)

-- `aclose`, from what closing the wrapped listener raised: its socket is closed in any case.
unfoldable pub aclose :
    Option Error → Bool → Connected → Listener → Machine → Result (Unit {0}) × Machine
unfolding close
aclose (some e) has_unix_sockets c l m = (err e, record m { open_sockets = m.open_sockets - 1 })
aclose none has_unix_sockets c l m =
    close has_unix_sockets c l (record m { open_sockets = m.open_sockets - 1 })
