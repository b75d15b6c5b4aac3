-- ===== src/Servers/Tests.antt =====
-- A listener whose `listen` call fails, and one that is created and closed.
use flockwave_conn.Common.{Text, codes, ◌≡◌, refl, true, none, some, [], ◌∷◌, text_eq}
use flockwave_conn.Common.Dict.{lookup, insert, erase}
use flockwave_conn.Servers.Unix.{
  Machine, Answers, Listener, os_error, other_file, socket_file, create, compute_backlog,
}
use flockwave_conn.Servers.Cleanup.{Leaves, create-Leaves}

abbrev cannot_listen : Answers
cannot_listen = record {
  has_unix_sockets = true;
  suffix = codes "0";
  inode = 7;
  bind = none;
  stat = none;
  chmod = none;
  listen = some (os_error (codes "no"));
  rename = none;
  unlink = none;
}

abbrev can_listen : Answers
can_listen = record cannot_listen { listen = none }

abbrev host : Machine
host = record { files = (codes "notes", other_file 3) ∷ []; umask = 18; open_sockets = 0 }

abbrev socket_path : Text
socket_path = codes "s"

backlog_is_cut : compute_backlog (some 100000) ≡ 65535
unfolding compute_backlog
backlog_is_cut = refl

failure_leaves_no_file : (create cannot_listen socket_path host).1 ≡ host
unfolding create lookup insert erase text_eq
failure_leaves_no_file = refl

abbrev cannot_unlink : Answers
cannot_unlink = record cannot_listen { unlink = some (os_error (codes "gone")) }

failed_unlink_leaves_file :
    (create cannot_unlink socket_path host).1.files
    ≡ (codes "notes", other_file 3) ∷ (codes "s.0", socket_file 7) ∷ []
unfolding create lookup insert erase text_eq
failed_unlink_leaves_file = refl

create-Leaves_example :
    Leaves cannot_listen socket_path host
      (create cannot_listen socket_path host).0
      (create cannot_listen socket_path host).1
unfolding lookup text_eq
create-Leaves_example = create-Leaves cannot_listen socket_path host refl

abbrev made : Listener
made = record { path = socket_path; inode = 7 }
