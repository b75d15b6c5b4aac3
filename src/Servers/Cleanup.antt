-- ===== src/Servers/Cleanup.antt =====
-- What `UnixSocketListener._create` leaves behind.
use flockwave_conn.Common.{
  ◌+◌, Text, ◌≡◌, refl, sym, Option, none, some, arith, if◌then◌else◌, Bool-cases, ◌⊎◌, inl, inr,
  text_eq, text_eq_iff,
}
use flockwave_conn.Common.Results.{ok, err}
use flockwave_conn.Common.Dict.{Dict, lookup, insert, erase, lookup-insert, lookup-erase}
use flockwave_conn.Servers.Unix.{
  Error, Result, File, socket_file, Machine, Answers, Listener, tmp_path, fail_create, unlink_tmp,
  publish, publish_error, after_bind, bind_masked, under_mask, is_in_the_way, create,
}

module _ (answers : Answers) where
  -- After a failure, the files are as they were, or `unlink` was the last call to fail: then the
  -- temporary file is still there.
  abbrev pub CleansUp : Text → Machine → Error → Machine → Type 0
  CleansUp path m e m' =
      ((j : Text) → lookup j m'.files ≡ lookup j m.files)
      ⊎ (answers.unlink ≡ some e)
        × ((j : Text)
            → lookup j m'.files ≡ (
                if text_eq (tmp_path answers path) j
                then some (socket_file answers.inode)
                else lookup j m.files))

  -- A failed creation leaves the files as above, and the mask and the number of open sockets as they
  -- were; a successful one adds the socket under the path, and one open socket.
  abbrev pub Leaves : Text → Machine → Result Listener → Machine → Type 0
  Leaves path m (err e) m' =
      CleansUp path m e m' × (m'.umask ≡ m.umask) × (m'.open_sockets ≡ m.open_sockets)
  Leaves path m (ok l) m' =
      ((j : Text)
        → lookup j m'.files
          ≡ (if text_eq path j then some (socket_file answers.inode) else lookup j m.files))
      × (m'.umask ≡ m.umask)
      × (m'.open_sockets ≡ m.open_sockets + 1)
      × (l ≡ record { path = path; inode = answers.inode })

  -- The files with the temporary one added and taken away.
  there_and_back :
      (tmp j : Text) (f : File) (d : Dict File)
      → lookup tmp d ≡ none
      → lookup j (erase tmp (insert tmp f d)) ≡ lookup j d
  there_and_back tmp j f d fresh =
      ground
        (arith, text_eq_iff tmp j, lookup-erase j tmp (insert tmp f d), lookup-insert j tmp f d)

  unlink_tmp-Leaves :
      (u : Option Error) (e : Error) (path : Text) (m : Machine)
      → u ≡ answers.unlink
      → lookup (tmp_path answers path) m.files ≡ none
      → let bound : Machine = record m {
        open_sockets = m.open_sockets + 1;
        files = insert (tmp_path answers path) (socket_file answers.inode) m.files;
      } in
        let (r, m') = unlink_tmp answers u e path bound in Leaves path m r m'
  unfolding unlink_tmp fail_create
  unlink_tmp-Leaves none e path m same fresh = (
    inl (λ j. there_and_back (tmp_path answers path) j (socket_file answers.inode) m.files fresh),
    refl,
    omega arith,
  )
  unlink_tmp-Leaves (some u) e path m same fresh = (
    inr (
      sym same,
      λ j. lookup-insert j (tmp_path answers path) (socket_file answers.inode) m.files,
    ),
    refl,
    omega arith,
  )

  publish-Leaves :
      (e : Option Error) (path : Text) (m : Machine)
      → lookup (tmp_path answers path) m.files ≡ none
      → let bound : Machine = record m {
        open_sockets = m.open_sockets + 1;
        files = insert (tmp_path answers path) (socket_file answers.inode) m.files;
      } in
        let (r, m') = publish answers e path bound in Leaves path m r m'
  unfolding publish
  publish-Leaves (some e) path m fresh = unlink_tmp-Leaves answers.unlink e path m refl fresh
  publish-Leaves none path m fresh = (
    λ j. ground (
      arith,
      lookup-insert j path (socket_file answers.inode) (
          erase (tmp_path answers path)
            (insert (tmp_path answers path) (socket_file answers.inode) m.files)),
      there_and_back (tmp_path answers path) j (socket_file answers.inode) m.files fresh,
    ),
    refl,
    refl,
    refl,
  )

  bind-Leaves :
      (e : Option Error) (path : Text) (m : Machine)
      → lookup (tmp_path answers path) m.files ≡ none
      → let begun : Machine = record m { open_sockets = m.open_sockets + 1 } in
        let (r, m') =
          after_bind answers e path (under_mask answers 0o777 (bind_masked answers e path) begun) in
        Leaves path m r m'
  unfolding after_bind under_mask bind_masked fail_create
  bind-Leaves (some e) path m fresh = (inl (λ j. refl), refl, omega arith)
  bind-Leaves none path m fresh = publish-Leaves (publish_error answers) path m fresh

  -- If nothing stands at the temporary path before, then whichever of the modelled calls of the operating
  -- system fails, a failure to create a listener leaves no open socket and no changed mask, and the files
  -- as they were, unless the call fails that takes the temporary file away: its exception is raised then,
  -- and the temporary file stays. When creating succeeds, the path holds the new socket and every other
  -- path what it held.
  pub create-Leaves :
      (path : Text) (m : Machine)
      → lookup (tmp_path answers path) m.files ≡ none
      → Leaves path m (create answers path m).0 (create answers path m).1
  unfolding create
  create-Leaves path m fresh = elim (Bool-cases answers.has_unix_sockets) [
    | inr lacks ↦ rw lacks (inl (λ j. refl), refl, refl)
    | inl has ↦ rw has (elim (Bool-cases (is_in_the_way (lookup path m.files))) [
      | inl taken ↦ rw taken (inl (λ j. refl), refl, refl)
      | inr free ↦ rw free (bind-Leaves answers.bind path m fresh)
    ])
  ]

  -- What closing leaves of a machine on which the listener was created.
  abbrev pub Restored : Machine → Result (Unit {0}) × Machine → Type 0
  Restored m c =
      (c.0 ≡ ok tt)
      × ((j : Text) → lookup j c.1.files ≡ lookup j m.files)
      × (c.1.umask ≡ m.umask)
      × (c.1.open_sockets ≡ m.open_sockets)
