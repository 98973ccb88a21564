-- ===== src/Fuse/Handlers.antt =====
-- crates/pdcli/src/fs.rs: each handler keeps what `IsSound` says.
use proton_sdk_rs.Prelude.{
  ℕ, ◌<◌, refl, sym, subst, String, Bool, true, false, not, ◌||◌, Option, none, some,
  All-delete_where, delete_where, ◌==◌, Option-cases, inl, inr,
}
use proton_sdk_rs.Prelude.Int.{pos}
use proton_sdk_rs.Node.Uids.{NodeUid}
use proton_sdk_rs.Db.Inodes.{InodeRow, Inodes, Result, ok, err, insert_inode, new_row, get_inode}
use proton_sdk_rs.Db.Inodes.Unique.{insert_row-IsValid}
use proton_sdk_rs.Db.Inodes.Unique as Unique
use proton_sdk_rs.Flush.{enqueue_dirty_upload}
use proton_sdk_rs.Fuse.{
  Mount, Outside, Answer, created, when_free, create, announce_folder, made, mkdir, when_there,
  unlink, announce_move, move_row, overwrite, rename_to, rename_child,
}
use proton_sdk_rs.Fuse.Release.{enqueue_upload_for_row, with_revision, upload_found, release}
use proton_sdk_rs.Fuse.Sound.{
  IsSound, Ends, sound, write-IsSound, enqueue-IsSound, record_event-IsSound, drop_row-IsSound,
  create_cached-Ends, enqueue_dirty_upload-IsValid, enqueue_dirty_upload-inodes,
  set_dirty-KeepsInodes, IsSound-if,
}

module _ (o : Outside) where
  created-Ends :
      (w : Bool) (s : Mount) (p : Inodes × Result ℕ)
      → IsSound s
      → Unique.IsValid p.0
      → Ends (created o w s p)
  created-Ends w s (t, err e) v h = record { sound = v }
  created-Ends w s (t, ok ino) v h =
      let start : IsSound (record s { daemon = record s.daemon { inodes = t } }) = record {
        journal = v.journal;
        inodes = h;
        handles = v.handles;
      } in
      create_cached-Ends o ino w _ (write-IsSound _ _ (set_dirty-KeepsInodes ino true) start)

  when_free-Ends :
      (found : Option InodeRow) (s : Mount) (p : Mount × Answer)
      → IsSound s
      → Ends p
      → Ends (when_free o found s p)
  when_free-Ends none s p v h = h
  when_free-Ends (some row) s p v h = record { sound = v }

  pub create-Ends :
      (parent : ℕ) (name : Option String) (w : Bool) (s : Mount)
      → IsSound s
      → Ends (create o parent name w s)
  unfolding create insert_inode
  create-Ends parent none w s v = record { sound = v }
  create-Ends parent (some name) w s v =
      let made =
        insert_row-IsValid
          (λ ino. record (new_row ino parent name none none none false (pos o.now)) {
            size = 0;
            media_type = o.media_type name;
            revision_uid = none;
            mtime = pos 0;
          })
          s.daemon.inodes (λ n. refl) v.inodes in
      search (sound, when_free-Ends, created-Ends, made) depth 24

  announce_folder-IsSound :
      (ino parent : ℕ) (name : String) (s : Mount)
      → IsSound s
      → IsSound (announce_folder o ino parent name s)
  unfolding announce_folder
  announce_folder-IsSound ino parent name s v =
      elim (Option-cases (get_inode ino s.daemon.inodes)) [
        | inl gone ↦ rw (announce_folder, gone) v
        | inr (row, e) ↦
            rw (announce_folder, e) (search (sound, record_event-IsSound, enqueue-IsSound) depth 24)
      ]

  made-Ends :
      (parent : ℕ) (name : String) (s : Mount) (p : Inodes × Result ℕ)
      → IsSound s
      → Unique.IsValid p.0
      → Ends (made o parent name s p)
  made-Ends parent name s (t, err e) v h = record { sound = v }
  made-Ends parent name s (t, ok ino) v h =
      let start : IsSound (record s { daemon = record s.daemon { inodes = t } }) = record {
        journal = v.journal;
        inodes = h;
        handles = v.handles;
      } in
      record { sound = announce_folder-IsSound ino parent name _ start }

  pub mkdir-Ends :
      (parent : ℕ) (name : Option String) (s : Mount) → IsSound s → Ends (mkdir o parent name s)
  unfolding mkdir insert_inode
  mkdir-Ends parent none s v = record { sound = v }
  mkdir-Ends parent (some name) s v =
      let row =
        insert_row-IsValid
          (λ ino. record (new_row ino parent name none none none true (pos o.now)) {
            size = 0;
            media_type = "";
            revision_uid = none;
            mtime = pos 0;
          })
          s.daemon.inodes (λ n. refl) v.inodes in
      search (sound, when_free-Ends, made-Ends, row) depth 24

  pub when_there-Ends :
      (found : Option InodeRow) (s : Mount) (f : InodeRow → Mount × Answer)
      → IsSound s
      → ((row : InodeRow) → Ends (f row))
      → Ends (when_there o found s f)
  when_there-Ends none s f v h = record { sound = v }
  when_there-Ends (some row) s f v h = h row

  pub unlink-Ends :
      (parent : ℕ) (name : Option String) (s : Mount) → IsSound s → Ends (unlink o parent name s)
  unfolding unlink
  unlink-Ends parent none s v = record { sound = v }
  unlink-Ends parent (some name) s v = search (sound, when_there-Ends, drop_row-IsSound) depth 24

  announce_move-IsSound :
      (from to : ℕ) (name : String) (row : InodeRow) (s : Mount)
      → IsSound s
      → IsSound (announce_move o from to name row s)
  unfolding announce_move
  announce_move-IsSound from to name row s v = search (sound, enqueue-IsSound) depth 24

  move_row-Ends :
      (from to : ℕ) (name : String) (row : InodeRow) (s : Mount)
      → IsSound s
      → Ends (move_row o from to name row s)
  unfolding move_row
  move_row-Ends from to name row s v = search (sound, announce_move-IsSound) depth 24

  overwrite-Ends :
      (found : Option InodeRow) (s : Mount) (f : Mount → Mount × Answer)
      → IsSound s
      → ((u : Mount) → IsSound u → Ends (f u))
      → Ends (overwrite o found s f)
  unfolding overwrite
  overwrite-Ends none s f v h = h s v
  overwrite-Ends (some row) s f v h = search (sound, drop_row-IsSound) depth 24

  pub rename-Ends :
      (from : ℕ) (name : Option String) (to : ℕ) (newname : Option String) (s : Mount)
      → IsSound s
      → Ends (rename_child o from name to newname s)
  unfolding rename_child rename_to
  rename-Ends from none to newname s v = record { sound = v }
  rename-Ends from (some name) to none s v = record { sound = v }
  rename-Ends from (some name) to (some newname) s v =
      search (sound, when_there-Ends, overwrite-Ends, move_row-Ends) depth 24

  module _ (refresh : NodeUid → Option String) where
    enqueue_upload-IsSound :
        (row : InodeRow) (s : Mount) → IsSound s → IsSound (enqueue_upload_for_row o refresh row s)
    unfolding enqueue_upload_for_row
    enqueue_upload-IsSound row s v =
        let queued : IsSound (record s {
          daemon = enqueue_dirty_upload o.row_json o.now (with_revision o refresh row) s.daemon;
        }) =
          record {
            journal =
                enqueue_dirty_upload-IsValid o.row_json o.now (with_revision o refresh row) s.daemon
                  v.journal;
            inodes =
                subst Unique.IsValid
                  (sym (
                    enqueue_dirty_upload-inodes o.row_json o.now (with_revision o refresh row)
                      s.daemon))
                  v.inodes;
            handles = v.handles;
          } in
        IsSound-if (not row.dirty || row.is_dir) s _ v (
          IsSound-if (o.ignored s.daemon.inodes row) _ _
            (record_event-IsSound o "local" "ignored" (some row.name) none _
              (write-IsSound _ _ (set_dirty-KeepsInodes row.ino false) v))
            queued)

    pub upload_found-IsSound :
        (found : Option InodeRow) (s : Mount) → IsSound s → IsSound (upload_found o refresh found s)
    upload_found-IsSound none s v = v
    upload_found-IsSound (some row) s v = enqueue_upload-IsSound row s v

    pub release-Ends : (ino fh : ℕ) (s : Mount) → IsSound s → Ends (release o refresh ino fh s)
    unfolding release
    release-Ends ino fh s v =
        let closed : IsSound
            (record s { open_files = delete_where (λ f. f.fh == fh) s.open_files }) =
          record {
            journal = v.journal;
            inodes = v.inodes;
            handles =
                All-delete_where (λ f. f.fh < s.next_fh) (λ f. f.fh == fh) s.open_files v.handles;
          } in
        record { sound = found (get_inode ino s.daemon.inodes) closed }
      where
        found :
            (row : Option InodeRow) {u : Mount} → IsSound u → IsSound (upload_found o refresh row u)
        found none v = v
        found (some row) v = enqueue_upload-IsSound row _ v
