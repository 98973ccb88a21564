-- ===== src/Fuse/Release.antt =====
-- crates/pdcli/src/fs.rs: `release`, which queues the upload of a file that was written. `refresh` is
-- the drive's answer to a lookup of a node: the text of its active revision.
use proton_sdk_rs.Prelude.{
  ℕ, String, false, not, ◌||◌, Option, none, some, ◌==◌, if◌then◌else◌, delete_where,
}
use proton_sdk_rs.Node.Uids.{NodeUid, parse}
use proton_sdk_rs.Db.Inodes.{InodeRow, get_inode}
use proton_sdk_rs.Db.Inodes.Updates.{set_dirty}
use proton_sdk_rs.Flush.{enqueue_dirty_upload, has_value}
use proton_sdk_rs.Fuse.{Mount, Outside, Answer, done, write, record_event}

module _ (o : Outside) (refresh : NodeUid → Option String) where
  -- A row with a node but no revision takes the revision that the drive has.
  unfoldable pub with_revision : InodeRow → InodeRow
  unfolding parse
  with_revision row = elim row.node_uid [
    | none ↦ row
    | some text ↦ elim (parse text) [
      | none ↦ row
      | some uid ↦ elim (refresh uid) [
        | none ↦ row
        | some revision ↦
            if has_value row.revision_uid then row else record row { revision_uid = some revision }
      ]
    ]
  ]

  unfoldable pub enqueue_upload_for_row : InodeRow → Mount → Mount
  unfolding with_revision enqueue_dirty_upload record_event
  enqueue_upload_for_row row s =
      if not row.dirty || row.is_dir
      then s
      else if o.ignored s.daemon.inodes row
      then record_event o "local" "ignored" (some row.name) none (write (set_dirty row.ino false) s)
      else record s { daemon = enqueue_dirty_upload o.row_json o.now (with_revision row) s.daemon }

  abbrev pub upload_found : Option InodeRow → Mount → Mount
  upload_found none s = s
  upload_found (some row) s = enqueue_upload_for_row row s

  unfoldable pub release : ℕ → ℕ → Mount → Mount × Answer
  unfolding enqueue_upload_for_row
  release ino fh s =
      let closed = record s { open_files = delete_where (λ f. f.fh == fh) s.open_files } in
      (upload_found (get_inode ino s.daemon.inodes) closed, done)
