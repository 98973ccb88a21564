-- ===== src/Flush/Process/Created.antt =====
-- crates/pdcli/src/fs.rs: a new file reaches the drive, when the drive and the file system refuse nothing.
use text.Mathlib.Text.{◌==◌ as str_eq}
use proton_sdk_rs.Prelude.{
  ℕ, ◌≡◌, refl, ap, ◌∙◌, String, true, false, none, some, List, [], ◌∷◌, arith, Bool-cases, inl,
  inr, first_where, update_where,
}
use proton_sdk_rs.Prelude.Int.{pos}
use proton_sdk_rs.Node.Uids.{NodeUid, RevisionUid, raw, revision_text}
use proton_sdk_rs.Node.Uids as Uids
use proton_sdk_rs.Drive.{Drive, ok, RemoteFile}
use proton_sdk_rs.Db.Journal.{JournalEntry}
use proton_sdk_rs.Db.Inodes.{
  InodeRow, Inodes, get_inode, has_ino, uid_taken, update_ino, update_ids, update_node_uid, set_ids,
}
use proton_sdk_rs.Db.Inodes.Updates.{set_dirty, set_cached_path, update_revision}
use proton_sdk_rs.Flush.{Daemon}
use proton_sdk_rs.Flush.Process.{
  parse_uid, ask, ignore_result, set_node_uid, resolve_parent_node_uid, as_u64, value_or,
}
use proton_sdk_rs.Flush.Process.Uploads.{
  Payload, upload_new, track, move_cache_to_revision_path, refresh_created, create_remote_file,
  process_create_file,
}

-- A drive that gives every upload this UID and this file.
abbrev pub obliging : NodeUid → RemoteFile → Drive
obliging uid f = record {
  folder_uid = λ _. ok uid;
  created = λ _. ok uid;
  uploader = λ _. ok tt;
  opened = λ _. ok tt;
  uploaded = λ _. ok uid;
  child_files = λ _. ok [];
  remote_file = λ _. some f;
  changed = λ _. ok tt;
  renamed_file = λ _. true;
  transfer_id = λ _. 0;
}

abbrev size_of : RemoteFile → ℕ
size_of f = as_u64 (value_or f.claimed_size f.total_size_on_cloud_storage)

-- The row of the file that is then there.
abbrev pub created_row : NodeUid → RemoteFile → (String → String) → ℕ → InodeRow → InodeRow
created_row uid f revision_path now row =
    record (set_ids (some (raw uid)) (some uid.volume_id) (some uid.link_id) row) {
      dirty = false;
      revision_uid = some (revision_text f.active_revision);
      size = size_of f;
      mtime = pos now;
      cached_path = some (revision_path (revision_text f.active_revision));
    }

first_where-update_where :
    (ino : ℕ) (f : InodeRow → InodeRow) (rows : List InodeRow) (row : InodeRow)
    → ((r : InodeRow) → (f r).ino ≡ r.ino)
    → first_where (has_ino ino) rows ≡ some row
    → first_where (has_ino ino) (update_where (has_ino ino) f rows) ≡ some (f row)
first_where-update_where ino f [] row h e = absurd (ground (arith, e))
first_where-update_where ino f (r ∷ rows) row h e = elim (Bool-cases (has_ino ino r)) [
  | inl hit ↦
      let same : r ≡ row = ground (arith, hit, e) in rw (hit) (ground (arith, h r, hit, same))
  | inr miss ↦ ground (arith, miss, e, first_where-update_where ino f rows row h)
]

pub get_inode-update_ino :
    (ino : ℕ) (f : InodeRow → InodeRow) (t : Inodes) (row : InodeRow)
    → ((r : InodeRow) → (f r).ino ≡ r.ino)
    → get_inode ino t ≡ some row
    → get_inode ino (update_ino ino f t).0 ≡ some (f row)
unfolding get_inode update_ino
get_inode-update_ino ino f t row h e = first_where-update_where ino f t.rows row h e

module _ (uid : NodeUid) (f : RemoteFile) (revision_path : String → String) (now : ℕ) where
  -- The four statements on the table.
  abbrev write_all : ℕ → Inodes → Inodes
  write_all ino t =
      let rev = revision_text f.active_revision in
      let t = (update_node_uid ino (raw uid) uid.volume_id uid.link_id t).0 in
      let t = (set_dirty ino false t).0 in
      let t = (update_revision ino rev (size_of f) (pos now) t).0 in
      (set_cached_path ino (some (revision_path rev)) t).0

  write_all_lem :
      (ino : ℕ) (t : Inodes) (row : InodeRow)
      → get_inode ino t ≡ some row
      → uid_taken ino (some (raw uid)) t.rows ≡ false
      → get_inode ino (write_all ino t) ≡ some (created_row uid f revision_path now row)
  unfolding update_node_uid update_ids set_dirty update_revision set_cached_path
  write_all_lem ino t row e free =
      let ids : (update_node_uid ino (raw uid) uid.volume_id uid.link_id t).0
          ≡ (update_ino ino (set_ids (some (raw uid)) (some uid.volume_id) (some uid.link_id))
              t).0 =
        ground (arith, free) in
      get_inode-update_ino ino _ _ _ (λ r. refl)
        (get_inode-update_ino ino _ _ _ (λ r. refl)
          (get_inode-update_ino ino _ _ _ (λ r. refl)
            (ap (get_inode ino) ids ∙ get_inode-update_ino ino _ _ _ (λ r. refl) e)))

  move_cache_lem :
      (from to : String) (d : Daemon)
      → ((move_cache_to_revision_path (obliging uid f) revision_path now from to d).0.inodes
          ≡ d.inodes)
        × ((move_cache_to_revision_path (obliging uid f) revision_path now from to d).1 ≡ ok to)
  unfolding move_cache_to_revision_path ask
  move_cache_lem from to d = elim (Bool-cases (str_eq from to)) [
    | inl same ↦ rw (move_cache_to_revision_path, same) (refl, refl)
    | inr differ ↦ rw (move_cache_to_revision_path, differ) (refl, refl)
  ]

  -- The two statements behind the lookup of the new node.
  abbrev write_revision : ℕ → Inodes → Inodes
  write_revision ino t =
      let rev = revision_text f.active_revision in
      (set_cached_path ino (some (revision_path rev))
        (update_revision ino rev (size_of f) (pos now) t).0).0

  refresh_lem :
      (ino : ℕ) (path : String) (d : Daemon)
      → ((refresh_created (obliging uid f) revision_path now ino path f d).0.inodes
          ≡ write_revision ino d.inodes)
        × ((refresh_created (obliging uid f) revision_path now ino path f d).1 ≡ ok tt)
  unfolding refresh_created ignore_result move_cache_to_revision_path ask
  refresh_lem ino path d =
      elim (Bool-cases (str_eq path (revision_path (revision_text f.active_revision)))) [
        | inl same ↦ rw (refresh_created, same) (refl, refl)
        | inr differ ↦ rw (refresh_created, differ) (refl, refl)
      ]

  create_remote_lem :
      (ino : ℕ) (row parent : InodeRow) (path p : String) (q : NodeUid) (d : Daemon)
      → get_inode row.parent_ino d.inodes ≡ some parent
      → parent.node_uid ≡ some p
      → Uids.parse p ≡ some q
      → ((create_remote_file (obliging uid f) revision_path now ino row path d).0.inodes
          ≡ write_all ino d.inodes)
        × ((create_remote_file (obliging uid f) revision_path now ino row path d).1 ≡ ok tt)
  unfolding create_remote_file ask ignore_result set_node_uid resolve_parent_node_uid parse_uid
      upload_new track
  create_remote_lem ino row parent path p q d there known parsed =
      rw (create_remote_file, there, known, parsed) (refresh_lem ino path _)

  -- With a drive and a file system that refuse nothing, a new file that has cached bytes, whose parent's
  -- node UID is stored and can be read, and whose own new UID no other row has: `create_file` succeeds,
  -- and the row then has the UIDs of the node and of its revision, the revision's size and cache path,
  -- and is not dirty.
  pub process_create_file_lem :
      (payload : Payload) (e : JournalEntry) (d : Daemon) (row parent : InodeRow) (path p : String)
      (q : NodeUid)
      → get_inode e.ino d.inodes ≡ some row
      → row.node_uid ≡ none
      → row.cached_path ≡ some path
      → get_inode row.parent_ino d.inodes ≡ some parent
      → parent.node_uid ≡ some p
      → Uids.parse p ≡ some q
      → uid_taken e.ino (some (raw uid)) d.inodes.rows ≡ false
      → let (after, result) = process_create_file (obliging uid f) revision_path now payload e d in
        (result ≡ ok tt)
        × (get_inode e.ino after.inodes ≡ some (created_row uid f revision_path now row))
  unfolding process_create_file
  process_create_file_lem payload e d row parent path p q found fresh cached there known parsed
        free =
      let (tables, result) = create_remote_lem e.ino row parent path p q d there known parsed in
      rw (process_create_file, found, fresh, cached)
        (result, ap (get_inode e.ino) tables ∙ write_all_lem e.ino d.inodes row found free)
