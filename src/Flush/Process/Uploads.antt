-- ===== src/Flush/Process/Uploads.antt =====
-- crates/pdcli/src/fs.rs: the file uploads of `process_journal_entry`. Parameters: the drive, and
-- `revision_path` (`cache_path_for_revision_in`, a SHA-256 under the cache directory). Paths are equal
-- when their texts are.
use text.Mathlib.Text.{◌==◌ as str_eq}
use proton_sdk_rs.Prelude.{ℕ, String, false, ◌&&◌, Option, none, some, List, [], ◌∷◌, if◌then◌else◌}
use proton_sdk_rs.Prelude.Int.{ℤ, pos}
use proton_sdk_rs.Node.Uids.{NodeUid, RevisionUid, revision_text}
use proton_sdk_rs.Drive.{Call, ok, Drive, RemoteFile}
use proton_sdk_rs.Db.Journal.{JournalEntry}
use proton_sdk_rs.Db.Inodes.{InodeRow, get_inode}
use proton_sdk_rs.Db.Inodes.Updates.{set_dirty, set_cached_path}
use proton_sdk_rs.Db.Inodes.Updates as Updates
use proton_sdk_rs.Flush.{has_value, contains}
use proton_sdk_rs.Flush.Process.{
  M, ◌>>=◌, ◌>>◌, pure, fail, catch, need, read, ask, ignore_result, parse_uid, parse_revision_uid,
  as_i64, as_u64, positive_time, or_else, value_or, set_node_uid, resolve_parent_node_uid,
}

-- The text under a key, if there is one: `payload[key].as_str()`
abbrev pub Payload : Type 0
Payload = String → Option String

-- `if let Some(row) = …`, and a match that ends with `Ok(())` on `None`.
abbrev pub when_some : {A : Type 0} → Option A → (A → M (Unit {0})) → M (Unit {0})
when_some none f = pure tt
when_some (some a) f = f a

abbrev pub media_type_of : InodeRow → String
media_type_of row = if str_eq row.media_type "" then "application/octet-stream" else row.media_type

module _ (drive : Drive) (revision_path : String → String) (now : ℕ) where
  -- A file is opened and its bytes are sent.
  unfoldable pub send : String → ℕ → M NodeUid
  unfolding ask
  send cached_path transfer_id = do
    ask (Call.open_file cached_path) drive.opened
    ask (Call.upload_from_stream transfer_id) drive.uploaded

  abbrev pub first_named : String → List RemoteFile → Option RevisionUid
  first_named name [] = none
  first_named name (f ∷ fs) =
      let rest = first_named name fs in if str_eq f.name name then some f.active_revision else rest

  unfoldable pub find_child_file : NodeUid → String → M (Option RevisionUid)
  unfolding ask
  find_child_file parent name = do
    files ← ask (Call.enumerate_children parent) drive.child_files
    pure (first_named name files)

  -- A file of this name is there already: its bytes go to a new revision of it.
  unfoldable pub upload_existing : NodeUid → String → String → ℤ → Option ℕ → ℕ → String → M NodeUid
  unfolding send find_child_file ask
  upload_existing parent name cached_path size last_mod transfer_id msg = do
    found ← find_child_file parent name
    rev ← need msg found
    ask (Call.get_file_revision_uploader rev size last_mod) drive.uploader
    send cached_path transfer_id

  unfoldable pub upload_new : NodeUid → String → String → ℤ → Option ℕ → ℕ → M NodeUid
  unfolding upload_existing ask
  upload_new parent name cached_path size last_mod transfer_id = do
    ask (Call.open_file cached_path) drive.opened
    catch (ask (Call.upload_from_stream transfer_id) drive.uploaded) λ msg.
        if contains msg "already exists"
        then upload_existing parent name cached_path size last_mod transfer_id msg
        else fail msg

  -- `tracker.mark_complete` or `tracker.mark_failed`, and then the result.
  unfoldable pub track : {A : Type 0} → ℕ → M A → M A
  unfolding ask
  track transfer_id m =
      catch (do a ← m; ask (Call.mark_complete transfer_id) (λ _. ok tt); pure a)
        (λ msg. do ask (Call.mark_failed transfer_id) (λ _. ok tt); fail msg)

  unfoldable pub move_cache_to_revision_path : String → String → M String
  unfolding ask
  move_cache_to_revision_path current_path stable_cache_path =
      if str_eq current_path stable_cache_path then pure stable_cache_path else do
        ask (Call.create_parent_dir stable_cache_path) (λ _. ok tt)
        renamed ←
            ask (Call.rename_file current_path stable_cache_path)
              (λ calls. ok (drive.renamed_file calls))
        if renamed
            then pure tt
            else ask (Call.copy_file current_path stable_cache_path) (λ _. ok tt)
        pure stable_cache_path

  -- The new file's revision, and its cached bytes under that.
  unfoldable pub refresh_created : ℕ → String → RemoteFile → M (Unit {0})
  unfolding ignore_result move_cache_to_revision_path
  refresh_created ino cached_path f =
      let rev_uid = revision_text f.active_revision in
      let size = value_or f.claimed_size f.total_size_on_cloud_storage in
      do
        ignore_result (Updates.update_revision ino rev_uid (as_u64 size) (pos now))
        stable_cache_path ← move_cache_to_revision_path cached_path (revision_path rev_uid)
        ignore_result (set_cached_path ino (some stable_cache_path))

  unfoldable pub create_remote_file : ℕ → InodeRow → String → M (Unit {0})
  unfolding ask ignore_result set_node_uid resolve_parent_node_uid parse_uid upload_new track
      refresh_created
  create_remote_file ino row cached_path =
      let size = as_i64 row.size in
      let last_mod = positive_time row.mtime in
      do
        parent_node_uid ← resolve_parent_node_uid drive now row.parent_ino
        parent_uid ← parse_uid parent_node_uid
        ask (Call.get_file_uploader parent_uid row.name (media_type_of row) size last_mod)
            drive.uploader
        transfer_id ← ask (Call.add_transfer row.name size) (λ calls. ok (drive.transfer_id calls))
        node_uid ←
            track transfer_id (upload_new parent_uid row.name cached_path size last_mod transfer_id)
        set_node_uid drive now ino node_uid
        ignore_result (set_dirty ino false)
        remote ← ask (Call.get_node_uncached node_uid) (λ calls. ok (drive.remote_file calls))
        when_some remote (refresh_created ino cached_path)

  unfoldable pub process_create_file : Payload → JournalEntry → M (Unit {0})
  unfolding create_remote_file
  process_create_file payload entry = do
    found ← read (get_inode entry.ino)
    when_some found λ row.
        if has_value row.node_uid && has_value row.revision_uid then pure tt else do
          cached_path ← need "missing cached_path" (or_else row.cached_path (payload "cached_path"))
          create_remote_file entry.ino row cached_path

  unfoldable pub refresh_updated : ℕ → String → ℤ → RemoteFile → M (Unit {0})
  unfolding ignore_result move_cache_to_revision_path
  refresh_updated ino cached_path size f =
      let rev_uid = revision_text f.active_revision in
      do
        stable_cache_path ← move_cache_to_revision_path cached_path (revision_path rev_uid)
        ignore_result
            (Updates.update_revision ino rev_uid (as_u64 (value_or f.claimed_size size)) (pos now))
        ignore_result (set_cached_path ino (some stable_cache_path))
        ignore_result (set_dirty ino false)

  unfoldable pub process_update_revision : Payload → JournalEntry → M (Unit {0})
  unfolding ask parse_revision_uid track refresh_updated
  process_update_revision payload entry = do
    found ← read (get_inode entry.ino)
    when_some found λ row.
        let size = as_i64 row.size in
        do
          _ ← need "missing node_uid" (payload "node_uid")
          rev_uid_str ← need "missing revision_uid" (payload "revision_uid")
          cached_path ← need "missing cached_path" (or_else row.cached_path (payload "cached_path"))
          revision_uid ← parse_revision_uid rev_uid_str
          ask (Call.get_file_revision_uploader revision_uid size (positive_time row.mtime))
              drive.uploader
          ask (Call.open_file cached_path) drive.opened
          transfer_id ←
              ask (Call.add_transfer row.name size) (λ calls. ok (drive.transfer_id calls))
          new_node_uid ←
              track transfer_id (ask (Call.upload_from_stream transfer_id) drive.uploaded)
          remote ← ask (Call.get_node_uncached new_node_uid) (λ calls. ok (drive.remote_file calls))
          when_some remote (refresh_updated entry.ino cached_path size)
