-- ===== src/Flush/Process/Entries.antt =====
-- crates/pdcli/src/fs.rs: `process_journal_entry`. Further parameters: `parse_payload` (the texts under
-- the keys of the payload's JSON; `serde_json`) and `ignored` (`is_upload_ignored`, which reads the
-- .pdignore files).
use proton_sdk_rs.Prelude.{ℕ, String, Bool, true, false, ◌&&◌, Option, none, some, if◌then◌else◌}
use proton_sdk_rs.Drive.{Call, Reply, ok, error, Drive}
use proton_sdk_rs.Db.Journal.{
  JournalEntry, EventType, create_folder, create_file, update_revision, rename, move, delete, other,
}
use proton_sdk_rs.Db.Inodes.{InodeRow, Inodes, get_inode}
use proton_sdk_rs.Db.Inodes.Updates.{set_dirty}
use proton_sdk_rs.Db.Events.{record_sync_event}
use proton_sdk_rs.Flush.{Daemon, Outcome, flushed, has_value}
use proton_sdk_rs.Flush as Flush
use proton_sdk_rs.Flush.Process.{
  M, ◌>>=◌, ◌>>◌, pure, need, reply, read, ask, ignore_result, parse_uid, set_node_uid,
  resolve_parent_node_uid,
}
use proton_sdk_rs.Flush.Process.Uploads.{
  Payload, when_some, process_create_file, process_update_revision,
}

abbrev pub is_upload : EventType → Bool
is_upload create_folder = true
is_upload create_file = true
is_upload update_revision = true
is_upload _ = false

module _ (drive : Drive) (revision_path : String → String) (now : ℕ) where
  unfoldable pub process_create_folder : JournalEntry → M (Unit {0})
  unfolding ask set_node_uid resolve_parent_node_uid parse_uid
  process_create_folder entry = do
    found ← read (get_inode entry.ino)
    when_some found λ row. if has_value row.node_uid then pure tt else do
      parent_node_uid ← resolve_parent_node_uid drive now row.parent_ino
      parent_uid ← parse_uid parent_node_uid
      uid ← ask (Call.create_folder parent_uid row.name) drive.created
      set_node_uid drive now entry.ino uid

  unfoldable pub process_rename : Payload → JournalEntry → M (Unit {0})
  unfolding ask parse_uid
  process_rename payload entry = do
    found ← read (get_inode entry.ino)
    when_some found λ row. do
      node_uid_str ← need "missing node_uid" (payload "node_uid")
      new_name ← need "missing new_name" (payload "new_name")
      uid ← parse_uid node_uid_str
      ask (Call.rename_node uid new_name) drive.changed

  unfoldable pub process_move : Payload → JournalEntry → M (Unit {0})
  unfolding ask parse_uid
  process_move payload entry = do
    found ← read (get_inode entry.ino)
    when_some found λ row. do
      node_uid_str ← need "missing node_uid" (payload "node_uid")
      new_parent_str ← need "missing new_parent" (payload "new_parent_node_uid")
      uid ← parse_uid node_uid_str
      new_parent ← parse_uid new_parent_str
      ask (Call.move_nodes uid new_parent) drive.changed
      when_some (payload "new_name") (λ name. ask (Call.rename_node uid name) drive.changed)

  unfoldable pub process_delete : Payload → M (Unit {0})
  unfolding ask parse_uid
  process_delete payload =
      when_some (payload "node_uid")
        λ node_uid_str. do uid ← parse_uid node_uid_str; ask (Call.trash_nodes uid) drive.changed

  unfoldable pub process_event : Payload → JournalEntry → EventType → M (Unit {0})
  unfolding process_create_folder process_create_file process_update_revision process_rename
      process_move process_delete
  process_event payload entry create_folder = process_create_folder entry
  process_event payload entry create_file =
      process_create_file drive revision_path now payload entry
  process_event payload entry update_revision =
      process_update_revision drive revision_path now payload entry
  process_event payload entry rename = process_rename payload entry
  process_event payload entry move = process_move payload entry
  process_event payload entry delete = process_delete payload
  process_event payload entry (other event_type) = pure tt

  -- `let _ = db.record_sync_event("local", "ignored", …)`
  unfoldable pub note_event : String → M (Unit {0})
  note_event name d = (
    record d {
      sync_events = record_sync_event "local" "ignored" (some name) none now d.sync_events;
    },
    ok tt,
  )

  unfoldable pub note_ignored : InodeRow → M (Unit {0})
  unfolding ignore_result note_event
  note_ignored row = do ignore_result (set_dirty row.ino false); note_event row.name

  module _ (parse_payload : String → Reply Payload) (ignored : Inodes → InodeRow → Bool) where
    -- The row of an upload that the rules ignore.
    abbrev pub ignored_row : JournalEntry → Inodes → Option InodeRow
    ignored_row entry t = elim (get_inode entry.ino t) [
      | none ↦ none
      | some row ↦ if is_upload entry.event_type && ignored t row then some row else none
    ]

    unfoldable pub process_entry : JournalEntry → M (Unit {0})
    unfolding process_event note_ignored
    process_entry entry = do
      payload ← reply (parse_payload entry.payload)
      skipped ← read (ignored_row entry)
      elim skipped [
        | none ↦ process_event payload entry entry.event_type
        | some row ↦ note_ignored row
      ]

    abbrev pub outcome : Daemon × Reply (Unit {0}) → Daemon × Outcome
    outcome (d, ok u) = (d, flushed)
    outcome (d, error msg) = (d, Flush.error msg)

    unfoldable pub process_journal_entry : Daemon → JournalEntry → Daemon × Outcome
    unfolding process_entry
    process_journal_entry d entry = outcome (process_entry entry d)
