-- ===== src/Flush/Process/Synced.antt =====
-- crates/pdcli/src/fs.rs: entries that ask for nothing that is not done already.
use proton_sdk_rs.Prelude.{
  ℕ, ◌≡◌, refl, ap, String, Bool, true, false, not, ◌&&◌, Option, none, some, arith, Option-cases,
  inl, inr,
}
use proton_sdk_rs.Drive.{Drive, Reply, ok}
use proton_sdk_rs.Db.Journal.{
  JournalEntry, EventType, create_folder, create_file, update_revision, rename, move, delete, other,
}
use proton_sdk_rs.Db.Inodes.{InodeRow, Inodes, get_inode}
use proton_sdk_rs.Flush.{Daemon, flushed, has_value}
use proton_sdk_rs.Flush.Process.Uploads.{Payload, process_create_file, process_update_revision}
use proton_sdk_rs.Flush.Process.Entries.{
  process_create_folder, process_rename, process_move, process_delete, process_event, process_entry,
  ignored_row, outcome, process_journal_entry,
}

-- By the event, the payload and the row of the entry's inode: the node is there already, the inode is
-- gone, or the node was never on the drive.
abbrev pub nothing_to_do : EventType → Payload → Option InodeRow → Bool
nothing_to_do create_folder payload (some row) = has_value row.node_uid
nothing_to_do create_file payload (some row) = has_value row.node_uid && has_value row.revision_uid
nothing_to_do delete payload row = not (has_value (payload "node_uid"))
nothing_to_do (other k) payload row = true
nothing_to_do k payload none = true
nothing_to_do k payload (some row) = false

module _ (drive : Drive) (revision_path : String → String) (now : ℕ)
    (parse_payload : String → Reply Payload) (ignored : Inodes → InodeRow → Bool) where
  event_lem :
      (payload : Payload) (e : JournalEntry) (k : EventType) (d : Daemon)
      → nothing_to_do k payload (get_inode e.ino d.inodes) ≡ true
      → process_event drive revision_path now payload e k d ≡ (d, ok tt)
  unfolding process_event process_create_folder process_create_file process_update_revision
      process_rename process_move process_delete
  event_lem payload e create_folder d h = elim (Option-cases (get_inode e.ino d.inodes)) [
    | inl gone ↦ ground (arith, gone)
    | inr (row, there) ↦ ground (arith, there, h)
  ]
  event_lem payload e create_file d h = elim (Option-cases (get_inode e.ino d.inodes)) [
    | inl gone ↦ ground (arith, gone)
    | inr (row, there) ↦ ground (arith, there, h)
  ]
  event_lem payload e update_revision d h = elim (Option-cases (get_inode e.ino d.inodes)) [
    | inl gone ↦ ground (arith, gone)
    | inr (row, there) ↦ absurd (ground (arith, there, h))
  ]
  event_lem payload e rename d h = elim (Option-cases (get_inode e.ino d.inodes)) [
    | inl gone ↦ ground (arith, gone)
    | inr (row, there) ↦ absurd (ground (arith, there, h))
  ]
  event_lem payload e move d h = elim (Option-cases (get_inode e.ino d.inodes)) [
    | inl gone ↦ ground (arith, gone)
    | inr (row, there) ↦ absurd (ground (arith, there, h))
  ]
  event_lem payload e delete d h = elim (Option-cases (payload "node_uid")) [
    | inl gone ↦ ground (arith, gone)
    | inr (uid, there) ↦ absurd (ground (arith, there, h))
  ]
  event_lem payload e (other k) d h = refl

  entry_lem :
      (d : Daemon) (e : JournalEntry) (payload : Payload)
      → parse_payload e.payload ≡ ok payload
      → ignored_row drive revision_path now parse_payload ignored e d.inodes ≡ none
      → nothing_to_do e.event_type payload (get_inode e.ino d.inodes) ≡ true
      → process_entry drive revision_path now parse_payload ignored e d ≡ (d, ok tt)
  unfolding process_entry
  entry_lem d e payload read kept h =
      rw (process_entry, read, kept) (event_lem payload e e.event_type d h)

  -- An entry whose payload can be read, that no rule ignores and that asks for nothing that is not done
  -- already is flushed with no call and no change.
  pub process_journal_entry-nothing_to_do :
      (d : Daemon) (e : JournalEntry) (payload : Payload)
      → parse_payload e.payload ≡ ok payload
      → ignored_row drive revision_path now parse_payload ignored e d.inodes ≡ none
      → nothing_to_do e.event_type payload (get_inode e.ino d.inodes) ≡ true
      → process_journal_entry drive revision_path now parse_payload ignored d e ≡ (d, flushed)
  unfolding process_journal_entry
  process_journal_entry-nothing_to_do d e payload read kept h =
      ap (outcome drive revision_path now parse_payload ignored) (entry_lem d e payload read kept h)
