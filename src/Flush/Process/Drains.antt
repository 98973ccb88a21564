-- ===== src/Flush/Process/Drains.antt =====
-- crates/pdcli/src/fs.rs: the journal empties with `process_journal_entry` as the work on an entry.
use proton_sdk_rs.Prelude.{
  ℕ, ◌*◌, ◌≡◌, refl, ◌∙◌, String, Bool, not, ◌&&◌, Option, none, some, List, [], ◌∷◌, arith, All,
  length, select_where, inl, inr, Bool-cases, false,
}
use proton_sdk_rs.Prelude.Int.{ℤ}
use proton_sdk_rs.Node.Uids.{NodeUid}
use proton_sdk_rs.Drive.{Drive, Reply, ok, error, RemoteFile}
use proton_sdk_rs.Db.Journal.{
  JournalEntry, EventType, create_folder, create_file, update_revision, rename, move, delete, other,
  pending_rows,
}
use proton_sdk_rs.Db.Inodes.{InodeRow, Inodes, dirty_files}
use proton_sdk_rs.Db.Inodes.Tidy.{IsAmong}
use proton_sdk_rs.Flush.{Daemon, Outcome, can_flush}
use proton_sdk_rs.Flush.Tries.{IsValid}
use proton_sdk_rs.Flush.Attempts.{KeepsJournal}
use proton_sdk_rs.Flush.Drain.{IsQuiet, rounds, rounds-drain}
use proton_sdk_rs.Flush.Process.{M}
use proton_sdk_rs.Flush.Process.Uploads.{
  Payload, send, find_child_file, upload_existing, upload_new, track, move_cache_to_revision_path,
  refresh_created, create_remote_file, process_create_file, refresh_updated,
  process_update_revision,
}
use proton_sdk_rs.Flush.Process.Entries.{
  process_create_folder, process_rename, process_move, process_delete, process_event, note_event,
  note_ignored, process_entry, outcome, process_journal_entry,
}
use proton_sdk_rs.Flush.Process.Keeps.{
  IsSafe, Keeps, keeps, set_node_uid-Keeps, resolve_parent-Keeps,
}

module _ (drive : Drive) (revision_path : String → String) (now : ℕ) where
  send-Keeps : (path : String) (id : ℕ) → Keeps (send drive revision_path now path id)
  unfolding send
  send-Keeps path id = search keeps depth 24

  find_child-Keeps :
      (parent : NodeUid) (name : String)
      → Keeps (find_child_file drive revision_path now parent name)
  unfolding find_child_file
  find_child-Keeps parent name = search keeps depth 24

  upload_existing-Keeps :
      (parent : NodeUid) (name path : String) (size : ℤ) (last_mod : Option ℕ) (id : ℕ)
      (msg : String)
      → Keeps (upload_existing drive revision_path now parent name path size last_mod id msg)
  unfolding upload_existing
  upload_existing-Keeps parent name path size last_mod id msg =
      search (keeps, send-Keeps, find_child-Keeps) depth 24

  upload_new-Keeps :
      (parent : NodeUid) (name path : String) (size : ℤ) (last_mod : Option ℕ) (id : ℕ)
      → Keeps (upload_new drive revision_path now parent name path size last_mod id)
  unfolding upload_new
  upload_new-Keeps parent name path size last_mod id =
      search (keeps, upload_existing-Keeps) depth 24

  track-Keeps :
      {A : Type 0} (id : ℕ) (m : M A) → Keeps m → Keeps (track drive revision_path now id m)
  unfolding track
  track-Keeps id m h = search keeps depth 24

  move_cache-Keeps :
      (from to : String) → Keeps (move_cache_to_revision_path drive revision_path now from to)
  unfolding move_cache_to_revision_path
  move_cache-Keeps from to = search keeps depth 24

  refresh_created-Keeps :
      (ino : ℕ) (path : String) (f : RemoteFile)
      → Keeps (refresh_created drive revision_path now ino path f)
  unfolding refresh_created
  refresh_created-Keeps ino path f = search (keeps, move_cache-Keeps) depth 24

  create_remote-Keeps :
      (ino : ℕ) (row : InodeRow) (path : String)
      → Keeps (create_remote_file drive revision_path now ino row path)
  unfolding create_remote_file
  create_remote-Keeps ino row path =
      search
        (
          keeps, set_node_uid-Keeps, resolve_parent-Keeps, upload_new-Keeps, track-Keeps,
          refresh_created-Keeps,
        )
        depth 24

  create_file-Keeps :
      (payload : Payload) (e : JournalEntry)
      → Keeps (process_create_file drive revision_path now payload e)
  unfolding process_create_file
  create_file-Keeps payload e = search (keeps, create_remote-Keeps) depth 24

  refresh_updated-Keeps :
      (ino : ℕ) (path : String) (size : ℤ) (f : RemoteFile)
      → Keeps (refresh_updated drive revision_path now ino path size f)
  unfolding refresh_updated
  refresh_updated-Keeps ino path size f = search (keeps, move_cache-Keeps) depth 24

  update_revision-Keeps :
      (payload : Payload) (e : JournalEntry)
      → Keeps (process_update_revision drive revision_path now payload e)
  unfolding process_update_revision
  update_revision-Keeps payload e = search (keeps, track-Keeps, refresh_updated-Keeps) depth 24

  create_folder-Keeps : (e : JournalEntry) → Keeps (process_create_folder drive revision_path now e)
  unfolding process_create_folder
  create_folder-Keeps e = search (keeps, set_node_uid-Keeps, resolve_parent-Keeps) depth 24

  rename-Keeps :
      (payload : Payload) (e : JournalEntry)
      → Keeps (process_rename drive revision_path now payload e)
  unfolding process_rename
  rename-Keeps payload e = search keeps depth 24

  move-Keeps :
      (payload : Payload) (e : JournalEntry)
      → Keeps (process_move drive revision_path now payload e)
  unfolding process_move
  move-Keeps payload e = search keeps depth 24

  delete-Keeps : (payload : Payload) → Keeps (process_delete drive revision_path now payload)
  unfolding process_delete
  delete-Keeps payload = search keeps depth 24

  process_event-Keeps :
      (payload : Payload) (e : JournalEntry) (k : EventType)
      → Keeps (process_event drive revision_path now payload e k)
  unfolding process_event
  process_event-Keeps payload e create_folder = create_folder-Keeps e
  process_event-Keeps payload e create_file = create_file-Keeps payload e
  process_event-Keeps payload e update_revision = update_revision-Keeps payload e
  process_event-Keeps payload e rename = rename-Keeps payload e
  process_event-Keeps payload e move = move-Keeps payload e
  process_event-Keeps payload e delete = delete-Keeps payload
  process_event-Keeps payload e (other k) = search keeps depth 24

  note_event-Keeps : (name : String) → Keeps (note_event drive revision_path now name)
  unfolding note_event
  note_event-Keeps name = record {
    at = λ d. record {
      journal = refl;
      online = refl;
      force_offline = refl;
      sync_paused = refl;
      sync_now = refl;
      tidy = record { valid = λ v. v; dirty = λ inos c. c };
    };
  }

  note_ignored-Keeps : (row : InodeRow) → Keeps (note_ignored drive revision_path now row)
  unfolding note_ignored
  note_ignored-Keeps row = search (keeps, note_event-Keeps)

  module _ (parse_payload : String → Reply Payload) (ignored : Inodes → InodeRow → Bool) where
    chosen-Keeps :
        (payload : Payload) (e : JournalEntry) (skipped : Option InodeRow)
        → Keeps (elim skipped [
          | none ↦ process_event drive revision_path now payload e e.event_type
          | some row ↦ note_ignored drive revision_path now row
        ])
    chosen-Keeps payload e none = process_event-Keeps payload e e.event_type
    chosen-Keeps payload e (some row) = note_ignored-Keeps row

    process_entry-Keeps :
        (e : JournalEntry) → Keeps (process_entry drive revision_path now parse_payload ignored e)
    unfolding process_entry
    process_entry-Keeps e = search (keeps, chosen-Keeps) depth 24

    outcome-safe :
        (d : Daemon) (p : Daemon × Reply (Unit {0}))
        → IsSafe d p.0
        → IsSafe d (outcome drive revision_path now parse_payload ignored p).0
    outcome-safe d (e, ok u) h = h
    outcome-safe d (e, error msg) h = h

    -- Whatever the drive answers, the work on an entry leaves the journal and the switches as they
    -- are, keeps inode numbers and node UIDs unique, and makes no file dirty: every set of inode numbers
    -- that holds those of the dirty files before holds those of the dirty files after.
    pub process_journal_entry-IsSafe :
        (d : Daemon) (e : JournalEntry)
        → IsSafe d (process_journal_entry drive revision_path now parse_payload ignored d e).0
    unfolding process_journal_entry
    process_journal_entry-IsSafe d e = outcome-safe d _ ((process_entry-Keeps e).at d)

abbrev nowhere : ℕ → Bool
nowhere i = false

none_dirty :
    (rs : List InodeRow)
    → select_where (λ r. r.dirty && not r.is_dir) rs ≡ []
    → All (IsAmong nowhere) rs
none_dirty [] h = tt
none_dirty (r ∷ rs) h = elim (Bool-cases (r.dirty && not r.is_dir)) [
  | inl hit ↦ absurd (ground (arith, h, hit))
  | inr miss ↦ (λ d. absurd (ground (arith, miss, d)), none_dirty rs (ground (arith, h, miss)))
]

among_none :
    (rs : List InodeRow)
    → All (IsAmong nowhere) rs
    → select_where (λ r. r.dirty && not r.is_dir) rs ≡ []
among_none [] h = refl
among_none (r ∷ rs) h = elim (Bool-cases (r.dirty && not r.is_dir)) [
  | inl hit ↦ absurd (ground (arith, h.0 hit))
  | inr miss ↦ rw miss (among_none rs h.1)
]

IsSafe-IsQuiet : (d e : Daemon) → IsSafe d e → IsQuiet d → IsQuiet e
unfolding dirty_files
IsSafe-IsQuiet d e h q = record {
  flushing =
      let same : can_flush e ≡ can_flush d = rw (h.online, h.force_offline, h.sync_paused) refl in
      same ∙ q.flushing;
  clean = among_none e.inodes.rows (h.tidy.dirty nowhere (none_dirty d.inodes.rows q.clean));
}

module _ (drive : Drive) (revision_path : String → String) (time : Daemon → ℕ)
    (parse_payload : String → Reply Payload) (ignored : Inodes → InodeRow → Bool) where
  -- The work at the time that the clock then shows.
  abbrev pub work : Daemon → JournalEntry → Daemon × Outcome
  work d e = process_journal_entry drive revision_path (time d) parse_payload ignored d e

  pub work-KeepsJournal : KeepsJournal work
  work-KeepsJournal d e =
      (process_journal_entry-IsSafe drive revision_path (time d) parse_payload ignored d e).journal

  -- With the switches on and no dirty file, and from a valid journal: after eleven rounds of the loop
  -- with `process_journal_entry` for each entry that waits, no entry waits, whatever the drive answers.
  pub rounds-process_journal_entry :
      (render : InodeRow → String) (clock : ℕ → ℕ) (d : Daemon)
      → IsValid d.journal
      → IsQuiet d
      → pending_rows
          (rounds work work-KeepsJournal render
            (11 * length (pending_rows d.journal))
            clock
            d).journal
        ≡ []
  rounds-process_journal_entry render clock d v q =
      rounds-drain work work-KeepsJournal render clock d
        (λ e x.
          IsSafe-IsQuiet e _
            (process_journal_entry-IsSafe drive revision_path (time e) parse_payload ignored e x))
        v q
