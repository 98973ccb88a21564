-- ===== src/Fuse/Moves.antt =====
-- crates/pdcli/src/fs.rs: a file that moves below a folder which is not on the drive yet.
use text.Mathlib.Text.{◌==◌ as str_eq}
use proton_sdk_rs.Prelude.{
  ℕ, ◌≡◌, refl, ap, String, Bool, false, Option, none, some, List, [], ◌∷◌, ◌++◌, if◌then◌else◌,
  ◌==◌,
}
use proton_sdk_rs.Drive.{Drive, Reply, ok, error}
use proton_sdk_rs.Db.Journal.{JournalEntry, Status, move, pending, enqueue_journal}
use proton_sdk_rs.Db.Inodes.{InodeRow, Inodes, get_inode}
use proton_sdk_rs.Flush.{Daemon, Outcome, enqueue_journal_and_wake}
use proton_sdk_rs.Flush as Flush
use proton_sdk_rs.Flush.Process.Uploads.{Payload}
use proton_sdk_rs.Flush.Process.Entries.{
  process_move, process_event, process_entry, outcome, process_journal_entry,
}
use proton_sdk_rs.Fuse.{Mount, Outside, enqueue, announce_move, node_uid_of}

-- The text under a key of a JSON object of texts and nulls.
abbrev pub field : List (String × Option String) → Payload
field [] key = none
field ((k, v) ∷ fields) key = let rest = field fields key in if str_eq k key then v else rest

abbrev pub move_fields : String → String → List (String × Option String)
move_fields uid newname =
    ("node_uid", some uid) ∷ ("new_parent_node_uid", none) ∷ ("new_name", some newname) ∷ []

-- The entry after any attempts: the journal changes its status, its error and its count alone.
abbrev pub tried : Status → Option String → ℕ → JournalEntry → JournalEntry
tried status last tries e = record e { status = status; error = last; retry_count = tries }

-- The entry that the move queues.
abbrev pub queued_move : Outside → ℕ → String → String → Mount → JournalEntry
queued_move o ino uid newname s = record {
  id = s.daemon.journal.next_id;
  created_at = o.now;
  event_type = move;
  ino = ino;
  payload = o.json (move_fields uid newname);
  status = pending;
  error = none;
  retry_count = 0;
}

announce_move_lem :
    (o : Outside) (from to : ℕ) (newname uid : String) (row : InodeRow) (s : Mount)
    → row.node_uid ≡ some uid
    → (from == to) ≡ false
    → node_uid_of o (get_inode to s.daemon.inodes) ≡ none
    → (announce_move o from to newname row s).daemon.journal.rows
      ≡ s.daemon.journal.rows ++ queued_move o row.ino uid newname s ∷ []
unfolding announce_move enqueue enqueue_journal_and_wake enqueue_journal
announce_move_lem o from to newname uid row s known apart fresh =
    rw (announce_move, known, apart, fresh) refl

module _ (drive : Drive) (revision_path : String → String) (now : ℕ)
    (parse_payload : String → Reply Payload) (ignored : Inodes → InodeRow → Bool) where
  process_move_lem :
      (payload : Payload) (e : JournalEntry) (uid : String) (d : Daemon) (row : InodeRow)
      → get_inode e.ino d.inodes ≡ some row
      → payload "node_uid" ≡ some uid
      → payload "new_parent_node_uid" ≡ none
      → process_move drive revision_path now payload e d ≡ (d, error "missing new_parent")
  unfolding process_move
  process_move_lem payload e uid d row there known fresh =
      rw (process_move, there, known, fresh) refl

  entry_lem :
      (o : Outside) (uid newname : String) (row : InodeRow) (s : Mount) (d : Daemon)
      (found : InodeRow) (status : Status) (last : Option String) (tries : ℕ)
      → parse_payload (o.json (move_fields uid newname)) ≡ ok (field (move_fields uid newname))
      → get_inode row.ino d.inodes ≡ some found
      → process_entry drive revision_path now parse_payload ignored
          (tried status last tries (queued_move o row.ino uid newname s))
          d
        ≡ (d, error "missing new_parent")
  unfolding process_entry process_event get_inode
  entry_lem o uid newname row s d found status last tries reads there =
      rw (process_entry, reads, there)
        (process_move_lem (field (move_fields uid newname))
          (tried status last tries (queued_move o row.ino uid newname s)) uid d found there refl
          refl)

  -- A node moves to another folder, which has no node UID yet: the journal gets a `move` entry, and as
  -- long as the inode is there every attempt at that entry, whatever the status, the error and the
  -- count of attempts that it has by then, fails with "missing new_parent" and makes no call, also when
  -- the folder is on the drive by then. The hypothesis on `parse_payload` says that the
  -- JSON reader gives back what the JSON writer wrote.
  pub announce_move-process_journal_entry :
      (o : Outside) (from to : ℕ) (newname uid : String) (row : InodeRow) (s : Mount) (d : Daemon)
      (found : InodeRow) (status : Status) (last : Option String) (tries : ℕ)
      → parse_payload (o.json (move_fields uid newname)) ≡ ok (field (move_fields uid newname))
      → row.node_uid ≡ some uid
      → (from == to) ≡ false
      → node_uid_of o (get_inode to s.daemon.inodes) ≡ none
      → get_inode row.ino d.inodes ≡ some found
      → ((announce_move o from to newname row s).daemon.journal.rows
          ≡ s.daemon.journal.rows ++ queued_move o row.ino uid newname s ∷ [])
        × (process_journal_entry drive revision_path now parse_payload ignored d
              (tried status last tries (queued_move o row.ino uid newname s))
            ≡ (d, Flush.error "missing new_parent"))
  unfolding process_journal_entry
  announce_move-process_journal_entry o from to newname uid row s d found status last tries reads
        known apart fresh there =
      (
        announce_move_lem o from to newname uid row s known apart fresh,
        ap (outcome drive revision_path now parse_payload ignored)
            (entry_lem o uid newname row s d found status last tries reads there),
      )
