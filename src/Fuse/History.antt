-- ===== src/Fuse/History.antt =====
-- crates/pdcli/src/fs.rs: histories of handlers and of rounds of the journal loop.
use proton_sdk_rs.Prelude.{
  ℕ, sym, subst, String, Bool, false, Option, List, [], ◌∷◌, Bool-cases, inl, inr,
}
use proton_sdk_rs.Node.Uids.{NodeUid}
use proton_sdk_rs.Drive.{Drive, Reply}
use proton_sdk_rs.Db.Journal.{JournalEntry, load_pending_journal}
use proton_sdk_rs.Db.Inodes.{InodeRow, Inodes, dirty_files}
use proton_sdk_rs.Db.Inodes.Unique as Unique
use proton_sdk_rs.Flush.{
  Daemon, flush_entry, flush_entries, groups, sweep, flush_round, enqueue_dirty_uploads, can_flush,
  page,
}
use proton_sdk_rs.Flush.Tries as Tries
use proton_sdk_rs.Flush.Order.{joined, flush_groups-joined}
use proton_sdk_rs.Flush.Drain.{sweep_lem}
use proton_sdk_rs.Flush.Process.Uploads.{Payload}
use proton_sdk_rs.Flush.Process.Drains.{work, work-KeepsJournal, process_journal_entry-IsSafe}
use proton_sdk_rs.Fuse.{Mount, Outside, create, mkdir, unlink, rename_child}
use proton_sdk_rs.Db.Inodes.Statements.{Statement}
use proton_sdk_rs.Fuse.Edits.{write_file, setattr, rmdir}
use proton_sdk_rs.Fuse.Edits.Keeps.{write_file-Ends, setattr-Ends, rmdir-Ends}
use proton_sdk_rs.Fuse.Release.{release}
use proton_sdk_rs.Fuse.Sound.{IsSound, enqueue_dirty_upload-IsValid, enqueue_dirty_upload-inodes}
use proton_sdk_rs.Fuse.Handlers.{create-Ends, mkdir-Ends, unlink-Ends, rename-Ends, release-Ends}

-- The requests of the kernel, each with what the outside then is like, and the rounds of the loop, each
-- with the drive and the clock at that time.
pub data Event : Type 0 where
  created : Outside → ℕ → Option String → Bool → Event
  made : Outside → ℕ → Option String → Event
  unlinked : Outside → ℕ → Option String → Event
  renamed : Outside → ℕ → Option String → ℕ → Option String → Event
  released : Outside → (NodeUid → Option String) → ℕ → ℕ → Event
  wrote : Outside → ℕ → ℕ → ℕ → Option ℕ → Event
  resized : Outside → (NodeUid → Option String) → (InodeRow → Bool) → ℕ → Option ℕ → Event
  removed : Outside → List Statement → ℕ → Option String → Event
  round : Drive → Event

module _ (revision_path : String → String) (parse_payload : String → Reply Payload)
    (ignored : Inodes → InodeRow → Bool) (row_json : InodeRow → String) (time : Daemon → ℕ) where
  abbrev pub happen : Event → Mount → Mount
  happen (created o parent name writable) s = (create o parent name writable s).0
  happen (made o parent name) s = (mkdir o parent name s).0
  happen (unlinked o parent name) s = (unlink o parent name s).0
  happen (renamed o parent name newparent newname) s =
      (rename_child o parent name newparent newname s).0
  happen (released o refresh ino fh) s = (release o refresh ino fh s).0
  happen (wrote o ino fh offset n) s = (write_file o ino fh offset n s).0
  happen (resized o refresh is_shortcut ino size) s = (setattr o refresh is_shortcut ino size s).0
  happen (removed o listing parent name) s = (rmdir o listing parent name s).0
  happen (round drive) s = record s {
    daemon =
        flush_round (work drive revision_path time parse_payload ignored) row_json (time s.daemon)
          s.daemon;
  }

  -- What stands after a history that starts from a mount.
  pub data Reaches (s : Mount) : Mount → Type 0 where
    start : Reaches s s
    next : {t : Mount} → Reaches s t → (e : Event) → Reaches s (happen e t)

  entries-IsValid :
      (drive : Drive) (es : List JournalEntry) (d : Daemon)
      → Unique.IsValid d.inodes
      → Unique.IsValid
          (flush_entries (work drive revision_path time parse_payload ignored) es d).inodes
  unfolding flush_entries flush_entry
  entries-IsValid drive [] d v = v
  entries-IsValid drive (e ∷ es) d v = entries-IsValid drive es _ (
      (process_journal_entry-IsSafe drive revision_path (time d) parse_payload ignored d
          e).tidy.valid
        v)

  sweep-IsValid :
      (drive : Drive) (d : Daemon)
      → Unique.IsValid d.inodes
      → Unique.IsValid (sweep (work drive revision_path time parse_payload ignored) d).inodes
  unfolding sweep
  sweep-IsValid drive d v =
      let p = work drive revision_path time parse_payload ignored in
      let gs = groups [] (load_pending_journal page d.journal) in
      subst (λ e. Unique.IsValid e.inodes) (sym (flush_groups-joined p gs d))
        (entries-IsValid drive (joined gs) d v)

  uploads-IsValid :
      (now : ℕ) (rows : List InodeRow) (d : Daemon)
      → Tries.IsValid d.journal
      → Unique.IsValid d.inodes
      → Tries.IsValid (enqueue_dirty_uploads row_json now rows d).journal
        × Unique.IsValid (enqueue_dirty_uploads row_json now rows d).inodes
  unfolding enqueue_dirty_uploads
  uploads-IsValid now [] d v w = (v, w)
  uploads-IsValid now (row ∷ rows) d v w =
      uploads-IsValid now rows _ (enqueue_dirty_upload-IsValid row_json now row d v)
        (subst Unique.IsValid (sym (enqueue_dirty_upload-inodes row_json now row d)) w)

  round-IsSound : (drive : Drive) (s : Mount) → IsSound s → IsSound (happen (round drive) s)
  unfolding flush_round
  round-IsSound drive s v = elim (Bool-cases (can_flush s.daemon)) [
    | inl on ↦
        let p = work drive revision_path time parse_payload ignored in
        let woken = record s.daemon { sync_now = false } in
        let swept =
          sweep_lem p (work-KeepsJournal drive revision_path time parse_payload ignored) woken
            v.journal in
        let both =
          uploads-IsValid (time s.daemon) (dirty_files (sweep p woken).inodes) (sweep p woken)
            swept.0 (sweep-IsValid drive woken v.inodes) in
        rw (flush_round, on) (record { journal = both.0; inodes = both.1; handles = v.handles })
    | inr off ↦
        rw (flush_round, off)
          (record { journal = v.journal; inodes = v.inodes; handles = v.handles })
  ]

  happen-IsSound : (e : Event) (s : Mount) → IsSound s → IsSound (happen e s)
  happen-IsSound (created o parent name writable) s v =
      (create-Ends o parent name writable s v).sound
  happen-IsSound (made o parent name) s v = (mkdir-Ends o parent name s v).sound
  happen-IsSound (unlinked o parent name) s v = (unlink-Ends o parent name s v).sound
  happen-IsSound (renamed o parent name newparent newname) s v =
      (rename-Ends o parent name newparent newname s v).sound
  happen-IsSound (released o refresh ino fh) s v = (release-Ends o refresh ino fh s v).sound
  happen-IsSound (wrote o ino fh offset n) s v = (write_file-Ends o ino fh offset n s v).sound
  happen-IsSound (resized o refresh is_shortcut ino size) s v =
      (setattr-Ends o refresh is_shortcut ino size s v).sound
  happen-IsSound (removed o listing parent name) s v = (rmdir-Ends o listing parent name s v).sound
  happen-IsSound (round drive) s v = round-IsSound drive s v

  -- From a mount with unique ids of journal rows and inodes, unique node UIDs and file handles below the
  -- next one, any history of handlers and rounds leads to such a mount, whatever the drive answers.
  pub reaches-IsSound : {s t : Mount} → Reaches s t → IsSound s → IsSound t
  reaches-IsSound start v = v
  reaches-IsSound (next before e) v = happen-IsSound e _ (reaches-IsSound before v)
