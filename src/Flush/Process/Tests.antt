-- ===== src/Flush/Process/Tests.antt =====
-- A new file below MyFiles, whose upload waits in the journal.
use proton_sdk_rs.Prelude.{
  ◌≡◌, refl, inr, ◌*◌, String, Bool, true, false, none, some, [], ◌∷◌, arith, length, ℕ,
}
use proton_sdk_rs.Prelude.Int.{pos}
use proton_sdk_rs.Node.Uids.{NodeUid, raw, parse, split_once}
use proton_sdk_rs.Drive.{Reply, ok, RemoteFile}
use proton_sdk_rs.Db.Journal.{JournalEntry, pending, create_file, pending_rows}
use proton_sdk_rs.Db.Inodes.{InodeRow, Inodes, new_row, get_inode, dirty_files}
use proton_sdk_rs.Flush.{Daemon}
use proton_sdk_rs.Flush.Tries.{IsValid}
use proton_sdk_rs.Flush.Drain.{IsQuiet, rounds}
use proton_sdk_rs.Flush.Process.Uploads.{Payload, process_create_file}
use proton_sdk_rs.Flush.Process.Entries.{process_journal_entry}
use proton_sdk_rs.Flush.Process.Keeps.{IsSafe}
use proton_sdk_rs.Flush.Process.Created.{obliging, created_row, process_create_file_lem}
use proton_sdk_rs.Flush.Process.Drains.{
  process_journal_entry-IsSafe, work, work-KeepsJournal, rounds-process_journal_entry,
}

abbrev my_files : InodeRow
my_files = new_row 2 1 "MyFiles" (some "v~m") (some "v") (some "m") true (pos 5)

abbrev new_file : InodeRow
new_file = record (new_row 3 2 "notes" none none none false (pos 7)) {
  size = 4;
  cached_path = some "/cache/3";
}

abbrev old_file : InodeRow
old_file = record (new_row 4 2 "old" (some "v~o") (some "v") (some "o") false (pos 7)) {
  revision_uid = some "v~o~1";
}

abbrev entry_of : ℕ → JournalEntry
entry_of ino = record {
  id = 1;
  created_at = 5;
  event_type = create_file;
  ino = ino;
  payload = "{}";
  status = pending;
  error = none;
  retry_count = 0;
}

abbrev daemon : Daemon
daemon = record {
  journal = record { rows = entry_of 3 ∷ []; next_id = 2 };
  inodes = record { rows = my_files ∷ new_file ∷ old_file ∷ []; next_ino = 5 };
  sync_events = record { rows = []; next_id = 1 };
  calls = [];
  online = true;
  force_offline = false;
  sync_paused = false;
  sync_now = false;
}

abbrev new_uid : NodeUid
new_uid = record { volume_id = "v"; link_id = "n" }

abbrev remote : RemoteFile
remote = record {
  uid = new_uid;
  name = "notes";
  active_revision = record { node_uid = new_uid; revision_id = "r" };
  claimed_size = some (pos 4);
  total_size_on_cloud_storage = pos 9;
}

abbrev no_payload : Payload
no_payload key = none

abbrev parse_payload : String → Reply Payload
parse_payload s = ok no_payload

abbrev none_ignored : Inodes → InodeRow → Bool
none_ignored t r = false

abbrev cache : String → String
cache rev = "/cache/rev"

daemon-IsValid : IsValid daemon.journal
daemon-IsValid = record {
  distinct = (tt, tt);
  below = (omega arith, tt);
  tried = (inr (omega arith), tt);
}

daemon-IsQuiet : IsQuiet daemon
unfolding dirty_files
daemon-IsQuiet = record { flushing = refl; clean = refl }

process_journal_entry-IsSafe_example :
    IsSafe daemon
      (process_journal_entry
        (obliging new_uid remote)
        cache
        9
        parse_payload
        none_ignored
        daemon
        (entry_of 3)).0
process_journal_entry-IsSafe_example =
    process_journal_entry-IsSafe (obliging new_uid remote) cache 9 parse_payload none_ignored daemon
      (entry_of 3)

rounds-process_journal_entry_example :
    pending_rows
      (rounds
        (work (obliging new_uid remote) cache (λ d. 9) parse_payload none_ignored)
        (work-KeepsJournal (obliging new_uid remote) cache (λ d. 9) parse_payload none_ignored)
        (λ r. "")
        (11 * length (pending_rows daemon.journal))
        (λ n. n)
        daemon).journal
    ≡ []
rounds-process_journal_entry_example =
    rounds-process_journal_entry (obliging new_uid remote) cache (λ d. 9) parse_payload none_ignored
      (λ r. "") (λ n. n) daemon daemon-IsValid daemon-IsQuiet

process_create_file_lem_example :
    let (after, result) =
      process_create_file (obliging new_uid remote) cache 9 no_payload (entry_of 3) daemon in
    (result ≡ ok tt)
    × (get_inode 3 after.inodes ≡ some (created_row new_uid remote cache 9 new_file))
unfolding get_inode parse split_once raw
process_create_file_lem_example =
    process_create_file_lem new_uid remote cache 9 no_payload (entry_of 3) daemon new_file my_files
      "/cache/3" "v~m" (record { volume_id = "v"; link_id = "m" }) refl refl refl refl refl refl
      refl
