-- ===== src/Fuse/Tests.antt =====
-- A mount with a file and two folders, one of which is not on the drive yet.
use proton_sdk_rs.Prelude.{◌≡◌, refl, String, Bool, true, false, none, some, [], ◌∷◌, arith, ℕ, map}
use proton_sdk_rs.Prelude.Int.{pos}
use proton_sdk_rs.Node.Uids.{NodeUid}
use proton_sdk_rs.Drive.{Reply, ok, RemoteFile}
use proton_sdk_rs.Db.Journal.{pending, delete, enqueue_journal}
use proton_sdk_rs.Db.Inodes.{InodeRow, Inodes, new_row, get_inode, lookup_child}
use proton_sdk_rs.Db.Inodes.Unique as Unique
use proton_sdk_rs.Flush.{Daemon, enqueue_journal_and_wake}
use proton_sdk_rs.Flush as Flush
use proton_sdk_rs.Flush.Process.Uploads.{Payload}
use proton_sdk_rs.Flush.Process.Entries.{process_journal_entry}
use proton_sdk_rs.Flush.Process.Created.{obliging}
use proton_sdk_rs.Fuse.{
  Mount, Outside, Answer, done, is_protected_parent, announce_move, create, rename_child, rename_to,
  overwrite, move_row, drop_row, enqueue,
}
use proton_sdk_rs.Db.Inodes.Updates.{list_children, delete_inode, rename_inode}
use proton_sdk_rs.Fuse.Sound.{IsSound}
use proton_sdk_rs.Fuse.History.{created, wrote, round, start, next, happen, reaches-IsSound}
use proton_sdk_rs.Fuse.Moves.{
  field, tried, move_fields, queued_move, announce_move-process_journal_entry,
}
use proton_sdk_rs.Fuse.Creates.{created_row, create_lem}

abbrev outside : Outside
outside = record {
  json = λ fields. "{}";
  folder_json = λ ino parent name. "{}";
  row_json = λ row. "{}";
  media_type = λ name. "text/plain";
  cache_path = λ ino. "/cache/n";
  can_create = λ path. true;
  can_open = λ path writable. true;
  ignored = λ t row. false;
  now = 9;
}

abbrev my_files : InodeRow
my_files = new_row 2 1 "MyFiles" (some "v~m") (some "v") (some "m") true (pos 5)

abbrev notes : InodeRow
notes = record (new_row 3 2 "notes" (some "v~n") (some "v") (some "n") false (pos 7)) {
  revision_uid = some "v~n~1";
}

abbrev new_folder : InodeRow
new_folder = new_row 4 2 "new" none none none true (pos 7)

abbrev full_folder : InodeRow
full_folder = new_row 5 2 "full" (some "v~f") (some "v") (some "f") true (pos 7)

abbrev mount : Mount
mount = record {
  daemon = record {
    journal = record { rows = []; next_id = 1 };
    inodes = record { rows = my_files ∷ notes ∷ new_folder ∷ full_folder ∷ []; next_ino = 6 };
    sync_events = record { rows = []; next_id = 1 };
    calls = [];
    online = true;
    force_offline = false;
    sync_paused = false;
    sync_now = false;
  };
  open_files = [];
  next_fh = 1;
}

inodes-IsValid : Unique.IsValid mount.daemon.inodes
inodes-IsValid = record {
  distinct = (
    ((refl, refl), ((refl, refl), ((refl, refl), tt))),
    (((refl, refl), ((refl, refl), tt)), (((refl, refl), tt), (tt, tt))),
  );
  below = (omega arith, (omega arith, (omega arith, (omega arith, tt))));
  positive = omega arith;
}

mount-IsSound : IsSound mount
mount-IsSound = record {
  journal = record { distinct = tt; below = tt; tried = tt };
  inodes = inodes-IsValid;
  handles = tt;
}

abbrev uid : NodeUid
uid = record { volume_id = "v"; link_id = "x" }

abbrev remote : RemoteFile
remote = record {
  uid = uid;
  name = "x";
  active_revision = record { node_uid = uid; revision_id = "r" };
  claimed_size = some (pos 4);
  total_size_on_cloud_storage = pos 9;
}

abbrev cache : String → String
cache rev = "/cache/rev"

abbrev no_payload : String → Reply Payload
no_payload s = ok (λ key. none)

abbrev none_ignored : Inodes → InodeRow → Bool
none_ignored t r = false

abbrev render : InodeRow → String
render row = "{}"

abbrev time : Daemon → ℕ
time d = 9

create_lem_example :
    let (after, answer) = create outside 2 (some "fresh") true mount in
    (answer ≡ done)
    × (get_inode 6 after.daemon.inodes ≡ some (created_row outside 2 "fresh" 6))
    × (after.open_files ≡ record { fh = 1; ino = 6; writable = true } ∷ [])
unfolding is_protected_parent lookup_child
create_lem_example = create_lem outside 2 "fresh" true mount inodes-IsValid refl refl refl refl

abbrev written_file : Mount
written_file =
    happen cache no_payload none_ignored render time (wrote outside 6 1 0 (some 4)) (
      happen cache no_payload none_ignored render time (created outside 2 (some "fresh") true)
        mount)

reaches-IsSound_example :
    IsSound
      (happen cache no_payload none_ignored render time (round (obliging uid remote)) written_file)
reaches-IsSound_example =
    reaches-IsSound cache no_payload none_ignored render time
      (next
        (next (next start (created outside 2 (some "fresh") true)) (wrote outside 6 1 0 (some 4)))
        (round (obliging uid remote)))
      mount-IsSound

abbrev read_move : String → Reply Payload
read_move s = ok (field (move_fields "v~n" "moved"))

announce_move-process_journal_entry_example :
    ((announce_move outside 2 4 "moved" notes mount).daemon.journal.rows
      ≡ queued_move outside 3 "v~n" "moved" mount ∷ [])
    × (process_journal_entry
          (obliging uid remote)
          cache
          9
          read_move
          none_ignored
          mount.daemon
          (tried pending (some "missing new_parent") 1 (queued_move outside 3 "v~n" "moved" mount))
        ≡ (mount.daemon, Flush.error "missing new_parent"))
unfolding get_inode
announce_move-process_journal_entry_example =
    announce_move-process_journal_entry (obliging uid remote) cache 9 read_move none_ignored outside
      2 4 "moved" "v~n" notes mount mount.daemon notes pending (some "missing new_parent") 1 refl
      refl refl refl refl

-- A folder whose children were never listed counts as empty: its node goes to the trash.
abbrev over_full : Mount × Answer
over_full = rename_child outside 2 (some "new") 2 (some "full") mount

unlisted_folder_is_overwritten :
    (over_full.1 ≡ done) × (map (λ e. e.event_type) over_full.0.daemon.journal.rows ≡ delete ∷ [])
unfolding rename_child rename_to overwrite move_row drop_row enqueue enqueue_journal_and_wake
    enqueue_journal is_protected_parent lookup_child list_children get_inode delete_inode
    rename_inode announce_move
unlisted_folder_is_overwritten = (refl, refl)
