-- ===== src/Flush.antt =====
-- crates/pdcli/src/fs.rs: the flush loop of the journal and the switches that it reads. A round is
-- one pass of `journal_flush_loop`; uploads that run side by side are taken in the order in which
-- their results are applied. The upload of one entry is the parameter `process`.
pub mod Tries
pub mod Stored
pub mod Order
pub mod Attempts
pub mod Drain
pub mod Dirty
pub mod Process
mod Tests
use text.Mathlib.Text.{find?}
use proton_sdk_rs.Prelude.{
  ℕ, zero, suc, ◌+◌, String, Bool, true, false, not, ◌&&◌, ◌||◌, Option, none, some, List, [], ◌∷◌,
  ◌++◌, leb, ltb, if◌then◌else◌, length, take, drop,
}
use proton_sdk_rs.Db.Journal.{
  Journal, JournalEntry, EventType, Status, pending, failed, done, create_file, update_revision,
  enqueue_journal, update_journal_status, load_pending_journal, delete_completed_journal,
  has_pending_journal,
}
use proton_sdk_rs.Db.Inodes.{InodeRow, Inodes, opt_eq, dirty_files}
use proton_sdk_rs.Db.Events.{SyncEvents}
use proton_sdk_rs.Drive.{Call}

-- The statics of fs.rs beside the tables of `FuseDb` that the loop works on, and the calls that the
-- work on the entries has made so far.
pub record Daemon : Type 0 where
  pub journal : Journal
  pub inodes : Inodes
  pub sync_events : SyncEvents
  pub calls : List Call
  pub online : Bool
  pub force_offline : Bool
  pub sync_paused : Bool
  pub sync_now : Bool

unfoldable pub is_online : Daemon → Bool
is_online d = d.online && not d.force_offline

unfoldable pub set_force_offline : Bool → Daemon → Daemon
set_force_offline force d = record d {
  force_offline = force;
  online = if force then false else d.online;
}

unfoldable pub toggle_sync_paused : Daemon → Daemon × Bool
toggle_sync_paused d = (record d { sync_paused = not d.sync_paused }, not d.sync_paused)

wake_journal : Daemon → Daemon
wake_journal d = record d { sync_now = true }

unfoldable pub retry_sync_now : Daemon → Daemon
unfolding wake_journal
retry_sync_now d = wake_journal d

unfoldable pub enqueue_journal_and_wake : EventType → ℕ → String → ℕ → Daemon → Daemon
unfolding wake_journal
enqueue_journal_and_wake event_type ino payload now d =
    wake_journal (record d { journal = (enqueue_journal event_type ino payload now d.journal).0 })

abbrev pub has_value : Option String → Bool
has_value o = not (opt_eq o none)

-- `none`: the row waits for a revision. The choice of the event of a dirty file.
abbrev pub dirty_event : InodeRow → Option EventType
dirty_event row =
    if has_value row.node_uid && has_value row.revision_uid
    then some update_revision
    else if has_value row.node_uid
    then none
    else some create_file

-- `render` is the JSON text of the row (`serde_json`).
module _ (render : InodeRow → String) (now : ℕ) where
  unfoldable pub enqueue_dirty_upload : InodeRow → Daemon → Daemon
  unfolding enqueue_journal_and_wake
  enqueue_dirty_upload row d =
      if has_pending_journal row.ino d.journal then d else elim (dirty_event row) [
        | none ↦ d
        | some event ↦ enqueue_journal_and_wake event row.ino (render row) now d
      ]

  unfoldable pub enqueue_dirty_uploads : List InodeRow → Daemon → Daemon
  enqueue_dirty_uploads [] d = d
  enqueue_dirty_uploads (row ∷ rows) d = enqueue_dirty_uploads rows (enqueue_dirty_upload row d)

-- `anyhow::Result<()>` of one entry, with the error's text.
pub data Outcome : Type 0 where
  flushed : Outcome
  error : String → Outcome

abbrev pub contains : String → String → Bool
contains s t = elim (find? s t) [ none ↦ false | some i ↦ true ]

unfoldable pub is_permanent : String → Bool
is_permanent msg =
    contains msg "No such file or directory"
    || contains msg "inode deleted"
    || contains msg "missing cached_path"
    || contains msg "missing name"

abbrev pub max_retries : ℕ
max_retries = 10

unfoldable pub apply_journal_result : JournalEntry → Outcome → Journal → Journal
apply_journal_result entry flushed t = update_journal_status entry.id done none t
apply_journal_result entry (error msg) t =
    if is_permanent msg || leb max_retries entry.retry_count
    then update_journal_status entry.id failed (some msg) t
    else update_journal_status entry.id pending (some msg) t

abbrev pub is_file_event : EventType → Bool
is_file_event create_file = true
is_file_event update_revision = true
is_file_event _ = false

abbrev pub file_upload_concurrency : ℕ
file_upload_concurrency = 4

-- `entries.chunks(FILE_UPLOAD_CONCURRENCY)`: the uploads of one chunk run side by side. One round
-- of fuel for each entry is enough.
unfoldable pub chunks : ℕ → List JournalEntry → List (List JournalEntry)
chunks zero es = []
chunks (suc fuel) [] = []
chunks (suc fuel) (e ∷ es) =
    take file_upload_concurrency (e ∷ es) ∷ chunks fuel (drop file_upload_concurrency (e ∷ es))

abbrev flush_file_entries : List JournalEntry → List (List JournalEntry)
flush_file_entries batch = chunks (length batch) batch

-- The groups of a round in turn: file entries are gathered in `file_batch` until another entry or
-- the end, and any other entry is a group of its own.
unfoldable pub groups : List JournalEntry → List JournalEntry → List (List JournalEntry)
groups file_batch [] = flush_file_entries file_batch
groups file_batch (e ∷ es) =
    let gathered = groups (file_batch ++ e ∷ []) es in
    let alone = flush_file_entries file_batch ++ (e ∷ []) ∷ groups [] es in
    if is_file_event e.event_type then gathered else alone

abbrev pub can_flush : Daemon → Bool
can_flush d = (d.online && not d.force_offline) && (not d.sync_paused && not d.force_offline)

abbrev pub page : ℕ
page = 20

module _ (process : Daemon → JournalEntry → Daemon × Outcome) where
  unfoldable pub flush_entry : JournalEntry → Daemon → Daemon
  flush_entry e d =
      let (d', outcome) = process d e in
      record d' { journal = apply_journal_result e outcome d'.journal }

  -- The uploads of a chunk run side by side and are taken in the order of the chunk. A task that panics,
  -- after which its entry waits with no attempt counted, is left out.
  unfoldable pub flush_entries : List JournalEntry → Daemon → Daemon
  unfolding flush_entry
  flush_entries [] d = d
  flush_entries (e ∷ es) d = flush_entries es (flush_entry e d)

  unfoldable pub flush_groups : List (List JournalEntry) → Daemon → Daemon
  unfolding flush_entries
  flush_groups [] d = d
  flush_groups (g ∷ gs) d = flush_groups gs (flush_entries g d)

  -- The loaded entries in turn, and then `delete_completed_journal`.
  unfoldable pub sweep : Daemon → Daemon
  unfolding flush_groups
  sweep d =
      let sent = flush_groups (groups [] (load_pending_journal page d.journal)) d in
      record sent { journal = (delete_completed_journal sent.journal).0 }

  module _ (render : InodeRow → String) (now : ℕ) where
    unfoldable pub flush_round : Daemon → Daemon
    unfolding sweep enqueue_dirty_uploads
    flush_round d =
        let woken = record d { sync_now = false } in
        let swept = sweep woken in
        if can_flush d
        then enqueue_dirty_uploads render now (dirty_files swept.inodes) swept
        else woken
