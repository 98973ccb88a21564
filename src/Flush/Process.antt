-- ===== src/Flush/Process.antt =====
-- crates/pdcli/src/fs.rs: the work on one journal entry, `process_journal_entry`, and the functions
-- that it calls. A step changes the daemon and ends with a value or an error; the locks that it takes
-- are left out. Numbers of bytes are written as an i64 or a u64 as the casts of the code do.
pub mod Uploads
pub mod Entries
pub mod Keeps
pub mod Drains
mod Tests
pub mod Synced
pub mod Created
use Prim.Native.String.{◌++◌ as text_append}
use text.Mathlib.Text.{◌==◌ as str_eq, find?}
use proton_sdk_rs.Prelude.{
  ℕ, suc, ◌+◌, ◌-◌, ◌%◌, ◌^◌, String, Bool, true, false, not, ◌&&◌, ◌||◌, Option, none, some, List,
  [], ◌∷◌, ◌++◌, ltb, ◌==◌, if◌then◌else◌,
}
use proton_sdk_rs.Prelude.Int.{ℤ, pos, negsuc}
use proton_sdk_rs.Node.Uids.{NodeUid, RevisionUid, raw, revision_text, split_once}
use proton_sdk_rs.Node.Uids as Uids
use proton_sdk_rs.Drive.{Call, Reply, ok, error, Drive, RemoteFile}
use proton_sdk_rs.Drive as Drive
use proton_sdk_rs.Db.Inodes.{InodeRow, Inodes, get_inode, update_node_uid}
use proton_sdk_rs.Db.Inodes as Inodes
use proton_sdk_rs.Db.Inodes.Updates.{set_dirty, set_cached_path, update_revision}
use proton_sdk_rs.Db.Inodes.Roots.{ensure_my_files_root}
use proton_sdk_rs.Db.Events.{record_sync_event}
use proton_sdk_rs.Flush.{Daemon}

-- A part of the work.
abbrev pub M : Type 0 → Type 0
M A = Daemon → Daemon × Reply A

abbrev pub and_then : {A B : Type 0} → Daemon × Reply A → (A → M B) → Daemon × Reply B
and_then (d, ok a) f = f a d
and_then (d, error msg) f = (d, error msg)

infixl 5 ◌>>=◌ ◌>>◌
abbrev pub ◌>>=◌ : {A B : Type 0} → M A → (A → M B) → M B
◌>>=◌ m f d = and_then (m d) f

abbrev pub ◌>>◌ : {B : Type 0} → M (Unit {0}) → M B → M B
◌>>◌ m k d = and_then (m d) (λ _. k)

abbrev pub pure : {A : Type 0} → A → M A
pure a d = (d, ok a)

abbrev pub fail : {A : Type 0} → String → M A
fail msg d = (d, error msg)

-- A value or the error `msg`: `ok_or_else`.
abbrev pub need : {A : Type 0} → String → Option A → M A
need msg none = fail msg
need msg (some a) = pure a

abbrev pub reply : {A : Type 0} → Reply A → M A
reply r d = (d, r)

-- `match` on a result: an error goes to the handler.
abbrev pub or_handle : {A : Type 0} → Daemon × Reply A → (String → M A) → Daemon × Reply A
or_handle (d, ok a) f = (d, ok a)
or_handle (d, error msg) f = f msg d

abbrev pub catch : {A : Type 0} → M A → (String → M A) → M A
catch m f d = or_handle (m d) f

-- What stands in the tables.
abbrev pub read : {A : Type 0} → (Inodes → A) → M A
read q d = (d, ok (q d.inodes))

-- A call, with the answer that the drive gives to it.
unfoldable pub ask : {A : Type 0} → Call → (List Call → Reply A) → M A
ask c answer d = let calls = d.calls ++ c ∷ [] in (record d { calls = calls }, answer calls)

-- `let _ = db.method(…)`
unfoldable pub ignore_result : {A : Type 0} → Inodes.M A → M (Unit {0})
ignore_result m d = (record d { inodes = (m d.inodes).0 }, ok tt)

abbrev pub to_option : {A : Type 0} → Inodes.Result A → Option A
to_option (Inodes.ok a) = some a
to_option (Inodes.err e) = none

-- `db.method(…).ok()`
unfoldable pub try_method : {A : Type 0} → Inodes.M A → M (Option A)
try_method m d = (record d { inodes = (m d.inodes).0 }, ok (to_option (m d.inodes).1))

unfoldable pub parse_uid : String → M NodeUid
parse_uid s = need (text_append "Invalid node UID format: \"" (text_append s "\"")) (Uids.parse s)

unfoldable pub parse_revision_uid : String → M RevisionUid
parse_revision_uid s =
    need (text_append "Invalid revision UID format: \"" (text_append s "\""))
      (Uids.parse_revision s)

-- `size as i64` and `size as u64`
abbrev pub as_i64 : ℕ → ℤ
as_i64 n = if ltb n (2 ^ 63) then pos n else negsuc (2 ^ 64 - 1 - n % 2 ^ 64)

abbrev pub as_u64 : ℤ → ℕ
as_u64 (pos n) = n % 2 ^ 64
as_u64 (negsuc n) = 2 ^ 64 - 1 - n % 2 ^ 64

-- `Some(mtime).filter(|&t| t > 0)`
abbrev pub positive_time : ℤ → Option ℕ
positive_time (pos (suc n)) = some (suc n)
positive_time _ = none

abbrev pub or_else : Option String → Option String → Option String
or_else none o = o
or_else (some s) o = some s

abbrev pub value_or : Option ℤ → ℤ → ℤ
value_or none d = d
value_or (some a) d = a

module _ (drive : Drive) (now : ℕ) where
  unfoldable pub set_node_uid : ℕ → NodeUid → M (Unit {0})
  unfolding ignore_result
  set_node_uid ino uid = ignore_result (update_node_uid ino (raw uid) uid.volume_id uid.link_id)

  abbrev pub prefix_error : {A : Type 0} → Reply A → Reply A
  prefix_error (ok a) = ok a
  prefix_error (error msg) = error (text_append "failed to resolve root from API: " msg)

  -- The inode of MyFiles takes the folder's UID.
  unfoldable pub resolve_root : ℕ → M String
  unfolding ask set_node_uid
  resolve_root parent_ino = do
    uid ← ask Call.get_my_files_folder (λ calls. prefix_error (drive.folder_uid calls))
    set_node_uid parent_ino uid
    pure (raw uid)

  -- The text of the ids of a row that has both.
  abbrev pub known_uid : Option InodeRow → Option String
  known_uid none = none
  known_uid (some r) = elim r.volume_id [
    | none ↦ none
    | some vol ↦ elim r.link_id [
      | none ↦ none
      | some link ↦ some (text_append vol (text_append "~" link))
    ]
  ]

  abbrev pub halves : String → Option (String × String) → String × String
  halves uid_str none = (uid_str, "")
  halves uid_str (some p) = p

  unfoldable pub resolve_from_ids : ℕ → Option String → M String
  unfolding ignore_result
  resolve_from_ids parent_ino none = fail "parent not resolved"
  resolve_from_ids parent_ino (some uid_str) =
      let (vol, link) = halves uid_str (split_once uid_str) in
      do ignore_result (update_node_uid parent_ino uid_str vol link); pure uid_str

  abbrev pub is_ino : ℕ → Option ℕ → Bool
  is_ino ino none = false
  is_ino ino (some k) = k == ino

  abbrev pub stored_uid : Option InodeRow → Option String
  stored_uid none = none
  stored_uid (some r) = r.node_uid

  unfoldable pub resolve_unknown : ℕ → M String
  unfolding resolve_root resolve_from_ids try_method
  resolve_unknown parent_ino = do
    my_files_ino ← try_method (ensure_my_files_root (pos now))
    row ← read (get_inode parent_ino)
    if is_ino parent_ino my_files_ino
        then resolve_root parent_ino
        else resolve_from_ids parent_ino (known_uid row)

  abbrev pub stored_or : Option String → M String → M String
  stored_or none m = m
  stored_or (some uid) m = pure uid

  unfoldable pub resolve_parent_node_uid : ℕ → M String
  unfolding resolve_unknown
  resolve_parent_node_uid parent_ino = do
    row ← read (get_inode parent_ino)
    stored_or (stored_uid row) (resolve_unknown parent_ino)
