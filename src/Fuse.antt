-- ===== src/Fuse.antt =====
-- crates/pdcli/src/fs.rs: the file system handlers that change the inode table and the journal. A
-- handler ends with a reply, of which the attributes are left out. A name is `none` where the text of
-- the request is not UTF-8. Bytes on the disk, except that a file can be made or opened, are left out.
pub mod Release
pub mod Edits
pub mod Sound
pub mod Handlers
pub mod History
pub mod Moves
pub mod Creates
mod Tests
use proton_sdk_rs.Prelude.{
  ℕ, ◌+◌, String, Bool, true, false, not, ◌&&◌, ◌||◌, Option, none, some, List, [], ◌∷◌, ◌++◌, ◌==◌,
  if◌then◌else◌, delete_where,
}
use proton_sdk_rs.Prelude.Int.{ℤ, pos}
use proton_sdk_rs.Db.Journal.{EventType, create_folder, delete, rename, move}
use proton_sdk_rs.Db.Inodes.{InodeRow, Inodes, M, get_inode, lookup_child, insert_inode}
use proton_sdk_rs.Db.Inodes as Inodes
use proton_sdk_rs.Db.Inodes.Updates.{
  set_dirty, set_cached_path, delete_inode, rename_inode, list_children,
}
use proton_sdk_rs.Db.Events.{record_sync_event}
use proton_sdk_rs.Flush.{Daemon, enqueue_journal_and_wake, enqueue_dirty_upload, has_value}

pub data Errno : Type 0 where
  eacces ebadf eexist eio enoent eisdir enotdir enotempty einval : Errno

pub data Answer : Type 0 where
  done : Answer
  refused : Errno → Answer

-- An entry of `open_files`: `Content::Local`.
pub record OpenFile : Type 0 where
  pub fh : ℕ
  pub ino : ℕ
  pub writable : Bool

pub record Mount : Type 0 where
  pub daemon : Daemon
  pub open_files : List OpenFile
  pub next_fh : ℕ

-- What the handlers take from outside: the JSON of texts and nulls (`serde_json`), the payloads with
-- numbers, the media type of a name (`mime_guess`), the path in the cache directory, whether a file can
-- be made and be opened, the ignore rules, and the clock.
pub record Outside : Type 0 where
  pub json : List (String × Option String) → String
  pub folder_json : ℕ → ℕ → String → String
  pub row_json : InodeRow → String
  pub media_type : String → String
  pub cache_path : ℕ → String
  pub can_create : String → Bool
  pub can_open : String → Bool → Bool
  pub ignored : Inodes → InodeRow → Bool
  pub now : ℕ

abbrev pub is_some_ino : ℕ → Option InodeRow → Bool
is_some_ino ino none = false
is_some_ino ino (some row) = row.ino == ino

unfoldable pub is_protected_parent : ℕ → Inodes → Bool
is_protected_parent parent_ino t =
    parent_ino == 1 || is_some_ino parent_ino (lookup_child 1 "Computers" t)

-- `let _ = db.method(…)`
abbrev pub write : {A : Type 0} → M A → Mount → Mount
write m s = record s { daemon = record s.daemon { inodes = (m s.daemon.inodes).0 } }

module _ (o : Outside) where
  unfoldable pub enqueue : EventType → ℕ → String → Mount → Mount
  unfolding enqueue_journal_and_wake
  enqueue event ino payload s = record s {
    daemon = enqueue_journal_and_wake event ino payload o.now s.daemon;
  }

  unfoldable pub open_created : ℕ → Bool → Mount → Mount × Answer
  open_created ino writable s = (
    record s {
      open_files = s.open_files ++ record { fh = s.next_fh; ino = ino; writable = writable } ∷ [];
      next_fh = s.next_fh + 1;
    },
    done,
  )

  -- The cache file of a new row.
  unfoldable pub create_cached : ℕ → Bool → Mount → Mount × Answer
  unfolding open_created
  create_cached ino writable s =
      let path = o.cache_path ino in
      let cached = write (set_cached_path ino (some path)) s in
      if o.can_create path
      then (if o.can_open path writable
          then open_created ino writable cached
          else (cached, refused eio))
      else (s, refused eio)

  abbrev pub created : Bool → Mount → Inodes × Inodes.Result ℕ → Mount × Answer
  created writable s (t, Inodes.err e) = (s, refused eio)
  created writable s (t, Inodes.ok ino) =
      create_cached ino writable
        (write (set_dirty ino true) (record s { daemon = record s.daemon { inodes = t } }))

  abbrev pub when_free : Option InodeRow → Mount → Mount × Answer → Mount × Answer
  when_free none s m = m
  when_free (some row) s m = (s, refused eexist)

  unfoldable pub create : ℕ → Option String → Bool → Mount → Mount × Answer
  unfolding create_cached insert_inode
  create parent_ino none writable s = (s, refused einval)
  create parent_ino (some name) writable s =
      if is_protected_parent parent_ino s.daemon.inodes
      then (s, refused eacces)
      else when_free (lookup_child parent_ino name s.daemon.inodes) s (
          created writable s (
            insert_inode parent_ino name none none none false 0 (o.media_type name) none (pos 0)
              (pos o.now) s.daemon.inodes))

  unfoldable pub record_event : String → String → Option String → Option String → Mount → Mount
  record_event source event name detail s = record s {
    daemon = record s.daemon {
      sync_events = record_sync_event source event name detail o.now s.daemon.sync_events;
    };
  }

  unfoldable pub announce_folder : ℕ → ℕ → String → Mount → Mount
  unfolding enqueue record_event
  announce_folder ino parent_ino name s = elim (get_inode ino s.daemon.inodes) [
    | none ↦ s
    | some row ↦
        if o.ignored s.daemon.inodes row
        then record_event "local" "ignored" (some name) none s
        else enqueue create_folder ino (o.folder_json ino parent_ino name) s
  ]

  abbrev pub made : ℕ → String → Mount → Inodes × Inodes.Result ℕ → Mount × Answer
  made parent_ino name s (t, Inodes.err e) = (s, refused eio)
  made parent_ino name s (t, Inodes.ok ino) = (
    announce_folder ino parent_ino name (record s { daemon = record s.daemon { inodes = t } }),
    done,
  )

  unfoldable pub mkdir : ℕ → Option String → Mount → Mount × Answer
  unfolding announce_folder insert_inode
  mkdir parent_ino none s = (s, refused einval)
  mkdir parent_ino (some name) s =
      if is_protected_parent parent_ino s.daemon.inodes
      then (s, refused eacces)
      else when_free (lookup_child parent_ino name s.daemon.inodes) s (
          made parent_ino name s (
            insert_inode parent_ino name none none none true 0 "" none (pos 0) (pos o.now)
              s.daemon.inodes))

  -- The inode goes, and its node is to be moved to the trash.
  unfoldable pub drop_row : InodeRow → Mount → Mount
  unfolding enqueue
  drop_row row s =
      let queued = enqueue delete row.ino (o.json (("node_uid", row.node_uid) ∷ [])) s in
      write (delete_inode row.ino) (if has_value row.node_uid then queued else s)

  abbrev pub when_there : Option InodeRow → Mount → (InodeRow → Mount × Answer) → Mount × Answer
  when_there none s f = (s, refused enoent)
  when_there (some row) s f = f row

  unfoldable pub unlink : ℕ → Option String → Mount → Mount × Answer
  unfolding drop_row
  unlink parent_ino none s = (s, refused enoent)
  unlink parent_ino (some name) s =
      if is_protected_parent parent_ino s.daemon.inodes
      then (s, refused eacces)
      else when_there (lookup_child parent_ino name s.daemon.inodes) s
          λ row. if row.is_dir then (s, refused eisdir) else (drop_row row s, done)

  abbrev pub node_uid_of : Option InodeRow → Option String
  node_uid_of none = none
  node_uid_of (some row) = row.node_uid

  -- The event of a row that moves to a name below a parent, after the table has changed.
  unfoldable pub announce_move : ℕ → ℕ → String → InodeRow → Mount → Mount
  unfolding enqueue
  announce_move parent_ino newparent_ino newname row s =
      let renamed = o.json (("node_uid", row.node_uid) ∷ ("new_name", some newname) ∷ []) in
      let moved = o.json (
        ("node_uid", row.node_uid)
        ∷ ("new_parent_node_uid", node_uid_of (get_inode newparent_ino s.daemon.inodes))
        ∷ ("new_name", some newname)
        ∷ []) in
      if has_value row.node_uid
      then (if parent_ino == newparent_ino
          then enqueue rename row.ino renamed s
          else enqueue move row.ino moved s)
      else s

  unfoldable pub move_row : ℕ → ℕ → String → InodeRow → Mount → Mount × Answer
  unfolding announce_move
  move_row parent_ino newparent_ino newname row s = (
    announce_move parent_ino newparent_ino newname row
        (write (rename_inode row.ino newparent_ino newname (pos o.now)) s),
    done,
  )

  abbrev pub is_empty : List InodeRow → Bool
  is_empty [] = true
  is_empty (r ∷ rs) = false

  -- An existing target is dropped first.
  unfoldable pub overwrite : Option InodeRow → Mount → (Mount → Mount × Answer) → Mount × Answer
  unfolding drop_row
  overwrite none s f = f s
  overwrite (some existing) s f =
      if existing.is_dir && not (is_empty (list_children existing.ino s.daemon.inodes))
      then (s, refused enotempty)
      else f (drop_row existing s)

  unfoldable pub rename_to : ℕ → String → ℕ → String → Mount → Mount × Answer
  unfolding overwrite move_row
  rename_to parent_ino name newparent_ino newname s =
      if is_protected_parent parent_ino s.daemon.inodes
        || is_protected_parent newparent_ino s.daemon.inodes
      then (s, refused eacces)
      else when_there (lookup_child parent_ino name s.daemon.inodes) s λ row.
        overwrite (lookup_child newparent_ino newname s.daemon.inodes) s
          (move_row parent_ino newparent_ino newname row)

  unfoldable pub rename_child : ℕ → Option String → ℕ → Option String → Mount → Mount × Answer
  unfolding rename_to
  rename_child parent_ino none newparent_ino newname s = (s, refused enoent)
  rename_child parent_ino (some name) newparent_ino none s = (s, refused einval)
  rename_child parent_ino (some name) newparent_ino (some newname) s =
      rename_to parent_ino name newparent_ino newname s
