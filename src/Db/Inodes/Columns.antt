-- ===== src/Db/Inodes/Columns.antt =====
-- crates/pdcli/src/db.rs: what the methods that change or delete a row of `inodes` do to the table as a
-- map from inode numbers to rows.
use proton_sdk_rs.Prelude.{
  ℕ, ◌≡◌, String, Bool, true, false, Option, none, some, List, [], ◌∷◌, ◌==◌, if◌then◌else◌,
}
use proton_sdk_rs.Prelude.Int.{ℤ}
use proton_sdk_rs.Db.Inodes.{InodeRow, Inodes, get_inode, opt_eq}
use proton_sdk_rs.Db.Inodes.Updates.{
  set_cached_path, set_dirty, set_children_populated, clear_children_populated, delete_inode,
  rename_inode, update_size, update_size_only, update_remote_metadata, update_revision,
}

-- A call of one of the methods, less the inode number.
pub data Change : Type 0 where
  cached_path : Option String → Change
  dirty : Bool → Change
  populated unpopulated remove : Change
  rename : ℕ → String → ℤ → Change
  size : ℕ → ℤ → Change
  size_only : ℕ → Change
  remote_metadata : ℕ → String → Option String → ℤ → Change
  revision : String → ℕ → ℤ → Change

pub change : ℕ → Change → Inodes → Inodes
change ino (cached_path path) t = (set_cached_path ino path t).0
change ino (dirty value) t = (set_dirty ino value t).0
change ino populated t = (set_children_populated ino t).0
change ino unpopulated t = (clear_children_populated ino t).0
change ino remove t = (delete_inode ino t).0
change ino (rename parent name now) t = (rename_inode ino parent name now t).0
change ino (size bytes now) t = (update_size ino bytes now t).0
change ino (size_only bytes) t = (update_size_only ino bytes t).0
change ino (remote_metadata bytes media rev mtime) t =
    (update_remote_metadata ino bytes media rev mtime t).0
change ino (revision rev bytes now) t = (update_revision ino rev bytes now t).0

pub change_all : List (ℕ × Change) → Inodes → Inodes
change_all [] t = t
change_all ((ino, c) ∷ cs) t = change_all cs (change ino c t)

-- The row afterwards, which has the columns of the change and keeps the others.
unfoldable pub changed : Change → InodeRow → Option InodeRow
changed (cached_path path) r = some (record r { cached_path = path })
changed (dirty value) r = some (record r { dirty = value })
changed populated r = some (record r { children_populated = true })
changed unpopulated r = some (record r { children_populated = false })
changed remove r = none
changed (rename parent name now) r =
    some (record r { parent_ino = parent; name = name; ctime = now })
changed (size bytes now) r = some (record r { size = bytes; mtime = now })
changed (size_only bytes) r = some (record r { size = bytes })
changed (remote_metadata bytes media rev mtime) r = some (record r {
  size = bytes;
  media_type = media;
  revision_uid = rev;
  mtime = mtime;
  cached_path = if opt_eq r.revision_uid rev then r.cached_path else none;
})
changed (revision rev bytes now) r =
    some (record r { revision_uid = some rev; size = bytes; mtime = now; cached_path = none })

abbrev changed_row : Change → Option InodeRow → Option InodeRow
changed_row c none = none
changed_row c (some r) = changed c r

-- What an inode number stands for after the changes, of which those of other numbers do not matter.
unfoldable pub row_after : ℕ → List (ℕ × Change) → Option InodeRow → Option InodeRow
row_after ino [] row = row
row_after ino ((other, c) ∷ cs) row =
    row_after ino cs (if other == ino then changed_row c row else row)

-- The row of a number after a change of another row or of that one.
abbrev StepsTo : ℕ → ℕ → Change → Inodes → Inodes → Type 0
StepsTo ino other c t u =
    get_inode ino u ≡ (if other == ino then changed_row c (get_inode ino t) else get_inode ino t)
