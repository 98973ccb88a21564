-- ===== src/Fuse/Edits.antt =====
-- crates/pdcli/src/fs.rs: `write`, the truncation of `setattr`, and `rmdir`. The bytes themselves are
-- left out. `is_shortcut` is `document_shortcut(…).is_some()`; the listing that `rmdir` waits for is any
-- history of statements on the table.
pub mod Keeps
use proton_sdk_rs.Prelude.{
  ℕ, ◌+◌, ◌%◌, ◌^◌, String, Bool, true, false, not, ◌&&◌, Option, none, some, List, [], ◌∷◌, ltb,
  ◌==◌, if◌then◌else◌, count_where,
}
use proton_sdk_rs.Prelude.Int.{pos}
use proton_sdk_rs.Node.Uids.{NodeUid}
use proton_sdk_rs.Db.Inodes.{InodeRow, Inodes, get_inode, lookup_child}
use proton_sdk_rs.Db.Inodes.Updates.{set_dirty, update_size, list_children}
use proton_sdk_rs.Db.Inodes.Statements.{Statement, exec_all}
use proton_sdk_rs.Fuse.{
  Mount, OpenFile, Outside, Answer, done, refused, Errno, eacces, ebadf, eio, enoent, enotdir,
  enotempty, write, is_protected_parent, when_there, drop_row, is_empty,
}
use proton_sdk_rs.Fuse.Release.{upload_found}

module _ (o : Outside) where
  -- The row is at least this long.
  unfoldable pub extend : ℕ → ℕ → Mount → Mount
  extend ino new_end s = elim (get_inode ino s.daemon.inodes) [
    | none ↦ s
    | some row ↦ if ltb row.size new_end then write (update_size ino new_end (pos o.now)) s else s
  ]

  abbrev pub written : ℕ → ℕ → Option ℕ → Mount → Mount × Answer
  written ino offset none s = (s, refused eio)
  written ino offset (some n) s =
      (write (set_dirty ino true) (extend ino ((offset + n) % 2 ^ 64) s), done)

  -- `n` is the number of bytes that `write_at` took, or `none` on an error.
  unfoldable pub write_file : ℕ → ℕ → ℕ → Option ℕ → Mount → Mount × Answer
  unfolding extend
  write_file ino fh offset n s =
      if ltb 0 (count_where (λ f. f.fh == fh) s.open_files)
      then written ino offset n s
      else (s, refused ebadf)

  module _ (refresh : NodeUid → Option String) (is_shortcut : InodeRow → Bool) where
    abbrev pub found_shortcut : Option InodeRow → Bool
    found_shortcut none = false
    found_shortcut (some row) = is_shortcut row

    unfoldable pub truncate : ℕ → ℕ → Mount → Mount
    truncate ino size s =
        let edited = write (set_dirty ino true) (write (update_size ino size (pos o.now)) s) in
        upload_found o refresh (get_inode ino edited.daemon.inodes) edited

    -- `ENOENT` where the inode is not there at the end.
    abbrev pub attributes : ℕ → Mount → Mount × Answer
    attributes ino s = when_there o (get_inode ino s.daemon.inodes) s (λ row. (s, done))

    unfoldable pub setattr : ℕ → Option ℕ → Mount → Mount × Answer
    unfolding truncate
    setattr ino none s = attributes ino s
    setattr ino (some size) s =
        if found_shortcut (get_inode ino s.daemon.inodes)
        then (s, refused eacces)
        else attributes ino (truncate ino size s)

  unfoldable pub remove_listed : InodeRow → Mount → Mount × Answer
  unfolding drop_row
  remove_listed row s =
      if is_empty o (list_children row.ino s.daemon.inodes)
      then (drop_row o row s, done)
      else (s, refused enotempty)

  unfoldable pub rmdir : List Statement → ℕ → Option String → Mount → Mount × Answer
  unfolding remove_listed
  rmdir listing parent_ino none s = (s, refused enoent)
  rmdir listing parent_ino (some name) s =
      let listed = record s {
        daemon = record s.daemon { inodes = exec_all listing s.daemon.inodes };
      } in
      if is_protected_parent parent_ino s.daemon.inodes
      then (s, refused eacces)
      else when_there o (lookup_child parent_ino name s.daemon.inodes) s
          λ row. if row.is_dir then remove_listed row listed else (s, refused enotdir)
