-- ===== src/Db/Inodes/Statements.antt =====
-- crates/pdcli/src/db.rs: histories of the methods that write `inodes`.
use proton_sdk_rs.Prelude.{ℕ, refl, String, Bool, Option, List, [], ◌∷◌}
use proton_sdk_rs.Prelude.Int.{ℤ}
use proton_sdk_rs.Db.Inodes.{Inodes, new_row, has_ino, insert_inode, insert_root, update_node_uid}
use proton_sdk_rs.Db.Inodes.Updates.{
  set_cached_path, set_dirty, set_children_populated, clear_children_populated, delete_inode,
  rename_inode, update_size, update_size_only, update_remote_metadata, update_revision,
}
use proton_sdk_rs.Db.Inodes.Unique.{
  IsValid, update_ino-IsValid, delete-IsValid, update_ids-IsValid, insert_row-IsValid,
  insert_root-IsValid,
}

pub data Statement : Type 0 where
  insert :
      ℕ
      → String
      → Option String
      → Option String
      → Option String
      → Bool
      → ℕ
      → String
      → Option String
      → ℤ
      → ℤ
      → Statement
  root : Option String → Option String → Option String → ℤ → Statement
  node_uid : ℕ → String → String → String → Statement
  cached_path : ℕ → Option String → Statement
  dirty : ℕ → Bool → Statement
  populated unpopulated remove : ℕ → Statement
  rename : ℕ → ℕ → String → ℤ → Statement
  size : ℕ → ℕ → ℤ → Statement
  size_only : ℕ → ℕ → Statement
  remote_metadata : ℕ → ℕ → String → Option String → ℤ → Statement
  revision : ℕ → String → ℕ → ℤ → Statement

-- The table after the method; an error changes nothing.
pub exec : Statement → Inodes → Inodes
exec (insert parent name uid volume link is_dir bytes media rev mtime now) t =
    (insert_inode parent name uid volume link is_dir bytes media rev mtime now t).0
exec (root uid volume link now) t = (insert_root uid volume link now t).0
exec (node_uid ino uid volume link) t = (update_node_uid ino uid volume link t).0
exec (cached_path ino path) t = (set_cached_path ino path t).0
exec (dirty ino value) t = (set_dirty ino value t).0
exec (populated ino) t = (set_children_populated ino t).0
exec (unpopulated ino) t = (clear_children_populated ino t).0
exec (remove ino) t = (delete_inode ino t).0
exec (rename ino parent name now) t = (rename_inode ino parent name now t).0
exec (size ino bytes now) t = (update_size ino bytes now t).0
exec (size_only ino bytes) t = (update_size_only ino bytes t).0
exec (remote_metadata ino bytes media rev mtime) t =
    (update_remote_metadata ino bytes media rev mtime t).0
exec (revision ino rev bytes now) t = (update_revision ino rev bytes now t).0

pub exec_all : List Statement → Inodes → Inodes
exec_all [] t = t
exec_all (s ∷ ss) t = exec_all ss (exec s t)

abbrev pub empty : Inodes
empty = record { rows = []; next_ino = 1 }

exec-IsValid : (s : Statement) (t : Inodes) → IsValid t → IsValid (exec s t)
unfolding exec insert_inode update_node_uid set_cached_path set_dirty set_children_populated
    clear_children_populated delete_inode rename_inode update_size update_size_only
    update_remote_metadata update_revision
exec-IsValid (insert parent name uid volume link is_dir bytes media rev mtime now) t v =
    insert_row-IsValid
      (λ ino. record (new_row ino parent name uid volume link is_dir now) {
        size = bytes;
        media_type = media;
        revision_uid = rev;
        mtime = mtime;
      })
      t (λ n. refl) v
exec-IsValid (root uid volume link now) t v = insert_root-IsValid uid volume link now t v
exec-IsValid (node_uid ino uid volume link) t v = update_ids-IsValid ino _ _ _ t v
exec-IsValid (cached_path ino path) t v = update_ino-IsValid ino _ t (λ r. (refl, refl)) v
exec-IsValid (dirty ino value) t v = update_ino-IsValid ino _ t (λ r. (refl, refl)) v
exec-IsValid (populated ino) t v = update_ino-IsValid ino _ t (λ r. (refl, refl)) v
exec-IsValid (unpopulated ino) t v = update_ino-IsValid ino _ t (λ r. (refl, refl)) v
exec-IsValid (remove ino) t v = delete-IsValid (has_ino ino) t v
exec-IsValid (rename ino parent name now) t v = update_ino-IsValid ino _ t (λ r. (refl, refl)) v
exec-IsValid (size ino bytes now) t v = update_ino-IsValid ino _ t (λ r. (refl, refl)) v
exec-IsValid (size_only ino bytes) t v = update_ino-IsValid ino _ t (λ r. (refl, refl)) v
exec-IsValid (remote_metadata ino bytes media rev mtime) t v =
    update_ino-IsValid ino _ t (λ r. (refl, refl)) v
exec-IsValid (revision ino rev bytes now) t v = update_ino-IsValid ino _ t (λ r. (refl, refl)) v

-- From a table with distinct numbers below the next one and distinct node UIDs, any history of
-- statements leads to such a table: no two rows have the same inode number or the same node UID.
pub exec_all-IsValid : (ss : List Statement) (t : Inodes) → IsValid t → IsValid (exec_all ss t)
unfolding exec_all
exec_all-IsValid [] t v = v
exec_all-IsValid (s ∷ ss) t v = exec_all-IsValid ss (exec s t) (exec-IsValid s t v)
