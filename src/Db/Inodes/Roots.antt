-- ===== src/Db/Inodes/Roots.antt =====
-- crates/pdcli/src/db.rs: `ensure_my_files_root` and `ensure_computers_root`.
use text.Mathlib.Text.{◌==◌ as str_eq}
use proton_sdk_rs.Prelude.{
  ℕ, String, Bool, true, not, ◌&&◌, ◌||◌, Option, none, some, ltb, ◌==◌, if◌then◌else◌,
  update_where, count_where,
}
use proton_sdk_rs.Prelude.Int.{ℤ}
use proton_sdk_rs.Db.Inodes.{
  InodeRow, Inodes, ok, M, ◌>>=◌, ◌>>◌, pure, opt_eq, has_ino, get_inode, lookup_child, new_row,
  insert_row, insert_root, update_ids,
}

-- A query between two statements.
abbrev pub query : {A : Type 0} → (Inodes → A) → M A
query q t = (t, ok (q t))

abbrev pub is_legacy : ℕ → InodeRow → Bool
is_legacy my_files_ino r =
    r.parent_ino == 1
    && (not (r.ino == 1) && not (r.ino == my_files_ino))
    && (not (str_eq r.name "MyFiles") && not (str_eq r.name "Computers"))

unfoldable pub reparent_legacy_root_children : ℕ → M (Unit {0})
reparent_legacy_root_children my_files_ino t = (
  record t {
    rows =
        update_where (is_legacy my_files_ino) (λ r. record r { parent_ino = my_files_ino }) t.rows;
  },
  ok tt,
)

abbrev pub has_ids : InodeRow → Bool
has_ids r =
    not (opt_eq r.node_uid none) || not (opt_eq r.volume_id none) || not (opt_eq r.link_id none)

-- UPDATE … WHERE ino = ? AND node_uid IS NULL
unfoldable pub update_ids_if_null : ℕ → Option String → Option String → Option String → M (Unit {0})
unfolding update_ids
update_ids_if_null ino node_uid volume_id link_id t =
    if ltb 0 (count_where (λ r. has_ino ino r && opt_eq r.node_uid none) t.rows)
    then update_ids ino node_uid volume_id link_id t
    else (t, ok tt)

-- Moves the ids of the root row down to MyFiles.
unfoldable pub move_ids :
    (ℕ → Option String → Option String → Option String → M (Unit {0}))
    → ℕ
    → Option InodeRow
    → M (Unit {0})
unfolding update_ids
move_ids write ino none = pure tt
move_ids write ino (some root) =
    if has_ids root
    then (do update_ids 1 none none none; write ino root.node_uid root.volume_id root.link_id)
    else pure tt

unfoldable pub adopt_my_files : InodeRow → M ℕ
unfolding move_ids update_ids_if_null reparent_legacy_root_children get_inode
adopt_my_files row = do
  root ← query (get_inode 1)
  move_ids update_ids_if_null row.ino root
  reparent_legacy_root_children row.ino
  pure row.ino

unfoldable pub create_my_files : ℤ → M ℕ
unfolding move_ids update_ids reparent_legacy_root_children get_inode insert_row
create_my_files now = do
  old_root ← query (get_inode 1)
  ino ← insert_row (λ ino. new_row ino 1 "MyFiles" none none none true now)
  move_ids update_ids ino old_root
  reparent_legacy_root_children ino
  pure ino

abbrev pub or_create : (InodeRow → M ℕ) → M ℕ → Option InodeRow → M ℕ
or_create found create none = create
or_create found create (some row) = found row

unfoldable pub ensure_my_files_root : ℤ → M ℕ
unfolding insert_root lookup_child adopt_my_files create_my_files
ensure_my_files_root now = do
  insert_root none none none now
  found ← query (lookup_child 1 "MyFiles")
  or_create adopt_my_files (create_my_files now) found

unfoldable pub ensure_computers_root : ℤ → M ℕ
unfolding insert_root lookup_child insert_row
ensure_computers_root now = do
  insert_root none none none now
  found ← query (lookup_child 1 "Computers")
  or_create (λ row. pure row.ino)
      (insert_row (λ ino. new_row ino 1 "Computers" none none none true now)) found
