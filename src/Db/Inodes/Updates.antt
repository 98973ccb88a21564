-- ===== src/Db/Inodes/Updates.antt =====
-- crates/pdcli/src/db.rs: the methods of `FuseDb` that change or walk rows of `inodes`.
use Prim.Native.Nat.{Ordering}
use Prim.Native.String.{compare}
use proton_sdk_rs.Prelude.{
  ℕ, zero, suc, String, Bool, true, false, not, ◌&&◌, ◌||◌, Option, none, some, List, [], ◌∷◌, ◌==◌,
  if◌then◌else◌, select_where, sort_by, delete_where,
}
use proton_sdk_rs.Prelude.Int.{ℤ}
use proton_sdk_rs.Db.Inodes.{InodeRow, Inodes, ok, M, opt_eq, has_ino, get_inode, update_ino}

unfoldable pub set_cached_path : ℕ → Option String → M (Unit {0})
unfolding update_ino
set_cached_path ino path = update_ino ino (λ r. record r { cached_path = path })

unfoldable pub set_dirty : ℕ → Bool → M (Unit {0})
unfolding update_ino
set_dirty ino dirty = update_ino ino (λ r. record r { dirty = dirty })

unfoldable pub set_children_populated : ℕ → M (Unit {0})
unfolding update_ino
set_children_populated ino = update_ino ino (λ r. record r { children_populated = true })

unfoldable pub clear_children_populated : ℕ → M (Unit {0})
unfolding update_ino
clear_children_populated ino = update_ino ino (λ r. record r { children_populated = false })

unfoldable pub delete_inode : ℕ → M (Unit {0})
delete_inode ino t = (record t { rows = delete_where (has_ino ino) t.rows }, ok tt)

unfoldable pub rename_inode : ℕ → ℕ → String → ℤ → M (Unit {0})
unfolding update_ino
rename_inode ino new_parent new_name now =
    update_ino ino (λ r. record r { parent_ino = new_parent; name = new_name; ctime = now })

unfoldable pub update_size : ℕ → ℕ → ℤ → M (Unit {0})
unfolding update_ino
update_size ino size now = update_ino ino (λ r. record r { size = size; mtime = now })

unfoldable pub update_size_only : ℕ → ℕ → M (Unit {0})
unfolding update_ino
update_size_only ino size = update_ino ino (λ r. record r { size = size })

-- The CASE expression reads the row before the update.
abbrev pub remote_metadata : ℕ → String → Option String → ℤ → InodeRow → InodeRow
remote_metadata size media_type revision_uid mtime r = record r {
  size = size;
  media_type = media_type;
  cached_path = if opt_eq r.revision_uid revision_uid then r.cached_path else none;
  revision_uid = revision_uid;
  mtime = mtime;
}

unfoldable pub update_remote_metadata : ℕ → ℕ → String → Option String → ℤ → M (Unit {0})
unfolding update_ino
update_remote_metadata ino size media_type revision_uid mtime =
    update_ino ino (remote_metadata size media_type revision_uid mtime)

unfoldable pub update_revision : ℕ → String → ℕ → ℤ → M (Unit {0})
unfolding update_ino
update_revision ino revision_uid size now =
    update_ino ino λ r. record r {
      revision_uid = some revision_uid;
      size = size;
      mtime = now;
      cached_path = none;
    }

-- ORDER BY name, in the order of the code points
abbrev pub name_le : InodeRow → InodeRow → Bool
name_le r s = elim (compare r.name s.name) [ Ordering.gt ↦ false | _ ↦ true ]

-- The children of an inode, itself left out.
unfoldable pub list_children : ℕ → Inodes → List InodeRow
list_children parent_ino t =
    sort_by name_le
      (select_where (λ r. r.parent_ino == parent_ino && not (r.ino == r.parent_ino)) t.rows)

unfoldable pub cached_file_inodes : Inodes → List InodeRow
cached_file_inodes t = select_where (λ r. not r.is_dir && not (opt_eq r.cached_path none)) t.rows

-- The loop of `path_components`; `names` is the vector reversed.
unfoldable pub path_loop : ℕ → ℕ → List String → Inodes → Option (List String)
path_loop zero ino names t = none
path_loop (suc rounds) ino names t =
    let up = λ (r : InodeRow). path_loop rounds r.parent_ino (r.name ∷ names) t in
    let next : Option (List String) = elim (get_inode ino t) [ none ↦ none | some r ↦ up r ] in
    if ino == 1 then some names else next

abbrev pub max_depth : ℕ
max_depth = 4096

unfoldable pub path_components : ℕ → Inodes → Option (List String)
path_components ino t = path_loop max_depth ino [] t

-- The loop of `inode_path` on fuel; the outer `none` means that the fuel ran out.
unfoldable pub row_path_loop :
    ℕ → InodeRow → List InodeRow → Inodes → Option (Option (List InodeRow))
row_path_loop zero current rows t = none
row_path_loop (suc fuel) current rows t =
    let up = λ (p : InodeRow). row_path_loop fuel p (current ∷ rows) t in
    let next : Option (Option (List InodeRow)) = elim (get_inode current.parent_ino t) [
      | none ↦ some none
      | some p ↦ up p
    ] in
    if current.ino == 1 || current.ino == current.parent_ino
    then some (some (current ∷ rows))
    else next

unfoldable pub inode_path : ℕ → ℕ → Inodes → Option (Option (List InodeRow))
unfolding row_path_loop
inode_path fuel ino t = elim (get_inode ino t) [
  | none ↦ some none
  | some current ↦ row_path_loop fuel current [] t
]
