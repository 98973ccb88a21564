-- ===== src/Db/Inodes/Tests.antt =====
-- Theorems about the inodes of db.rs at small tables.
use mathlib.Core.List.{reverse}
use proton_sdk_rs.Prelude.{
  ℕ, ◌≡◌, ◌↔◌, refl, ◌<◌, String, true, none, some, List, [], ◌∷◌, ◌++◌, arith, length,
}
use proton_sdk_rs.Prelude.Int.{pos}
use proton_sdk_rs.Db.Inodes.{InodeRow, Inodes, new_row, get_inode}
use proton_sdk_rs.Db.Inodes.Updates.{inode_path, path_components, max_depth}
use proton_sdk_rs.Db.Inodes.Columns.{Change, dirty, rename, remove, unpopulated, changed, row_after}
use proton_sdk_rs.Db.Inodes.Paths.{
  Ancestry, at_root, below, path_components_complete, path_components_lem, ParentCycle,
  inode_path-cycle,
}

abbrev node : ℕ → ℕ → String → InodeRow
node ino parent name = new_row ino parent name none none none true (pos 0)

abbrev nested : Inodes
nested = record { rows = node 1 1 "" ∷ node 2 1 "a" ∷ node 3 2 "b" ∷ []; next_ino = 4 }

abbrev changes : List (ℕ × Change)
changes =
    (3, dirty true)
    ∷ (2, rename 1 "z" (pos 7))
    ∷ (3, rename 1 "y" (pos 8))
    ∷ (4, unpopulated)
    ∷ (2, remove)
    ∷ []

-- The row that this is.
changed_row_three :
    row_after 3 changes (get_inode 3 nested)
    ≡ some (record (node 3 1 "y") { dirty = true; ctime = pos 8 })
unfolding row_after changed get_inode
changed_row_three = refl

nested-Ancestry : Ancestry nested 3 ("b" ∷ "a" ∷ [])
unfolding get_inode
nested-Ancestry =
    below (node 3 2 "b") (λ e. ground (arith, e)) refl
      (below (node 2 1 "a") (λ e. ground (arith, e)) refl at_root)

nested_path : path_components 3 nested ≡ some ("a" ∷ "b" ∷ [])
nested_path = path_components_complete nested-Ancestry (omega arith)

path_components_lem_example : (path_components 3 nested ≡ some ("a" ∷ "b" ∷ [])) ↔ (
    (names : List String) × Ancestry nested 3 names
    × ("a" ∷ "b" ∷ [] ≡ reverse names ++ [])
    × (length names < max_depth))
path_components_lem_example = path_components_lem nested 3 ("a" ∷ "b" ∷ [])

abbrev twisted : Inodes
twisted = record { rows = node 1 1 "" ∷ node 2 3 "a" ∷ node 3 2 "b" ∷ []; next_ino = 4 }

twisted-ParentCycle : ParentCycle twisted (node 2 3 "a") (node 3 2 "b")
unfolding get_inode
twisted-ParentCycle = record {
  stored_left = refl;
  stored_right = refl;
  apart = λ e. ground (arith, e);
  left_not_root = λ e. ground (arith, e);
  right_not_root = λ e. ground (arith, e);
}

inode_path-cycle_example : inode_path 1000000 2 twisted ≡ none
inode_path-cycle_example =
    inode_path-cycle twisted 1000000 (node 2 3 "a") (node 3 2 "b") twisted-ParentCycle
