-- ===== src/Remote/Polls.antt =====
-- crates/pdcli/src/fs.rs: what the removal of a tree keeps.
use proton_sdk_rs.Prelude.{
  ◌==◌, ℕ, zero, suc, ◌≡◌, refl, ◌∙◌, subst, String, Option, none, some, List, [], ◌∷◌,
}
use proton_sdk_rs.Db.Inodes.{Inodes, has_ino, InodeRow, M}
use proton_sdk_rs.Db.Inodes.Updates.{
  set_cached_path, list_children, delete_inode, clear_children_populated,
}
use proton_sdk_rs.Db.Inodes.Unique as Unique
use proton_sdk_rs.Db.Inodes.Unique.{update_ino-IsValid}
use proton_sdk_rs.Fuse.Sound.{KeepsInodes, delete_inode-KeepsInodes}
use proton_sdk_rs.Remote.Gone.{Within-fewer, Within-update, Shallow}
use proton_sdk_rs.Remote.{
  rows_of, World, write, remove_cached, and_then, remove_all, remove_row, remove_inode_tree,
}

-- The cursors and the journal stay, and so do the unique keys of the inode table.
pub record Keeps (w v : World) : Type 0 where
  pub cursors : v.cursors ≡ w.cursors
  pub journal : v.daemon.journal ≡ w.daemon.journal
  pub inodes : Unique.IsValid w.daemon.inodes → Unique.IsValid v.daemon.inodes
  pub shallow : (n : ℕ) → Shallow (rows_of w) n → Shallow (rows_of v) n

pub Keeps-refl : (w : World) → Keeps w w
Keeps-refl w = record { cursors = refl; journal = refl; inodes = λ v. v; shallow = λ n h. h }

pub Keeps-trans : (w v u : World) → Keeps w v → Keeps v u → Keeps w u
Keeps-trans w v u a b = record {
  cursors = b.cursors ∙ a.cursors;
  journal = b.journal ∙ a.journal;
  inodes = λ h. b.inodes (a.inodes h);
  shallow = λ n h. b.shallow n (a.shallow n h);
}

-- A method that puts no row deeper.
pub record KeepsDepth {A : Type 0} (m : M A) : Type 0 where
  pub at : (t : Inodes) (n : ℕ) → Shallow t.rows n → Shallow (m t).0.rows n

pub write-Keeps :
    {A : Type 0} (m : M A) (w : World) → KeepsInodes m → KeepsDepth m → Keeps w (write m w)
write-Keeps m w h k = record {
  cursors = refl;
  journal = refl;
  inodes = h.at w.daemon.inodes;
  shallow = k.at w.daemon.inodes;
}

pub clear_children_populated-KeepsDepth : (ino : ℕ) → KeepsDepth (clear_children_populated ino)
unfolding clear_children_populated
clear_children_populated-KeepsDepth ino = record {
  at = λ t n h i. Within-update (has_ino ino) _ t.rows (λ r. (refl, refl)) n i (h i);
}

pub set_cached_path-KeepsDepth :
    (ino : ℕ) (path : Option String) → KeepsDepth (set_cached_path ino path)
unfolding set_cached_path
set_cached_path-KeepsDepth ino path = record {
  at = λ t n h i. Within-update (has_ino ino) _ t.rows (λ r. (refl, refl)) n i (h i);
}

delete_inode-KeepsDepth : (ino : ℕ) → KeepsDepth (delete_inode ino)
unfolding delete_inode
delete_inode-KeepsDepth ino = record {
  at = λ t n h i. Within-fewer (λ k. k == ino) t.rows n i (h i);
}

pub clear_children_populated-KeepsInodes : (ino : ℕ) → KeepsInodes (clear_children_populated ino)
unfolding clear_children_populated
clear_children_populated-KeepsInodes ino = record {
  at = λ t. update_ino-IsValid ino _ t (λ r. (refl, refl));
}

pub remove_cached-Keeps : (path : Option String) (w : World) → Keeps w (remove_cached path w)
remove_cached-Keeps none w = Keeps-refl w
remove_cached-Keeps (some path) w = record {
  cursors = refl;
  journal = refl;
  inodes = λ v. v;
  shallow = λ n h. h;
}

-- Every world that a step may end with.
pub record Ends (w : World) (o : Option World) : Type 0 where
  pub at : (v : World) → o ≡ some v → Keeps w v

pub Ends-some : (w v : World) → Keeps w v → Ends w (some v)
Ends-some w v k = record { at = λ u e. let same : v ≡ u = cc in subst (Keeps w) same k }

pub Ends-and_then :
    (w : World) (o : Option World) (f : World → Option World)
    → Ends w o
    → ((v : World) → Ends v (f v))
    → Ends w (and_then o f)
Ends-and_then w none f a b = record { at = λ u e. cc }
Ends-and_then w (some v) f a b = record {
  at = λ u e. Keeps-trans w v u (a.at v refl) ((b v).at u e);
}

remove_all-Ends :
    (remove : InodeRow → World → Option World)
    → ((r : InodeRow) (w : World) → Ends w (remove r w))
    → (rows : List InodeRow) (w : World) → Ends w (remove_all remove rows w)
unfolding remove_all
remove_all-Ends remove h [] w = Ends-some w w (Keeps-refl w)
remove_all-Ends remove h (r ∷ rows) w =
    Ends-and_then w (remove r w) (remove_all remove rows) (h r w) (remove_all-Ends remove h rows)

pub remove_inode_tree-Ends :
    (n : ℕ) (row : InodeRow) (w : World) → Ends w (remove_inode_tree n row w)
unfolding remove_inode_tree
remove_inode_tree-Ends zero row w = record { at = λ v e. cc }
remove_inode_tree-Ends (suc n) row w =
    Ends-and_then w (remove_all (remove_inode_tree n) (list_children row.ino w.daemon.inodes) w)
      (λ v. some (remove_row row v))
      (remove_all-Ends (remove_inode_tree n) (remove_inode_tree-Ends n)
        (list_children row.ino w.daemon.inodes) w)
      (λ v.
        let uncached = remove_cached row.cached_path v in
        Ends-some v (remove_row row v) (
          Keeps-trans v uncached (remove_row row v) (remove_cached-Keeps row.cached_path v) (
            write-Keeps (delete_inode row.ino) uncached (delete_inode-KeepsInodes row.ino)
              (delete_inode-KeepsDepth row.ino))))
