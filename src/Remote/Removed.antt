-- ===== src/Remote/Removed.antt =====
-- crates/pdcli/src/fs.rs: `remove_inode_tree` takes an inode and all below it, and nothing else.
use proton_sdk_rs.Prelude.{
  ℕ, zero, suc, ◌≡◌, refl, sym, ap, subst, ◌∙◌, ◌↔◌, inl, inr, Bool, true, ◌||◌, some, List, [],
  ◌∷◌, arith, ◌==◌, All, All-map, All-zip, delete_where, Bool-cases, Option-cases,
}
use proton_sdk_rs.Db.Inodes.{InodeRow, has_ino}
use proton_sdk_rs.Db.Inodes.Updates.{delete_inode, list_children}
use proton_sdk_rs.Remote.{World, rows_of, remove_row, remove_all, remove_inode_tree}
use proton_sdk_rs.Remote.Trees.{
  In, is_below, Reached, here, child, In-All, All-In, All-list_children, All-list_children_inv,
  Within,
}
use proton_sdk_rs.Remote.Gone.{
  Closing, Removes, removes_none, removes_both, removes_as, delete_where-twice, Reached-step,
  Closing-or, Reached-fewer, Within-fewer,
}

remove_row-rows :
    (row : InodeRow) (w : World)
    → (rows_of (remove_row row w) ≡ delete_where (has_ino row.ino) (rows_of w))
      × ((remove_row row w).daemon.journal ≡ w.daemon.journal)
unfolding delete_inode
remove_row-rows row w = elim (Option-cases row.cached_path) [
  | inl missing ↦ rw (remove_row, missing) (refl, refl)
  | inr (path, found) ↦ rw (remove_row, found) (refl, refl)
]

-- A tree that is removed, its top among the numbers that are gone.
pub record Removal (n : ℕ) (row : InodeRow) (w : World) : Type 0 where
  pub after : World
  pub done : remove_inode_tree n row w ≡ some after
  pub removes : Removes (Reached (rows_of w) row.ino) w after
  pub top : removes.gone row.ino ≡ true

record Removals (n : ℕ) (P : ℕ → Type 0) (cs : List InodeRow) (w : World) : Type 0 where
  after : World
  done : remove_all (remove_inode_tree n) cs w ≡ some after
  removes : Removes P w after
  tops : All (λ c. removes.gone c.ino ≡ true) cs

-- A child that may be removed: it lies within the fuel, and what is below it is to be removed.
abbrev pub Due : ℕ → (ℕ → Type 0) → List InodeRow → InodeRow → Type 0
Due n P rows c = Within rows n c.ino × ((i : ℕ) → Reached rows c.ino i → P i)

pub Due-fewer :
    (n : ℕ) (P : ℕ → Type 0) (q : ℕ → Bool) (rows : List InodeRow) (c : InodeRow)
    → Due n P rows c
    → Due n P (delete_where (λ r. q r.ino) rows) c
Due-fewer n P q rows c (h, k) =
    (Within-fewer q rows n c.ino h, λ i r. k i (Reached-fewer q rows c.ino i r))

remove_all-Removals :
    (n : ℕ) (P : ℕ → Type 0)
    → ((row : InodeRow) (w : World) → Within (rows_of w) n row.ino → Removal n row w)
    → (cs : List InodeRow) (w : World) → All (Due n P (rows_of w)) cs
    → Removals n P cs w
unfolding remove_all removes_both removes_as
remove_all-Removals n P remove [] w h = record {
  after = w;
  done = refl;
  removes = removes_none P w;
  tops = tt;
}
remove_all-Removals n P remove (c ∷ cs) w h =
    let first = remove c w h.0.0 in
    let mine = removes_as (Reached (rows_of w) c.ino) P w first.after h.0.1 first.removes in
    let due =
      subst (λ rows. All (Due n P rows) cs) (sym mine.rows)
        (All-map (λ d k. Due-fewer n P mine.gone (rows_of w) d k) cs h.1) in
    let rest = remove_all-Removals n P remove cs first.after due in
    record {
      after = rest.after;
      done = rw (remove_all, first.done) rest.done;
      removes = removes_both P w first.after rest.after mine rest.removes;
      tops = (rw first.top refl, All-map (λ d k. rw k (ground arith)) cs rest.tops);
    }

pub remove_inode_tree-Removal :
    (n : ℕ) (row : InodeRow) (w : World) → Within (rows_of w) n row.ino → Removal n row w
unfolding remove_inode_tree
remove_inode_tree-Removal zero row w h = absurd h
remove_inode_tree-Removal (suc n) row w h =
    let rows = rows_of w in
    let P = Reached rows row.ino in
    let due = All-list_children (Due n P rows) row.ino w.daemon.inodes (
      All-map (λ c k below. (k.0 below, Reached-step rows row.ino c k.1 below)) rows
        (All-zip (λ c. is_below row.ino c ≡ true → Within rows n c.ino) (λ c. In c rows) rows h
          (All-In rows))) in
    let below_gone =
      remove_all-Removals n P (remove_inode_tree-Removal n) (list_children row.ino w.daemon.inodes)
        w due in
    let g = below_gone.removes.gone in
    let last = remove_row-rows row below_gone.after in
    let children_gone =
      All-list_children_inv (λ c. g c.ino ≡ true) row.ino w.daemon.inodes below_gone.tops in
    record {
      after = remove_row row below_gone.after;
      done = rw (remove_inode_tree, below_gone.done) refl;
      removes = record {
        gone = λ i. g i || i == row.ino;
        rows =
            last.0
            ∙ ap (delete_where (has_ino row.ino)) below_gone.removes.rows
            ∙ delete_where-twice (λ r. g r.ino) (has_ino row.ino) rows;
        journal = last.1 ∙ below_gone.removes.journal;
        only = λ i k. elim (Bool-cases (g i)) [
          | inl inner ↦ below_gone.removes.only i inner
          | inr other ↦
              let same : i ≡ row.ino = ground (arith, other, k) in
              subst (Reached rows row.ino) (sym same) here
        ];
        closed =
            All-map
              (λ s k.
                Closing-or g (λ i. i == row.ino) s k.0
                  (λ other p top below.
                    let same : p ≡ row.ino = ground (arith, top) in
                    let hit = k.1 (subst (λ q. is_below q s ≡ true) same below) in
                    absurd (ground (arith, hit, other))))
              rows
              (All-zip (Closing g) (λ s. is_below row.ino s ≡ true → g s.ino ≡ true) rows
                below_gone.removes.closed children_gone);
      };
      top = ground arith;
    }

-- What is reached from a number that is gone is gone.
pub Reached-gone :
    (g : ℕ → Bool) (rows : List InodeRow) (top : ℕ)
    → All (Closing g) rows
    → g top ≡ true
    → (i : ℕ) → Reached rows top i
    → g i ≡ true
Reached-gone g rows top closed h i here = h
Reached-gone g rows top closed h i (child {ino = p} s up at below) =
    In-All (Closing g) s rows closed at p (Reached-gone g rows top closed h p up) below

-- Where everything below the inode of a row lies within the fuel, `remove_inode_tree` ends. Then the
-- rows of that inode and of all below it, along the stored parents, are gone, and no others; and the
-- journal is as it was, also where rows that are gone have waiting entries.
pub remove_inode_tree_lem :
    (n : ℕ) (row : InodeRow) (w : World)
    → Within (rows_of w) n row.ino
    → (v : World) × (gone : ℕ → Bool) × (remove_inode_tree n row w ≡ some v)
      × (rows_of v ≡ delete_where (λ r. gone r.ino) (rows_of w))
      × ((i : ℕ) → (gone i ≡ true) ↔ Reached (rows_of w) row.ino i)
      × (v.daemon.journal ≡ w.daemon.journal)
remove_inode_tree_lem n row w h =
    let r = remove_inode_tree-Removal n row w h in
    (
      r.after,
      r.removes.gone,
      r.done,
      r.removes.rows,
      λ i. (
        r.removes.only i,
        Reached-gone r.removes.gone (rows_of w) row.ino r.removes.closed r.top i,
      ),
      r.removes.journal,
    )
