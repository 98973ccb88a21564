-- ===== src/Remote/Stale.antt =====
-- crates/pdcli/src/fs.rs: which rows a listing of a folder takes away.
use proton_sdk_rs.Prelude.{
  ℕ, ◌≡◌, refl, sym, ◌∙◌, ap, subst, ◌↔◌, inl, inr, String, Bool, true, some, List, [], ◌∷◌, arith,
  All, All-map, All-zip, delete_where, update_where, Bool-cases,
}
use proton_sdk_rs.Db.Journal.{Journal}
use proton_sdk_rs.Db.Inodes.{InodeRow, has_ino}
use proton_sdk_rs.Db.Inodes.Updates.{list_children, set_children_populated}
use proton_sdk_rs.Remote.{World, rows_of, write}
use proton_sdk_rs.Remote.Listing.{Child, insert_children, is_stale, drop_stale, apply_listing}
use proton_sdk_rs.Remote.Trees.{
  In, is_below, Reached, In-All, All-In, All-list_children, All-list_children_inv, Within,
}
use proton_sdk_rs.Remote.Arrived.{Survives, HasRows, insert_children-arrives}
use proton_sdk_rs.Remote.Unlisted.{IsStale, insert_children-journal, is_stale-IsStale}
use proton_sdk_rs.Remote.Removed.{remove_inode_tree-Removal, Due, Due-fewer, Reached-gone}
use proton_sdk_rs.Remote.Gone.{Removes, removes_none, removes_both, removes_as}

module _ (now parent_ino n : ℕ) (uids : List String) where
  abbrev IsDropped : Journal → InodeRow → Type 0
  IsDropped j c = is_stale now parent_ino uids j c ≡ true

  record Dropped (P : ℕ → Type 0) (cs : List InodeRow) (w : World) : Type 0 where
    after : World
    done : drop_stale now parent_ino n uids cs w ≡ some after
    removes : Removes P w after
    tops : All (λ c. IsDropped w.daemon.journal c → removes.gone c.ino ≡ true) cs

  drop_stale-Dropped :
      (P : ℕ → Type 0) (cs : List InodeRow) (w : World)
      → All (λ c. IsDropped w.daemon.journal c → Due n P (rows_of w) c) cs
      → Dropped P cs w
  unfolding drop_stale removes_both removes_as
  drop_stale-Dropped P [] w h = record {
    after = w;
    done = refl;
    removes = removes_none P w;
    tops = tt;
  }
  drop_stale-Dropped P (c ∷ cs) w h =
      elim (Bool-cases (is_stale now parent_ino uids w.daemon.journal c)) [
        | inr fresh ↦
            let rest = drop_stale-Dropped P cs w h.1 in
            record {
              after = rest.after;
              done = rw (drop_stale, fresh) rest.done;
              removes = rest.removes;
              tops = (λ s. absurd (ground (arith, fresh, s)), rest.tops);
            }
        | inl stale ↦
            let due = h.0 stale in
            let first = remove_inode_tree-Removal n c w due.0 in
            let mine = removes_as (Reached (rows_of w) c.ino) P w first.after due.1 first.removes in
            let same = mine.journal in
            let left =
              subst (λ rows. All (λ d. IsDropped w.daemon.journal d → Due n P rows d) cs)
                (sym mine.rows)
                (All-map (λ d k s. Due-fewer n P mine.gone (rows_of w) d (k s)) cs h.1) in
            let rest = drop_stale-Dropped P cs first.after (
              subst (λ j. All (λ d. IsDropped j d → Due n P (rows_of first.after) d) cs) (sym same)
                left) in
            let dropped =
              subst (λ j. All (λ d. IsDropped j d → rest.removes.gone d.ino ≡ true) cs) same
                rest.tops in
            record {
              after = rest.after;
              done = rw (drop_stale, stale, first.done) rest.done;
              removes = removes_both P w first.after rest.after mine rest.removes;
              tops =
                  (λ s. rw first.top refl, All-map (λ d k s. rw (k s) (ground arith)) cs dropped);
            }
      ]

-- A child of the folder that the server no longer lists and that is neither dirty nor has a waiting
-- entry, with the inode itself and those below it.
pub record BelowStale (parent_ino : ℕ) (children : List Child) (j : Journal) (rows : List InodeRow)
    (i : ℕ) : Type 0 where
  pub local : InodeRow
  pub stored : In local rows
  pub listed : is_below parent_ino local ≡ true
  pub stale : IsStale children j local
  pub reached : Reached rows local.ino i

abbrev pub inserted : ℕ → ℕ → List Child → World → World
inserted now parent_ino children w = (insert_children now parent_ino children w).0

abbrev pub listed_uids : ℕ → ℕ → List Child → World → List String
listed_uids now parent_ino children w = (insert_children now parent_ino children w).1

-- A listing that has been taken over.
pub record IsListed (now parent_ino n : ℕ) (children : List Child) (w : World) : Type 0 where
  pub after : World
  pub gone : ℕ → Bool
  pub done : apply_listing now parent_ino n children w ≡ some after
  pub survived : Survives w (inserted now parent_ino children w)
  pub arrived : HasRows now parent_ino children (rows_of (inserted now parent_ino children w))
  pub rows :
      rows_of after
      ≡ update_where
          (has_ino parent_ino)
          (λ r. record r { children_populated = true })
          (delete_where (λ r. gone r.ino) (rows_of (inserted now parent_ino children w)))
  pub exactly :
      (i : ℕ)
      → (gone i ≡ true)
        ↔ BelowStale parent_ino children w.daemon.journal
            (rows_of (inserted now parent_ino children w))
            i
  pub journal : after.daemon.journal ≡ w.daemon.journal

-- If everything below the stale children of the folder lies within the fuel, then `apply_listing`
-- ends. At first every node of the listing that is not in the trash gets a row and every row is still
-- there, with its number, parent, name, node UID and dirty flag. Of these rows exactly those then go
-- that are at or below a stale child of the folder: one with a node UID that the server does not list,
-- or lists in the trash, that is not dirty and has no entry that waits. The folder counts as listed,
-- and the journal is as it was.
pub apply_listing_lem :
    (now parent_ino n : ℕ) (children : List Child) (w : World)
    → All
        (λ c.
          IsStale children w.daemon.journal c
          → Within (rows_of (inserted now parent_ino children w)) n c.ino)
        (list_children parent_ino (inserted now parent_ino children w).daemon.inodes)
    → IsListed now parent_ino n children w
unfolding apply_listing set_children_populated
apply_listing_lem now parent_ino n children w h =
    let uids = listed_uids now parent_ino children w in
    let start = inserted now parent_ino children w in
    let rows = rows_of start in
    let j = start.daemon.journal in
    let P = BelowStale parent_ino children w.daemon.journal rows in
    let unchanged = insert_children-journal now parent_ino children w in
    let stale_of : (c : InodeRow)
        → is_stale now parent_ino uids j c ≡ true
        → IsStale children w.daemon.journal c =
      λ c s.
        (is_stale-IsStale now parent_ino children w w.daemon.journal c).0
          (subst (λ k. is_stale now parent_ino uids k c ≡ true) unchanged s) in
    let dropped_of : (c : InodeRow)
        → IsStale children w.daemon.journal c
        → is_stale now parent_ino uids j c ≡ true =
      λ c s.
        subst (λ k. is_stale now parent_ino uids k c ≡ true) (sym unchanged)
          ((is_stale-IsStale now parent_ino children w w.daemon.journal c).1 s) in
    let below_stale : All
        (λ c. is_stale now parent_ino uids j c ≡ true → (i : ℕ) → Reached rows c.ino i → P i)
        (list_children parent_ino start.daemon.inodes) =
      All-list_children
        (λ c. is_stale now parent_ino uids j c ≡ true → (i : ℕ) → Reached rows c.ino i → P i)
        parent_ino start.daemon.inodes
        (All-map
          (λ c at below s i r. record {
            local = c;
            stored = at;
            listed = below;
            stale = stale_of c s;
            reached = r;
          })
          rows (All-In rows)) in
    let d =
      drop_stale-Dropped now parent_ino n uids P (list_children parent_ino start.daemon.inodes)
        start
        (All-map (λ c k s. (k.0 s, k.1 s)) (list_children parent_ino start.daemon.inodes)
          (All-zip (λ c. is_stale now parent_ino uids j c ≡ true → Within rows n c.ino)
            (λ c. is_stale now parent_ino uids j c ≡ true → (i : ℕ) → Reached rows c.ino i → P i)
            (list_children parent_ino start.daemon.inodes)
            (All-map {Q = λ c. is_stale now parent_ino uids j c ≡ true → Within rows n c.ino}
              (λ c k s. k (stale_of c s)) (list_children parent_ino start.daemon.inodes) h)
            below_stale)) in
    let tops =
      All-list_children_inv
        (λ c. is_stale now parent_ino uids j c ≡ true → d.removes.gone c.ino ≡ true) parent_ino
        start.daemon.inodes d.tops in
    record {
      after = write (set_children_populated parent_ino) d.after;
      gone = d.removes.gone;
      done = rw (apply_listing, d.done) refl;
      survived = (insert_children-arrives now parent_ino children w).0;
      arrived = (insert_children-arrives now parent_ino children w).1;
      rows =
          ap (update_where (has_ino parent_ino) (λ r. record r { children_populated = true }))
            d.removes.rows;
      exactly = λ i. (
        d.removes.only i,
        λ b.
            let top =
              In-All
                (λ c.
                  is_below parent_ino c ≡ true
                  → is_stale now parent_ino uids j c ≡ true
                  → d.removes.gone c.ino ≡ true)
                b.local rows tops b.stored b.listed (dropped_of b.local b.stale) in
            Reached-gone d.removes.gone rows b.local.ino d.removes.closed top i b.reached,
      );
      journal = d.removes.journal ∙ unchanged;
    }
