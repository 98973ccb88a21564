-- ===== src/Fuse/Creates.antt =====
-- crates/pdcli/src/fs.rs: a file that was created is there, open, and queued when it is released.
use proton_sdk_rs.Prelude.{
  ℕ, ◌+◌, ◌<◌, ◌≡◌, refl, String, Bool, true, false, none, some, List, [], ◌∷◌, ◌++◌, arith, All,
  first_where, count_where, Option-cases, inl, inr,
}
use proton_sdk_rs.Prelude.Int.{pos}
use proton_sdk_rs.Db.Inodes.{
  InodeRow, Inodes, ok, get_inode, has_ino, has_uid, lookup_child, new_row, insert_inode,
  insert_row, update_ino,
}
use proton_sdk_rs.Db.Inodes.Updates.{set_dirty, set_cached_path}
use proton_sdk_rs.Db.Inodes.Unique as Unique
use proton_sdk_rs.Flush.Process.Created.{get_inode-update_ino}
use proton_sdk_rs.Fuse.{
  Mount, Outside, done, is_protected_parent, open_created, create_cached, create,
}

abbrev inserted_row : Outside → ℕ → String → ℕ → InodeRow
inserted_row o parent_ino name ino =
    record (new_row ino parent_ino name none none none false (pos o.now)) {
      size = 0;
      media_type = o.media_type name;
      revision_uid = none;
      mtime = pos 0;
    }

-- The row of a new file.
abbrev pub created_row : Outside → ℕ → String → ℕ → InodeRow
created_row o parent_ino name ino = record (inserted_row o parent_ino name ino) {
  dirty = true;
  cached_path = some (o.cache_path ino);
}

null_uids : (rows : List InodeRow) → count_where (has_uid none) rows ≡ 0
null_uids [] = refl
null_uids (r ∷ rows) = elim (Option-cases r.node_uid) [
  | inl null ↦ ground (arith, null, null_uids rows)
  | inr (uid, e) ↦ ground (arith, e, null_uids rows)
]

first_where-append :
    (n : ℕ) (rows : List InodeRow) (r : InodeRow)
    → All (λ s. s.ino < n) rows
    → r.ino ≡ n
    → first_where (has_ino n) (rows ++ r ∷ []) ≡ some r
first_where-append n [] r h e = ground (arith, e)
first_where-append n (s ∷ rows) r h e = ground (arith, h.0, first_where-append n rows r h.1 e)

-- The table with the new row.
abbrev with_row : Outside → ℕ → String → Inodes → Inodes
with_row o parent_ino name t = record {
  rows = t.rows ++ inserted_row o parent_ino name t.next_ino ∷ [];
  next_ino = t.next_ino + 1;
}

insert_lem :
    (o : Outside) (parent_ino : ℕ) (name : String) (t : Inodes)
    → insert_inode parent_ino name none none none false 0
        (o.media_type name)
        none
        (pos 0)
        (pos o.now)
        t
      ≡ (with_row o parent_ino name t, ok t.next_ino)
unfolding insert_inode insert_row
insert_lem o parent_ino name t = ground (arith, null_uids t.rows)

row_lem :
    (o : Outside) (parent_ino : ℕ) (name : String) (t : Inodes)
    → Unique.IsValid t
    → get_inode t.next_ino
        (set_cached_path t.next_ino
          (some (o.cache_path t.next_ino))
          (set_dirty t.next_ino true (with_row o parent_ino name t)).0).0
      ≡ some (created_row o parent_ino name t.next_ino)
unfolding set_cached_path set_dirty get_inode
row_lem o parent_ino name t v =
    let inserted = with_row o parent_ino name t in
    let raised : InodeRow → InodeRow = λ r. record r { dirty = true } in
    get_inode-update_ino t.next_ino _ (update_ino t.next_ino raised inserted).0 _ (λ r. refl)
      (get_inode-update_ino t.next_ino raised inserted _ (λ r. refl)
        (first_where-append t.next_ino t.rows _ v.below refl))

-- Below a folder that is not protected, under a name that no child has, and where the cache file can be
-- made and opened: `create` succeeds, the next inode number has a dirty row of that name with its cache
-- path and no UIDs, and the next handle is open on it.
pub create_lem :
    (o : Outside) (parent_ino : ℕ) (name : String) (writable : Bool) (s : Mount)
    → Unique.IsValid s.daemon.inodes
    → is_protected_parent parent_ino s.daemon.inodes ≡ false
    → lookup_child parent_ino name s.daemon.inodes ≡ none
    → o.can_create (o.cache_path s.daemon.inodes.next_ino) ≡ true
    → o.can_open (o.cache_path s.daemon.inodes.next_ino) writable ≡ true
    → let ino = s.daemon.inodes.next_ino in
      let (after, answer) = create o parent_ino (some name) writable s in
      (answer ≡ done)
      × (get_inode ino after.daemon.inodes ≡ some (created_row o parent_ino name ino))
      × (after.open_files
          ≡ s.open_files ++ record { fh = s.next_fh; ino = ino; writable = writable } ∷ [])
unfolding create create_cached open_created
create_lem o parent_ino name writable s v free absent makes opens =
    rw
      (
        create,
        free,
        absent,
        insert_lem o parent_ino name s.daemon.inodes,
        create_cached,
        makes,
        opens,
      )
      (refl, row_lem o parent_ino name s.daemon.inodes v, refl)
