-- ===== src/Fuse/Edits/Keeps.antt =====
-- crates/pdcli/src/fs.rs: `write`, `setattr` and `rmdir` keep what `IsSound` says.
use proton_sdk_rs.Prelude.{ℕ, String, Bool, Option, none, some, List, ltb, Option-cases, inl, inr}
use proton_sdk_rs.Prelude.Int.{pos}
use proton_sdk_rs.Node.Uids.{NodeUid}
use proton_sdk_rs.Db.Inodes.{InodeRow, get_inode, lookup_child}
use proton_sdk_rs.Db.Inodes.Statements.{Statement, exec_all, exec_all-IsValid}
use proton_sdk_rs.Fuse.{Mount, Outside}
use proton_sdk_rs.Fuse.Sound.{
  IsSound, Ends, Ends-if, sound, IsSound-if, write-IsSound, update_size-KeepsInodes,
  set_dirty-KeepsInodes, drop_row-IsSound,
}
use proton_sdk_rs.Fuse.Handlers.{when_there-Ends, upload_found-IsSound}
use proton_sdk_rs.Fuse.Edits.{
  extend, written, write_file, truncate, setattr, attributes, remove_listed, rmdir,
}

module _ (o : Outside) where
  extend-IsSound : (ino new_end : ℕ) (s : Mount) → IsSound s → IsSound (extend o ino new_end s)
  unfolding extend
  extend-IsSound ino new_end s v = elim (Option-cases (get_inode ino s.daemon.inodes)) [
    | inl gone ↦ rw (extend, gone) v
    | inr (row, e) ↦
        rw (extend, e)
          (IsSound-if (ltb row.size new_end) _ s
            (write-IsSound _ s (update_size-KeepsInodes ino new_end (pos o.now)) v) v)
  ]

  written-Ends :
      (ino offset : ℕ) (n : Option ℕ) (s : Mount) → IsSound s → Ends (written o ino offset n s)
  written-Ends ino offset none s v = record { sound = v }
  written-Ends ino offset (some n) s v = record {
    sound = write-IsSound _ _ (set_dirty-KeepsInodes ino _) (extend-IsSound ino _ s v);
  }

  pub write_file-Ends :
      (ino fh offset : ℕ) (n : Option ℕ) (s : Mount)
      → IsSound s
      → Ends (write_file o ino fh offset n s)
  unfolding write_file
  write_file-Ends ino fh offset n s v = search (sound, written-Ends)

  module _ (refresh : NodeUid → Option String) (is_shortcut : InodeRow → Bool) where
    truncate-IsSound :
        (ino size : ℕ) (s : Mount) → IsSound s → IsSound (truncate o refresh is_shortcut ino size s)
    unfolding truncate
    truncate-IsSound ino size s v = upload_found-IsSound o refresh _ _ (
        write-IsSound _ _ (set_dirty-KeepsInodes ino _)
          (write-IsSound _ s (update_size-KeepsInodes ino size (pos o.now)) v))

    attributes-Ends :
        (ino : ℕ) (s : Mount) → IsSound s → Ends (attributes o refresh is_shortcut ino s)
    attributes-Ends ino s v =
        when_there-Ends o (get_inode ino s.daemon.inodes) s _ v (λ row. record { sound = v })

    pub setattr-Ends :
        (ino : ℕ) (size : Option ℕ) (s : Mount)
        → IsSound s
        → Ends (setattr o refresh is_shortcut ino size s)
    unfolding setattr
    setattr-Ends ino none s v = attributes-Ends ino s v
    setattr-Ends ino (some size) s v = search (sound, attributes-Ends, truncate-IsSound) depth 24

  remove_listed-Ends : (row : InodeRow) (s : Mount) → IsSound s → Ends (remove_listed o row s)
  unfolding remove_listed
  remove_listed-Ends row s v = search (sound, drop_row-IsSound) depth 24

  pub rmdir-Ends :
      (listing : List Statement) (parent : ℕ) (name : Option String) (s : Mount)
      → IsSound s
      → Ends (rmdir o listing parent name s)
  unfolding rmdir
  rmdir-Ends listing parent none s v = record { sound = v }
  rmdir-Ends listing parent (some name) s v =
      let listed : IsSound
          (record s { daemon = record s.daemon { inodes = exec_all listing s.daemon.inodes } }) =
        record {
          journal = v.journal;
          inodes = exec_all-IsValid listing s.daemon.inodes v.inodes;
          handles = v.handles;
        } in
      Ends-if _ _ _ (record { sound = v })
        (when_there-Ends o (lookup_child parent name s.daemon.inodes) s _ v
          (λ row. Ends-if row.is_dir _ _ (remove_listed-Ends row _ listed) (record { sound = v })))
