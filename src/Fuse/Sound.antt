-- ===== src/Fuse/Sound.antt =====
-- crates/pdcli/src/fs.rs: what every handler keeps: the ids of the journal and of the inode table are
-- unique and below the next one, and so are the file handles.
use proton_sdk_rs.Prelude.{
  ℕ, ◌+◌, ◌<◌, ◌≡◌, refl, inl, inr, String, Bool, true, false, Option, List, [], ◌∷◌, ◌++◌, arith,
  All, All-map, All-append, if◌then◌else◌, ◌==◌, Bool-cases, Option-cases,
}
use proton_sdk_rs.Prelude.Int.{ℤ}
use proton_sdk_rs.Db.Journal.{
  Journal, JournalEntry, EventType, enqueue_journal, has_pending_journal,
}
use proton_sdk_rs.Db.Inodes.{InodeRow, Inodes, M, has_ino}
use proton_sdk_rs.Db.Inodes.Updates.{
  update_size, set_dirty, set_cached_path, delete_inode, rename_inode,
}
use proton_sdk_rs.Db.Inodes.Unique.{update_ino-IsValid, delete-IsValid, insert_row-IsValid}
use proton_sdk_rs.Db.Inodes.Unique as Unique
use proton_sdk_rs.Flush.{Daemon, enqueue_journal_and_wake, enqueue_dirty_upload, dirty_event}
use proton_sdk_rs.Flush.Tries.{DistinctIds, Tried}
use proton_sdk_rs.Flush.Tries as Tries
use proton_sdk_rs.Fuse.{
  Mount, Outside, Answer, write, enqueue, open_created, create_cached, record_event, drop_row,
}

pub record IsSound (s : Mount) : Type 0 where
  pub journal : Tries.IsValid s.daemon.journal
  pub inodes : Unique.IsValid s.daemon.inodes
  pub handles : All (λ f. f.fh < s.next_fh) s.open_files

DistinctIds-append :
    (rs : List JournalEntry) (e : JournalEntry)
    → DistinctIds rs
    → All (λ r. r.id < e.id) rs
    → DistinctIds (rs ++ e ∷ [])
DistinctIds-append [] e d h = (tt, tt)
DistinctIds-append (r ∷ rs) e d h = (
  All-append (λ s. (s.id == r.id) ≡ false) rs (e ∷ []) d.0 (ground (arith, h.0), tt),
  DistinctIds-append rs e d.1 h.1,
)

pub enqueue_journal-IsValid :
    (event : EventType) (ino : ℕ) (payload : String) (now : ℕ) (t : Journal)
    → Tries.IsValid t
    → Tries.IsValid (enqueue_journal event ino payload now t).0
unfolding enqueue_journal
enqueue_journal-IsValid event ino payload now t v = record {
  distinct = DistinctIds-append t.rows _ v.distinct v.below;
  below =
      All-append (λ r. r.id < t.next_id + 1) t.rows _
        (All-map (λ r h. omega (arith, h)) t.rows v.below) (omega arith, tt);
  tried = All-append Tried t.rows _ v.tried (inr (omega arith), tt);
}

pub enqueue_dirty_upload-IsValid :
    (render : InodeRow → String) (now : ℕ) (row : InodeRow) (d : Daemon)
    → Tries.IsValid d.journal
    → Tries.IsValid (enqueue_dirty_upload render now row d).journal
unfolding enqueue_dirty_upload enqueue_journal_and_wake
enqueue_dirty_upload-IsValid render now row d v =
    elim (Bool-cases (has_pending_journal row.ino d.journal)) [
      | inl waits ↦ rw (enqueue_dirty_upload, waits) v
      | inr free ↦ elim (Option-cases (dirty_event row)) [
        | inl waits ↦ rw (enqueue_dirty_upload, free, waits) v
        | inr (event, e) ↦
            rw (enqueue_dirty_upload, free, e)
              (enqueue_journal-IsValid event row.ino (render row) now d.journal v)
      ]
    ]

pub enqueue_dirty_upload-inodes :
    (render : InodeRow → String) (now : ℕ) (row : InodeRow) (d : Daemon)
    → (enqueue_dirty_upload render now row d).inodes ≡ d.inodes
unfolding enqueue_dirty_upload enqueue_journal_and_wake
enqueue_dirty_upload-inodes render now row d =
    elim (Bool-cases (has_pending_journal row.ino d.journal)) [
      | inl waits ↦ rw (enqueue_dirty_upload, waits) refl
      | inr free ↦ elim (Option-cases (dirty_event row)) [
        | inl waits ↦ rw (enqueue_dirty_upload, free, waits) refl
        | inr (event, e) ↦ rw (enqueue_dirty_upload, free, e) refl
      ]
    ]

-- A method that keeps the table valid.
pub record KeepsInodes {A : Type 0} (m : M A) : Type 0 where
  pub at : (t : Inodes) → Unique.IsValid t → Unique.IsValid (m t).0

pub set_dirty-KeepsInodes : (ino : ℕ) (b : Bool) → KeepsInodes (set_dirty ino b)
unfolding set_dirty
set_dirty-KeepsInodes ino b = record { at = λ t. update_ino-IsValid ino _ t (λ r. (refl, refl)) }

pub set_cached_path-KeepsInodes :
    (ino : ℕ) (p : Option String) → KeepsInodes (set_cached_path ino p)
unfolding set_cached_path
set_cached_path-KeepsInodes ino p = record {
  at = λ t. update_ino-IsValid ino _ t (λ r. (refl, refl));
}

pub rename_inode-KeepsInodes :
    (ino parent : ℕ) (name : String) (now : ℤ) → KeepsInodes (rename_inode ino parent name now)
unfolding rename_inode
rename_inode-KeepsInodes ino parent name now = record {
  at = λ t. update_ino-IsValid ino _ t (λ r. (refl, refl));
}

pub delete_inode-KeepsInodes : (ino : ℕ) → KeepsInodes (delete_inode ino)
unfolding delete_inode
delete_inode-KeepsInodes ino = record { at = λ t. delete-IsValid (has_ino ino) t }

pub update_size-KeepsInodes : (ino size : ℕ) (now : ℤ) → KeepsInodes (update_size ino size now)
unfolding update_size
update_size-KeepsInodes ino size now = record {
  at = λ t. update_ino-IsValid ino _ t (λ r. (refl, refl));
}

pub write-IsSound :
    {A : Type 0} (m : M A) (s : Mount) → KeepsInodes m → IsSound s → IsSound (write m s)
write-IsSound m s k v = record {
  journal = v.journal;
  inodes = k.at s.daemon.inodes v.inodes;
  handles = v.handles;
}

pub IsSound-if : (b : Bool) (x y : Mount) → IsSound x → IsSound y → IsSound (if b then x else y)
IsSound-if true x y h k = h
IsSound-if false x y h k = k

-- A handler's state with its reply.
pub record Ends (p : Mount × Answer) : Type 0 where
  pub sound : IsSound p.0

pub Ends-if : (b : Bool) (x y : Mount × Answer) → Ends x → Ends y → Ends (if b then x else y)
Ends-if true x y h k = h
Ends-if false x y h k = k

pub Ends-pair : (s : Mount) (a : Answer) → IsSound s → Ends (s, a)
Ends-pair s a h = record { sound = h }

pub ruleset sound = (
  update_size-KeepsInodes, write-IsSound, IsSound-if, Ends-if, Ends-pair, set_dirty-KeepsInodes,
  set_cached_path-KeepsInodes, rename_inode-KeepsInodes, delete_inode-KeepsInodes,
)

module _ (o : Outside) where
  pub enqueue-IsSound :
      (event : EventType) (ino : ℕ) (payload : String) (s : Mount)
      → IsSound s
      → IsSound (enqueue o event ino payload s)
  unfolding enqueue enqueue_journal_and_wake
  enqueue-IsSound event ino payload s v = record {
    journal = enqueue_journal-IsValid event ino payload o.now s.daemon.journal v.journal;
    inodes = v.inodes;
    handles = v.handles;
  }

  pub record_event-IsSound :
      (source event : String) (name detail : Option String) (s : Mount)
      → IsSound s
      → IsSound (record_event o source event name detail s)
  unfolding record_event
  record_event-IsSound source event name detail s v = record {
    journal = v.journal;
    inodes = v.inodes;
    handles = v.handles;
  }

  pub drop_row-IsSound : (row : InodeRow) (s : Mount) → IsSound s → IsSound (drop_row o row s)
  unfolding drop_row
  drop_row-IsSound row s v = search (sound, enqueue-IsSound) depth 24

  open_created-Ends : (ino : ℕ) (w : Bool) (s : Mount) → IsSound s → Ends (open_created o ino w s)
  unfolding open_created
  open_created-Ends ino w s v = record {
    sound = record {
      journal = v.journal;
      inodes = v.inodes;
      handles =
          All-append (λ f. f.fh < s.next_fh + 1) s.open_files _
            (All-map (λ f h. omega (arith, h)) s.open_files v.handles) (omega arith, tt);
    };
  }

  pub create_cached-Ends :
      (ino : ℕ) (w : Bool) (s : Mount) → IsSound s → Ends (create_cached o ino w s)
  unfolding create_cached
  create_cached-Ends ino w s v = search (sound, open_created-Ends) depth 24
