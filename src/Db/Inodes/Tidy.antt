-- ===== src/Db/Inodes/Tidy.antt =====
-- crates/pdcli/src/db.rs: methods of `FuseDb` that keep the keys unique and mark no file as dirty,
-- the set-up of the mount roots among them.
use proton_sdk_rs.Prelude.{
  ℕ, ◌≡◌, refl, inl, inr, String, Bool, true, false, not, ◌&&◌, Option, none, some, [], ◌∷◌, arith,
  All, All-append, All-update_where, Bool-cases,
}
use proton_sdk_rs.Prelude.Int.{ℤ}
use proton_sdk_rs.Db.Inodes.{
  InodeRow, Inodes, Result, ok, err, and_then, M, ◌>>◌, ◌>>=◌, pure, new_row, has_ino, insert_row,
  insert_root, update_ino, update_ids, set_ids, update_node_uid, lookup_child, get_inode,
}
use proton_sdk_rs.Db.Inodes.Updates.{set_dirty, set_cached_path, update_revision}
use proton_sdk_rs.Db.Inodes.Unique.{
  IsValid, update_where-IsValid, update_ids-IsValid, insert_row-IsValid, insert_root-IsValid,
}
use proton_sdk_rs.Db.Inodes.Roots.{
  query, has_ids, or_create, is_legacy, reparent_legacy_root_children, update_ids_if_null, move_ids,
  adopt_my_files, create_my_files, ensure_my_files_root,
}

-- A dirty file has one of these inode numbers.
abbrev pub IsAmong : (ℕ → Bool) → InodeRow → Type 0
IsAmong inos r = (r.dirty && not r.is_dir) ≡ true → inos r.ino ≡ true

-- A change of the table: it keeps the keys unique, and every set of inode numbers that holds those of
-- all dirty files before holds those of all dirty files after.
pub record IsTidy (t u : Inodes) : Type 0 where
  pub valid : IsValid t → IsValid u
  pub dirty : (inos : ℕ → Bool) → All (IsAmong inos) t.rows → All (IsAmong inos) u.rows

pub Tidy-refl : (t : Inodes) → IsTidy t t
Tidy-refl t = record { valid = λ v. v; dirty = λ inos c. c }

pub Tidy-trans : (s t u : Inodes) → IsTidy s t → IsTidy t u → IsTidy s u
Tidy-trans s t u h k = record {
  valid = λ v. k.valid (h.valid v);
  dirty = λ inos c. k.dirty inos (h.dirty inos c);
}

-- A method, from any table.
pub record Tidies {A : Type 0} (m : M A) : Type 0 where
  pub at : (t : Inodes) → IsTidy t (m t).0

pub Tidies-bind :
    {A B : Type 0} (m : M A) (f : A → M B) → Tidies m → ((a : A) → Tidies (f a)) → Tidies (m >>= f)
Tidies-bind m f h k = record { at = λ t. go t (m t) (h.at t) }
  where
    go : (t : Inodes) → (p : Inodes × Result _) → IsTidy t p.0 → IsTidy t (and_then p f).0
    go t (u, ok a) h = Tidy-trans t u (f a u).0 h ((k a).at u)
    go t (u, err e) h = h

update_ino-Tidies :
    (ino : ℕ) (f : InodeRow → InodeRow)
    → ((r : InodeRow) → ((f r).ino ≡ r.ino) × ((f r).node_uid ≡ r.node_uid))
    → ((inos : ℕ → Bool) (r : InodeRow) → IsAmong inos r → IsAmong inos (f r))
    → Tidies (update_ino ino f)
unfolding update_ino
update_ino-Tidies ino f keeps keeps_dirty = record {
  at = λ t. record {
    valid = update_where-IsValid (has_ino ino) f t keeps;
    dirty = λ inos. All-update_where (IsAmong inos) (IsAmong inos) (has_ino ino) f t.rows (λ r c.
        elim (Bool-cases (has_ino ino r)) [
          | inl hit ↦ rw hit (keeps_dirty inos r c)
          | inr miss ↦ rw miss c
        ]);
  };
}

pub set_dirty-Tidies : (ino : ℕ) → Tidies (set_dirty ino false)
unfolding set_dirty
set_dirty-Tidies ino =
    update_ino-Tidies ino _ (λ r. (refl, refl)) (λ inos r c d. absurd (ground (arith, d)))

pub set_cached_path-Tidies : (ino : ℕ) (path : Option String) → Tidies (set_cached_path ino path)
unfolding set_cached_path
set_cached_path-Tidies ino path = update_ino-Tidies ino _ (λ r. (refl, refl)) (λ inos r c. c)

pub update_revision-Tidies :
    (ino : ℕ) (revision : String) (size : ℕ) (now : ℤ)
    → Tidies (update_revision ino revision size now)
unfolding update_revision
update_revision-Tidies ino revision size now =
    update_ino-Tidies ino _ (λ r. (refl, refl)) (λ inos r c. c)

update_ids-Tidies :
    (ino : ℕ) (uid volume link : Option String) → Tidies (update_ids ino uid volume link)
unfolding update_ids update_ino
update_ids-Tidies ino uid volume link = record {
  at = λ t. record {
    valid = update_ids-IsValid ino uid volume link t;
    dirty = λ inos c.
        let set =
          All-update_where (IsAmong inos) (IsAmong inos) (has_ino ino) (set_ids uid volume link)
            t.rows
            (λ r h. elim (Bool-cases (has_ino ino r)) [ inl hit ↦ rw hit h | inr miss ↦ rw miss h ])
            c in
        ground (arith, c, set);
  };
}

pub update_node_uid-Tidies :
    (ino : ℕ) (uid volume link : String) → Tidies (update_node_uid ino uid volume link)
unfolding update_node_uid
update_node_uid-Tidies ino uid volume link =
    update_ids-Tidies ino (some uid) (some volume) (some link)

insert_row-Tidies :
    (make : ℕ → InodeRow)
    → ((n : ℕ) → (make n).ino ≡ n)
    → ((n : ℕ) → ((make n).dirty && not (make n).is_dir) ≡ false)
    → Tidies (insert_row make)
unfolding insert_row
insert_row-Tidies make numbered cleans = record {
  at = λ t. record {
    valid = insert_row-IsValid make t numbered;
    dirty = λ inos c.
        let clean : IsAmong inos (make t.next_ino) =
          λ d. absurd (ground (arith, cleans t.next_ino, d)) in
        let all = All-append (IsAmong inos) t.rows (make t.next_ino ∷ []) c (clean, tt) in
        ground (arith, c, all);
  };
}

insert_root-Tidies :
    (uid volume link : Option String) (now : ℤ) → Tidies (insert_root uid volume link now)
unfolding insert_root
insert_root-Tidies uid volume link now = record {
  at = λ t. record {
    valid = insert_root-IsValid uid volume link now t;
    dirty = λ inos c. ground (arith, c);
  };
}

update_ids_if_null-Tidies :
    (ino : ℕ) (uid volume link : Option String) → Tidies (update_ids_if_null ino uid volume link)
unfolding update_ids_if_null
update_ids_if_null-Tidies ino uid volume link = record {
  at = λ t.
      let written = (update_ids-Tidies ino uid volume link).at t in
      record {
        valid = λ v. ground (arith, v, written.valid v);
        dirty = λ inos c. let set = written.dirty inos c in ground (arith, c, set);
      };
}

reparent-Tidies : (my_files_ino : ℕ) → Tidies (reparent_legacy_root_children my_files_ino)
unfolding reparent_legacy_root_children
reparent-Tidies my_files_ino = record {
  at = λ t. record {
    valid = update_where-IsValid (is_legacy my_files_ino) _ t (λ r. (refl, refl));
    dirty = λ inos.
        All-update_where (IsAmong inos) (IsAmong inos) (is_legacy my_files_ino)
          (λ r. record r { parent_ino = my_files_ino }) t.rows
          (λ r c. elim (Bool-cases (is_legacy my_files_ino r)) [
            | inl hit ↦ rw hit c
            | inr miss ↦ rw miss c
          ]);
  };
}

pure-Tidies : {A : Type 0} (a : A) → Tidies (pure a)
pure-Tidies a = record { at = Tidy-refl }

Tidies-then : {B : Type 0} (m : M (Unit {0})) (k : M B) → Tidies m → Tidies k → Tidies (m >> k)
Tidies-then m k h l = Tidies-bind m (λ _. k) h (λ _. l)

move_ids-Tidies :
    (write : ℕ → Option String → Option String → Option String → M (Unit {0}))
    → ((ino : ℕ) (uid volume link : Option String) → Tidies (write ino uid volume link))
    → (ino : ℕ) (root : Option InodeRow) → Tidies (move_ids write ino root)
unfolding move_ids
move_ids-Tidies write h ino none = pure-Tidies tt
move_ids-Tidies write h ino (some root) = elim (Bool-cases (has_ids root)) [
  | inl some_ids ↦ rw some_ids (
      Tidies-then (update_ids 1 none none none)
        (write ino root.node_uid root.volume_id root.link_id) (update_ids-Tidies 1 none none none)
        (h ino root.node_uid root.volume_id root.link_id))
  | inr no_ids ↦ rw no_ids (pure-Tidies tt)
]

ends-Tidies : (ino : ℕ) → Tidies (reparent_legacy_root_children ino >> pure ino)
ends-Tidies ino = Tidies-then _ (pure ino) (reparent-Tidies ino) (pure-Tidies ino)

adopt-Tidies : (row : InodeRow) → Tidies (adopt_my_files row)
unfolding adopt_my_files
adopt-Tidies row =
    Tidies-bind (query (get_inode 1)) _ (record { at = Tidy-refl })
      λ root.
        Tidies-then (move_ids update_ids_if_null row.ino root) _
          (move_ids-Tidies update_ids_if_null update_ids_if_null-Tidies row.ino root)
          (ends-Tidies row.ino)

create-Tidies : (now : ℤ) → Tidies (create_my_files now)
unfolding create_my_files
create-Tidies now =
    Tidies-bind (query (get_inode 1)) _ (record { at = Tidy-refl })
      λ old_root.
        Tidies-bind (insert_row (λ ino. new_row ino 1 "MyFiles" none none none true now)) _
          (insert_row-Tidies _ (λ n. refl) (λ n. refl))
          λ ino.
            Tidies-then (move_ids update_ids ino old_root) _
              (move_ids-Tidies update_ids update_ids-Tidies ino old_root) (ends-Tidies ino)

or_create-Tidies :
    (found : InodeRow → M ℕ) (create : M ℕ)
    → ((row : InodeRow) → Tidies (found row))
    → Tidies create
    → (row : Option InodeRow) → Tidies (or_create found create row)
or_create-Tidies found create h k none = k
or_create-Tidies found create h k (some row) = h row

-- `ensure_my_files_root` keeps the keys unique and marks no file as dirty.
pub ensure_my_files_root-Tidies : (now : ℤ) → Tidies (ensure_my_files_root now)
unfolding ensure_my_files_root
ensure_my_files_root-Tidies now =
    Tidies-then (insert_root none none none now) _ (insert_root-Tidies none none none now) (
      Tidies-bind (query (lookup_child 1 "MyFiles")) _ (record { at = Tidy-refl })
        (or_create-Tidies adopt_my_files (create_my_files now) adopt-Tidies (create-Tidies now)))
