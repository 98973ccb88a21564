-- ===== src/Db/Inodes/Unique.antt =====
-- crates/pdcli/src/db.rs: inode numbers and node UIDs stay unique under every statement.
use text.Mathlib.TextEquality.{eq_iff}
use proton_sdk_rs.Prelude.{
  ℕ, ◌+◌, ◌<◌, ◌≡◌, refl, inl, inr, String, Bool, true, false, not, ◌&&◌, ◌||◌, Option, none, some,
  List, [], ◌∷◌, ◌++◌, arith, ltb, ◌==◌, if◌then◌else◌, All, All-map, All-zip, All-append,
  All-delete_where, All-update_where, none_fit, update_where, delete_where, count_where, Bool-cases,
  update_where_none,
}
use proton_sdk_rs.Prelude.Int.{ℤ}
use proton_sdk_rs.Db.Inodes.{
  InodeRow, Inodes, new_row, is_some_eq, has_ino, has_uid, uid_taken, uid_used, insert_row,
  insert_root, update_ino, update_ids, set_ids,
}

-- Two rows share neither the number nor a node UID.
abbrev pub Apart : InodeRow → InodeRow → Type 0
Apart r s = ((r.ino == s.ino) ≡ false) × (is_some_eq r.node_uid s.node_uid ≡ false)

abbrev pub Distinct : List InodeRow → Type 0
Distinct [] = Unit {0}
Distinct (r ∷ rs) = All (Apart r) rs × Distinct rs

pub record IsValid (t : Inodes) : Type 0 where
  pub distinct : Distinct t.rows
  pub below : All (λ r. r.ino < t.next_ino) t.rows
  pub positive : 0 < t.next_ino

is_some_eq_comm : (a b : Option String) → is_some_eq a b ≡ is_some_eq b a
is_some_eq_comm none none = refl
is_some_eq_comm none (some b) = refl
is_some_eq_comm (some a) none = refl
is_some_eq_comm (some a) (some b) = ground (arith, eq_iff a b, eq_iff b a)

Distinct-append :
    (rs : List InodeRow) (x : InodeRow)
    → Distinct rs
    → All (λ r. Apart r x) rs
    → Distinct (rs ++ x ∷ [])
Distinct-append [] x d h = (tt, tt)
Distinct-append (r ∷ rs) x d h =
    (All-append (Apart r) rs (x ∷ []) d.0 (h.0, tt), Distinct-append rs x d.1 h.1)

Distinct-delete_where :
    (p : InodeRow → Bool) (rs : List InodeRow) → Distinct rs → Distinct (delete_where p rs)
Distinct-delete_where p [] d = d
Distinct-delete_where p (r ∷ rs) d =
    ground (arith, All-delete_where (Apart r) p rs d.0, Distinct-delete_where p rs d.1)

module _ (p : InodeRow → Bool) (f : InodeRow → InodeRow) (Free : InodeRow → Type 0) where
  Distinct-update_where :
      ((r s : InodeRow)
        → Free r
        → Free s
        → Apart r s
        → Apart (if p r then f r else r) (if p s then f s else s))
      → (rs : List InodeRow) → All Free rs
      → Distinct rs
      → Distinct (update_where p f rs)
  Distinct-update_where keep [] h d = tt
  Distinct-update_where keep (r ∷ rs) h d = (
    All-update_where (λ s. Free s × Apart r s) (Apart (if p r then f r else r)) p f rs
        (λ s k. keep r s h.0 k.0 k.1) (All-zip Free (Apart r) rs h.1 d.0),
    Distinct-update_where keep rs h.1 d.1,
  )

All-trivial : (rs : List InodeRow) → All (λ r. Unit {0}) rs
All-trivial [] = tt
All-trivial (r ∷ rs) = (tt, All-trivial rs)

-- An UPDATE that sets neither key.
pub update_where-IsValid :
    (p : InodeRow → Bool) (f : InodeRow → InodeRow) (t : Inodes)
    → ((r : InodeRow) → ((f r).ino ≡ r.ino) × ((f r).node_uid ≡ r.node_uid))
    → IsValid t
    → IsValid (record t { rows = update_where p f t.rows })
update_where-IsValid p f t keeps v = record {
  distinct =
      Distinct-update_where p f (λ r. Unit {0}) (λ r s _ _ a. ground (arith, keeps r, keeps s, a))
        t.rows (All-trivial t.rows) v.distinct;
  below =
      All-update_where (λ r. r.ino < t.next_ino) (λ r. r.ino < t.next_ino) p f t.rows
        (λ r h. ground (arith, keeps r, h)) v.below;
  positive = v.positive;
}

pub update_ino-IsValid :
    (ino : ℕ) (f : InodeRow → InodeRow) (t : Inodes)
    → ((r : InodeRow) → ((f r).ino ≡ r.ino) × ((f r).node_uid ≡ r.node_uid))
    → IsValid t
    → IsValid (update_ino ino f t).0
unfolding update_ino
update_ino-IsValid ino f t keeps v = update_where-IsValid (has_ino ino) f t keeps v

pub delete-IsValid :
    (p : InodeRow → Bool) (t : Inodes)
    → IsValid t
    → IsValid (record t { rows = delete_where p t.rows })
delete-IsValid p t v = record {
  distinct = Distinct-delete_where p t.rows v.distinct;
  below = All-delete_where (λ r. r.ino < t.next_ino) p t.rows v.below;
  positive = v.positive;
}

abbrev Untaken : ℕ → Option String → InodeRow → Type 0
Untaken ino uid r = (not (has_ino ino r) && has_uid uid r) ≡ false

set_ids-Apart :
    (ino : ℕ) (uid volume link : Option String) (r s : InodeRow)
    → Untaken ino uid r
    → Untaken ino uid s
    → Apart r s
    → Apart
        (if has_ino ino r then set_ids uid volume link r else r)
        (if has_ino ino s then set_ids uid volume link s else s)
set_ids-Apart ino uid volume link r s h k a =
    ground (arith, is_some_eq_comm uid s.node_uid, a.0, a.1)

pub update_ids-IsValid :
    (ino : ℕ) (uid volume link : Option String) (t : Inodes)
    → IsValid t
    → IsValid (update_ids ino uid volume link t).0
unfolding update_ids
update_ids-IsValid ino uid volume link t v = elim (Bool-cases (uid_taken ino uid t.rows)) [
  | inr free ↦ ground (arith, free, written free)
  | inl taken ↦ elim (Bool-cases (ltb 0 (count_where (has_ino ino) t.rows))) [
    | inl present ↦ rw (present, taken) v
    | inr absent ↦
        rw (absent, update_where_none (has_ino ino) (set_ids uid volume link) t.rows (ground arith))
          v
  ]
]
  where
    written :
        uid_taken ino uid t.rows ≡ false
        → IsValid (record t { rows = update_where (has_ino ino) (set_ids uid volume link) t.rows })
    written free = record {
      distinct =
          Distinct-update_where (has_ino ino) (set_ids uid volume link) (Untaken ino uid)
            (set_ids-Apart ino uid volume link) t.rows
            (none_fit (λ r. not (has_ino ino r) && has_uid uid r) t.rows (ground (arith, free)))
            v.distinct;
      below =
          All-update_where (λ r. r.ino < t.next_ino) (λ r. r.ino < t.next_ino) (has_ino ino)
            (set_ids uid volume link) t.rows (λ r h. ground (arith, h)) v.below;
      positive = v.positive;
    }

pub insert_row-IsValid :
    (make : ℕ → InodeRow) (t : Inodes)
    → ((n : ℕ) → (make n).ino ≡ n)
    → IsValid t
    → IsValid (insert_row make t).0
unfolding insert_row
insert_row-IsValid make t numbered v =
    elim (Bool-cases (uid_used (make t.next_ino).node_uid t.rows)) [
      | inl used ↦ rw used v
      | inr free ↦ rw free (record {
        distinct = Distinct-append t.rows (make t.next_ino) v.distinct (
            All-map (λ r h. ground (arith, numbered t.next_ino, h)) t.rows
              (All-zip (λ r. r.ino < t.next_ino) (λ r. has_uid (make t.next_ino).node_uid r ≡ false)
                t.rows v.below
                (none_fit (has_uid (make t.next_ino).node_uid) t.rows (ground (arith, free)))));
        below =
            All-append (λ r. r.ino < t.next_ino + 1) t.rows (make t.next_ino ∷ [])
              (All-map (λ r h. ground (arith, h)) t.rows v.below)
              (ground (arith, numbered t.next_ino));
        positive = omega arith;
      })
    ]

root_Apart :
    (root r : InodeRow)
    → root.ino ≡ 1
    → has_ino 1 r ≡ false
    → has_uid root.node_uid r ≡ false
    → Apart root r
root_Apart root r e h k = ground (arith, is_some_eq_comm root.node_uid r.node_uid)

pub insert_root-IsValid :
    (uid volume link : Option String) (now : ℤ) (t : Inodes)
    → IsValid t
    → IsValid (insert_root uid volume link now t).0
unfolding insert_root
insert_root-IsValid uid volume link now t v =
    elim (Bool-cases (ltb 0 (count_where (has_ino 1) t.rows) || uid_used uid t.rows)) [
      | inl ignored ↦ rw ignored v
      | inr free ↦ rw free (record {
        distinct = (
          All-map (λ r h. root_Apart (new_row 1 1 "" uid volume link true now) r refl h.0 h.1)
              t.rows
              (All-zip (λ r. has_ino 1 r ≡ false) (λ r. has_uid uid r ≡ false) t.rows
                (none_fit (has_ino 1) t.rows (ground (arith, free)))
                (none_fit (has_uid uid) t.rows (ground (arith, free)))),
          v.distinct,
        );
        below = (omega arith, All-map (λ r h. omega (arith, h)) t.rows v.below);
        positive = omega arith;
      })
    ]
