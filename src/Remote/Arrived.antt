-- ===== src/Remote/Arrived.antt =====
-- crates/pdcli/src/fs.rs: the rows after the children of a listing have been taken over.
use text.Mathlib.TextEquality.{eq_iff}
use proton_sdk_rs.Prelude.{
  ℕ, ◌≡◌, refl, ap, ◌∙◌, sym, inl, inr, String, Bool, true, false, none, some, List, [], ◌∷◌, ◌++◌,
  arith, count_where, update_where, first_where, Bool-cases, Option-cases,
}
use proton_sdk_rs.Node.Uids.{raw}
use proton_sdk_rs.Db.Inodes.{
  InodeRow, has_uid, has_ino, uid_used, find_by_node_uid, insert_row, insert_inode, update_ino,
}
use proton_sdk_rs.Db.Inodes.Updates.{update_remote_metadata, remote_metadata}
use proton_sdk_rs.Remote.{World, rows_of, write}
use proton_sdk_rs.Remote.Trees.{In}
use proton_sdk_rs.Remote.Listing.{
  Child, node, degraded, RemoteNode, DegradedNode, insert_node_into_db, insert_degraded_into_db,
  insert_children, node_size, node_media_type, node_revision, node_mtime,
}

-- The columns of a row that a listing never changes.
pub record IsSameFile (r s : InodeRow) : Type 0 where
  pub ino : s.ino ≡ r.ino
  pub parent_ino : s.parent_ino ≡ r.parent_ino
  pub name : s.name ≡ r.name
  pub node_uid : s.node_uid ≡ r.node_uid
  pub is_dir : s.is_dir ≡ r.is_dir
  pub dirty : s.dirty ≡ r.dirty

IsSameFile-refl : (r : InodeRow) → IsSameFile r r
IsSameFile-refl r = record {
  ino = refl;
  parent_ino = refl;
  name = refl;
  node_uid = refl;
  is_dir = refl;
  dirty = refl;
}

IsSameFile-trans : (r s t : InodeRow) → IsSameFile r s → IsSameFile s t → IsSameFile r t
IsSameFile-trans r s t h k = record {
  ino = k.ino ∙ h.ino;
  parent_ino = k.parent_ino ∙ h.parent_ino;
  name = k.name ∙ h.name;
  node_uid = k.node_uid ∙ h.node_uid;
  is_dir = k.is_dir ∙ h.is_dir;
  dirty = k.dirty ∙ h.dirty;
}

-- Every row is still there.
abbrev pub Survives : World → World → Type 0
Survives w v =
    (r : InodeRow) → In r (rows_of w) → (s : InodeRow) × In s (rows_of v) × IsSameFile r s

Survives-trans : (u v w : World) → Survives u v → Survives v w → Survives u w
Survives-trans u v w h k r at =
    let (s, there, first) = h r at in
    let (t, then_there, second) = k s there in (t, then_there, IsSameFile-trans r s t first second)

-- A row has this node UID.
abbrev pub HasRow : String → List InodeRow → Type 0
HasRow uid rows = (r : InodeRow) × In r rows × (r.node_uid ≡ some uid)

HasRow-Survives :
    (uid : String) (v w : World) → Survives v w → HasRow uid (rows_of v) → HasRow uid (rows_of w)
HasRow-Survives uid v w h (r, at, known) =
    let (s, there, same) = h r at in (s, there, same.node_uid ∙ known)

In-update_where :
    (p : InodeRow → Bool) (f : InodeRow → InodeRow)
    → ((r : InodeRow) → IsSameFile r (f r))
    → (rows : List InodeRow) (r : InodeRow) → In r rows
    → (s : InodeRow) × In s (update_where p f rows) × IsSameFile r s
In-update_where p f same [] r h = absurd h
In-update_where p f same (x ∷ rows) r (inl e) = elim (Bool-cases (p x)) [
  | inl hit ↦ rw (hit, e) (f x, inl refl, same x)
  | inr miss ↦ rw (miss, e) (x, inl refl, IsSameFile-refl x)
]
In-update_where p f same (x ∷ rows) r (inr h) =
    let (s, at, kept) = In-update_where p f same rows r h in (s, inr at, kept)

In-append : (r : InodeRow) (rows more : List InodeRow) → In r rows → In r (rows ++ more)
In-append r [] more h = absurd h
In-append r (x ∷ rows) more (inl e) = inl e
In-append r (x ∷ rows) more (inr h) = inr (In-append r rows more h)

In-last : (r : InodeRow) (rows : List InodeRow) → In r (rows ++ r ∷ [])
In-last r [] = inl refl
In-last r (x ∷ rows) = inr (In-last r rows)

first_none :
    (p : InodeRow → Bool) (rows : List InodeRow)
    → first_where p rows ≡ none
    → count_where p rows ≡ 0
first_none p [] h = refl
first_none p (x ∷ rows) h = elim (Bool-cases (p x)) [
  | inl hit ↦ absurd (ground (arith, hit, h))
  | inr miss ↦ rw miss (first_none p rows (rw miss at h))
]

first_some :
    (p : InodeRow → Bool) (rows : List InodeRow) (r : InodeRow)
    → first_where p rows ≡ some r
    → In r rows × (p r ≡ true)
first_some p [] r h = absurd (ground (arith, h))
first_some p (x ∷ rows) r h = elim (Bool-cases (p x)) [
  | inl hit ↦
      let same : x ≡ r = ground (arith, hit, h) in (inl (sym same), ground (arith, hit, same))
  | inr miss ↦ let (at, fits) = first_some p rows r (rw miss at h) in (inr at, fits)
]

has_uid-known : (uid : String) (r : InodeRow) → has_uid (some uid) r ≡ true → r.node_uid ≡ some uid
has_uid-known uid r h = elim (Option-cases r.node_uid) [
  | inl fresh ↦ absurd (ground (arith, fresh, h))
  | inr (known, e) ↦ e ∙ ap some ((eq_iff known uid).0 (ground (arith, e, h)))
]

find_some :
    (uid : String) (w : World) (r : InodeRow)
    → find_by_node_uid uid w.daemon.inodes ≡ some r
    → HasRow uid (rows_of w)
unfolding find_by_node_uid
find_some uid w r h =
    let (at, fits) = first_some (has_uid (some uid)) (rows_of w) r h in
    (r, at, has_uid-known uid r fits)

find_none :
    (uid : String) (w : World)
    → find_by_node_uid uid w.daemon.inodes ≡ none
    → uid_used (some uid) (rows_of w) ≡ false
unfolding find_by_node_uid
find_none uid w h =
    let zero_fit = first_none (has_uid (some uid)) (rows_of w) h in ground (arith, zero_fit)

module _ (now parent_ino : ℕ) where
  abbrev updated : ℕ → RemoteNode → World → World
  updated ino n w =
      write
        (update_remote_metadata ino (node_size n.kind) (node_media_type n.kind)
          (node_revision n.kind) (node_mtime n.creation_time n.kind))
        w

  metadata-Survives : (ino : ℕ) (n : RemoteNode) (w : World) → Survives w (updated ino n w)
  unfolding update_remote_metadata update_ino
  metadata-Survives ino n w =
      In-update_where (has_ino ino)
        (remote_metadata (node_size n.kind) (node_media_type n.kind) (node_revision n.kind)
          (node_mtime n.creation_time n.kind))
        (λ r. record {
          ino = refl;
          parent_ino = refl;
          name = refl;
          node_uid = refl;
          is_dir = refl;
          dirty = refl;
        })
        (rows_of w)

  insert_node-arrives :
      (n : RemoteNode) (w : World)
      → Survives w (insert_node_into_db now parent_ino n w)
        × HasRow (raw n.uid) (rows_of (insert_node_into_db now parent_ino n w))
  unfolding insert_node_into_db insert_inode insert_row
  insert_node-arrives n w = elim (Option-cases (find_by_node_uid (raw n.uid) w.daemon.inodes)) [
    | inl fresh ↦
        rw (insert_node_into_db, fresh, find_none (raw n.uid) w fresh)
          (
            λ r at. (r, In-append r (rows_of w) _ at, IsSameFile-refl r),
            (_, In-last _ (rows_of w), refl),
          )
    | inr (row, found) ↦
        let kept = metadata-Survives row.ino n w in
        let there =
          HasRow-Survives (raw n.uid) w (updated row.ino n w) kept
            (find_some (raw n.uid) w row found) in
        rw (insert_node_into_db, found) (kept, there)
  ]

  insert_degraded-Survives :
      (d : DegradedNode) (w : World) → Survives w (insert_degraded_into_db now parent_ino d w)
  unfolding insert_degraded_into_db insert_inode insert_row
  insert_degraded-Survives d w =
      elim (Option-cases (find_by_node_uid (raw d.uid) w.daemon.inodes)) [
        | inl fresh ↦ elim (Option-cases d.name) [
          | inl nameless ↦
              rw (insert_degraded_into_db, fresh, nameless) λ r at. (r, at, IsSameFile-refl r)
          | inr (name, named) ↦
              rw (insert_degraded_into_db, fresh, named, find_none (raw d.uid) w fresh)
                λ r at. (r, In-append r (rows_of w) _ at, IsSameFile-refl r)
        ]
        | inr (row, found) ↦ rw (insert_degraded_into_db, found) λ r at. (r, at, IsSameFile-refl r)
      ]

  -- Each node that is not in the trash has a row.
  abbrev pub HasRows : List Child → List InodeRow → Type 0
  HasRows [] rows = Unit {0}
  HasRows (node n ∷ children) rows =
      (n.is_trashed ≡ false → HasRow (raw n.uid) rows) × HasRows children rows
  HasRows (degraded d ∷ children) rows = HasRows children rows

  -- A listing takes no row away before it looks for stale ones, and gives each node a row.
  pub insert_children-arrives :
      (children : List Child) (w : World)
      → Survives w (insert_children now parent_ino children w).0
        × HasRows children (rows_of (insert_children now parent_ino children w).0)
  unfolding insert_children
  insert_children-arrives [] w = (λ r at. (r, at, IsSameFile-refl r), tt)
  insert_children-arrives (node n ∷ children) w = elim (Bool-cases n.is_trashed) [
    | inl trashed ↦
        let (kept, rows) = insert_children-arrives children w in
        rw trashed (kept, (λ live. absurd (ground (arith, trashed, live)), rows))
    | inr live ↦
        let v = insert_node_into_db now parent_ino n w in
        let (mine, row) = insert_node-arrives n w in
        let (kept, rows) = insert_children-arrives children v in
        let u = (insert_children now parent_ino children v).0 in
        rw live
          (Survives-trans w v u mine kept, (λ l. HasRow-Survives (raw n.uid) v u kept row, rows))
  ]
  insert_children-arrives (degraded d ∷ children) w =
      let v = insert_degraded_into_db now parent_ino d w in
      let (kept, rows) = insert_children-arrives children v in
      (
        Survives-trans w v (insert_children now parent_ino children v).0
            (insert_degraded-Survives d w) kept,
        rows,
      )
