-- ===== src/Remote/Unlisted.antt =====
-- crates/pdcli/src/fs.rs: when `populate_folder_children` takes a local row for stale, said of the
-- listing, the row and the journal alone.
use text.Mathlib.Text.{◌==◌ as str_eq}
use text.Mathlib.TextEquality.{eq_iff}
use proton_sdk_rs.Prelude.{
  ℕ, ◌≡◌, refl, ◌∙◌, ◌↔◌, inl, inr, String, true, false, ◌&&◌, some, List, [], ◌∷◌, arith, ◌==◌,
  All, count_where, Bool-cases, Option-cases,
}
use proton_sdk_rs.Node.Uids.{raw}
use proton_sdk_rs.Db.Journal.{JournalEntry, Journal, pending, has_status, has_pending_journal}
use proton_sdk_rs.Db.Inodes.{InodeRow, find_by_node_uid}
use proton_sdk_rs.Remote.{World}
use proton_sdk_rs.Remote.Listing.{
  Child, node, degraded, RemoteNode, DegradedNode, insert_node_into_db, insert_degraded_into_db,
  insert_children, is_stale, contains,
}

-- The server lists a node with this UID, and not in the trash.
pub data IsOffered (uid : String) : List Child → Type 0 where
  of_node :
      (n : RemoteNode) (children : List Child)
      → n.is_trashed ≡ false
      → raw n.uid ≡ uid
      → IsOffered uid (node n ∷ children)
  of_degraded :
      (d : DegradedNode) (children : List Child)
      → raw d.uid ≡ uid
      → IsOffered uid (degraded d ∷ children)
  later :
      (c : Child) (children : List Child) → IsOffered uid children → IsOffered uid (c ∷ children)

abbrev pub IsWaiting : ℕ → JournalEntry → Type 0
IsWaiting ino e = (e.ino ≡ ino) × (e.status ≡ pending)

-- A row with a node UID that the server does not list, neither dirty nor with an entry that waits.
pub record IsStale (children : List Child) (j : Journal) (local : InodeRow) : Type 0 where
  pub uid : String
  pub known : local.node_uid ≡ some uid
  pub unlisted : ¬ IsOffered uid children
  pub clean : local.dirty ≡ false
  pub idle : All (λ e. ¬ IsWaiting local.ino e) j.rows

no-IsWaiting :
    (ino : ℕ) (rs : List JournalEntry)
    → count_where (λ e. e.ino == ino && has_status pending e) rs ≡ 0
    → All (λ e. ¬ IsWaiting ino e) rs
no-IsWaiting ino [] h = tt
no-IsWaiting ino (e ∷ rs) h = elim (Bool-cases (e.ino == ino && has_status pending e)) [
  | inl hit ↦ absurd (ground (arith, hit, h))
  | inr miss ↦ (ground (arith, miss), no-IsWaiting ino rs (ground (arith, miss, h)))
]

IsWaiting-none :
    (ino : ℕ) (rs : List JournalEntry)
    → All (λ e. ¬ IsWaiting ino e) rs
    → count_where (λ e. e.ino == ino && has_status pending e) rs ≡ 0
IsWaiting-none ino [] h = refl
IsWaiting-none ino (e ∷ rs) h = elim (Bool-cases (e.ino == ino && has_status pending e)) [
  | inl hit ↦ absurd (h.0 (ground (arith, hit)))
  | inr miss ↦ rw miss (IsWaiting-none ino rs h.1)
]

has_pending_journal-IsWaiting :
    (ino : ℕ) (j : Journal)
    → (has_pending_journal ino j ≡ false) ↔ All (λ e. ¬ IsWaiting ino e) j.rows
unfolding has_pending_journal
has_pending_journal-IsWaiting ino j = (
  λ h. no-IsWaiting ino j.rows (ground (arith, h)),
  λ h. ground (arith, IsWaiting-none ino j.rows h),
)

module _ (now parent_ino : ℕ) where
  insert_node-journal :
      (n : RemoteNode) (w : World)
      → (insert_node_into_db now parent_ino n w).daemon.journal ≡ w.daemon.journal
  unfolding insert_node_into_db
  insert_node-journal n w = elim (Option-cases (find_by_node_uid (raw n.uid) w.daemon.inodes)) [
    | inl fresh ↦ rw (insert_node_into_db, fresh) refl
    | inr (row, found) ↦ rw (insert_node_into_db, found) refl
  ]

  insert_degraded-journal :
      (d : DegradedNode) (w : World)
      → (insert_degraded_into_db now parent_ino d w).daemon.journal ≡ w.daemon.journal
  unfolding insert_degraded_into_db
  insert_degraded-journal d w = elim (Option-cases (find_by_node_uid (raw d.uid) w.daemon.inodes)) [
    | inl fresh ↦ elim (Option-cases d.name) [
      | inl nameless ↦ rw (insert_degraded_into_db, fresh, nameless) refl
      | inr (name, named) ↦ rw (insert_degraded_into_db, fresh, named) refl
    ]
    | inr (row, found) ↦ rw (insert_degraded_into_db, found) refl
  ]

  -- The listing leaves the journal alone.
  pub insert_children-journal :
      (children : List Child) (w : World)
      → (insert_children now parent_ino children w).0.daemon.journal ≡ w.daemon.journal
  unfolding insert_children
  insert_children-journal [] w = refl
  insert_children-journal (node n ∷ children) w = elim (Bool-cases n.is_trashed) [
    | inl trashed ↦ rw trashed (insert_children-journal children w)
    | inr live ↦ rw live (
        insert_children-journal children (insert_node_into_db now parent_ino n w)
        ∙ insert_node-journal n w)
  ]
  insert_children-journal (degraded d ∷ children) w =
      insert_children-journal children (insert_degraded_into_db now parent_ino d w)
      ∙ insert_degraded-journal d w

  contains-IsOffered :
      (uid : String) (children : List Child) (w : World)
      → contains now parent_ino (insert_children now parent_ino children w).1 uid ≡ true
      → IsOffered uid children
  unfolding insert_children
  contains-IsOffered uid [] w h = absurd (ground (arith, h))
  contains-IsOffered uid (node n ∷ children) w h = elim (Bool-cases n.is_trashed) [
    | inl trashed ↦
        later (node n) children (contains-IsOffered uid children w (ground (arith, trashed, h)))
    | inr live ↦ elim (Bool-cases (str_eq (raw n.uid) uid)) [
      | inl same ↦ of_node n children live ((eq_iff (raw n.uid) uid).0 same)
      | inr apart ↦ later (node n) children (
          contains-IsOffered uid children (insert_node_into_db now parent_ino n w)
            (ground (arith, live, apart, h)))
    ]
  ]
  contains-IsOffered uid (degraded d ∷ children) w h = elim (Bool-cases (str_eq (raw d.uid) uid)) [
    | inl same ↦ of_degraded d children ((eq_iff (raw d.uid) uid).0 same)
    | inr apart ↦ later (degraded d) children (
        contains-IsOffered uid children (insert_degraded_into_db now parent_ino d w)
          (ground (arith, apart, h)))
  ]

  IsOffered-contains :
      (uid : String) (children : List Child) (w : World)
      → IsOffered uid children
      → contains now parent_ino (insert_children now parent_ino children w).1 uid ≡ true
  unfolding insert_children
  IsOffered-contains uid [] w x = elim x [ ]
  IsOffered-contains uid (node n ∷ children) w (of_node m cs live same) =
      let hit = (eq_iff (raw n.uid) uid).1 same in ground (arith, live, hit)
  IsOffered-contains uid (degraded d ∷ children) w (of_degraded e cs same) =
      let hit = (eq_iff (raw d.uid) uid).1 same in ground (arith, hit)
  IsOffered-contains uid (node n ∷ children) w (later c cs h) =
      let skipped = IsOffered-contains uid children w h in
      let kept = IsOffered-contains uid children (insert_node_into_db now parent_ino n w) h in
      ground (arith, skipped, kept)
  IsOffered-contains uid (degraded d ∷ children) w (later c cs h) =
      let kept = IsOffered-contains uid children (insert_degraded_into_db now parent_ino d w) h in
      ground (arith, kept)

  pub is_stale-IsStale :
      (children : List Child) (w : World) (j : Journal) (local : InodeRow)
      → (is_stale now parent_ino (insert_children now parent_ino children w).1 j local ≡ true)
        ↔ IsStale children j local
  is_stale-IsStale children w j local = (to, from)
    where
      uids : List String
      uids = (insert_children now parent_ino children w).1

      to : is_stale now parent_ino uids j local ≡ true → IsStale children j local
      to h = elim (Option-cases local.node_uid) [
        | inl fresh ↦ absurd (ground (arith, fresh, h))
        | inr (uid, known) ↦ record {
          uid = uid;
          known = known;
          unlisted = λ o.
              let listed = IsOffered-contains uid children w o in
              absurd (ground (arith, known, listed, h));
          clean = ground (arith, known, h);
          idle = (has_pending_journal-IsWaiting local.ino j).0 (ground (arith, known, h));
        }
      ]

      from : IsStale children j local → is_stale now parent_ino uids j local ≡ true
      from s =
          let idle = (has_pending_journal-IsWaiting local.ino j).1 s.idle in
          elim (Bool-cases (contains now parent_ino uids s.uid)) [
            | inl listed ↦ absurd (s.unlisted (contains-IsOffered s.uid children w listed))
            | inr unlisted ↦ rw (s.known, unlisted, s.clean, idle) refl
          ]
