-- ===== src/Flush/Attempts.antt =====
-- crates/pdcli/src/fs.rs: each result of an entry uses up one of its attempts.
use proton_sdk_rs.Prelude.{
  some, ◌*◌, ◌==◌, ℕ, ◌+◌, ◌≤◌, ◌<◌, ◌≡◌, refl, ap, inl, inr, Bool, false, List, [], ◌∷◌, arith,
  length, Bool-cases, All, All-map, All-zip, All-delete_where, All-update_where, first_where,
  select_where, delete_where,
}
use proton_sdk_rs.Db.Journal.{
  Journal, JournalEntry, pending, done, has_status, has_id, delete_completed_journal,
}
use proton_sdk_rs.Flush.{Daemon, Outcome, apply_journal_result, flush_entry, flush_entries}
use proton_sdk_rs.Flush.Tries.{
  IsValid, DistinctIds, Tried, tries_left, settle, apply-settle, settle-id, settle-tries,
  update-DistinctIds, first-update_ne, tries_left-update, update-Tried,
}
use proton_sdk_rs.Flush.Stored.{IsWaiting}

pub Tried-of :
    (rs : List JournalEntry) (id : ℕ) (e : JournalEntry)
    → first_where (has_id id) rs ≡ some e
    → All Tried rs
    → Tried e
Tried-of [] id e h a = absurd (ground arith)
Tried-of (r ∷ rs) id e h a = elim (Bool-cases (has_id id r)) [
  | inl hit ↦ let same : r ≡ e = ground (arith, hit, h) in rw same at a.0
  | inr miss ↦ Tried-of rs id e (ground (arith, miss, h)) a.1
]

-- One result costs the entry an attempt and keeps the journal valid.
pub apply_result_lem :
    (e : JournalEntry) (o : Outcome) (t : Journal)
    → IsValid t
    → IsWaiting t.rows e
    → IsValid (apply_journal_result e o t)
      × (tries_left (apply_journal_result e o t).rows + 1 ≤ tries_left t.rows)
apply_result_lem e o t v w =
    let f = settle e o in
    let paid = settle-tries e o w.1 (Tried-of t.rows e.id e w.0 v.tried) in
    rw (apply-settle e o t) (
      record {
        distinct = update-DistinctIds f e.id (settle-id e o) t.rows v.distinct;
        below =
            All-update_where (λ r. r.id < t.next_id) (λ r. r.id < t.next_id) (has_id e.id) f t.rows
              (λ r h. ground (arith, settle-id e o r, h)) v.below;
        tried = update-Tried f e.id (settle-id e o) t.rows e v.distinct w.0 paid.1 v.tried;
      },
      tries_left-update f e.id (settle-id e o) t.rows e v.distinct w.0 paid.0,
    )

-- The entries that are still to come are as they were.
pub apply_result-IsWaiting :
    (e : JournalEntry) (o : Outcome) (t : Journal) (es : List JournalEntry)
    → All (λ s. (s.id == e.id) ≡ false) es
    → All (IsWaiting t.rows) es
    → All (IsWaiting (apply_journal_result e o t).rows) es
apply_result-IsWaiting e o t es others ws =
    All-map
      (λ s h. (
        rw (apply-settle e o t, first-update_ne (settle e o) e.id (settle-id e o) s.id t.rows h.0)
            h.1.0,
        h.1.1,
      ))
      es (All-zip (λ s. (s.id == e.id) ≡ false) (IsWaiting t.rows) es others ws)

-- The work on an entry leaves the journal to `apply_journal_result`.
abbrev pub KeepsJournal : (Daemon → JournalEntry → Daemon × Outcome) → Type 0
KeepsJournal process = (d : Daemon) (e : JournalEntry) → (process d e).0.journal ≡ d.journal

module _ (process : Daemon → JournalEntry → Daemon × Outcome) (keeps : KeepsJournal process) where
  pub flush_entry-journal :
      (e : JournalEntry) (d : Daemon)
      → (flush_entry process e d).journal ≡ apply_journal_result e (process d e).1 d.journal
  unfolding flush_entry
  flush_entry-journal e d = rw (keeps d e)

  pub flush_entries_lem :
      (es : List JournalEntry) (d : Daemon)
      → IsValid d.journal
      → DistinctIds es
      → All (IsWaiting d.journal.rows) es
      → IsValid (flush_entries process es d).journal
        × (tries_left (flush_entries process es d).journal.rows + length es
            ≤ tries_left d.journal.rows)
  unfolding flush_entries
  flush_entries_lem [] d v ds ws = (v, omega arith)
  flush_entries_lem (e ∷ es) d v ds ws =
      let o = (process d e).1 in
      let one = apply_result_lem e o d.journal v ws.0 in
      let j = flush_entry-journal e d in
      let rest =
        flush_entries_lem es (flush_entry process e d) (rw j one.0) ds.1
          (rw j (apply_result-IsWaiting e o d.journal es ds.0 ws.1)) in
      (rest.0, omega (arith, rest.1, one.1, ap (λ t. tries_left t.rows) j))

pub delete_completed-tries :
    (rs : List JournalEntry) → tries_left (delete_where (has_status done) rs) ≡ tries_left rs
delete_completed-tries [] = refl
delete_completed-tries (r ∷ rs) = ground (arith, delete_completed-tries rs)

pub DistinctIds-delete :
    (p : JournalEntry → Bool) (rs : List JournalEntry)
    → DistinctIds rs
    → DistinctIds (delete_where p rs)
DistinctIds-delete p [] d = d
DistinctIds-delete p (r ∷ rs) d =
    ground
      (arith, All-delete_where (λ s. (s.id == r.id) ≡ false) p rs d.0, DistinctIds-delete p rs d.1)

pub delete_completed-IsValid : (t : Journal) → IsValid t → IsValid (delete_completed_journal t).0
unfolding delete_completed_journal
delete_completed-IsValid t v = record {
  distinct = DistinctIds-delete (has_status done) t.rows v.distinct;
  below = All-delete_where (λ r. r.id < t.next_id) (has_status done) t.rows v.below;
  tried = All-delete_where Tried (has_status done) t.rows v.tried;
}

pub waiting-tries :
    (rs : List JournalEntry)
    → All Tried rs
    → length (select_where (has_status pending) rs) ≤ tries_left rs
waiting-tries [] a = omega arith
waiting-tries (r ∷ rs) a = ground (arith, waiting-tries rs a.1, a.0)

pub tries-waiting :
    (rs : List JournalEntry) → tries_left rs ≤ 11 * length (select_where (has_status pending) rs)
tries-waiting [] = omega arith
tries-waiting (r ∷ rs) = ground (arith, tries-waiting rs)
