-- ===== src/Flush/Tries.antt =====
-- crates/pdcli/src/fs.rs: the retries of `apply_journal_result`, as a number that falls.
use proton_sdk_rs.Prelude.{
  ℕ, ◌+◌, ◌-◌, ◌≤◌, ◌<◌, ◌≡◌, refl, ◌⊎◌, inl, inr, String, true, false, ◌||◌, Option, none, some,
  List, [], ◌∷◌, arith, leb, ◌==◌, if◌then◌else◌, Bool-cases, All, All-update_where, first_where,
  update_where,
}
use proton_sdk_rs.Db.Journal.{
  Journal, JournalEntry, Status, pending, failed, done, has_status, has_id, update_journal_status,
}
use proton_sdk_rs.Flush.{Outcome, flushed, error, is_permanent, apply_journal_result, max_retries}

abbrev pub DistinctIds : List JournalEntry → Type 0
DistinctIds [] = Unit {0}
DistinctIds (r ∷ rs) = All (λ s. (s.id == r.id) ≡ false) rs × DistinctIds rs

-- An entry that waits was tried at most `max_retries` times.
abbrev pub Tried : JournalEntry → Type 0
Tried e = (has_status pending e ≡ false) ⊎ (e.retry_count ≤ max_retries)

pub record IsValid (t : Journal) : Type 0 where
  pub distinct : DistinctIds t.rows
  pub below : All (λ r. r.id < t.next_id) t.rows
  pub tried : All Tried t.rows

-- The attempts that a row has left.
abbrev pub tries : JournalEntry → ℕ
tries e = if has_status pending e then max_retries + 1 - e.retry_count else 0

abbrev pub tries_left : List JournalEntry → ℕ
tries_left [] = 0
tries_left (r ∷ rs) = tries r + tries_left rs

abbrev pub IsStored : List JournalEntry → JournalEntry → Type 0
IsStored rows e = first_where (has_id e.id) rows ≡ some e

abbrev mark : Status → Option String → JournalEntry → JournalEntry
mark s o r = record r { status = s; error = o; retry_count = r.retry_count + 1 }

-- What `apply_journal_result` does to the row of its entry.
abbrev pub settle : JournalEntry → Outcome → JournalEntry → JournalEntry
settle e flushed = mark done none
settle e (error msg) =
    if is_permanent msg || leb max_retries e.retry_count
    then mark failed (some msg)
    else mark pending (some msg)

pub apply-settle :
    (e : JournalEntry) (o : Outcome) (t : Journal)
    → apply_journal_result e o t
      ≡ record t { rows = update_where (has_id e.id) (settle e o) t.rows }
unfolding apply_journal_result update_journal_status
apply-settle e flushed t = refl
apply-settle e (error msg) t =
    elim (Bool-cases (is_permanent msg || leb max_retries e.retry_count)) [
      | inl stop ↦ rw stop
      | inr again ↦ rw again
    ]

pub settle-id : (e : JournalEntry) (o : Outcome) (r : JournalEntry) → (settle e o r).id ≡ r.id
settle-id e flushed r = refl
settle-id e (error msg) r = ground arith

pub settle-tries :
    (e : JournalEntry) (o : Outcome)
    → has_status pending e ≡ true
    → Tried e
    → (tries (settle e o e) + 1 ≤ tries e) × Tried (settle e o e)
settle-tries e flushed p h = ground arith
settle-tries e (error msg) p h = ground arith

abbrev Other : JournalEntry → JournalEntry → Type 0
Other r s = (s.id == r.id) ≡ false

module _ (f : JournalEntry → JournalEntry) (id : ℕ)
    (keeps : (r : JournalEntry) → (f r).id ≡ r.id) where
  update_absent :
      (rs : List JournalEntry)
      → All (λ s. (s.id == id) ≡ false) rs
      → update_where (has_id id) f rs ≡ rs
  update_absent [] h = refl
  update_absent (r ∷ rs) h = ground (arith, update_absent rs h.1)

  pub update-DistinctIds :
      (rs : List JournalEntry) → DistinctIds rs → DistinctIds (update_where (has_id id) f rs)
  update-DistinctIds [] d = d
  update-DistinctIds (r ∷ rs) d = (
    All-update_where (Other r) (Other (if has_id id r then f r else r)) (has_id id) f rs
        (λ s h. ground (arith, keeps r, keeps s, h)) d.0,
    update-DistinctIds rs d.1,
  )

  pub first-update_ne :
      (other : ℕ) (rs : List JournalEntry)
      → (other == id) ≡ false
      → first_where (has_id other) (update_where (has_id id) f rs) ≡ first_where (has_id other) rs
  first-update_ne other [] h = refl
  first-update_ne other (r ∷ rs) h = ground (arith, keeps r, first-update_ne other rs h)

  pub tries_left-update :
      (rs : List JournalEntry) (e : JournalEntry)
      → DistinctIds rs
      → first_where (has_id id) rs ≡ some e
      → tries (f e) + 1 ≤ tries e
      → tries_left (update_where (has_id id) f rs) + 1 ≤ tries_left rs
  tries_left-update [] e d h k = absurd (ground arith)
  tries_left-update (r ∷ rs) e d h k = elim (Bool-cases (has_id id r)) [
    | inl hit ↦
        let same : r ≡ e = ground (arith, hit, h) in
        let id_same : r.id ≡ id = ground (arith, hit) in
        let rest : update_where (has_id id) f rs ≡ rs = update_absent rs (rw id_same at d.0) in
        rw (hit, rest, same) (omega (arith, k))
    | inr miss ↦ rw miss (omega (arith, tries_left-update rs e d.1 (ground (arith, miss, h)) k))
  ]

  pub update-Tried :
      (rs : List JournalEntry) (e : JournalEntry)
      → DistinctIds rs
      → first_where (has_id id) rs ≡ some e
      → Tried (f e)
      → All Tried rs
      → All Tried (update_where (has_id id) f rs)
  update-Tried [] e d h k a = a
  update-Tried (r ∷ rs) e d h k a = elim (Bool-cases (has_id id r)) [
    | inl hit ↦
        let same : r ≡ e = ground (arith, hit, h) in
        let id_same : r.id ≡ id = ground (arith, hit) in
        let rest : update_where (has_id id) f rs ≡ rs = update_absent rs (rw id_same at d.0) in
        rw (hit, rest, same) (k, a.1)
    | inr miss ↦ rw miss (a.0, update-Tried rs e d.1 (ground (arith, miss, h)) k a.1)
  ]
