-- ===== src/Db/Journal/Retrying.antt =====
-- crates/pdcli/src/db.rs: `retry_failed`, on every branch.
use mathlib.Core.List.{mem-cons_self, mem-cons_of_mem}
use proton_sdk_rs.Prelude.{
  ℕ, suc, ◌+◌, ◌<◌, ◌≡◌, refl, ◌⊎◌, inl, inr, true, false, ◌&&◌, Option, none, some, List, [], ◌∷◌,
  arith, ltb, count_where, update_where, Bool-cases, All, Mem,
}
use proton_sdk_rs.Prelude.Int.{ℤ, pos, negsuc}
use proton_sdk_rs.Db.Journal.{
  Journal, JournalEntry, pending, failed, has_status, has_id, ok, err, no_target, id_not_positive,
  none_matched, reset, retry_where, retry_failed,
}

count_failed :
    (rs : List JournalEntry)
    → count_where (has_status failed) (update_where (has_status failed) reset rs) ≡ 0
count_failed [] = refl
count_failed (e ∷ rs) = ground (arith, count_failed rs)

count_pending :
    (rs : List JournalEntry)
    → count_where (has_status pending) (update_where (has_status failed) reset rs)
      ≡ count_where (has_status pending) rs + count_where (has_status failed) rs
count_pending [] = refl
count_pending (e ∷ rs) = ground (arith, count_pending rs)

-- What `retry_failed --all` leaves: no failed row, each of them pending, and as many changed rows
-- reported as had failed.
pub record AllRetried (t : Journal) (u : Journal) (changed : ℕ) : Type 0 where
  pub none_failed : count_where (has_status failed) u.rows ≡ 0
  pub all_pending :
      count_where (has_status pending) u.rows
      ≡ count_where (has_status pending) t.rows + count_where (has_status failed) t.rows
  pub counted : changed ≡ count_where (has_status failed) t.rows
  pub same_ids : u.next_id ≡ t.next_id

-- With `all`, whatever the id: an error exactly when no row has failed; otherwise every failed row
-- is pending again and the number of them is returned.
pub retry_failed_all :
    (id : Option ℤ) (t : Journal)
    → ((retry_failed id true t ≡ err none_matched) × (count_where (has_status failed) t.rows ≡ 0))
      ⊎ ((u : Journal) × (n : ℕ) × (retry_failed id true t ≡ ok (u, n))
          × (0 < n)
          × AllRetried t u n)
unfolding retry_failed
retry_failed_all id t = elim (Bool-cases (ltb 0 (count_where (has_status failed) t.rows))) [
  | inl some_failed ↦ inr (
    record t { rows = update_where (has_status failed) reset t.rows },
    count_where (has_status failed) t.rows,
    rw some_failed,
    ground arith,
    record {
      none_failed = count_failed t.rows;
      all_pending = count_pending t.rows;
      counted = refl;
      same_ids = refl;
    },
  )
  | inr none_failed ↦ inl (rw none_failed, ground arith)
]

-- The row of this id has failed.
abbrev pub IsTarget : ℕ → JournalEntry → Type 0
IsTarget id e = (e.id ≡ id) × (e.status ≡ failed)

-- The row waits again as when it was queued: no attempt counts, and no error is noted.
pub record IsQueuedAgain (e f : JournalEntry) : Type 0 where
  pub status : f.status ≡ pending
  pub retry_count : f.retry_count ≡ 0
  pub error : f.error ≡ none
  pub id : f.id ≡ e.id
  pub created_at : f.created_at ≡ e.created_at
  pub event_type : f.event_type ≡ e.event_type
  pub ino : f.ino ≡ e.ino
  pub payload : f.payload ≡ e.payload

reset-IsQueuedAgain : (e : JournalEntry) → IsQueuedAgain e (reset e)
reset-IsQueuedAgain e = record {
  status = refl;
  retry_count = refl;
  error = refl;
  id = refl;
  created_at = refl;
  event_type = refl;
  ino = refl;
  payload = refl;
}

-- A failed row with this id waits again, and every other row is as it was.
abbrev pub OneRetried : ℕ → List JournalEntry → List JournalEntry → Type 0
OneRetried id [] [] = Unit {0}
OneRetried id (e ∷ rs) (f ∷ fs) =
    ((IsTarget id e × IsQueuedAgain e f) ⊎ ((¬ IsTarget id e) × (f ≡ e))) × OneRetried id rs fs
OneRetried id _ _ = ⊥

update-OneRetried :
    (id : ℕ) (rs : List JournalEntry)
    → OneRetried id rs (update_where (λ e. has_id id e && has_status failed e) reset rs)
update-OneRetried id [] = tt
update-OneRetried id (e ∷ rs) = elim (Bool-cases (has_id id e && has_status failed e)) [
  | inl hit ↦ rw hit (inl (ground (arith, hit), reset-IsQueuedAgain e), update-OneRetried id rs)
  | inr miss ↦ rw miss (inr (ground (arith, miss), refl), update-OneRetried id rs)
]

none-IsTarget :
    (id : ℕ) (rs : List JournalEntry)
    → count_where (λ e. has_id id e && has_status failed e) rs ≡ 0
    → All (λ e. ¬ IsTarget id e) rs
none-IsTarget id [] h = tt
none-IsTarget id (e ∷ rs) h = elim (Bool-cases (has_id id e && has_status failed e)) [
  | inl hit ↦ absurd (ground (arith, hit, h))
  | inr miss ↦ (ground (arith, miss), none-IsTarget id rs (ground (arith, miss, h)))
]

some-IsTarget :
    (id : ℕ) (rs : List JournalEntry)
    → 0 < count_where (λ e. has_id id e && has_status failed e) rs
    → (e : JournalEntry) × Mem e rs × IsTarget id e
some-IsTarget id [] h = absurd (omega (arith, h))
some-IsTarget id (e ∷ rs) h = elim (Bool-cases (has_id id e && has_status failed e)) [
  | inl hit ↦ (e, mem-cons_self, ground (arith, hit))
  | inr miss ↦
      let (f, at, target) = some-IsTarget id rs (ground (arith, miss, h)) in
      (f, mem-cons_of_mem e at, target)
]

retry_row :
    (id : ℕ) (t : Journal)
    → ((retry_where (λ e. has_id id e && has_status failed e) t ≡ err none_matched)
        × All (λ e. ¬ IsTarget id e) t.rows)
      ⊎ ((u : Journal) × (n : ℕ) × (retry_where (λ e. has_id id e && has_status failed e) t
            ≡ ok (u, n))
          × ((e : JournalEntry) × Mem e t.rows × IsTarget id e)
          × OneRetried id t.rows u.rows)
unfolding retry_where
retry_row id t =
    let hits = count_where (λ e. has_id id e && has_status failed e) t.rows in
    elim (Bool-cases (ltb 0 hits)) [
      | inl some_failed ↦ inr (
        record t { rows = update_where (λ e. has_id id e && has_status failed e) reset t.rows },
        hits,
        rw some_failed,
        some-IsTarget id t.rows (ground (arith, some_failed)),
        update-OneRetried id t.rows,
      )
      | inr none_failed ↦
          inl (rw none_failed, none-IsTarget id t.rows (ground (arith, none_failed)))
    ]

-- Without `all`: no id and an id below 1 are errors whatever the table; for a positive id there is
-- an error exactly when no row with that id has failed, and otherwise the rows with that id that
-- had failed are pending again, with no attempt counted and no error noted but otherwise the same, and
-- every other row is unchanged.
pub retry_failed_one :
    (t : Journal) (n id : ℕ)
    → (retry_failed none false t ≡ err no_target)
      × (retry_failed (some (negsuc n)) false t ≡ err id_not_positive)
      × (retry_failed (some (pos 0)) false t ≡ err id_not_positive)
      × (((retry_failed (some (pos (suc id))) false t ≡ err none_matched)
            × All (λ e. ¬ IsTarget (suc id) e) t.rows)
          ⊎ ((u : Journal) × (changed : ℕ) × (retry_failed (some (pos (suc id))) false t
                ≡ ok (u, changed))
              × ((e : JournalEntry) × Mem e t.rows × IsTarget (suc id) e)
              × OneRetried (suc id) t.rows u.rows))
unfolding retry_failed
retry_failed_one t n id =
    let below : ltb (0 + suc n) 0 ≡ false = ground arith in
    let above : ltb 0 (suc id + 0) ≡ true = ground arith in
    (refl, rw below, refl, rw above (retry_row (suc id) t))
