-- ===== src/Db/Journal/Loading.antt =====
-- crates/pdcli/src/db.rs: what `load_pending_journal` gives the flush loop.
use proton_sdk_rs.Prelude.{
  ℕ, ◌≤◌, ◌<◌, ◌≡◌, refl, true, Option, none, some, List, arith, length, length-take, min_of,
  order_by, select_where, All, Mem, SortedFrom, All-map, All-zip, All-Mem, All-select_where,
  All-order_by, All-take, select_where_fits, SortedFrom-take, order_by-SortedFrom, length-order_by,
  length-select_where, min_of-le, min_of_attained,
}
use proton_sdk_rs.Db.Journal.{
  Journal, JournalEntry, pending, has_status, retry_is, pending_rows, load_pending_journal,
}

-- A row that waits and was tried no more often than any other that waits.
pub record IsNext (t : Journal) (e : JournalEntry) : Type 0 where
  pub stored : Mem e t.rows
  pub waiting : e.status ≡ pending
  pub least : All (λ r. e.retry_count ≤ r.retry_count) (pending_rows t)

waiting_of : (e : JournalEntry) → has_status pending e ≡ true → e.status ≡ pending
waiting_of e h = ground arith

pending_rows_fit : (t : Journal) → All (λ e. Mem e t.rows × (e.status ≡ pending)) (pending_rows t)
unfolding pending_rows
pending_rows_fit t =
    All-zip (λ e. Mem e t.rows) (λ e. e.status ≡ pending) (pending_rows t)
      (All-select_where (λ e. Mem e t.rows) (has_status pending) t.rows (All-Mem t.rows))
      (All-map waiting_of (pending_rows t) (select_where_fits (has_status pending) t.rows))

least_of :
    (t : Journal) (o : Option ℕ) (e : JournalEntry)
    → min_of (λ e. e.retry_count) (pending_rows t) ≡ o
    → retry_is o e ≡ true
    → All (λ r. e.retry_count ≤ r.retry_count) (pending_rows t)
least_of t none e q h = absurd (ground arith)
least_of t (some m) e q h =
    let same : e.retry_count ≡ m = ground arith in
    rw same (min_of-le (λ r. r.retry_count) (pending_rows t) q)

candidates : Journal → List JournalEntry
candidates t =
    select_where (retry_is (min_of (λ e. e.retry_count) (pending_rows t))) (pending_rows t)

candidates-IsNext : (t : Journal) → All (IsNext t) (candidates t)
unfolding candidates
candidates-IsNext t =
    let o = min_of (λ e. e.retry_count) (pending_rows t) in
    All-map (λ e h. record { stored = h.0.0; waiting = h.0.1; least = least_of t o e refl h.1 })
      (candidates t)
      (All-zip (λ e. Mem e t.rows × (e.status ≡ pending)) (λ e. retry_is o e ≡ true) (candidates t)
        (All-select_where _ (retry_is o) (pending_rows t) (pending_rows_fit t))
        (select_where_fits (retry_is o) (pending_rows t)))

-- Every loaded entry is a stored row that waits, tried no more often than any other that waits; the
-- entries come in order of creation, at most `limit` of them.
pub load_pending_journal_lem :
    (limit : ℕ) (t : Journal)
    → All (IsNext t) (load_pending_journal limit t)
      × SortedFrom (λ e. e.created_at) 0 (load_pending_journal limit t)
      × (length (load_pending_journal limit t) ≤ limit)
unfolding load_pending_journal candidates
load_pending_journal_lem limit t =
    let sorted = order_by (λ e. e.created_at) (candidates t) in
    (
      All-take (IsNext t) limit sorted
          (All-order_by (IsNext t) (λ e. e.created_at) (candidates t) (candidates-IsNext t)),
      SortedFrom-take (λ e. e.created_at) 0 limit sorted
          (order_by-SortedFrom (λ e. e.created_at) (candidates t)),
      omega (arith, length-take limit sorted),
    )

-- When a row waits and the limit is not zero, an entry is loaded.
pub load_pending_journal_nonempty :
    (limit : ℕ) (t : Journal)
    → 0 < limit
    → 0 < length (pending_rows t)
    → 0 < length (load_pending_journal limit t)
unfolding load_pending_journal candidates
load_pending_journal_nonempty limit t h k =
    let (m, e, c) = min_of_attained (λ e. e.retry_count) (pending_rows t) k in
    let found : 0 < length (candidates t) =
      rw (e, length-select_where (retry_is (some m)) (pending_rows t)) c in
    omega (
      arith,
      length-take limit (order_by (λ e. e.created_at) (candidates t)),
      length-order_by (λ e. e.created_at) (candidates t),
      found,
    )
