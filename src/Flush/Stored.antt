-- ===== src/Flush/Stored.antt =====
-- The entries that `load_pending_journal` loads are distinct stored rows that wait.
use proton_sdk_rs.Prelude.{
  ℕ, zero, suc, ◌≡◌, Bool, true, false, List, [], ◌∷◌, arith, ◌==◌, take, All, All-map, All-zip,
  select_where, All-select_where, All-insert_by, All-take, All-order_by, insert_by, order_by,
  min_of, select_where_fits,
}
use proton_sdk_rs.Db.Journal.{
  Journal, JournalEntry, pending, has_status, retry_is, pending_rows, load_pending_journal,
}
use proton_sdk_rs.Flush.Tries.{DistinctIds, IsStored}

abbrev Other : JournalEntry → JournalEntry → Type 0
Other r s = (s.id == r.id) ≡ false

stored : (rs : List JournalEntry) → DistinctIds rs → All (IsStored rs) rs
stored [] d = tt
stored (r ∷ rs) d = (
  ground arith,
  All-map (λ s h. ground (arith, h.0, h.1)) rs
      (All-zip (Other r) (IsStored rs) rs d.0 (stored rs d.1)),
)

DistinctIds-select_where :
    (p : JournalEntry → Bool) (rs : List JournalEntry)
    → DistinctIds rs
    → DistinctIds (select_where p rs)
DistinctIds-select_where p [] d = d
DistinctIds-select_where p (r ∷ rs) d =
    ground (arith, All-select_where (Other r) p rs d.0, DistinctIds-select_where p rs d.1)

DistinctIds-insert_by :
    (key : JournalEntry → ℕ) (r : JournalEntry) (rs : List JournalEntry)
    → All (Other r) rs
    → DistinctIds rs
    → DistinctIds (insert_by key r rs)
DistinctIds-insert_by key r [] h d = (tt, tt)
DistinctIds-insert_by key r (s ∷ rs) h d =
    let back : Other s r = ground (arith, h.0) in
    ground
      (arith, All-insert_by (Other s) key r rs back d.0, DistinctIds-insert_by key r rs h.1 d.1)

DistinctIds-order_by :
    (key : JournalEntry → ℕ) (rs : List JournalEntry)
    → DistinctIds rs
    → DistinctIds (order_by key rs)
DistinctIds-order_by key [] d = d
DistinctIds-order_by key (r ∷ rs) d =
    DistinctIds-insert_by key r (order_by key rs) (All-order_by (Other r) key rs d.0)
      (DistinctIds-order_by key rs d.1)

DistinctIds-take : (n : ℕ) (rs : List JournalEntry) → DistinctIds rs → DistinctIds (take n rs)
DistinctIds-take zero rs d = tt
DistinctIds-take (suc n) [] d = d
DistinctIds-take (suc n) (r ∷ rs) d = (All-take (Other r) n rs d.0, DistinctIds-take n rs d.1)

-- What the flush loop may rely on for the entries of a round.
abbrev pub IsWaiting : List JournalEntry → JournalEntry → Type 0
IsWaiting rows e = IsStored rows e × (has_status pending e ≡ true)

pub load-IsWaiting :
    (limit : ℕ) (t : Journal)
    → DistinctIds t.rows
    → All (IsWaiting t.rows) (load_pending_journal limit t)
unfolding load_pending_journal pending_rows
load-IsWaiting limit t d =
    let waiting = select_where (has_status pending) t.rows in
    let least = min_of (λ e. e.retry_count) waiting in
    All-take (IsWaiting t.rows) limit _ (
      All-order_by (IsWaiting t.rows) (λ e. e.created_at) (select_where (retry_is least) waiting)
        (All-select_where (IsWaiting t.rows) (retry_is least) waiting (
          All-zip (IsStored t.rows) (λ e. has_status pending e ≡ true) waiting
            (All-select_where (IsStored t.rows) (has_status pending) t.rows (stored t.rows d))
            (select_where_fits (has_status pending) t.rows))))

pub load-DistinctIds :
    (limit : ℕ) (t : Journal) → DistinctIds t.rows → DistinctIds (load_pending_journal limit t)
unfolding load_pending_journal pending_rows
load-DistinctIds limit t d = DistinctIds-take limit _ (
    DistinctIds-order_by (λ e. e.created_at) _
      (DistinctIds-select_where (retry_is _) _
        (DistinctIds-select_where (has_status pending) t.rows d)))
