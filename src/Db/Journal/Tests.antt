-- ===== src/Db/Journal/Tests.antt =====
-- Theorems about the journal of db.rs at a table with a row of each status.
use proton_sdk_rs.Prelude.{
  ◌+◌, ℕ, ◌≡◌, refl, ◌⊎◌, ◌<◌, ◌≤◌, true, false, none, some, [], ◌∷◌, arith, length, count_where,
  SortedFrom, All, Mem,
}
use proton_sdk_rs.Prelude.Int.{pos, negsuc}
use proton_sdk_rs.Db.Journal.{
  Journal, JournalEntry, Status, update_revision, has_status, pending_rows, load_pending_journal,
  ok, err, no_target, id_not_positive, none_matched, retry_failed,
}
use proton_sdk_rs.Db.Journal.Loading.{IsNext, load_pending_journal_lem}
use proton_sdk_rs.Db.Journal.Retrying.{
  IsTarget, AllRetried, OneRetried, retry_failed_all, retry_failed_one,
}

abbrev row : ℕ → ℕ → Status → ℕ → JournalEntry
row id created_at status retry_count = record {
  id = id;
  created_at = created_at;
  event_type = update_revision;
  ino = id + 10;
  payload = "";
  status = status;
  error = none;
  retry_count = retry_count;
}

abbrev table : Journal
table = record {
  rows =
      row 1 50 Status.failed 11
      ∷ row 2 40 Status.pending 3
      ∷ row 3 30 Status.pending 1
      ∷ row 4 20 Status.pending 1
      ∷ [];
  next_id = 5;
}

load_table :
    load_pending_journal 20 table ≡ row 4 20 Status.pending 1 ∷ row 3 30 Status.pending 1 ∷ []
unfolding load_pending_journal pending_rows
load_table = refl

load_pending_journal_lem_example :
    All (IsNext table) (load_pending_journal 1 table)
    × SortedFrom (λ e. e.created_at) 0 (load_pending_journal 1 table)
    × (length (load_pending_journal 1 table) ≤ 1)
load_pending_journal_lem_example = load_pending_journal_lem 1 table

waits : 0 < length (pending_rows table)
unfolding pending_rows
waits = omega arith

retry_failed_all_example :
    ((retry_failed none true table ≡ err none_matched)
      × (count_where (has_status Status.failed) table.rows ≡ 0))
    ⊎ ((u : Journal) × (n : ℕ) × (retry_failed none true table ≡ ok (u, n))
        × (0 < n)
        × AllRetried table u n)
retry_failed_all_example = retry_failed_all none table

retry_failed_one_example :
    (retry_failed none false table ≡ err no_target)
    × (retry_failed (some (negsuc 6)) false table ≡ err id_not_positive)
    × (retry_failed (some (pos 0)) false table ≡ err id_not_positive)
    × (((retry_failed (some (pos 1)) false table ≡ err none_matched)
          × All (λ e. ¬ IsTarget 1 e) table.rows)
        ⊎ ((u : Journal) × (changed : ℕ) × (retry_failed (some (pos 1)) false table
              ≡ ok (u, changed))
            × ((e : JournalEntry) × Mem e table.rows × IsTarget 1 e)
            × OneRetried 1 table.rows u.rows))
retry_failed_one_example = retry_failed_one table 6 0
