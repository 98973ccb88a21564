-- ===== src/Flush/Tests.antt =====
-- The flush loop with one entry that can never be uploaded, and a dirty file.
use proton_sdk_rs.Prelude.{◌≡◌, refl, inr, ◌*◌, true, false, none, [], ◌∷◌, arith, length, All}
use proton_sdk_rs.Prelude.Int.{pos}
use proton_sdk_rs.Db.Journal.{JournalEntry, pending, create_file, pending_rows}
use proton_sdk_rs.Db.Inodes.{InodeRow, new_row, dirty_files}
use proton_sdk_rs.Flush.{Daemon, Outcome, error, flush_round, groups}
use proton_sdk_rs.Flush.Tries.{IsValid}
use proton_sdk_rs.Flush.Order.{joined, IsGroup, groups_lem}
use proton_sdk_rs.Flush.Attempts.{KeepsJournal}
use proton_sdk_rs.Flush.Drain.{IsQuiet, rounds, rounds-drain}
use proton_sdk_rs.Flush.Dirty.{IsCovered, flush_round-covers}

abbrev waiting : JournalEntry
waiting = record {
  id = 1;
  created_at = 5;
  event_type = create_file;
  ino = 7;
  payload = "";
  status = pending;
  error = none;
  retry_count = 2;
}

abbrev file : InodeRow
file = record (new_row 7 1 "notes" none none none false (pos 0)) { dirty = true }

abbrev quiet : Daemon
quiet = record {
  journal = record { rows = waiting ∷ []; next_id = 2 };
  inodes = record { rows = []; next_ino = 8 };
  sync_events = record { rows = []; next_id = 1 };
  calls = [];
  online = true;
  force_offline = false;
  sync_paused = false;
  sync_now = false;
}

abbrev refused : Daemon → JournalEntry → Daemon × Outcome
refused d e = (d, error "offline")

refused-KeepsJournal : KeepsJournal refused
refused-KeepsJournal d e = refl

quiet-IsValid : IsValid quiet.journal
quiet-IsValid = record {
  distinct = (tt, tt);
  below = (omega arith, tt);
  tried = (inr (omega arith), tt);
}

quiet-IsQuiet : IsQuiet quiet
unfolding dirty_files
quiet-IsQuiet = record { flushing = refl; clean = refl }

rounds-drain_example :
    pending_rows
      (rounds refused refused-KeepsJournal
        (λ r. "")
        (11 * length (pending_rows quiet.journal))
        (λ n. n)
        quiet).journal
    ≡ []
rounds-drain_example =
    rounds-drain refused refused-KeepsJournal (λ r. "") (λ n. n) quiet (λ d e q. q) quiet-IsValid
      quiet-IsQuiet

abbrev edited : Daemon
edited = record quiet { inodes = record { rows = file ∷ []; next_ino = 8 } }

flush_round-covers_example :
    All
      (IsCovered (flush_round refused (λ r. "") 9 edited))
      (dirty_files (flush_round refused (λ r. "") 9 edited).inodes)
flush_round-covers_example = flush_round-covers (λ r. "") 9 refused edited refl

groups_lem_example :
    (joined (groups [] (waiting ∷ waiting ∷ [])) ≡ waiting ∷ waiting ∷ [])
    × All IsGroup (groups [] (waiting ∷ waiting ∷ []))
groups_lem_example = groups_lem (waiting ∷ waiting ∷ [])
