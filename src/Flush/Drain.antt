-- ===== src/Flush/Drain.antt =====
-- crates/pdcli/src/fs.rs: the journal empties. Each round of `journal_flush_loop` uses up an attempt
-- of every loaded entry, and no entry is given more than eleven.
use proton_sdk_rs.Prelude.{
  ◌*◌, ℕ, zero, suc, ◌+◌, ◌≤◌, ◌<◌, ◌≡◌, ap, ◌∙◌, true, false, List, [], ◌∷◌, arith, length,
  select_where, String,
}
use proton_sdk_rs.Db.Journal.{
  Journal, JournalEntry, pending, has_status, pending_rows, load_pending_journal,
  delete_completed_journal,
}
use proton_sdk_rs.Db.Journal.Loading.{load_pending_journal_nonempty}
use proton_sdk_rs.Db.Inodes.{InodeRow, dirty_files}
use proton_sdk_rs.Flush.{
  Daemon, Outcome, flush_entries, flush_groups, groups, flush_round, sweep, enqueue_dirty_uploads,
  can_flush, page,
}
use proton_sdk_rs.Flush.Tries.{IsValid, tries_left}
use proton_sdk_rs.Flush.Stored.{load-IsWaiting, load-DistinctIds}
use proton_sdk_rs.Flush.Order.{joined, groups_lem, flush_groups-joined}
use proton_sdk_rs.Flush.Attempts.{
  KeepsJournal, flush_entries_lem, delete_completed-tries, delete_completed-IsValid, waiting-tries,
  tries-waiting,
}

-- What the daemon does while nobody edits a file: switches stay on, and no file is dirty.
pub record IsQuiet (d : Daemon) : Type 0 where
  pub flushing : can_flush d ≡ true
  pub clean : dirty_files d.inodes ≡ []

waiting_loaded :
    (t : Journal)
    → 0 < length (select_where (has_status pending) t.rows)
    → 0 < length (load_pending_journal page t)
unfolding pending_rows
waiting_loaded t h = load_pending_journal_nonempty page t (omega arith) h

module _ (process : Daemon → JournalEntry → Daemon × Outcome) (keeps : KeepsJournal process) where
  -- On a valid journal, whatever the results: what `journal_flush_loop` does to the loaded entries
  -- of a round and the removal of finished rows keep the journal valid, and the attempts that are
  -- left over all waiting entries fall by at least the number of entries loaded.
  pub sweep_lem :
      (d : Daemon)
      → IsValid d.journal
      → IsValid (sweep process d).journal
        × (tries_left (sweep process d).journal.rows + length (load_pending_journal page d.journal)
            ≤ tries_left d.journal.rows)
  unfolding sweep delete_completed_journal
  sweep_lem d v =
      let es = load_pending_journal page d.journal in
      let sent = flush_groups process (groups [] es) d in
      let flat : sent ≡ flush_entries process es d =
        flush_groups-joined process (groups [] es) d
        ∙ ap (λ l. flush_entries process l d) (groups_lem es).0 in
      let done_all =
        flush_entries_lem process keeps es d v (load-DistinctIds page d.journal v.distinct)
          (load-IsWaiting page d.journal v.distinct) in
      rw flat (
        delete_completed-IsValid _ done_all.0,
        omega (arith, done_all.1, delete_completed-tries (flush_entries process es d).journal.rows),
      )

  -- The rounds of the loop, each at its own time.
  pub rounds : (InodeRow → String) → ℕ → (ℕ → ℕ) → Daemon → Daemon
  rounds render zero clock d = d
  rounds render (suc n) clock d = rounds render n clock (flush_round process render (clock n) d)

  quiet_round :
      (render : InodeRow → String) (now : ℕ) (d : Daemon)
      → IsQuiet d
      → dirty_files (sweep process (record d { sync_now = false })).inodes ≡ []
      → flush_round process render now d ≡ sweep process (record d { sync_now = false })
  unfolding flush_round enqueue_dirty_uploads
  quiet_round render now d q clean = rw (q.flushing, clean, enqueue_dirty_uploads)

  IsQuiet-entries :
      (es : List JournalEntry) (d : Daemon)
      → ((e : Daemon) (x : JournalEntry) → IsQuiet e → IsQuiet (process e x).0)
      → IsQuiet d
      → IsQuiet (flush_entries process es d)
  unfolding flush_entries
  IsQuiet-entries [] d stays q = q
  IsQuiet-entries (e ∷ es) d stays q =
      let one = stays d e q in
      IsQuiet-entries es _ stays (record { flushing = one.flushing; clean = one.clean })

  IsQuiet-sweep :
      (d : Daemon)
      → ((e : Daemon) (x : JournalEntry) → IsQuiet e → IsQuiet (process e x).0)
      → IsQuiet d
      → IsQuiet (sweep process d)
  unfolding sweep
  IsQuiet-sweep d stays q =
      let es = load_pending_journal page d.journal in
      let one = IsQuiet-entries (joined (groups [] es)) d stays q in
      rw (flush_groups-joined process (groups [] es) d)
        (record { flushing = one.flushing; clean = one.clean })

  -- One round from a quiet daemon uses up an attempt, if an entry waits.
  quiet_round_lem :
      (render : InodeRow → String) (n now : ℕ) (d : Daemon)
      → ((e : Daemon) (x : JournalEntry) → IsQuiet e → IsQuiet (process e x).0)
      → IsValid d.journal
      → IsQuiet d
      → tries_left d.journal.rows ≤ suc n
      → IsValid (flush_round process render now d).journal
        × IsQuiet (flush_round process render now d)
        × (tries_left (flush_round process render now d).journal.rows ≤ n)
  quiet_round_lem render n now d stays v q h =
      let woken = record d { sync_now = false } in
      let calm = IsQuiet-sweep woken stays (record { flushing = q.flushing; clean = q.clean }) in
      let lem = sweep_lem woken v in
      rw (quiet_round render now d q calm.clean) (lem.0, calm, fewer lem.1)
    where
      fewer :
          tries_left (sweep process (record d { sync_now = false })).journal.rows
              + length (load_pending_journal page d.journal)
            ≤ tries_left d.journal.rows
          → tries_left (sweep process (record d { sync_now = false })).journal.rows ≤ n
      fewer l = ground (arith, l, tries-waiting d.journal.rows, waiting_loaded d.journal)

  drained :
      (render : InodeRow → String) (n : ℕ) (clock : ℕ → ℕ) (d : Daemon)
      → ((e : Daemon) (x : JournalEntry) → IsQuiet e → IsQuiet (process e x).0)
      → IsValid d.journal
      → IsQuiet d
      → tries_left d.journal.rows ≤ n
      → pending_rows (rounds render n clock d).journal ≡ []
  unfolding rounds pending_rows
  drained render zero clock d stays v q h = ground (arith, waiting-tries d.journal.rows v.tried)
  drained render (suc n) clock d stays v q h =
      let one = quiet_round_lem render n (clock n) d stays v q h in
      drained render n clock (flush_round process render (clock n) d) stays one.0 one.1 one.2

  -- With the switches on and no dirty file, which the work on an entry does not change, and from a
  -- valid journal: after eleven rounds for each entry that waits no entry waits, whatever the
  -- results of the work and whenever the rounds are made.
  pub rounds-drain :
      (render : InodeRow → String) (clock : ℕ → ℕ) (d : Daemon)
      → ((e : Daemon) (x : JournalEntry) → IsQuiet e → IsQuiet (process e x).0)
      → IsValid d.journal
      → IsQuiet d
      → pending_rows (rounds render (11 * length (pending_rows d.journal)) clock d).journal ≡ []
  unfolding pending_rows
  rounds-drain render clock d stays v q =
      drained render _ clock d stays v q (tries-waiting d.journal.rows)
