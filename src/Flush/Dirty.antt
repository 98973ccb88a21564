-- ===== src/Flush/Dirty.antt =====
-- crates/pdcli/src/fs.rs: no dirty file is forgotten by `journal_flush_loop`, nor let go after an
-- upload that failed for good.
use proton_sdk_rs.Prelude.{
  ℕ, ◌+◌, ◌≡◌, refl, ◌∙◌, ◌⊎◌, inl, inr, String, Bool, true, false, ◌&&◌, none, some, List, [], ◌∷◌,
  ◌++◌, arith, ◌==◌, if◌then◌else◌, Bool-cases, Option-cases, All, count_where,
}
use proton_sdk_rs.Db.Journal.{
  JournalEntry, EventType, pending, has_status, enqueue_journal, has_pending_journal,
}
use proton_sdk_rs.Db.Inodes.{InodeRow, dirty_files}
use proton_sdk_rs.Flush.{
  Daemon, Outcome, enqueue_journal_and_wake, enqueue_dirty_upload, enqueue_dirty_uploads,
  dirty_event, flush_round, sweep, can_flush,
}

count-append :
    (p : JournalEntry → Bool) (rs : List JournalEntry) (e : JournalEntry)
    → count_where p (rs ++ e ∷ []) ≡ count_where p rs + (if p e then 1 else 0)
count-append p [] e = ground arith
count-append p (r ∷ rs) e = ground (arith, count-append p rs e)

abbrev queued : EventType → ℕ → String → ℕ → Daemon → JournalEntry
queued event_type ino payload now d = record {
  id = d.journal.next_id;
  created_at = now;
  event_type = event_type;
  ino = ino;
  payload = payload;
  status = pending;
  error = none;
  retry_count = 0;
}

-- The row has a node, of which no revision is known.
abbrev pub IsPutOff : InodeRow → Type 0
IsPutOff row = ((uid : String) × (row.node_uid ≡ some uid)) × (row.revision_uid ≡ none)

-- A dirty file is taken care of: an entry for it waits, or its upload is put off.
abbrev pub IsCovered : Daemon → InodeRow → Type 0
IsCovered d row = IsPutOff row ⊎ (has_pending_journal row.ino d.journal ≡ true)

dirty_event-IsPutOff : (row : InodeRow) → dirty_event row ≡ none → IsPutOff row
dirty_event-IsPutOff row h = elim (Option-cases row.node_uid) [
  | inl fresh ↦ absurd (ground (arith, h, fresh))
  | inr (uid, known) ↦ elim (Option-cases row.revision_uid) [
    | inl unknown ↦ ((uid, known), unknown)
    | inr (revision, listed) ↦ absurd (ground (arith, h, known, listed))
  ]
]

module _ (render : InodeRow → String) (now : ℕ) where
  enqueue-keeps :
      (event_type : EventType) (ino other : ℕ) (payload : String) (d : Daemon)
      → has_pending_journal other d.journal ≡ true
      → has_pending_journal other (enqueue_journal_and_wake event_type ino payload now d).journal
        ≡ true
  unfolding has_pending_journal enqueue_journal_and_wake enqueue_journal
  enqueue-keeps event_type ino other payload d h = ground (
    arith,
    h,
    count-append (λ e. e.ino == other && has_status pending e) d.journal.rows
        (queued event_type ino payload now d),
  )

  enqueue-adds :
      (event_type : EventType) (ino : ℕ) (payload : String) (d : Daemon)
      → has_pending_journal ino (enqueue_journal_and_wake event_type ino payload now d).journal
        ≡ true
  unfolding has_pending_journal enqueue_journal_and_wake enqueue_journal
  enqueue-adds event_type ino payload d = ground (
    arith,
    count-append (λ e. e.ino == ino && has_status pending e) d.journal.rows
        (queued event_type ino payload now d),
  )

  upload-covers :
      (row : InodeRow) (d : Daemon) → IsCovered (enqueue_dirty_upload render now row d) row
  unfolding enqueue_dirty_upload
  upload-covers row d = elim (Bool-cases (has_pending_journal row.ino d.journal)) [
    | inl waits ↦ rw waits (inr waits)
    | inr free ↦ rw free (elim (Option-cases (dirty_event row)) [
      | inl later ↦ inl (dirty_event-IsPutOff row later)
      | inr (event, e) ↦ inr (ground (arith, e, enqueue-adds event row.ino (render row) d))
    ])
  ]

  upload-keeps :
      (row other : InodeRow) (d : Daemon)
      → IsCovered d other
      → IsCovered (enqueue_dirty_upload render now row d) other
  unfolding enqueue_dirty_upload
  upload-keeps row other d (inl later) = inl later
  upload-keeps row other d (inr waits) =
      inr (elim (Bool-cases (has_pending_journal row.ino d.journal)) [
        | inl has ↦ rw has waits
        | inr free ↦ rw free (elim (Option-cases (dirty_event row)) [
          | inl later ↦ ground (arith, later, waits)
          | inr (event, e) ↦
              ground (arith, e, enqueue-keeps event row.ino other.ino (render row) d waits)
        ])
      ])

  uploads-keep :
      (rows : List InodeRow) (other : InodeRow) (d : Daemon)
      → IsCovered d other
      → IsCovered (enqueue_dirty_uploads render now rows d) other
  unfolding enqueue_dirty_uploads
  uploads-keep [] other d c = c
  uploads-keep (row ∷ rows) other d c = uploads-keep rows other _ (upload-keeps row other d c)

  uploads-cover :
      (rows : List InodeRow) (d : Daemon)
      → All (IsCovered (enqueue_dirty_uploads render now rows d)) rows
  unfolding enqueue_dirty_uploads
  uploads-cover [] d = tt
  uploads-cover (row ∷ rows) d =
      (uploads-keep rows row _ (upload-covers row d), uploads-cover rows _)

  upload-inodes :
      (row : InodeRow) (d : Daemon) → (enqueue_dirty_upload render now row d).inodes ≡ d.inodes
  unfolding enqueue_dirty_upload enqueue_journal_and_wake
  upload-inodes row d = elim (Bool-cases (has_pending_journal row.ino d.journal)) [
    | inl has ↦ rw has
    | inr free ↦ rw free (elim (Option-cases (dirty_event row)) [
      | inl later ↦ ground (arith, later)
      | inr (event, e) ↦ ground (arith, e)
    ])
  ]

  uploads-inodes :
      (rows : List InodeRow) (d : Daemon)
      → (enqueue_dirty_uploads render now rows d).inodes ≡ d.inodes
  unfolding enqueue_dirty_uploads
  uploads-inodes [] d = refl
  uploads-inodes (row ∷ rows) d = uploads-inodes rows _ ∙ upload-inodes row d

  -- After any round that may flush, whatever the work on the entries did and whichever of them
  -- failed for good: every file that is dirty then has an entry that waits, unless it has a node
  -- but no known revision.
  pub flush_round-covers :
      (process : Daemon → JournalEntry → Daemon × Outcome) (d : Daemon)
      → can_flush d ≡ true
      → let after = flush_round process render now d in
        All (IsCovered after) (dirty_files after.inodes)
  unfolding flush_round
  flush_round-covers process d on =
      let swept = sweep process (record d { sync_now = false }) in
      rw (on, uploads-inodes (dirty_files swept.inodes) swept)
        (uploads-cover (dirty_files swept.inodes) swept)
