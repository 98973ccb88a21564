-- ===== src/Flush/Order.antt =====
-- crates/pdcli/src/fs.rs: the grouping of a round in `journal_flush_loop` and `flush_file_entries`.
use mathlib.Core.List.{append_assoc, append-nil}
use proton_sdk_rs.Prelude.{
  ℕ, zero, suc, ◌≤◌, ◌≡◌, refl, sym, ◌∙◌, ◌⊎◌, inl, inr, true, List, [], ◌∷◌, ◌++◌, arith, length,
  take, drop, take-append-drop, length-drop, length-take, Bool-cases, All, All-append,
}
use proton_sdk_rs.Db.Journal.{JournalEntry}
use proton_sdk_rs.Flush.{
  Daemon, Outcome, chunks, groups, flush_groups, flush_entries, is_file_event,
  file_upload_concurrency,
}

-- The groups of a list of groups, joined.
abbrev pub joined : List (List JournalEntry) → List JournalEntry
joined [] = []
joined (g ∷ gs) = g ++ joined gs

joined-append : (xs ys : List (List JournalEntry)) → joined (xs ++ ys) ≡ joined xs ++ joined ys
joined-append [] ys = refl
joined-append (x ∷ xs) ys = rw (joined-append xs ys) (sym (append_assoc x (joined xs) (joined ys)))

joined-chunks :
    (fuel : ℕ) (es : List JournalEntry) → length es ≤ fuel → joined (chunks fuel es) ≡ es
unfolding chunks
joined-chunks zero [] h = refl
joined-chunks zero (e ∷ es) h = absurd (omega arith)
joined-chunks (suc fuel) [] h = refl
joined-chunks (suc fuel) (e ∷ es) h =
    rw
      (joined-chunks fuel (drop file_upload_concurrency (e ∷ es))
        (omega (arith, length-drop 4 (e ∷ es))))
      (take-append-drop file_upload_concurrency (e ∷ es))

-- The uploads that run side by side are at most four file uploads.
abbrev pub IsGroup : List JournalEntry → Type 0
IsGroup g =
    ((length g ≡ 1) ⊎ All (λ e. is_file_event e.event_type ≡ true) g)
    × (length g ≤ file_upload_concurrency)

abbrev Files : List JournalEntry → Type 0
Files = All (λ e. is_file_event e.event_type ≡ true)

Files-take : (n : ℕ) (es : List JournalEntry) → Files es → Files (take n es)
Files-take zero es h = tt
Files-take (suc n) [] h = h
Files-take (suc n) (e ∷ es) h = (h.0, Files-take n es h.1)

Files-drop : (n : ℕ) (es : List JournalEntry) → Files es → Files (drop n es)
Files-drop zero es h = h
Files-drop (suc n) [] h = h
Files-drop (suc n) (e ∷ es) h = Files-drop n es h.1

chunks-IsGroup : (fuel : ℕ) (es : List JournalEntry) → Files es → All IsGroup (chunks fuel es)
unfolding chunks
chunks-IsGroup zero es h = tt
chunks-IsGroup (suc fuel) [] h = tt
chunks-IsGroup (suc fuel) (e ∷ es) h = (
  (inr (Files-take 4 (e ∷ es) h), omega (arith, length-take 4 (e ∷ es))),
  chunks-IsGroup fuel (drop 4 (e ∷ es)) (Files-drop 4 (e ∷ es) h),
)

joined-groups : (batch es : List JournalEntry) → joined (groups batch es) ≡ batch ++ es
unfolding groups
joined-groups batch [] = joined-chunks (length batch) batch (omega arith) ∙ sym (append-nil batch)
joined-groups batch (e ∷ es) = elim (Bool-cases (is_file_event e.event_type)) [
  | inl file ↦ rw file (joined-groups (batch ++ e ∷ []) es ∙ append_assoc batch (e ∷ []) es)
  | inr plain ↦ rw (
    plain,
    joined-append (chunks (length batch) batch) ((e ∷ []) ∷ groups [] es),
    joined-chunks (length batch) batch (omega arith),
    joined-groups [] es,
  )
]

groups-IsGroup : (batch es : List JournalEntry) → Files batch → All IsGroup (groups batch es)
unfolding groups
groups-IsGroup batch [] h = chunks-IsGroup (length batch) batch h
groups-IsGroup batch (e ∷ es) h = elim (Bool-cases (is_file_event e.event_type)) [
  | inl file ↦ rw file (
      groups-IsGroup (batch ++ e ∷ []) es
        (All-append (λ x. is_file_event x.event_type ≡ true) batch (e ∷ []) h (file, tt)))
  | inr plain ↦ rw plain (
      All-append IsGroup (chunks (length batch) batch) ((e ∷ []) ∷ groups [] es)
        (chunks-IsGroup (length batch) batch h) ((inl refl, omega arith), groups-IsGroup [] es tt))
]

-- A round takes every loaded entry exactly once, in the loaded order, in groups of one entry or of
-- up to four file uploads.
pub groups_lem :
    (es : List JournalEntry) → (joined (groups [] es) ≡ es) × All IsGroup (groups [] es)
groups_lem es = (joined-groups [] es, groups-IsGroup [] es tt)

module _ (process : Daemon → JournalEntry → Daemon × Outcome) where
  flush_entries-append :
      (xs ys : List JournalEntry) (d : Daemon)
      → flush_entries process (xs ++ ys) d ≡ flush_entries process ys (flush_entries process xs d)
  unfolding flush_entries
  flush_entries-append [] ys d = refl
  flush_entries-append (x ∷ xs) ys d = flush_entries-append xs ys _

  pub flush_groups-joined :
      (gs : List (List JournalEntry)) (d : Daemon)
      → flush_groups process gs d ≡ flush_entries process (joined gs) d
  unfolding flush_groups
  flush_groups-joined [] d = refl
  flush_groups-joined (g ∷ gs) d =
      flush_groups-joined gs (flush_entries process g d)
      ∙ sym (flush_entries-append g (joined gs) d)
