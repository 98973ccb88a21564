-- ===== src/Progress/Counters.antt =====
-- transfer_progress.rs: every file is counted once.
use proton_sdk_rs.Prelude.{
  ℕ, ◌+◌, ◌≤◌, ◌≡◌, refl, inl, inr, some, List, [], ◌∷◌, arith, length, Option-cases,
}
use proton_sdk_rs.Progress.{
  Stage, Outcome, transferred, skipped, failed, Job, State, new, lookup, remove, insert, set_totals,
  start, stage, sent, count_outcome, finish, Call, totals, starts, stages, sends, finishes, step,
  run,
}

-- The sizes of the files that are not finished.
abbrev pub open_bytes : List (ℕ × Job) → ℕ
open_bytes [] = 0
open_bytes ((k, j) ∷ js) = j.size + open_bytes js

-- The files and bytes that a call may add to the work.
abbrev pub new_files : List Call → ℕ
new_files [] = 0
new_files (starts id name size ∷ cs) = 1 + new_files cs
new_files (_ ∷ cs) = new_files cs

abbrev pub new_bytes : List Call → ℕ
new_bytes [] = 0
new_bytes (starts id name size ∷ cs) = size + new_bytes cs
new_bytes (_ ∷ cs) = new_bytes cs

length-insert :
    (id : ℕ) (job : Job) (js : List (ℕ × Job)) → length (insert id job js) ≤ length js + 1
length-insert id job [] = omega arith
length-insert id job ((k, j) ∷ js) = ground (arith, length-insert id job js)

-- A stored key is overwritten in its place.
insert_stored :
    (id : ℕ) (old job : Job) (js : List (ℕ × Job))
    → lookup id js ≡ some old
    → (length (insert id job js) ≡ length js)
      × (open_bytes (insert id job js) + old.size ≡ open_bytes js + job.size)
insert_stored id old job [] h = absurd (ground (arith, h))
insert_stored id old job ((k, j) ∷ js) h = ground (arith, h, insert_stored id old job js)

insert_bytes :
    (id : ℕ) (job : Job) (js : List (ℕ × Job))
    → open_bytes (insert id job js) ≤ open_bytes js + job.size
insert_bytes id job [] = omega arith
insert_bytes id job ((k, j) ∷ js) = ground (arith, insert_bytes id job js)

remove_stored :
    (id : ℕ) (old : Job) (js : List (ℕ × Job))
    → lookup id js ≡ some old
    → (length (remove id js) + 1 ≡ length js)
      × (open_bytes (remove id js) + old.size ≡ open_bytes js)
remove_stored id old [] h = absurd (ground (arith, h))
remove_stored id old ((k, j) ∷ js) h = ground (arith, h, remove_stored id old js)

-- What the counters say of each other, where `files` and `bytes` were started at most.
pub record IsBalanced (files bytes : ℕ) (t : State) : Type 0 where
  pub outcomes : t.finished ≡ t.transferred_files + t.skipped + t.failed
  pub counted : t.finished + length t.jobs ≤ files
  pub counted_bytes : t.finished_bytes + open_bytes t.jobs ≤ bytes

insert_stored-IsBalanced :
    (files bytes id : ℕ) (old job : Job) (moved : ℕ) (t : State)
    → lookup id t.jobs ≡ some old
    → job.size ≡ old.size
    → IsBalanced files bytes t
    → IsBalanced files bytes (record t { jobs = insert id job t.jobs; transferred = moved })
insert_stored-IsBalanced files bytes id old job moved t found same v = record {
  outcomes = v.outcomes;
  counted = omega (arith, v.counted, (insert_stored id old job t.jobs found).0);
  counted_bytes = omega (arith, v.counted_bytes, same, (insert_stored id old job t.jobs found).1);
}

stage-IsBalanced :
    (files bytes id : ℕ) (s : Stage) (t : State)
    → IsBalanced files bytes t
    → IsBalanced files bytes (stage id s t)
unfolding stage
stage-IsBalanced files bytes id s t v = elim (Option-cases (lookup id t.jobs)) [
  | inl missing ↦ rw (stage, missing) v
  | inr (job, found) ↦
      rw (stage, found) (insert_stored-IsBalanced files bytes id job _ t.transferred t found refl v)
]

sent-IsBalanced :
    (files bytes id b : ℕ) (t : State)
    → IsBalanced files bytes t
    → IsBalanced files bytes (sent id b t)
unfolding sent
sent-IsBalanced files bytes id b t v = elim (Option-cases (lookup id t.jobs)) [
  | inl missing ↦ rw (sent, missing) v
  | inr (job, found) ↦
      rw (sent, found) (insert_stored-IsBalanced files bytes id job _ _ t found refl v)
]

finished-IsBalanced :
    (files bytes id : ℕ) (o : Outcome) (job : Job) (t : State)
    → lookup id t.jobs ≡ some job
    → IsBalanced files bytes t
    → IsBalanced files bytes (
        count_outcome o (record t {
          jobs = remove id t.jobs;
          finished = t.finished + 1;
          finished_bytes = t.finished_bytes + job.size;
        }))
unfolding count_outcome
finished-IsBalanced files bytes id transferred job t found v =
    let r = remove_stored id job t.jobs found in
    record {
      outcomes = omega (arith, v.outcomes);
      counted = omega (arith, v.counted, r.0);
      counted_bytes = omega (arith, v.counted_bytes, r.1);
    }
finished-IsBalanced files bytes id skipped job t found v =
    let r = remove_stored id job t.jobs found in
    record {
      outcomes = omega (arith, v.outcomes);
      counted = omega (arith, v.counted, r.0);
      counted_bytes = omega (arith, v.counted_bytes, r.1);
    }
finished-IsBalanced files bytes id failed job t found v =
    let r = remove_stored id job t.jobs found in
    record {
      outcomes = omega (arith, v.outcomes);
      counted = omega (arith, v.counted, r.0);
      counted_bytes = omega (arith, v.counted_bytes, r.1);
    }

finish-IsBalanced :
    (files bytes id : ℕ) (o : Outcome) (t : State)
    → IsBalanced files bytes t
    → IsBalanced files bytes (finish id o t)
unfolding finish
finish-IsBalanced files bytes id o t v = elim (Option-cases (lookup id t.jobs)) [
  | inl missing ↦ rw (finish, missing) v
  | inr (job, found) ↦ rw (finish, found) (finished-IsBalanced files bytes id o job t found v)
]

step-IsBalanced :
    (files bytes : ℕ) (c : Call) (t : State)
    → IsBalanced files bytes t
    → IsBalanced (files + new_files (c ∷ [])) (bytes + new_bytes (c ∷ [])) (step c t)
unfolding step set_totals start
step-IsBalanced files bytes (totals f b) t v = record {
  outcomes = v.outcomes;
  counted = omega (arith, v.counted);
  counted_bytes = omega (arith, v.counted_bytes);
}
step-IsBalanced files bytes (starts id name size) t v =
    let job : Job = record { name = name; size = size; sent = 0; stage = Stage.queued } in
    record {
      outcomes = v.outcomes;
      counted = omega (arith, v.counted, length-insert id job t.jobs);
      counted_bytes = omega (arith, v.counted_bytes, insert_bytes id job t.jobs);
    }
step-IsBalanced files bytes (stages id s) t v =
    let w = stage-IsBalanced files bytes id s t v in
    record {
      outcomes = w.outcomes;
      counted = omega (arith, w.counted);
      counted_bytes = omega (arith, w.counted_bytes);
    }
step-IsBalanced files bytes (sends id b) t v =
    let w = sent-IsBalanced files bytes id b t v in
    record {
      outcomes = w.outcomes;
      counted = omega (arith, w.counted);
      counted_bytes = omega (arith, w.counted_bytes);
    }
step-IsBalanced files bytes (finishes id o) t v =
    let w = finish-IsBalanced files bytes id o t v in
    record {
      outcomes = w.outcomes;
      counted = omega (arith, w.counted);
      counted_bytes = omega (arith, w.counted_bytes);
    }

split_files : (c : Call) (cs : List Call) → new_files (c ∷ cs) ≡ new_files (c ∷ []) + new_files cs
split_files (totals f b) cs = omega arith
split_files (starts id name size) cs = omega arith
split_files (stages id s) cs = omega arith
split_files (sends id b) cs = omega arith
split_files (finishes id o) cs = omega arith

split_bytes : (c : Call) (cs : List Call) → new_bytes (c ∷ cs) ≡ new_bytes (c ∷ []) + new_bytes cs
split_bytes (totals f b) cs = omega arith
split_bytes (starts id name size) cs = omega arith
split_bytes (stages id s) cs = omega arith
split_bytes (sends id b) cs = omega arith
split_bytes (finishes id o) cs = omega arith

run_from :
    (cs : List Call) (files bytes : ℕ) (t : State)
    → IsBalanced files bytes t
    → IsBalanced (files + new_files cs) (bytes + new_bytes cs) (run cs t)
unfolding run
run_from [] files bytes t v = record {
  outcomes = v.outcomes;
  counted = omega (arith, v.counted);
  counted_bytes = omega (arith, v.counted_bytes);
}
run_from (c ∷ cs) files bytes t v =
    let w = run_from cs _ _ (step c t) (step-IsBalanced files bytes c t v) in
    record {
      outcomes = w.outcomes;
      counted = omega (arith, w.counted, split_files c cs);
      counted_bytes = omega (arith, w.counted_bytes, split_bytes c cs);
    }

-- After any calls on a new display: the finished files are those transferred, skipped and failed,
-- and the finished and open files, and their bytes, are no more than were started.
pub run-new-IsBalanced : (cs : List Call) → IsBalanced (new_files cs) (new_bytes cs) (run cs new)
run-new-IsBalanced cs =
    let w =
      run_from cs 0 0 new
        (record { outcomes = omega arith; counted = omega arith; counted_bytes = omega arith }) in
    record {
      outcomes = w.outcomes;
      counted = omega (arith, w.counted);
      counted_bytes = omega (arith, w.counted_bytes);
    }
