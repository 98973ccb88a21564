-- ===== src/Progress.antt =====
-- crates/pdcli/src/transfer_progress.rs: the counters of `TransferProgress`. The jobs are the map as a
-- list of keys and values; drawing and the rate are left out.
pub mod Counters
mod Tests
use proton_sdk_rs.Prelude.{
  ℕ, zero, suc, ◌+◌, ◌-◌, String, Bool, true, false, Option, none, some, List, [], ◌∷◌, ◌==◌,
  if◌then◌else◌,
}

pub data Stage : Type 0 where
  hashing checking queued uploading downloading : Stage
  retrying : ℕ → Stage

pub data Outcome : Type 0 where
  transferred skipped failed : Outcome

pub record Job : Type 0 where
  pub name : String
  pub size : ℕ
  pub sent : ℕ
  pub stage : Stage

pub record State : Type 0 where
  pub jobs : List (ℕ × Job)
  pub total_files : ℕ
  pub total_bytes : ℕ
  pub finished : ℕ
  pub transferred_files : ℕ
  pub skipped : ℕ
  pub failed : ℕ
  pub finished_bytes : ℕ
  pub transferred : ℕ

abbrev pub new : State
new = record {
  jobs = [];
  total_files = 0;
  total_bytes = 0;
  finished = 0;
  transferred_files = 0;
  skipped = 0;
  failed = 0;
  finished_bytes = 0;
  transferred = 0;
}

abbrev pub lookup : ℕ → List (ℕ × Job) → Option Job
lookup id [] = none
lookup id ((k, j) ∷ js) = let rest = lookup id js in if k == id then some j else rest

abbrev pub remove : ℕ → List (ℕ × Job) → List (ℕ × Job)
remove id [] = []
remove id ((k, j) ∷ js) = let rest = remove id js in if k == id then js else (k, j) ∷ rest

-- `insert` replaces the value of a stored key.
abbrev pub insert : ℕ → Job → List (ℕ × Job) → List (ℕ × Job)
insert id job [] = (id, job) ∷ []
insert id job ((k, j) ∷ js) =
    let rest = insert id job js in if k == id then (k, job) ∷ js else (k, j) ∷ rest

unfoldable pub set_totals : ℕ → ℕ → State → State
set_totals files bytes t = record t { total_files = files; total_bytes = bytes }

unfoldable pub start : ℕ → String → ℕ → State → State
start id name size t = record t {
  jobs = insert id (record { name = name; size = size; sent = 0; stage = queued }) t.jobs;
}

abbrev is_hashing : Stage → Bool
is_hashing hashing = true
is_hashing _ = false

unfoldable pub stage : ℕ → Stage → State → State
stage id s t = elim (lookup id t.jobs) [
  | none ↦ t
  | some job ↦
      let sent = if is_hashing s then 0 else job.sent in
      record t { jobs = insert id (record job { stage = s; sent = sent }) t.jobs }
]

unfoldable pub sent : ℕ → ℕ → State → State
sent id bytes t = elim (lookup id t.jobs) [
  | none ↦ t
  | some job ↦ record t {
    jobs = insert id (record job { sent = bytes }) t.jobs;
    transferred = t.transferred + (bytes - job.sent);
  }
]

unfoldable pub count_outcome : Outcome → State → State
count_outcome transferred t = record t { transferred_files = t.transferred_files + 1 }
count_outcome skipped t = record t { skipped = t.skipped + 1 }
count_outcome failed t = record t { failed = t.failed + 1 }

unfoldable pub finish : ℕ → Outcome → State → State
unfolding count_outcome
finish id outcome t = elim (lookup id t.jobs) [
  | none ↦ t
  | some job ↦ count_outcome outcome (record t {
    jobs = remove id t.jobs;
    finished = t.finished + 1;
    finished_bytes = t.finished_bytes + job.size;
  })
]

pub data Call : Type 0 where
  totals : ℕ → ℕ → Call
  starts : ℕ → String → ℕ → Call
  stages : ℕ → Stage → Call
  sends : ℕ → ℕ → Call
  finishes : ℕ → Outcome → Call

unfoldable pub step : Call → State → State
unfolding set_totals start stage sent finish
step (totals files bytes) t = set_totals files bytes t
step (starts id name size) t = start id name size t
step (stages id s) t = stage id s t
step (sends id bytes) t = sent id bytes t
step (finishes id outcome) t = finish id outcome t

unfoldable pub run : List Call → State → State
unfolding step
run [] t = t
run (c ∷ cs) t = run cs (step c t)
