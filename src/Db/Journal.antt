-- ===== src/Db/Journal.antt =====
-- crates/pdcli/src/db.rs: the `journal` table of `FuseDb`. The status column holds one of the three
-- words that the program writes. Times and counts are not negative.
pub mod Loading
pub mod Retrying
mod Tests
use text.Mathlib.Text.{◌==◌ as str_eq}
use proton_sdk_rs.Prelude.{
  ℕ, suc, ◌+◌, ◌≤◌, ◌<◌, ◌≡◌, String, Bool, true, false, ◌&&◌, ◌||◌, Option, none, some, List, [],
  ◌∷◌, ◌++◌, length, take, ltb, ◌==◌, if◌then◌else◌, select_where, delete_where, update_where,
  count_where, order_by, min_of, map,
}
use proton_sdk_rs.Prelude.Int.{ℤ, pos, negsuc, ltb_ℤ}

pub data Status : Type 0 where
  pending failed done : Status

pub data EventType : Type 0 where
  create_folder create_file update_revision rename move delete : EventType
  other : String → EventType

pub record JournalEntry : Type 0 where
  pub id : ℕ
  pub created_at : ℕ
  pub event_type : EventType
  pub ino : ℕ
  pub payload : String
  pub status : Status
  pub error : Option String
  pub retry_count : ℕ

-- The rows in rowid order, and the next AUTOINCREMENT id.
pub record Journal : Type 0 where
  pub rows : List JournalEntry
  pub next_id : ℕ

abbrev pub status_eq : Status → Status → Bool
status_eq pending pending = true
status_eq failed failed = true
status_eq done done = true
status_eq _ _ = false

abbrev pub has_status : Status → JournalEntry → Bool
has_status s e = status_eq e.status s

abbrev pub has_id : ℕ → JournalEntry → Bool
has_id id e = e.id == id

unfoldable pub enqueue_journal : EventType → ℕ → String → ℕ → Journal → Journal × ℕ
enqueue_journal event_type ino payload now t = (
  record {
    rows =
        t.rows
        ++ record {
          id = t.next_id;
          created_at = now;
          event_type = event_type;
          ino = ino;
          payload = payload;
          status = pending;
          error = none;
          retry_count = 0;
        }
          ∷ [];
    next_id = t.next_id + 1;
  },
  t.next_id,
)

-- `retry_count = (SELECT MIN(retry_count) …)`: no row fits the NULL of an empty table.
abbrev pub retry_is : Option ℕ → JournalEntry → Bool
retry_is none e = false
retry_is (some n) e = e.retry_count == n

unfoldable pub pending_rows : Journal → List JournalEntry
pending_rows t = select_where (has_status pending) t.rows

unfoldable pub load_pending_journal : ℕ → Journal → List JournalEntry
unfolding pending_rows
load_pending_journal limit t =
    let least = min_of (λ e. e.retry_count) (pending_rows t) in
    take limit (order_by (λ e. e.created_at) (select_where (retry_is least) (pending_rows t)))

unfoldable pub update_journal_status : ℕ → Status → Option String → Journal → Journal
update_journal_status id status error t = record t {
  rows =
      update_where (has_id id)
        (λ e. record e { status = status; error = error; retry_count = e.retry_count + 1 }) t.rows;
}

unfoldable pub delete_completed_journal : Journal → Journal × ℕ
delete_completed_journal t = (
  record t { rows = delete_where (has_status done) t.rows },
  count_where (has_status done) t.rows,
)

unfoldable pub has_pending_journal : ℕ → Journal → Bool
has_pending_journal ino t = ltb 0 (count_where (λ e. e.ino == ino && has_status pending e) t.rows)

pub record JournalStatusEntry : Type 0 where
  pub id : ℕ
  pub created_at : ℕ
  pub event_type : EventType
  pub status : Status
  pub error : Option String
  pub retry_count : ℕ

pub record JournalSummary : Type 0 where
  pub pending : ℕ
  pub failed : ℕ
  pub entries : List JournalStatusEntry

status_entry : JournalEntry → JournalStatusEntry
status_entry e = record {
  id = e.id;
  created_at = e.created_at;
  event_type = e.event_type;
  status = e.status;
  error = e.error;
  retry_count = e.retry_count;
}

unfoldable pub journal_summary : ℕ → Journal → JournalSummary
unfolding status_entry
journal_summary limit t = record {
  pending = count_where (has_status Status.pending) t.rows;
  failed = count_where (has_status Status.failed) t.rows;
  entries = map status_entry (
      take limit (
        order_by (λ e. e.created_at)
          (select_where (λ e. has_status Status.pending e || has_status Status.failed e) t.rows)));
}

pub data RetryError : Type 0 where
  no_target id_not_positive none_matched : RetryError

pub data Result {ℓ} (A : Type ℓ) : Type ℓ where
  ok : A → Result A
  err : RetryError → Result A

abbrev pub reset : JournalEntry → JournalEntry
reset e = record e { status = pending; error = none; retry_count = 0 }

-- The two UPDATE statements: the new table and the number of changed rows.
retry_where : (JournalEntry → Bool) → Journal → Result (Journal × ℕ)
retry_where p t =
    let changed = count_where p t.rows in
    if ltb 0 changed
    then ok (record t { rows = update_where p reset t.rows }, changed)
    else err none_matched

abbrev pub is_row : ℤ → JournalEntry → Bool
is_row (pos id) e = has_id id e
is_row (negsuc n) e = false

retry_one : Option ℤ → Journal → Result (Journal × ℕ)
unfolding retry_where
retry_one none t = err no_target
retry_one (some id) t =
    if ltb_ℤ (pos 0) id
    then retry_where (λ e. is_row id e && has_status failed e) t
    else err id_not_positive

unfoldable pub retry_failed : Option ℤ → Bool → Journal → Result (Journal × ℕ)
unfolding retry_one retry_where
retry_failed id true t = retry_where (has_status failed) t
retry_failed id false t = retry_one id t
