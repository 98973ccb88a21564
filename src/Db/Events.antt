-- ===== src/Db/Events.antt =====
-- crates/pdcli/src/db.rs: the `event_cursors` and `sync_events` tables of `FuseDb`.
pub mod Cursors
mod Tests
use text.Mathlib.Text.{◌==◌ as str_eq}
use proton_sdk_rs.Prelude.{
  ℕ, suc, ◌+◌, ◌≤◌, ◌<◌, String, Bool, true, false, not, ◌&&◌, ◌||◌, Option, none, some, List, [],
  ◌∷◌, ◌++◌, take, ltb, ◌==◌, if◌then◌else◌, delete_where, count_where, sort_by,
}

-- A row of `event_cursors`: the scope and its event id.
abbrev pub Cursors : Type 0
Cursors = List (String × String)

unfoldable pub get_event_cursor : String → Cursors → Option String
get_event_cursor scope [] = none
get_event_cursor scope ((k, event_id) ∷ c) =
    let rest = get_event_cursor scope c in if str_eq k scope then some event_id else rest

-- INSERT OR REPLACE: the old row of the scope is deleted.
unfoldable pub set_event_cursor : String → String → Cursors → Cursors
set_event_cursor scope event_id c = delete_where (λ e. str_eq e.0 scope) c ++ (scope, event_id) ∷ []

pub record SyncEvent : Type 0 where
  pub id : ℕ
  pub created_at : ℕ
  pub source : String
  pub event_type : String
  pub name : Option String
  pub detail : Option String

-- The rows in rowid order, and the next AUTOINCREMENT id.
pub record SyncEvents : Type 0 where
  pub rows : List SyncEvent
  pub next_id : ℕ

-- ORDER BY created_at DESC, id DESC
abbrev pub newer : SyncEvent → SyncEvent → Bool
newer a b = ltb b.created_at a.created_at || (a.created_at == b.created_at && not (ltb a.id b.id))

unfoldable pub recent_sync_events : ℕ → SyncEvents → List SyncEvent
recent_sync_events limit t = take limit (sort_by newer t.rows)

abbrev pub kept_sync_events : ℕ
kept_sync_events = 100

abbrev is_in : List SyncEvent → SyncEvent → Bool
is_in rs e = ltb 0 (count_where (λ r. r.id == e.id) rs)

unfoldable pub record_sync_event :
    String → String → Option String → Option String → ℕ → SyncEvents → SyncEvents
unfolding recent_sync_events
record_sync_event source event_type name detail now t =
    let inserted : SyncEvents = record {
      rows =
          t.rows
          ++ record {
            id = t.next_id;
            created_at = now;
            source = source;
            event_type = event_type;
            name = name;
            detail = detail;
          }
            ∷ [];
      next_id = t.next_id + 1;
    } in
    record inserted {
      rows =
          delete_where (λ e. not (is_in (recent_sync_events kept_sync_events inserted) e))
            inserted.rows;
    }
