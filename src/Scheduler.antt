-- ===== src/Scheduler.antt =====
-- crates/proton-drive-sdk/src/event_scheduler.rs: which scopes are polled, and how often. The channel
-- of a scope is the list of the commands sent to it; the map of scopes is a list of them in the
-- order in which they were added.
pub mod Foreground
mod Tests
use text.Mathlib.Text.{◌==◌ as str_eq}
use proton_sdk_rs.Prelude.{
  ℕ, ◌≡◌, String, Bool, true, false, not, ◌&&◌, ◌||◌, Option, none, some, List, [], ◌∷◌, ◌++◌, ltb,
  if◌then◌else◌, count_where, first_where, update_where, delete_where,
}

pub data Command : Type 0 where
  poll_now reschedule : Command

pub record Scope : Type 0 where
  pub id : String
  pub is_own_volume : Bool
  pub is_foreground : Bool
  pub commands : List Command

pub record EventScheduler : Type 0 where
  pub own_volume_id : String
  pub scopes : List Scope

unfoldable pub new : String → EventScheduler
new own_volume_id = record { own_volume_id = own_volume_id; scopes = [] }

abbrev pub has_key : String → Scope → Bool
has_key id s = str_eq s.id id

unfoldable pub add_scope : String → EventScheduler → EventScheduler
add_scope id t =
    let is_own_volume = str_eq id t.own_volume_id in
    if ltb 0 (count_where (has_key id) t.scopes) then t else record t {
      scopes =
          t.scopes
          ++ record {
            id = id;
            is_own_volume = is_own_volume;
            is_foreground = is_own_volume;
            commands = [];
          }
            ∷ [];
    }

-- A shared scope that is in the foreground.
abbrev pub is_raised : Scope → Bool
is_raised s = not s.is_own_volume && s.is_foreground

abbrev pub lower : Scope → Scope
lower s = record s { is_foreground = false; commands = s.commands ++ reschedule ∷ [] }

abbrev pub raise : Scope → Scope
raise s = record s { is_foreground = true; commands = s.commands ++ poll_now ∷ [] }

abbrev get : String → EventScheduler → Option Scope
get id t = first_where (has_key id) t.scopes

unfoldable pub set_foreground : String → EventScheduler → EventScheduler
set_foreground id t = elim (get id t) [
  | none ↦ t
  | some scope ↦ if scope.is_own_volume || scope.is_foreground then t else record t {
    scopes = update_where (has_key id) raise (update_where is_raised lower t.scopes);
  }
]

unfoldable pub set_background : String → EventScheduler → EventScheduler
set_background id t = elim (get id t) [
  | none ↦ t
  | some scope ↦
      if scope.is_own_volume || not scope.is_foreground
      then t
      else record t { scopes = update_where (has_key id) lower t.scopes }
]

unfoldable pub remove_scope : String → EventScheduler → EventScheduler
remove_scope id t = record t { scopes = delete_where (has_key id) t.scopes }

pub data Call : Type 0 where
  adds foregrounds backgrounds removes : String → Call

unfoldable pub step : EventScheduler → Call → EventScheduler
unfolding add_scope set_foreground set_background remove_scope
step t (adds id) = add_scope id t
step t (foregrounds id) = set_foreground id t
step t (backgrounds id) = set_background id t
step t (removes id) = remove_scope id t

unfoldable pub run : EventScheduler → List Call → EventScheduler
unfolding step
run t [] = t
run t (c ∷ cs) = run (step t c) cs

-- Seconds, without the jitter of up to a second.
abbrev pub foreground_polling_interval : ℕ
foreground_polling_interval = 30

abbrev pub background_polling_interval : ℕ
background_polling_interval = 600

-- What ends the sleep of `poll_loop`: the timer, a command, or the closed channel.
pub data Wake : Type 0 where
  timer closed : Wake
  command : Command → Wake

abbrev interval : Bool → ℕ
interval is_foreground =
    if is_foreground then foreground_polling_interval else background_polling_interval

-- `poll` after the wake-up; `none`: the task returns.
unfoldable pub poll_next : Wake → Option Bool
poll_next timer = some true
poll_next closed = none
poll_next (command poll_now) = some true
poll_next (command reschedule) = some false

pub record Round : Type 0 where
  pub polled : Bool
  pub delay : ℕ

-- The rounds of the loop, from the flag that each reads and what ends its sleep.
unfoldable pub poll_loop : Bool → List (Bool × Wake) → List Round
unfolding poll_next
poll_loop poll [] = []
poll_loop poll ((is_foreground, wake) ∷ rest) =
    let later = poll_loop true rest in
    let quiet = poll_loop false rest in
    record { polled = poll; delay = interval is_foreground }
    ∷ elim (poll_next wake) [ none ↦ [] | some next ↦ if next then later else quiet ]
