-- ===== src/Remote.antt =====
-- crates/pdcli/src/fs.rs: the loop that polls the volume for remote events, and what an event does to
-- the tables. The answers of the SDK are parameters; waits are left out. A file that is removed from
-- the cache directory is added to a list of paths.
pub mod Trees
pub mod Gone
pub mod Removed
pub mod Polls
pub mod History
pub mod Unlisted
pub mod Arrived
pub mod Listing
pub mod Stale
mod Tests
use proton_sdk_rs.Prelude.{
  ℕ, zero, suc, String, Bool, true, false, not, ◌&&◌, ◌||◌, Option, none, some, List, [], ◌∷◌, ◌++◌,
  if◌then◌else◌,
}
use proton_sdk_rs.Prelude.Int.{ℤ, pos, negsuc}
use proton_sdk_rs.Db.Inodes.{InodeRow, Inodes, M, find_by_link_id}
use proton_sdk_rs.Db.Inodes.Updates.{
  list_children, delete_inode, set_cached_path, clear_children_populated,
}
use proton_sdk_rs.Db.Events.{Cursors, get_event_cursor, set_event_cursor, record_sync_event}
use proton_sdk_rs.Flush.{Daemon}

pub data VolumeEventType : Type 0 where
  delete create update_metadata update_content : VolumeEventType

abbrev pub of_code : ℕ → Option VolumeEventType
of_code zero = some delete
of_code (suc zero) = some create
of_code (suc (suc zero)) = some update_metadata
of_code (suc (suc (suc zero))) = some update_content
of_code (suc (suc (suc (suc n)))) = none

unfoldable pub from_raw : ℤ → Option VolumeEventType
from_raw (pos n) = of_code n
from_raw (negsuc n) = none

-- `VolumeEventDto` with its link
pub record VolumeEvent : Type 0 where
  pub event_type : ℤ
  pub link_id : String
  pub parent_link_id : Option String
  pub is_trashed : Bool

pub record VolumeEventsResponse : Type 0 where
  pub event_id : String
  pub more : Bool
  pub events : List VolumeEvent

pub record World : Type 0 where
  pub daemon : Daemon
  pub cursors : Cursors
  pub removed_files : List String

abbrev pub rows_of : World → List InodeRow
rows_of w = w.daemon.inodes.rows

-- `let _ = db.method(…)`
abbrev pub write : {A : Type 0} → M A → World → World
write m w = record w { daemon = record w.daemon { inodes = (m w.daemon.inodes).0 } }

abbrev pub remove_cached : Option String → World → World
remove_cached none w = w
remove_cached (some path) w = record w { removed_files = w.removed_files ++ path ∷ [] }

abbrev pub and_then : Option World → (World → Option World) → Option World
and_then none f = none
and_then (some w) f = f w

-- The loop over the children that were listed at first.
unfoldable pub remove_all : (InodeRow → World → Option World) → List InodeRow → World → Option World
remove_all remove [] w = some w
remove_all remove (child ∷ rest) w = and_then (remove child w) (remove_all remove rest)

abbrev pub remove_row : InodeRow → World → World
remove_row row w = write (delete_inode row.ino) (remove_cached row.cached_path w)

-- `none` means that the calls nest deeper than the fuel.
unfoldable pub remove_inode_tree : ℕ → InodeRow → World → Option World
unfolding remove_all
remove_inode_tree zero row w = none
remove_inode_tree (suc fuel) row w =
    and_then (remove_all (remove_inode_tree fuel) (list_children row.ino w.daemon.inodes) w)
      (λ v. some (remove_row row v))

module _ (now : ℕ) where
  unfoldable pub record_event : String → Option String → Option String → World → World
  record_event event_type name detail w = record w {
    daemon = record w.daemon {
      sync_events = record_sync_event "web" event_type name detail now w.daemon.sync_events;
    };
  }

  unfoldable pub apply_remote_delete : ℕ → String → World → Option World
  unfolding record_event remove_inode_tree
  apply_remote_delete fuel link_id w = elim (find_by_link_id link_id w.daemon.inodes) [
    | none ↦ some (record_event "delete" none (some link_id) w)
    | some row ↦
        and_then
          (remove_inode_tree fuel row (record_event "delete" (some row.name) (some link_id) w))
          (λ v. some (write (clear_children_populated row.parent_ino) v))
  ]

  -- The folder of a new node is listed again.
  unfoldable pub unlist_parent : Option String → World → World
  unlist_parent none w = w
  unlist_parent (some parent) w = elim (find_by_link_id parent w.daemon.inodes) [
    | none ↦ w
    | some row ↦ write (clear_children_populated row.ino) w
  ]

  unfoldable pub apply_remote_create : VolumeEvent → World → World
  unfolding record_event unlist_parent
  apply_remote_create event w =
      unlist_parent event.parent_link_id (record_event "create" none (some event.link_id) w)

  -- The row loses its cached bytes, and its folder is listed again.
  unfoldable pub apply_remote_update : String → VolumeEvent → World → World
  unfolding record_event
  apply_remote_update event_type event w = elim (find_by_link_id event.link_id w.daemon.inodes) [
    | none ↦ record_event event_type none (some event.link_id) w
    | some row ↦ write (clear_children_populated row.parent_ino) (
        write (set_cached_path row.ino none) (
          remove_cached row.cached_path
            (record_event event_type (some row.name) (some event.link_id) w)))
  ]

  abbrev pub apply_typed : VolumeEvent → Option VolumeEventType → World → World
  apply_typed event (some create) w = apply_remote_create event w
  apply_typed event (some update_metadata) w = apply_remote_update "update-metadata" event w
  apply_typed event (some update_content) w = apply_remote_update "update-content" event w
  apply_typed event (some delete) w = w
  apply_typed event none w = w

  abbrev pub is_delete : Option VolumeEventType → Bool
  is_delete (some delete) = true
  is_delete (some create) = false
  is_delete (some update_metadata) = false
  is_delete (some update_content) = false
  is_delete none = false

  unfoldable pub apply_event : ℕ → VolumeEvent → World → Option World
  unfolding apply_remote_delete apply_remote_create apply_remote_update from_raw
  apply_event fuel event w =
      if is_delete (from_raw event.event_type) || event.is_trashed
      then apply_remote_delete fuel event.link_id w
      else some (apply_typed event (from_raw event.event_type) w)

  unfoldable pub apply_events : ℕ → List VolumeEvent → World → Option World
  unfolding apply_event
  apply_events fuel [] w = some w
  apply_events fuel (event ∷ events) w =
      and_then (apply_event fuel event w) (apply_events fuel events)

  abbrev pub set_online : Bool → World → World
  set_online online w = record w { daemon = record w.daemon { online = online } }

  abbrev pub store_cursor : String → String → World → World
  store_cursor volume_id event_id w = record w {
    cursors = set_event_cursor volume_id event_id w.cursors;
  }

  -- A round of the loop with the cursor that it holds: the answer to the poll is `none` on an error.
  unfoldable pub poll_round :
      ℕ → String → Option VolumeEventsResponse → String × World → Option (String × World)
  unfolding apply_events
  poll_round fuel volume_id none (cursor, w) = some (cursor, set_online false w)
  poll_round fuel volume_id (some resp) (cursor, w) =
      if w.daemon.force_offline
      then some (cursor, set_online false w)
      else elim (apply_events fuel resp.events (set_online true w)) [
        | none ↦ none
        | some v ↦ some (resp.event_id, store_cursor volume_id resp.event_id v)
      ]

-- The cursor at the start: the stored one, or the latest event, which is then stored.
unfoldable pub initial_cursor : String → Option String → World → Option (String × World)
initial_cursor volume_id latest w = elim (get_event_cursor volume_id w.cursors) [
  | some stored ↦ some (stored, w)
  | none ↦ elim latest [
    | none ↦ none
    | some event_id ↦
        some (event_id, record w { cursors = set_event_cursor volume_id event_id w.cursors })
  ]
]

-- The rounds of the loop, with the answers to its polls and the time of each.
unfoldable pub poll_rounds :
    ℕ → String → List (ℕ × Option VolumeEventsResponse) → String × World → Option (String × World)
unfolding poll_round
poll_rounds fuel volume_id [] s = some s
poll_rounds fuel volume_id ((now, resp) ∷ polls) s = elim (poll_round now fuel volume_id resp s) [
  | none ↦ none
  | some t ↦ poll_rounds fuel volume_id polls t
]
