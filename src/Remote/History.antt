-- ===== src/Remote/History.antt =====
-- crates/pdcli/src/fs.rs: what the loop over remote events keeps, whatever the server answers.
use proton_sdk_rs.Prelude.{
  ℕ, ◌≡◌, refl, ◌∙◌, inl, inr, true, false, ◌||◌, String, Option, none, some, List, [], ◌∷◌, arith,
  Bool-cases, Option-cases,
}
use proton_sdk_rs.Db.Journal.{Journal}
use proton_sdk_rs.Db.Inodes.{find_by_link_id}
use proton_sdk_rs.Db.Inodes.Updates.{set_cached_path, clear_children_populated}
use proton_sdk_rs.Db.Inodes.Unique as Unique
use proton_sdk_rs.Db.Events.{get_event_cursor}
use proton_sdk_rs.Db.Events.Cursors.{get_event_cursor-set_self}
use proton_sdk_rs.Fuse.Sound.{set_cached_path-KeepsInodes}
use proton_sdk_rs.Remote.{
  World, rows_of, VolumeEvent, VolumeEventType, delete, create, update_metadata, update_content,
  VolumeEventsResponse, from_raw, write, remove_cached, remove_inode_tree, record_event,
  apply_remote_delete, unlist_parent, apply_remote_create, apply_remote_update, apply_typed,
  is_delete, apply_event, apply_events, set_online, store_cursor, poll_round, poll_rounds,
}
use proton_sdk_rs.Remote.Polls.{
  Keeps, Keeps-refl, Keeps-trans, write-Keeps, clear_children_populated-KeepsInodes,
  clear_children_populated-KeepsDepth, set_cached_path-KeepsDepth, remove_cached-Keeps, Ends,
  Ends-some, Ends-and_then, remove_inode_tree-Ends,
}
use proton_sdk_rs.Remote.Gone.{Shallow}
use proton_sdk_rs.Remote.Removed.{remove_inode_tree_lem}

module _ (now : ℕ) where
  record_event-Keeps :
      (event : String) (name detail : Option String) (w : World)
      → Keeps w (record_event now event name detail w)
  unfolding record_event
  record_event-Keeps event name detail w = record {
    cursors = refl;
    journal = refl;
    inodes = λ v. v;
    shallow = λ n h. h;
  }

  apply_remote_delete-Ends :
      (fuel : ℕ) (link : String) (w : World) → Ends w (apply_remote_delete now fuel link w)
  unfolding apply_remote_delete
  apply_remote_delete-Ends fuel link w =
      elim (Option-cases (find_by_link_id link w.daemon.inodes)) [
        | inl missing ↦
            rw (apply_remote_delete, missing)
              (Ends-some w _ (record_event-Keeps "delete" none (some link) w))
        | inr (row, found) ↦
            rw (apply_remote_delete, found)
              (Ends-and_then w
                (remove_inode_tree fuel row
                  (record_event now "delete" (some row.name) (some link) w))
                (λ v. some (write (clear_children_populated row.parent_ino) v))
                (record {
                  at = λ v e.
                      Keeps-trans w (record_event now "delete" (some row.name) (some link) w) v
                        (record_event-Keeps "delete" (some row.name) (some link) w)
                        ((remove_inode_tree-Ends fuel row
                            (record_event now "delete" (some row.name) (some link) w)).at
                          v e);
                })
                (λ v. Ends-some v _ (
                  write-Keeps (clear_children_populated row.parent_ino) v
                    (clear_children_populated-KeepsInodes row.parent_ino)
                    (clear_children_populated-KeepsDepth row.parent_ino))))
      ]

  unlist_parent-Keeps : (parent : Option String) (w : World) → Keeps w (unlist_parent now parent w)
  unfolding unlist_parent
  unlist_parent-Keeps none w = Keeps-refl w
  unlist_parent-Keeps (some parent) w =
      elim (Option-cases (find_by_link_id parent w.daemon.inodes)) [
        | inl missing ↦ rw (unlist_parent, missing) (Keeps-refl w)
        | inr (row, found) ↦
            rw (unlist_parent, found)
              (write-Keeps (clear_children_populated row.ino) w
                (clear_children_populated-KeepsInodes row.ino)
                (clear_children_populated-KeepsDepth row.ino))
      ]

  apply_remote_update-Keeps :
      (kind : String) (event : VolumeEvent) (w : World)
      → Keeps w (apply_remote_update now kind event w)
  unfolding apply_remote_update
  apply_remote_update-Keeps kind event w =
      elim (Option-cases (find_by_link_id event.link_id w.daemon.inodes)) [
        | inl missing ↦
            rw (apply_remote_update, missing) (record_event-Keeps kind none (some event.link_id) w)
        | inr (row, found) ↦
            let noted = record_event now kind (some row.name) (some event.link_id) w in
            let cleaned = remove_cached row.cached_path noted in
            let uncached = write (set_cached_path row.ino none) cleaned in
            rw (apply_remote_update, found)
              (Keeps-trans w noted _
                (record_event-Keeps kind (some row.name) (some event.link_id) w)
                (Keeps-trans noted cleaned _ (remove_cached-Keeps row.cached_path noted) (
                  Keeps-trans cleaned uncached _
                    (write-Keeps (set_cached_path row.ino none) cleaned
                      (set_cached_path-KeepsInodes row.ino none)
                      (set_cached_path-KeepsDepth row.ino none))
                    (write-Keeps (clear_children_populated row.parent_ino) uncached
                      (clear_children_populated-KeepsInodes row.parent_ino)
                      (clear_children_populated-KeepsDepth row.parent_ino)))))
      ]

  apply_typed-Keeps :
      (event : VolumeEvent) (type : Option VolumeEventType) (w : World)
      → Keeps w (apply_typed now event type w)
  unfolding apply_remote_create
  apply_typed-Keeps event (some create) w =
      let noted = record_event now "create" none (some event.link_id) w in
      Keeps-trans w noted _ (record_event-Keeps "create" none (some event.link_id) w)
        (unlist_parent-Keeps event.parent_link_id noted)
  apply_typed-Keeps event (some update_metadata) w =
      apply_remote_update-Keeps "update-metadata" event w
  apply_typed-Keeps event (some update_content) w =
      apply_remote_update-Keeps "update-content" event w
  apply_typed-Keeps event (some delete) w = Keeps-refl w
  apply_typed-Keeps event none w = Keeps-refl w

  apply_event-Ends :
      (fuel : ℕ) (event : VolumeEvent) (w : World) → Ends w (apply_event now fuel event w)
  unfolding apply_event
  apply_event-Ends fuel event w =
      elim (Bool-cases (is_delete now (from_raw event.event_type) || event.is_trashed)) [
        | inl gone ↦ rw gone (apply_remote_delete-Ends fuel event.link_id w)
        | inr changed ↦
            rw changed (Ends-some w _ (apply_typed-Keeps event (from_raw event.event_type) w))
      ]

  apply_events-Ends :
      (fuel : ℕ) (events : List VolumeEvent) (w : World) → Ends w (apply_events now fuel events w)
  unfolding apply_events
  apply_events-Ends fuel [] w = Ends-some w w (Keeps-refl w)
  apply_events-Ends fuel (event ∷ events) w =
      Ends-and_then w (apply_event now fuel event w) (apply_events now fuel events)
        (apply_event-Ends fuel event w) (apply_events-Ends fuel events)

-- The removals that a delivery asks for end within the fuel, where the tree is no deeper than that.
module _ (now fuel : ℕ) where
  apply_remote_delete-returns :
      (link : String) (w : World)
      → Shallow (rows_of w) fuel
      → (v : World) × (apply_remote_delete now fuel link w ≡ some v)
  unfolding apply_remote_delete record_event
  apply_remote_delete-returns link w h =
      elim (Option-cases (find_by_link_id link w.daemon.inodes)) [
        | inl missing ↦ rw (apply_remote_delete, missing) (_, refl)
        | inr (row, found) ↦
            let noted = record_event now "delete" (some row.name) (some link) w in
            let (u, gone, done, rows, only, journal) =
              remove_inode_tree_lem fuel row noted (h row.ino) in
            rw (apply_remote_delete, found, done) (_, refl)
      ]

  apply_event-returns :
      (event : VolumeEvent) (w : World)
      → Shallow (rows_of w) fuel
      → (v : World) × (apply_event now fuel event w ≡ some v)
  unfolding apply_event
  apply_event-returns event w h =
      elim (Bool-cases (is_delete now (from_raw event.event_type) || event.is_trashed)) [
        | inl gone ↦ rw gone (apply_remote_delete-returns event.link_id w h)
        | inr changed ↦ rw changed (_, refl)
      ]

  apply_events-returns :
      (events : List VolumeEvent) (w : World)
      → Shallow (rows_of w) fuel
      → (v : World) × (apply_events now fuel events w ≡ some v)
  unfolding apply_events
  apply_events-returns [] w h = (w, refl)
  apply_events-returns (event ∷ events) w h =
      let (v, done) = apply_event-returns event w h in
      let deep = (apply_event-Ends now fuel event w).at v done in
      rw done (apply_events-returns events v (deep.shallow fuel h))

-- The loop holds the stored cursor; inode numbers and node UIDs are unique, and no row lies deeper than
-- the fuel; the journal is this one.
pub record IsPolling (fuel : ℕ) (volume_id : String) (j : Journal) (s : String × World)
    : Type 0 where
  pub stored : get_event_cursor volume_id s.1.cursors ≡ some s.0
  pub inodes : Unique.IsValid s.1.daemon.inodes
  pub shallow : Shallow (rows_of s.1) fuel
  pub journal : s.1.daemon.journal ≡ j

module _ (fuel : ℕ) (volume_id : String) (j : Journal) where
  offline-IsPolling :
      (now : ℕ) (cursor : String) (w : World)
      → (IsPolling fuel volume_id j) (cursor, w)
      → (IsPolling fuel volume_id j) (cursor, set_online now false w)
  offline-IsPolling now cursor w p = record {
    stored = p.stored;
    inodes = p.inodes;
    shallow = p.shallow;
    journal = p.journal;
  }

  online-IsPolling :
      (now : ℕ) (resp : VolumeEventsResponse) (cursor : String) (w v : World)
      → (IsPolling fuel volume_id j) (cursor, w)
      → apply_events now fuel resp.events (set_online now true w) ≡ some v
      → (IsPolling fuel volume_id j) (resp.event_id, store_cursor now volume_id resp.event_id v)
  online-IsPolling now resp cursor w v p done =
      let kept = (apply_events-Ends now fuel resp.events (set_online now true w)).at v done in
      record {
        stored = get_event_cursor-set_self volume_id resp.event_id v.cursors;
        inodes = kept.inodes p.inodes;
        shallow = kept.shallow fuel p.shallow;
        journal = kept.journal ∙ p.journal;
      }

  poll_round-IsPolling :
      (now : ℕ) (resp : Option VolumeEventsResponse) (s : String × World)
      → (IsPolling fuel volume_id j) s
      → (t : String × World) × (poll_round now fuel volume_id resp s ≡ some t)
        × (IsPolling fuel volume_id j) t
  unfolding poll_round
  poll_round-IsPolling now none (cursor, w) p = (_, refl, offline-IsPolling now cursor w p)
  poll_round-IsPolling now (some resp) (cursor, w) p = elim (Bool-cases w.daemon.force_offline) [
    | inl forced ↦
        ((cursor, set_online now false w), ground (arith, forced), offline-IsPolling now cursor w p)
    | inr free ↦
        let (v, done) =
          apply_events-returns now fuel resp.events (set_online now true w) p.shallow in
        (
          (resp.event_id, store_cursor now volume_id resp.event_id v),
          ground (arith, free, done),
          online-IsPolling now resp cursor w v p done,
        )
  ]

  -- From a state in which the loop holds the stored cursor, inode numbers and node UIDs are unique and
  -- no row lies deeper than the fuel, any rounds of the loop, whatever the server answers and however
  -- often the poll fails, end, in such a state again and with the journal as it was.
  pub poll_rounds-IsPolling :
      (polls : List (ℕ × Option VolumeEventsResponse)) (s : String × World)
      → (IsPolling fuel volume_id j) s
      → (t : String × World) × (poll_rounds fuel volume_id polls s ≡ some t)
        × (IsPolling fuel volume_id j) t
  unfolding poll_rounds
  poll_rounds-IsPolling [] s p = (s, refl, p)
  poll_rounds-IsPolling ((now, resp) ∷ polls) s p =
      let (u, done, q) = poll_round-IsPolling now resp s p in
      rw (poll_rounds, done) (poll_rounds-IsPolling polls u q)
