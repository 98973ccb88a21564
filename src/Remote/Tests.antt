-- ===== src/Remote/Tests.antt =====
-- Remote events on a folder with a file, and a listing in which the folder is missing.
use mathlib.Core.Option as Option
use proton_sdk_rs.Prelude.{
  ℕ, ◌≡◌, ◌↔◌, refl, String, Bool, true, false, Option, none, some, List, [], ◌∷◌, arith,
  delete_where, All, All-map,
}
use proton_sdk_rs.Prelude.Int.{pos, negsuc}
use proton_sdk_rs.Node.Uids.{raw}
use proton_sdk_rs.Db.Inodes.{InodeRow, Inodes, new_row, find_by_link_id, find_by_node_uid}
use proton_sdk_rs.Db.Inodes.Updates.{
  list_children, delete_inode, clear_children_populated, update_remote_metadata,
}
use proton_sdk_rs.Db.Events.{get_event_cursor, set_event_cursor, record_sync_event}
use proton_sdk_rs.Remote.{
  World, rows_of, VolumeEventsResponse, from_raw, update_content, remove_inode_tree, poll_rounds,
}
use proton_sdk_rs.Remote.Trees.{Reached, is_below, Within, within, within-Within}
use proton_sdk_rs.Remote.Removed.{remove_inode_tree_lem}
use proton_sdk_rs.Remote.History.{IsPolling, poll_rounds-IsPolling}
use proton_sdk_rs.Remote.Listing.{Child, node, folder, insert_children}
use proton_sdk_rs.Remote.Stale.{IsListed, inserted, apply_listing_lem}

abbrev remote_row : ℕ → ℕ → String → String → Bool → InodeRow
remote_row ino parent name link is_dir =
    new_row ino parent name (some link) (some "v") (some link) is_dir (pos 0)

abbrev work : InodeRow
work = remote_row 2 1 "work" "v~l2" true

abbrev table : Inodes
table = record {
  rows =
      new_row 1 1 "" none none none true (pos 0)
      ∷ work
      ∷ record (remote_row 3 2 "notes" "v~l3" false) { cached_path = some "bytes"; dirty = true }
      ∷ remote_row 4 1 "other" "v~l4" false
      ∷ [];
  next_ino = 5;
}

abbrev world : World
world = record {
  daemon = record {
    journal = record { rows = []; next_id = 1 };
    inodes = table;
    sync_events = record { rows = []; next_id = 1 };
    calls = [];
    online = true;
    force_offline = false;
    sync_paused = false;
    sync_now = false;
  };
  cursors = ("v", "e1") ∷ [];
  removed_files = [];
}

content_code : from_raw (pos 3) ≡ some update_content
unfolding from_raw
content_code = refl

unknown_code : from_raw (negsuc 0) ≡ none
unfolding from_raw
unknown_code = refl

removed_bytes :
    Option.map (λ (v : World). v.removed_files) (remove_inode_tree 3 work world)
    ≡ some ("bytes" ∷ [])
unfolding remove_inode_tree list_children delete_inode
removed_bytes = refl

work_within : within (rows_of world) 3 2 ≡ true
unfolding within
work_within = refl

remove_inode_tree_lem_example :
    (v : World) × (gone : ℕ → Bool) × (remove_inode_tree 3 work world ≡ some v)
    × (rows_of v ≡ delete_where (λ r. gone r.ino) (rows_of world))
    × ((i : ℕ) → (gone i ≡ true) ↔ Reached (rows_of world) 2 i)
    × (v.daemon.journal ≡ world.daemon.journal)
remove_inode_tree_lem_example =
    remove_inode_tree_lem 3 work world (within-Within (rows_of world) 3 2 work_within)

abbrev polls : List (ℕ × Option VolumeEventsResponse)
polls =
    (5, none)
    ∷ (
      6,
      some (record {
        event_id = "e2";
        more = false;
        events =
            record {
              event_type = pos 0;
              link_id = "v~l2";
              parent_link_id = none;
              is_trashed = false;
            }
            ∷ [];
      }),
    )
    ∷ []

-- The world after both polls, with the cursor.
abbrev polled : String × World
polled = (
  "e2",
  record world {
    daemon = record world.daemon {
      inodes = record {
        rows =
            new_row 1 1 "" none none none true (pos 0) ∷ remote_row 4 1 "other" "v~l4" false ∷ [];
        next_ino = 5;
      };
      sync_events =
          record_sync_event "web" "delete" (some "work") (some "v~l2") 6 world.daemon.sync_events;
    };
    cursors = ("v", "e2") ∷ [];
    removed_files = "bytes" ∷ [];
  },
)

polls_done : poll_rounds 4 "v" polls ("e1", world) ≡ some polled
unfolding poll_rounds find_by_link_id list_children delete_inode clear_children_populated
    set_event_cursor
polls_done = refl

-- Of each row, nothing lies deeper than three levels below.
rows_shallow : All (λ r. Within (rows_of world) 3 r.ino) (rows_of world)
unfolding within
rows_shallow = (three 1 refl, (three 2 refl, (three 3 refl, (three 4 refl, tt))))
  where
    three : (ino : ℕ) → within (rows_of world) 3 ino ≡ true → Within (rows_of world) 3 ino
    three = within-Within (rows_of world) 3

world-IsPolling : IsPolling 4 "v" world.daemon.journal ("e1", world)
unfolding get_event_cursor
world-IsPolling = record {
  stored = refl;
  inodes = ground arith;
  shallow = λ i.
      All-map {Q = λ r. is_below i r ≡ true → Within (rows_of world) 3 r.ino} (λ r h below. h)
        (rows_of world) rows_shallow;
  journal = refl;
}

poll_rounds-IsPolling_example :
    (t : String × World) × (poll_rounds 4 "v" polls ("e1", world) ≡ some t)
    × IsPolling 4 "v" world.daemon.journal t
poll_rounds-IsPolling_example =
    poll_rounds-IsPolling 4 "v" world.daemon.journal polls ("e1", world) world-IsPolling

-- The server lists the other file only: the folder goes, although a file in it is dirty.
abbrev listing : List Child
listing =
    node (record {
      uid = record { volume_id = "v"; link_id = "l4" };
      name = "other";
      creation_time = pos 0;
      is_trashed = false;
      kind = folder;
    })
    ∷ []

rows_within :
    (within (rows_of (inserted 7 1 listing world)) 3 4 ≡ true)
    × (within (rows_of (inserted 7 1 listing world)) 3 2 ≡ true)
unfolding within insert_children find_by_node_uid update_remote_metadata raw
rows_within = (refl, refl)

apply_listing_lem_example : IsListed 7 1 3 listing world
unfolding insert_children find_by_node_uid update_remote_metadata list_children raw
apply_listing_lem_example = apply_listing_lem 7 1 3 listing world (
  λ s. within-Within (rows_of (inserted 7 1 listing world)) 3 4 rows_within.0,
  (λ s. within-Within (rows_of (inserted 7 1 listing world)) 3 2 rows_within.1, tt),
)
