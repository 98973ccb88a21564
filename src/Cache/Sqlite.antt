-- ===== src/Cache/Sqlite.antt =====
-- crates/proton-drive-sdk/src/cache/sqlite.rs: `SqliteCacheRepository`. The two tables are lists of
-- rows in rowid order; `now` is the time in milliseconds. Foreign keys are on, as in the SQLite that
-- the program bundles, so that a deleted entry takes its tags with it; equal times are evicted in
-- rowid order.
pub mod Refines
pub mod Tags
pub mod Eviction
use text.Mathlib.Text.{◌==◌ as str_eq}
use proton_sdk_rs.Prelude.{
  ℕ, ◌+◌, ◌/◌, max, ◌≡◌, String, Bool, true, false, not, ◌&&◌, ◌||◌, Option, none, some, List, [],
  ◌∷◌, ◌++◌, map, leb, ltb, ◌==◌, if◌then◌else◌, length, take, select_where, delete_where,
  update_where, count_where, order_by,
}
use proton_sdk_rs.Prelude.Sets.{contains, to_set}
use proton_sdk_rs.Cache.Store.{Request, set, remove, remove_by_tag, clear, try_get}

-- A row of `Entries`.
pub record Entry : Type 0 where
  pub key : String
  pub value : String
  pub last_accessed : ℕ

-- A row of `Tags` is its tag and its key.
pub record Sqlite : Type 0 where
  pub entries : List Entry
  pub tags : List (String × String)
  pub max_cache_size : Option ℕ

-- `init`: a limit of 0 is refused.
unfoldable pub init : Option ℕ → Option Sqlite
init none = some (record { entries = []; tags = []; max_cache_size = none })
init (some size) =
    if ltb 0 size
    then some (record { entries = []; tags = []; max_cache_size = some size })
    else none

abbrev pub keys_of : List Entry → List String
keys_of [] = []
keys_of (e ∷ es) = e.key ∷ keys_of es

-- DELETE FROM Entries WHERE the key fits, with ON DELETE CASCADE.
abbrev pub delete_keys : (String → Bool) → Sqlite → Sqlite
delete_keys p t = record t {
  entries = delete_where (λ e. p e.key) t.entries;
  tags = delete_where (λ r. p r.1) t.tags;
}

abbrev pub victims : ℕ → Sqlite → List Entry
victims n t = take n (order_by (λ e. e.last_accessed) t.entries)

unfoldable pub evict : ℕ → Sqlite → Sqlite
evict n t = delete_keys (λ k. contains k (keys_of (victims n t))) t

abbrev pub exists : String → Sqlite → Bool
exists key t = ltb 0 (count_where (λ e. str_eq e.key key) t.entries)

unfoldable pub make_room : String → Sqlite → Sqlite
unfolding evict
make_room key t = elim t.max_cache_size [
  | none ↦ t
  | some size ↦
      if leb size (length t.entries)
      then (if exists key t then t else evict (max 1 (size / 4)) t)
      else t
]

unfoldable pub upsert : ℕ → String → String → List Entry → List Entry
upsert now key value es =
    if ltb 0 (count_where (λ e. str_eq e.key key) es)
    then update_where (λ e. str_eq e.key key) (λ e. record e { value = value; last_accessed = now })
        es
    else es ++ record { key = key; value = value; last_accessed = now } ∷ []

abbrev pub has_row : String → String → List (String × String) → Bool
has_row key tag [] = false
has_row key tag ((t, k) ∷ rows) = (str_eq k key && str_eq t tag) || has_row key tag rows

-- INSERT OR IGNORE for each tag.
unfoldable pub insert_tags : String → List String → List (String × String) → List (String × String)
insert_tags key [] rows = rows
insert_tags key (tag ∷ tags) rows =
    insert_tags key tags (if has_row key tag rows then rows else rows ++ (tag, key) ∷ [])

unfoldable pub set_entry : ℕ → String → String → List String → Sqlite → Sqlite
unfolding make_room upsert insert_tags
set_entry now key value tags t =
    let room = make_room key t in
    record room {
      entries = upsert now key value room.entries;
      tags = insert_tags key tags (delete_where (λ r. str_eq r.1 key) room.tags);
    }

abbrev pub find : String → List Entry → Option String
find key [] = none
find key (e ∷ es) = let rest = find key es in if str_eq e.key key then some e.value else rest

-- A key that is found is marked as accessed.
unfoldable pub get_entry : ℕ → String → Sqlite → Sqlite × Option String
get_entry now key t = elim (find key t.entries) [
  | none ↦ (t, none)
  | some value ↦ (
    record t {
      entries =
          update_where (λ e. str_eq e.key key) (λ e. record e { last_accessed = now }) t.entries;
    },
    some value,
  )
]

unfoldable pub run : ℕ → Request → Sqlite → Sqlite × Option String
unfolding set_entry get_entry
run now (set key value tags) t = (set_entry now key value tags t, none)
run now (remove key) t = (delete_keys (λ k. str_eq key k) t, none)
run now (remove_by_tag tag) t = (delete_keys (λ k. has_row k tag t.tags) t, none)
run now clear t = (delete_keys (λ k. true) t, none)
run now (try_get key) t = get_entry now key t

-- Each request at its own time.
unfoldable pub run_all : List (ℕ × Request) → Sqlite → Sqlite
unfolding run
run_all [] t = t
run_all ((now, r) ∷ rs) t = run_all rs (run now r t).0

-- The tags of a key that are asked for: `WHERE t.Tag IN (…)`
abbrev pub asked : List String → String → List (String × String) → List String
asked tags key [] = []
asked tags key ((t, k) ∷ rows) =
    let rest = asked tags key rows in if str_eq k key && contains t tags then t ∷ rest else rest

-- A key fits when COUNT(DISTINCT t.Tag) is the number of tags.
abbrev pub fits : List String → Sqlite → String → Bool
fits tags t key = length (to_set (asked tags key t.tags)) == length tags

unfoldable pub get_by_tags : List String → Sqlite → List (String × String)
get_by_tags [] t = []
get_by_tags (tag ∷ tags) t =
    map (λ e. (e.key, e.value)) (select_where (λ e. fits (tag ∷ tags) t e.key) t.entries)
