-- ===== src/Cache/Memory.antt =====
-- crates/proton-sdk-rs2/src/cache.rs: `InMemoryCacheRepository`. A `DashMap` is a function, a
-- `HashSet` a list in the order in which it is walked; requests come one after the other.
pub mod Agrees
pub mod Refines
use text.Mathlib.Text.{◌==◌ as str_eq}
use proton_sdk_rs.Prelude.{
  ℕ, ◌≡◌, String, Bool, true, false, not, ◌&&◌, ◌||◌, Option, none, some, List, [], ◌∷◌, ◌++◌,
  if◌then◌else◌,
}
use proton_sdk_rs.Prelude.Sets as Sets
use proton_sdk_rs.Prelude.Sets.{contains, add, to_set, put, erase}
use proton_sdk_rs.Cache.Store.{Request, set, remove, remove_by_tag, clear, try_get}

pub record Memory : Type 0 where
  pub entries : String → Option String
  pub key_to_tags : String → Option (List String)
  pub tag_to_keys : String → Option (List String)

abbrev pub new : Memory
new = record { entries = λ k. none; key_to_tags = λ k. none; tag_to_keys = λ t. none }

abbrev pub some_or_empty : Option (List String) → List String
some_or_empty none = []
some_or_empty (some ss) = ss

-- `keys.remove(key)` for each of the tags that has a set.
unfoldable pub unlink :
    String → List String → (String → Option (List String)) → String → Option (List String)
unlink key [] m = m
unlink key (tag ∷ tags) m = elim (m tag) [
  | none ↦ unlink key tags m
  | some keys ↦ unlink key tags (put tag (Sets.remove key keys) m)
]

-- `entry(tag).or_insert_with(HashSet::new).insert(key)` for each of the tags.
unfoldable pub link :
    String → List String → (String → Option (List String)) → String → Option (List String)
link key [] m = m
link key (tag ∷ tags) m = link key tags (put tag (add key (some_or_empty (m tag))) m)

-- The tags of a key that are taken out of `key_to_tags`, and the keys under them.
unfoldable pub untag : String → Memory → Memory
unfolding unlink
untag key m = record m {
  key_to_tags = erase key m.key_to_tags;
  tag_to_keys = unlink key (some_or_empty (m.key_to_tags key)) m.tag_to_keys;
}

unfoldable pub set_entry : String → String → List String → Memory → Memory
unfolding untag link
set_entry key value tags m =
    let cleared = untag key m in
    let new_tags = to_set tags in
    record {
      entries = put key value cleared.entries;
      key_to_tags = put key new_tags cleared.key_to_tags;
      tag_to_keys = link key new_tags cleared.tag_to_keys;
    }

unfoldable pub remove_entry : String → Memory → Memory
unfolding untag
remove_entry key m = untag key (record m { entries = erase key m.entries })

unfoldable pub remove_entries : List String → Memory → Memory
unfolding remove_entry
remove_entries [] m = m
remove_entries (key ∷ keys) m = remove_entries keys (remove_entry key m)

unfoldable pub remove_tag : String → Memory → Memory
unfolding remove_entries
remove_tag tag m = elim (m.tag_to_keys tag) [
  | none ↦ m
  | some keys ↦ remove_entries keys (record m { tag_to_keys = erase tag m.tag_to_keys })
]

unfoldable pub run : Request → Memory → Memory × Option String
unfolding set_entry remove_entry remove_tag
run (set key value tags) m = (set_entry key value tags m, none)
run (remove key) m = (remove_entry key m, none)
run (remove_by_tag tag) m = (remove_tag tag m, none)
run clear m = (new, none)
run (try_get key) m = (m, m.entries key)

unfoldable pub run_all : List Request → Memory → Memory
unfolding run
run_all [] m = m
run_all (r ∷ rs) m = run_all rs (run r m).0

unfoldable pub union_keys : List String → (String → Option (List String)) → List String
union_keys [] m = []
union_keys (tag ∷ tags) m = to_set (some_or_empty (m tag) ++ union_keys tags m)

-- `filter_map` over the keys.
unfoldable pub present : List String → (String → Option String) → List (String × String)
present [] entries = []
present (key ∷ keys) entries = elim (entries key) [
  | none ↦ present keys entries
  | some value ↦ (key, value) ∷ present keys entries
]

unfoldable pub get_by_tags : List String → Memory → List (String × String)
unfolding union_keys present
get_by_tags tags m = present (union_keys tags m.tag_to_keys) m.entries
