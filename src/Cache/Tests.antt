-- ===== src/Cache/Tests.antt =====
-- The cache repositories with two keys that share a tag, and a cache of two entries.
use proton_sdk_rs.Prelude.{
  ◌≡◌, refl, ◌≤◌, ℕ, List, [], ◌∷◌, none, some, arith, length, if◌then◌else◌,
}
use proton_sdk_rs.Cache.Store.{
  Request, set, remove_by_tag, try_get, empty, perform_all, answer, has_any, has_all,
}
use proton_sdk_rs.Cache.Memory as Memory
use proton_sdk_rs.Cache.Memory.Refines.{run_lem, lookup, get_by_tags_lem}
use proton_sdk_rs.Cache.Sqlite as Sqlite
use proton_sdk_rs.Cache.Sqlite.{Entry, evict, victims}
use proton_sdk_rs.Cache.Sqlite.Refines.{untimed, opened, answer_lem}
use proton_sdk_rs.Cache.Sqlite.Tags.{get_by_tags-has_all}
use proton_sdk_rs.Cache.Sqlite.Eviction.{length-run_all}

abbrev requests : List Request
requests =
    set "a" "1" ("x" ∷ "y" ∷ [])
    ∷ set "b" "2" ("y" ∷ [])
    ∷ remove_by_tag "x"
    ∷ set "a" "3" ("x" ∷ [])
    ∷ []

run_lem_example :
    (Memory.run (try_get "a") (Memory.run_all requests Memory.new)).1
    ≡ answer (try_get "a") (perform_all requests empty)
run_lem_example = run_lem requests (try_get "a")

get_by_tags_lem_example :
    let s = perform_all requests empty in
    lookup "b" (Memory.get_by_tags ("x" ∷ "y" ∷ []) (Memory.run_all requests Memory.new))
    ≡ (if has_any s "b" ("x" ∷ "y" ∷ []) then s.value "b" else none)
get_by_tags_lem_example = get_by_tags_lem requests ("x" ∷ "y" ∷ []) "b"

abbrev timed : List (ℕ × Request)
timed =
    (10, set "a" "1" ("x" ∷ "y" ∷ []))
    ∷ (11, set "b" "2" ("y" ∷ []))
    ∷ (12, try_get "a")
    ∷ (13, set "c" "3" ("x" ∷ []))
    ∷ []

answer_lem_example :
    (Sqlite.init none ≡ some opened)
    × ((Sqlite.run 14 (try_get "b") (Sqlite.run_all timed opened)).1
        ≡ answer (try_get "b") (perform_all (untimed timed) empty))
answer_lem_example = answer_lem timed 14 (try_get "b")

get_by_tags-has_all_example :
    let s = perform_all (untimed timed) empty in
    lookup "b" (Sqlite.get_by_tags ("x" ∷ "y" ∷ []) (Sqlite.run_all timed opened))
    ≡ (if has_all s "b" ("x" ∷ "y" ∷ []) then s.value "b" else none)
get_by_tags-has_all_example = get_by_tags-has_all timed ("x" ∷ "y" ∷ []) "b" refl refl

abbrev small : Sqlite.Sqlite
small = record { entries = []; tags = []; max_cache_size = some 2 }

length-run_all_example : length (Sqlite.run_all timed small).entries ≤ 2
unfolding Sqlite.init
length-run_all_example = length-run_all 2 timed small (omega arith) refl

abbrev two_entries : Sqlite.Sqlite
two_entries = record {
  entries =
      record { key = "a"; value = "1"; last_accessed = 12 }
      ∷ record { key = "b"; value = "2"; last_accessed = 11 }
      ∷ [];
  tags = [];
  max_cache_size = some 2;
}

-- `b` has one of the two tags: the repositories differ.
memory_gives_b :
    lookup "b" (Memory.get_by_tags ("x" ∷ "y" ∷ []) (Memory.run_all (untimed timed) Memory.new))
    ≡ some "2"
unfolding Memory.get_by_tags Memory.run_all Memory.run Memory.set_entry Memory.untag Memory.link
    Memory.unlink Memory.union_keys Memory.present
memory_gives_b = refl

sqlite_gives_no_b :
    lookup "b" (Sqlite.get_by_tags ("x" ∷ "y" ∷ []) (Sqlite.run_all timed opened)) ≡ none
unfolding Sqlite.get_by_tags Sqlite.run_all Sqlite.run Sqlite.set_entry Sqlite.upsert
    Sqlite.insert_tags Sqlite.get_entry Sqlite.make_room
sqlite_gives_no_b = refl

limit_evicts : Sqlite.find "b" (Sqlite.run_all timed small).entries ≡ none
unfolding Sqlite.run_all Sqlite.run Sqlite.set_entry Sqlite.upsert Sqlite.insert_tags
    Sqlite.get_entry Sqlite.make_room Sqlite.evict
limit_evicts = refl
