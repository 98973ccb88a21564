-- ===== src/Cache/Memory/Refines.antt =====
-- crates/proton-sdk-rs2/src/cache.rs: the in-memory repository is a store of values with tags.
use text.Mathlib.Text.{◌==◌ as str_eq}
use text.Mathlib.TextEquality.{eq_iff}
use proton_sdk_rs.Prelude.{
  ◌≡◌, refl, String, inl, inr, Option, none, some, List, [], ◌∷◌, ◌++◌, arith, if◌then◌else◌,
  Option-cases,
}
use proton_sdk_rs.Prelude.Sets.{contains, erase, contains-to_set, contains-append}
use proton_sdk_rs.Cache.Store.{
  Request, set, remove, remove_by_tag, clear, try_get, Store, empty, perform, perform_all, answer,
  has_any, SameStore,
}
use proton_sdk_rs.Cache.Memory.{
  Memory, new, set_entry, remove_entry, run, run_all, union_keys, present, get_by_tags,
}
use proton_sdk_rs.Cache.Memory.Agrees.{
  at, Agrees, none_gone, store_of, untag-Agrees, untag-entries, untag_lem, set_entry-Agrees,
  remove_tag-Agrees,
}

-- A repository and a store that no request tells apart.
record Refines (m : Memory) (s : Store) : Type 0 where
  agrees : Agrees none_gone m
  same : SameStore (store_of m) s

run-Refines :
    (r : Request) (m : Memory) (s : Store)
    → Refines m s
    → Refines (run r m).0 (perform r s) × ((run r m).1 ≡ answer r s)
unfolding run set_entry remove_entry
run-Refines (set key value tags) m s v = (
  record {
    agrees = set_entry-Agrees key value tags m v.agrees;
    same = record {
      values = λ k. ground (arith, v.same.values k, untag-entries key m k);
      tags = λ k t. ground (arith, v.same.tags k t, untag_lem key k t m, contains-to_set t tags);
    };
  },
  refl,
)
run-Refines (remove key) m s v = (
  record {
    agrees = untag-Agrees none_gone key (record m { entries = erase key m.entries }) v.agrees;
    same = record {
      values = λ k. ground (
        arith,
        v.same.values k,
        untag-entries key (record m { entries = erase key m.entries }) k,
      );
      tags = λ k t.
          ground (
            arith,
            v.same.tags k t,
            untag_lem key k t (record m { entries = erase key m.entries }),
          );
    };
  },
  refl,
)
run-Refines (remove_by_tag tag) m s v =
    let (agrees, gone) = remove_tag-Agrees tag m v.agrees in
    (
      record {
        agrees = agrees;
        same = record {
          values = λ k. ground (arith, (gone k tag).0, v.same.values k, v.same.tags k tag);
          tags = λ k t. ground (arith, (gone k t).1, v.same.tags k t, v.same.tags k tag);
        };
      },
      refl,
    )
run-Refines clear m s v = (
  record { agrees = λ k t. refl; same = record { values = λ k. refl; tags = λ k t. refl } },
  refl,
)
run-Refines (try_get key) m s v = (v, v.same.values key)

run_all-Refines :
    (rs : List Request) (m : Memory) (s : Store)
    → Refines m s
    → Refines (run_all rs m) (perform_all rs s)
unfolding run_all
run_all-Refines [] m s v = v
run_all-Refines (r ∷ rs) m s v = run_all-Refines rs _ _ (run-Refines r m s v).0

new-Refines : Refines new empty
new-Refines = record {
  agrees = λ k t. refl;
  same = record { values = λ k. refl; tags = λ k t. refl };
}

-- After any requests on a new in-memory repository, a request has the answer that the abstract
-- store gives after the same requests.
pub run_lem :
    (rs : List Request) (r : Request) → (run r (run_all rs new)).1 ≡ answer r (perform_all rs empty)
run_lem rs r = (run-Refines r _ _ (run_all-Refines rs new empty new-Refines)).1

abbrev pub lookup : String → List (String × String) → Option String
lookup k [] = none
lookup k ((j, v) ∷ rest) = let later = lookup k rest in if str_eq j k then some v else later

present_lem :
    (k : String) (keys : List String) (entries : String → Option String)
    → lookup k (present keys entries) ≡ (if contains k keys then entries k else none)
unfolding present
present_lem k [] entries = refl
present_lem k (key ∷ keys) entries = elim (Option-cases (entries key)) [
  | inl absent ↦ rw (present, absent) (ground (arith, present_lem k keys entries, eq_iff key k))
  | inr (v, e) ↦ rw (present, e) (ground (arith, present_lem k keys entries, eq_iff key k))
]

union_keys_lem :
    (k : String) (tags : List String) (m : Memory)
    → Agrees none_gone m
    → contains k (union_keys tags m.tag_to_keys) ≡ has_any (store_of m) k tags
unfolding union_keys
union_keys_lem k [] m v = refl
union_keys_lem k (t ∷ ts) m v = ground (
  arith,
  contains-to_set k (at m.tag_to_keys t ++ union_keys ts m.tag_to_keys),
  contains-append k (at m.tag_to_keys t) (union_keys ts m.tag_to_keys),
  union_keys_lem k ts m v,
  v k t,
)

has_any_same :
    (s t : Store) (k : String) (tags : List String)
    → SameStore s t
    → has_any s k tags ≡ has_any t k tags
has_any_same s t k [] h = refl
has_any_same s t k (tag ∷ tags) h = ground (arith, h.tags k tag, has_any_same s t k tags h)

-- After any requests on a new in-memory repository, `get_by_tags` gives a key exactly when it has a
-- value and ANY of the tags, and then with that value.
pub get_by_tags_lem :
    (rs : List Request) (tags : List String) (k : String)
    → let s = perform_all rs empty in
      lookup k (get_by_tags tags (run_all rs new)) ≡ (if has_any s k tags then s.value k else none)
unfolding get_by_tags
get_by_tags_lem rs tags k =
    let s = perform_all rs empty in
    let m = run_all rs new in
    let v = run_all-Refines rs new empty new-Refines in
    ground (
      arith,
      present_lem k (union_keys tags m.tag_to_keys) m.entries,
      union_keys_lem k tags m v.agrees,
      has_any_same (store_of m) s k tags v.same,
      v.same.values k,
    )
