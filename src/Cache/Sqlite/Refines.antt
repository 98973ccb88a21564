-- ===== src/Cache/Sqlite/Refines.antt =====
-- crates/proton-drive-sdk/src/cache/sqlite.rs: without a size limit the SQLite repository is a store
-- of values with tags.
use text.Mathlib.Text.{◌==◌ as str_eq}
use text.Mathlib.TextEquality.{eq_iff}
use proton_sdk_rs.Prelude.{
  ℕ, ◌≡◌, refl, ◌∙◌, String, Bool, true, false, not, ◌&&◌, ◌||◌, inl, inr, none, some, List, [],
  ◌∷◌, ◌++◌, arith, if◌then◌else◌, Option-cases, ltb, delete_where, update_where, count_where,
}
use proton_sdk_rs.Prelude.Sets.{contains}
use proton_sdk_rs.Cache.Store.{
  Request, set, remove, remove_by_tag, clear, try_get, Store, empty, perform, perform_all, answer,
  SameStore,
}
use proton_sdk_rs.Cache.Sqlite.{
  Entry, Sqlite, init, delete_keys, make_room, upsert, has_row, insert_tags, set_entry, find,
  get_entry, run, run_all,
}

abbrev pub store_of : Sqlite → Store
store_of t = record { value = λ k. find k t.entries; tagged = λ k tag. has_row k tag t.tags }

find-delete_where :
    (p : String → Bool) (k : String) (es : List Entry)
    → find k (delete_where (λ e. p e.key) es) ≡ (if p k then none else find k es)
find-delete_where p k [] = ground arith
find-delete_where p k (e ∷ es) = ground (arith, find-delete_where p k es, eq_iff e.key k)

has_row-delete_where :
    (p : String → Bool) (k tag : String) (rows : List (String × String))
    → has_row k tag (delete_where (λ r. p r.1) rows) ≡ (not (p k) && has_row k tag rows)
has_row-delete_where p k tag [] = ground arith
has_row-delete_where p k tag ((t, j) ∷ rows) =
    ground (arith, has_row-delete_where p k tag rows, eq_iff j k)

find_updated :
    (now : ℕ) (key value k : String) (es : List Entry)
    → find k (
        update_where
          (λ e. str_eq e.key key)
          (λ e. record e { value = value; last_accessed = now })
          es)
      ≡ (if ltb 0 (count_where (λ e. str_eq e.key key) es) && str_eq key k
          then some value
          else find k es)
find_updated now key value k [] = ground arith
find_updated now key value k (e ∷ es) =
    ground (arith, find_updated now key value k es, eq_iff e.key key, eq_iff e.key k, eq_iff key k)

find-append :
    (k : String) (es : List Entry) (e : Entry)
    → find k (es ++ e ∷ []) ≡ (elim (find k es) [
      | none ↦ (if str_eq e.key k then some e.value else none)
      | some v ↦ some v
    ])
find-append k [] e = ground arith
find-append k (f ∷ es) e = ground (arith, find-append k es e)

find_absent :
    (k : String) (es : List Entry) → count_where (λ e. str_eq e.key k) es ≡ 0 → find k es ≡ none
find_absent k [] h = refl
find_absent k (e ∷ es) h = ground (arith, find_absent k es)

find-upsert :
    (now : ℕ) (key value k : String) (es : List Entry)
    → find k (upsert now key value es) ≡ (if str_eq key k then some value else find k es)
unfolding upsert
find-upsert now key value k es = ground (
  arith,
  find_updated now key value k es,
  find-append k es (record { key = key; value = value; last_accessed = now }),
  find_absent key es,
  eq_iff key k,
)

find_accessed :
    (now : ℕ) (key k : String) (es : List Entry)
    → find k (update_where (λ e. str_eq e.key key) (λ e. record e { last_accessed = now }) es)
      ≡ find k es
find_accessed now key k [] = refl
find_accessed now key k (e ∷ es) = ground (arith, find_accessed now key k es)

has_row-append :
    (k tag : String) (rows : List (String × String)) (t j : String)
    → has_row k tag (rows ++ (t, j) ∷ []) ≡ (has_row k tag rows || (str_eq j k && str_eq t tag))
has_row-append k tag [] t j = ground arith
has_row-append k tag ((u, i) ∷ rows) t j = ground (arith, has_row-append k tag rows t j)

has_row-insert_tags :
    (key k tag : String) (tags : List String) (rows : List (String × String))
    → has_row k tag (insert_tags key tags rows)
      ≡ (has_row k tag rows || (str_eq key k && contains tag tags))
unfolding insert_tags
has_row-insert_tags key k tag [] rows = ground arith
has_row-insert_tags key k tag (t ∷ tags) rows = ground (
  arith,
  has_row-insert_tags key k tag tags rows,
  has_row-insert_tags key k tag tags (rows ++ (t, key) ∷ []),
  has_row-append k tag rows t key,
  eq_iff key k,
  eq_iff t tag,
)

-- A repository without a limit, and a store that no request tells apart from it.
record Refines (t : Sqlite) (s : Store) : Type 0 where
  unlimited : t.max_cache_size ≡ none
  same : SameStore (store_of t) s

make_room_unlimited : (key : String) (t : Sqlite) → t.max_cache_size ≡ none → make_room key t ≡ t
unfolding make_room
make_room_unlimited key t h = simp (make_room, h)

set_entry_lem :
    (now : ℕ) (key value : String) (tags : List String) (t : Sqlite) (k tag : String)
    → t.max_cache_size ≡ none
    → (find k (set_entry now key value tags t).entries
        ≡ (if str_eq key k then some value else find k t.entries))
      × (has_row k tag (set_entry now key value tags t).tags
          ≡ (if str_eq key k then contains tag tags else has_row k tag t.tags))
      × ((set_entry now key value tags t).max_cache_size ≡ none)
unfolding set_entry
set_entry_lem now key value tags t k tag h =
    rw (set_entry, make_room_unlimited key t h)
      (
        find-upsert now key value k t.entries,
        ground (
          arith,
          has_row-insert_tags key k tag tags (delete_where (λ r. str_eq r.1 key) t.tags),
          has_row-delete_where (λ j. str_eq j key) k tag t.tags,
          eq_iff key k,
          eq_iff k key,
        ),
        h,
      )

delete_keys-SameStore :
    (p : String → Bool) (t : Sqlite) (s u : Store)
    → SameStore (store_of t) s
    → ((k : String) → u.value k ≡ (if p k then none else s.value k))
    → ((k tag : String) → u.tagged k tag ≡ (if p k then false else s.tagged k tag))
    → SameStore (store_of (delete_keys p t)) u
delete_keys-SameStore p t s u h values tags = record {
  values = λ k. ground (arith, find-delete_where p k t.entries, h.values k, values k);
  tags = λ k tag. ground (arith, has_row-delete_where p k tag t.tags, h.tags k tag, tags k tag);
}

run-Refines :
    (now : ℕ) (r : Request) (t : Sqlite) (s : Store)
    → Refines t s
    → Refines (run now r t).0 (perform r s) × ((run now r t).1 ≡ answer r s)
unfolding run get_entry
run-Refines now (set key value tags) t s v = (
  record {
    unlimited = (set_entry_lem now key value tags t "" "" v.unlimited).2;
    same = record {
      values = λ k.
          ground (arith, (set_entry_lem now key value tags t k "" v.unlimited).0, v.same.values k);
      tags = λ k tag.
          ground
            (arith, (set_entry_lem now key value tags t k tag v.unlimited).1, v.same.tags k tag);
    };
  },
  refl,
)
run-Refines now (remove key) t s v = (
  record {
    unlimited = v.unlimited;
    same =
        delete_keys-SameStore (str_eq key) t s (perform (remove key) s) v.same (λ k. refl)
          (λ k tag. refl);
  },
  refl,
)
run-Refines now (remove_by_tag tag) t s v = (
  record {
    unlimited = v.unlimited;
    same =
        delete_keys-SameStore (λ k. has_row k tag t.tags) t s (perform (remove_by_tag tag) s) v.same
          (λ k. ground (arith, v.same.tags k tag)) (λ k u. ground (arith, v.same.tags k tag));
  },
  refl,
)
run-Refines now clear t s v = (
  record {
    unlimited = v.unlimited;
    same = delete_keys-SameStore (λ k. true) t s empty v.same (λ k. refl) (λ k tag. refl);
  },
  refl,
)
run-Refines now (try_get key) t s v = elim (Option-cases (find key t.entries)) [
  | inl absent ↦ rw (get_entry, absent) (v, ground (arith, v.same.values key, absent))
  | inr (value, e) ↦
      rw (get_entry, e)
        (
          record {
            unlimited = v.unlimited;
            same = record {
              values = λ k. find_accessed now key k t.entries ∙ v.same.values k;
              tags = v.same.tags;
            };
          },
          ground (arith, v.same.values key, e),
        )
]

-- The requests without their times.
abbrev pub untimed : List (ℕ × Request) → List Request
untimed [] = []
untimed ((now, r) ∷ rs) = r ∷ untimed rs

run_all-Refines :
    (rs : List (ℕ × Request)) (t : Sqlite) (s : Store)
    → Refines t s
    → Refines (run_all rs t) (perform_all (untimed rs) s)
unfolding run_all
run_all-Refines [] t s v = v
run_all-Refines ((now, r) ∷ rs) t s v = run_all-Refines rs _ _ (run-Refines now r t s v).0

abbrev pub opened : Sqlite
opened = record { entries = []; tags = []; max_cache_size = none }

opened-Refines : Refines opened empty
opened-Refines = record {
  unlimited = refl;
  same = record { values = λ k. refl; tags = λ k tag. refl };
}

pub run_all-SameStore :
    (rs : List (ℕ × Request))
    → SameStore (store_of (run_all rs opened)) (perform_all (untimed rs) empty)
run_all-SameStore rs = (run_all-Refines rs opened empty opened-Refines).same

-- `init` without a size limit gives the empty database, which answers a request after any requests,
-- at any times, as the abstract store does.
pub answer_lem :
    (rs : List (ℕ × Request)) (now : ℕ) (r : Request)
    → (init none ≡ some opened)
      × ((run now r (run_all rs opened)).1 ≡ answer r (perform_all (untimed rs) empty))
unfolding init
answer_lem rs now r =
    (refl, (run-Refines now r _ _ (run_all-Refines rs opened empty opened-Refines)).1)
