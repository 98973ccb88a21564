-- ===== src/Cache/Sqlite/Eviction.antt =====
-- crates/proton-drive-sdk/src/cache/sqlite.rs: the size limit of the cache, and which rows go.
use text.Mathlib.Text.{◌==◌ as str_eq}
use text.Mathlib.TextPositions.{eq_refl}
use proton_sdk_rs.Prelude.{
  ℕ, ◌+◌, ◌/◌, ◌≤◌, ◌<◌, min, max, ◌≡◌, refl, sym, ap, ◌∙◌, subst, String, Bool, true, false, ◌⊎◌,
  inl, inr, none, some, List, [], ◌∷◌, arith, if◌then◌else◌, Bool-cases, Option-cases, ltb, leb,
  All, All-map, All-append, All-kept, All-order_by_inv, take-before-drop, length-delete_where,
  length-update_where, count_where-order_by, count_where-take, lt→ltb, leb→le, length,
  length-append, length-take, length-order_by, take, drop, take-append-drop, count_where, order_by,
  order_by-SortedFrom,
}
use proton_sdk_rs.Prelude.Sets.{contains}
use proton_sdk_rs.Cache.Store.{Request, set, remove, remove_by_tag, clear, try_get}
use proton_sdk_rs.Cache.Sqlite.{
  Entry, Sqlite, keys_of, delete_keys, victims, evict, exists, make_room, upsert, set_entry, find,
  get_entry, run, run_all, has_row, init,
}

abbrev is_victim : ℕ → Sqlite → Entry → Bool
is_victim n t e = contains e.key (keys_of (victims n t))

keys_of-All : (es : List Entry) → All (λ e. contains e.key (keys_of es) ≡ true) es
keys_of-All [] = tt
keys_of-All (e ∷ es) =
    (ground (arith, eq_refl e.key), All-map (λ f h. ground (arith, h)) es (keys_of-All es))

-- Eviction takes at least as many rows as it is asked for, while there are any.
length-evict :
    (n : ℕ) (t : Sqlite) → length (evict n t).entries + min n (length t.entries) ≤ length t.entries
unfolding evict
length-evict n t =
    let sorted = order_by (λ e. e.last_accessed) t.entries in
    omega (
      arith,
      length-delete_where (is_victim n t) t.entries,
      count_where-order_by (is_victim n t) (λ e. e.last_accessed) t.entries,
      count_where-take (is_victim n t) n sorted (keys_of-All (victims n t)),
      length-take n sorted,
      length-order_by (λ e. e.last_accessed) t.entries,
    )

-- Every row that `evict` takes was last accessed no later than any row that it leaves.
pub evict-victims :
    (n : ℕ) (t : Sqlite)
    → All (λ v. All (λ e. v.last_accessed ≤ e.last_accessed) (evict n t).entries) (victims n t)
unfolding evict
evict-victims n t =
    let key : Entry → ℕ = λ e. e.last_accessed in
    let sorted = order_by key t.entries in
    All-map
      (λ v behind.
        let Later : Entry → Type 0 =
          λ e. is_victim n t e ≡ false → v.last_accessed ≤ e.last_accessed in
        All-kept (λ e. v.last_accessed ≤ e.last_accessed) (is_victim n t) t.entries
          (All-order_by_inv Later key t.entries (
            subst (λ es. All Later es) (take-append-drop n sorted)
              (All-append Later (take n sorted) (drop n sorted)
                (All-map (λ e taken kept. ground (arith, taken, kept)) (take n sorted)
                  (keys_of-All (take n sorted)))
                (All-map (λ e later kept. later) (drop n sorted) behind)))))
      (take n sorted) (take-before-drop key n 0 sorted (order_by-SortedFrom key t.entries))

-- The rows fit the limit, if there is one.
pub record IsBounded (limit : ℕ) (t : Sqlite) : Type 0 where
  pub limited : t.max_cache_size ≡ some limit
  pub positive : 0 < limit
  pub bounded : length t.entries ≤ limit

length-upsert :
    (now : ℕ) (key value : String) (es : List Entry)
    → length (upsert now key value es)
      ≡ length es + (if ltb 0 (count_where (λ e. str_eq e.key key) es) then 0 else 1)
unfolding upsert
length-upsert now key value es = ground (
  arith,
  length-update_where (λ e. str_eq e.key key) (λ e. record e { value = value; last_accessed = now })
      es,
  length-append es (record { key = key; value = value; last_accessed = now } ∷ []),
)

evict-max_cache_size : (n : ℕ) (t : Sqlite) → (evict n t).max_cache_size ≡ t.max_cache_size
unfolding evict
evict-max_cache_size n t = refl

make_room_lem :
    (key : String) (t : Sqlite) (size : ℕ)
    → t.max_cache_size ≡ some size
    → 0 < size
    → length t.entries ≤ size
    → (length (make_room key t).entries ≤ size)
      × ((exists key (make_room key t) ≡ true) ⊎ (length (make_room key t).entries < size))
      × ((make_room key t).max_cache_size ≡ some size)
unfolding make_room
make_room_lem key t size e h b = elim (Bool-cases (leb size (length t.entries))) [
  | inr room ↦ rw (make_room, e, room) (b, inr (ground (arith, room)), e)
  | inl full ↦ elim (Bool-cases (exists key t)) [
    | inl there ↦ rw (make_room, e, full, there) (b, inl there, e)
    | inr fresh ↦
        rw (make_room, e, full, fresh)
          (let less = length-evict (max 1 (size / 4)) t in
            let size_le = leb→le size (length t.entries) full in
            (
              omega (arith, less, b),
              inr (omega (arith, less, b, size_le, h)),
              evict-max_cache_size (max 1 (size / 4)) t ∙ e,
            ))
  ]
]

-- `set` keeps the rows within the limit: eviction precedes the insertion of a new key.
set_entry-IsBounded :
    (n now : ℕ) (key value : String) (tags : List String) (t : Sqlite)
    → IsBounded n t
    → IsBounded n (set_entry now key value tags t)
unfolding set_entry
set_entry-IsBounded n now key value tags t v =
    let (fits, room, limit) = make_room_lem key t n v.limited v.positive v.bounded in
    record {
      limited = limit;
      positive = v.positive;
      bounded = ground (arith, fits, room, length-upsert now key value (make_room key t).entries);
    }

delete_keys-IsBounded :
    (n : ℕ) (p : String → Bool) (t : Sqlite) → IsBounded n t → IsBounded n (delete_keys p t)
delete_keys-IsBounded n p t v = record {
  limited = v.limited;
  positive = v.positive;
  bounded = omega (arith, length-delete_where (λ e. p e.key) t.entries, v.bounded);
}

pub run-IsBounded :
    (n now : ℕ) (r : Request) (t : Sqlite) → IsBounded n t → IsBounded n (run now r t).0
unfolding run get_entry
run-IsBounded n now (set key value tags) t v = set_entry-IsBounded n now key value tags t v
run-IsBounded n now (remove key) t v = delete_keys-IsBounded n (str_eq key) t v
run-IsBounded n now (remove_by_tag tag) t v =
    delete_keys-IsBounded n (λ k. has_row k tag t.tags) t v
run-IsBounded n now clear t v = delete_keys-IsBounded n (λ k. true) t v
run-IsBounded n now (try_get key) t v = elim (Option-cases (find key t.entries)) [
  | inl absent ↦ rw (get_entry, absent) v
  | inr (value, e) ↦
      rw (get_entry, e)
        (record {
          limited = v.limited;
          positive = v.positive;
          bounded = omega (
            arith,
            length-update_where (λ e. str_eq e.key key) (λ e. record e { last_accessed = now })
                t.entries,
            v.bounded,
          );
        })
]

run_all-IsBounded :
    (n : ℕ) (rs : List (ℕ × Request)) (t : Sqlite) → IsBounded n t → IsBounded n (run_all rs t)
unfolding run_all
run_all-IsBounded n [] t v = v
run_all-IsBounded n ((now, r) ∷ rs) t v = run_all-IsBounded n rs _ (run-IsBounded n now r t v)

-- A database that is opened with a size limit above 0 holds at most that many entries after any
-- requests at any times.
pub length-run_all :
    (size : ℕ) (rs : List (ℕ × Request)) (t : Sqlite)
    → 0 < size
    → init (some size) ≡ some t
    → length (run_all rs t).entries ≤ size
unfolding init
length-run_all size rs t h e =
    let start : Sqlite = record { entries = []; tags = []; max_cache_size = some size } in
    let opens : init (some size) ≡ some start = rw (init, lt→ltb 0 size h) refl in
    let same : start ≡ t = ap (λ o. elim o [ none ↦ start | some x ↦ x ]) (sym opens ∙ e) in
    (run_all-IsBounded size rs t (
      subst (IsBounded size) same
        (record { limited = refl; positive = h; bounded = omega arith }))).bounded
