-- ===== src/Cache/Sqlite/Tags.antt =====
-- crates/proton-drive-sdk/src/cache/sqlite.rs: `get_by_tags` counts the distinct tags of each key.
use text.Mathlib.TextEquality.{eq_iff}
use text.Mathlib.TextPositions.{eq_refl}
use proton_sdk_rs.Prelude.{
  ℕ, suc, ◌+◌, ◌≤◌, ◌≡◌, refl, String, Bool, true, false, not, ◌&&◌, none, List, [], ◌∷◌, map,
  arith, if◌then◌else◌, ltb, ltb→lt, ◌==◌, length, select_where,
}
use proton_sdk_rs.Prelude.Sets.{contains, remove, to_set, contains-remove, contains-to_set}
use proton_sdk_rs.Cache.Store.{Request, Store, empty, perform_all, has_all, SameStore}
use proton_sdk_rs.Cache.Memory.Refines.{lookup}
use proton_sdk_rs.Cache.Sqlite.{Entry, Sqlite, has_row, find, run_all, asked, fits, get_by_tags}
use proton_sdk_rs.Cache.Sqlite.Refines.{store_of, untimed, opened, run_all-SameStore}

abbrev pub distinct : List String → Bool
distinct [] = true
distinct (s ∷ ss) = not (contains s ss) && distinct ss

-- How many of the first texts are among the second.
abbrev hits : List String → List String → ℕ
hits [] ss = 0
hits (d ∷ ds) ss = let rest = hits ds ss in if contains d ss then suc rest else rest

to_set-distinct : (ss : List String) → distinct (to_set ss) ≡ true
to_set-distinct [] = refl
to_set-distinct (s ∷ ss) = ground (arith, to_set-distinct ss)

remove-distinct :
    (k : String) (ss : List String) → distinct ss ≡ true → distinct (remove k ss) ≡ true
remove-distinct k [] h = refl
remove-distinct k (s ∷ ss) h =
    ground (arith, remove-distinct k ss, contains-remove s k ss, eq_iff s k, eq_iff k s)

remove_absent : (k : String) (ss : List String) → contains k ss ≡ false → remove k ss ≡ ss
remove_absent k [] h = refl
remove_absent k (s ∷ ss) h = ground (arith, remove_absent k ss)

length-remove :
    (k : String) (ss : List String)
    → distinct ss ≡ true
    → length ss ≡ length (remove k ss) + (if contains k ss then 1 else 0)
length-remove k [] h = refl
length-remove k (s ∷ ss) h = ground (arith, length-remove k ss, remove_absent k ss, eq_iff s k)

hits-remove :
    (k : String) (ds ss : List String) → contains k ds ≡ false → hits ds (remove k ss) ≡ hits ds ss
hits-remove k [] ss h = refl
hits-remove k (d ∷ ds) ss h =
    ground (arith, hits-remove k ds ss, contains-remove d k ss, eq_iff d k, eq_iff k d)

-- A set of some of the texts has as many members as it hits.
length-hits :
    (ds ss : List String)
    → distinct ds ≡ true
    → distinct ss ≡ true
    → ((k : String) → contains k ss ≡ true → contains k ds ≡ true)
    → length ss ≡ hits ds ss
length-hits [] [] d h sub = refl
length-hits [] (s ∷ ss) d h sub = ground (arith, sub s, eq_refl s)
length-hits (k ∷ ds) ss d h sub =
    let sub_rest : (j : String) → contains j (remove k ss) ≡ true → contains j ds ≡ true =
      λ j e. ground (arith, contains-remove j k ss, sub j, eq_iff k j, eq_iff j k, e) in
    ground (
      arith,
      length-hits ds (remove k ss) (ground arith) (remove-distinct k ss h) sub_rest,
      remove-distinct k ss,
      length-remove k ss,
      hits-remove k ds ss,
    )

contains-asked :
    (tags : List String) (key tag : String) (rows : List (String × String))
    → contains tag (asked tags key rows) ≡ (contains tag tags && has_row key tag rows)
contains-asked tags key tag [] = ground arith
contains-asked tags key tag ((t, k) ∷ rows) =
    ground (arith, contains-asked tags key tag rows, eq_iff t tag)

hits-has_all :
    (tags ss : List String) (s : Store) (k : String)
    → ((t : String) → contains t tags ≡ true → contains t ss ≡ s.tagged k t)
    → (hits tags ss ≤ length tags) × ((hits tags ss == length tags) ≡ has_all s k tags)
hits-has_all [] ss s k h = (omega arith, refl)
hits-has_all (t ∷ ts) ss s k h =
    ground (arith, hits-has_all ts ss s k (λ u e. ground (arith, h u, e)), h t, eq_refl t)

fits-has_all :
    (tags : List String) (t : Sqlite) (s : Store) (k : String)
    → distinct tags ≡ true
    → SameStore (store_of t) s
    → fits tags t k ≡ has_all s k tags
fits-has_all tags t s k d h =
    let found = to_set (asked tags k t.tags) in
    let tagged : (u : String) → contains u found ≡ (contains u tags && s.tagged k u) = λ u. ground (
      arith,
      contains-to_set u (asked tags k t.tags),
      contains-asked tags k u t.tags,
      h.tags k u,
    ) in
    ground (
      arith,
      length-hits tags found d (to_set-distinct (asked tags k t.tags))
          (λ u e. ground (arith, tagged u)),
      hits-has_all tags found s k (λ u e. ground (arith, tagged u, e)),
    )

lookup_selected :
    (p : String → Bool) (k : String) (es : List Entry)
    → lookup k (map (λ e. (e.key, e.value)) (select_where (λ e. p e.key) es))
      ≡ (if p k then find k es else none)
lookup_selected p k [] = ground arith
lookup_selected p k (e ∷ es) = ground (arith, lookup_selected p k es, eq_iff e.key k)

-- Without a size limit, after any requests at any times, `get_by_tags` with tags of which no two are
-- equal and which are not empty gives a key exactly when it has a value and ALL of the tags.
pub get_by_tags-has_all :
    (rs : List (ℕ × Request)) (tags : List String) (k : String)
    → ltb 0 (length tags) ≡ true
    → distinct tags ≡ true
    → let s = perform_all (untimed rs) empty in
      lookup k (get_by_tags tags (run_all rs opened))
      ≡ (if has_all s k tags then s.value k else none)
unfolding get_by_tags
get_by_tags-has_all rs [] k n d = absurd (omega (arith, ltb→lt 0 0 n))
get_by_tags-has_all rs (tag ∷ tags) k n d =
    let t = run_all rs opened in
    ground (
      arith,
      lookup_selected (fits (tag ∷ tags) t) k t.entries,
      fits-has_all (tag ∷ tags) t (perform_all (untimed rs) empty) k d (run_all-SameStore rs),
      (run_all-SameStore rs).values k,
    )
