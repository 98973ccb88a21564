-- ===== src/Cache/Store.antt =====
-- crates/proton-sdk-rs2/src/cache.rs: the operations of the trait `CacheRepository` as requests, and
-- what each does to a store of values with tags.
use text.Mathlib.Text.{◌==◌ as str_eq}
use proton_sdk_rs.Prelude.{
  ◌≡◌, String, Bool, true, false, ◌&&◌, ◌||◌, Option, none, some, List, [], ◌∷◌, if◌then◌else◌,
}
use proton_sdk_rs.Prelude.Sets.{contains}

pub data Request : Type 0 where
  set : String → String → List String → Request
  remove : String → Request
  remove_by_tag : String → Request
  clear : Request
  try_get : String → Request

-- The value of each key, and whether it has a tag.
pub record Store : Type 0 where
  pub value : String → Option String
  pub tagged : String → String → Bool

abbrev pub empty : Store
empty = record { value = λ k. none; tagged = λ k t. false }

-- The store after a request.
abbrev pub perform : Request → Store → Store
perform (set key v tags) s = record {
  value = λ k. if str_eq key k then some v else s.value k;
  tagged = λ k t. if str_eq key k then contains t tags else s.tagged k t;
}
perform (remove key) s = record {
  value = λ k. if str_eq key k then none else s.value k;
  tagged = λ k t. if str_eq key k then false else s.tagged k t;
}
perform (remove_by_tag tag) s = record {
  value = λ k. if s.tagged k tag then none else s.value k;
  tagged = λ k t. if s.tagged k tag then false else s.tagged k t;
}
perform clear s = empty
perform (try_get key) s = s

abbrev pub perform_all : List Request → Store → Store
perform_all [] s = s
perform_all (r ∷ rs) s = perform_all rs (perform r s)

-- The value that a request returns: `none` also for those that return nothing.
abbrev pub answer : Request → Store → Option String
answer (try_get key) s = s.value key
answer _ s = none

-- Whether a key has one of the tags, and whether it has all of them.
abbrev pub has_any : Store → String → List String → Bool
has_any s k [] = false
has_any s k (t ∷ ts) = s.tagged k t || has_any s k ts

abbrev pub has_all : Store → String → List String → Bool
has_all s k [] = true
has_all s k (t ∷ ts) = s.tagged k t && has_all s k ts

-- Two stores that no request tells apart.
pub record SameStore (s t : Store) : Type 0 where
  pub values : (k : String) → s.value k ≡ t.value k
  pub tags : (k tag : String) → s.tagged k tag ≡ t.tagged k tag
