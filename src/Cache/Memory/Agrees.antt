-- ===== src/Cache/Memory/Agrees.antt =====
-- crates/proton-sdk-rs2/src/cache.rs: the two indexes of the in-memory repository agree after every
-- operation.
use text.Mathlib.Text.{◌==◌ as str_eq}
use text.Mathlib.TextEquality.{eq_iff}
use proton_sdk_rs.Prelude.{
  ◌≡◌, refl, String, Bool, false, not, ◌&&◌, ◌||◌, inl, inr, Option, none, List, [], ◌∷◌, arith,
  if◌then◌else◌, Option-cases,
}
use proton_sdk_rs.Prelude.Sets.{
  contains, add, to_set, put, erase, contains-remove, contains-add, contains-to_set,
  contains-append,
}
use proton_sdk_rs.Prelude.Sets as Sets
use proton_sdk_rs.Cache.Store.{Store}
use proton_sdk_rs.Cache.Memory.{
  Memory, some_or_empty, unlink, link, untag, set_entry, remove_entry, remove_entries, remove_tag,
}

-- The members of the set under a text.
abbrev pub at : (String → Option (List String)) → String → List String
at m t = some_or_empty (m t)

pub unlink_lem :
    (key k t : String) (tags : List String) (m : String → Option (List String))
    → contains k (at (unlink key tags m) t)
      ≡ (contains k (at m t) && not (str_eq key k && contains t tags))
unfolding unlink
unlink_lem key k t [] m = ground arith
unlink_lem key k t (tag ∷ tags) m = elim (Option-cases (m tag)) [
  | inl absent ↦ rw (unlink, absent) (ground (arith, unlink_lem key k t tags m, eq_iff tag t))
  | inr (keys, e) ↦
      rw (unlink, e)
        (ground (
          arith,
          unlink_lem key k t tags (put tag (Sets.remove key keys) m),
          contains-remove k key keys,
          eq_iff tag t,
        ))
]

pub link_lem :
    (key k t : String) (tags : List String) (m : String → Option (List String))
    → contains k (at (link key tags m) t)
      ≡ (contains k (at m t) || (str_eq key k && contains t tags))
unfolding link
link_lem key k t [] m = ground arith
link_lem key k t (tag ∷ tags) m = ground (
  arith,
  link_lem key k t tags (put tag (add key (some_or_empty (m tag))) m),
  contains-add k key (some_or_empty (m tag)),
  eq_iff tag t,
)

-- The two indexes agree, but that no key is listed under a tag that is gone.
abbrev pub Agrees : (String → Bool) → Memory → Type 0
Agrees gone m =
    (k t : String)
    → contains k (at m.tag_to_keys t) ≡ (not (gone t) && contains t (at m.key_to_tags k))

abbrev pub none_gone : String → Bool
none_gone t = false

abbrev pub store_of : Memory → Store
store_of m = record { value = m.entries; tagged = λ k t. contains t (at m.key_to_tags k) }

pub untag-Agrees :
    (gone : String → Bool) (key : String) (m : Memory) → Agrees gone m → Agrees gone (untag key m)
unfolding untag
untag-Agrees gone key m v k t =
    ground
      (arith, unlink_lem key k t (at m.key_to_tags key) m.tag_to_keys, v k t, v key t, eq_iff key k)

pub untag-entries : (key : String) (m : Memory) (k : String) → (untag key m).entries k ≡ m.entries k
unfolding untag
untag-entries key m k = refl

pub untag_lem :
    (key k t : String) (m : Memory)
    → contains t (at (untag key m).key_to_tags k)
      ≡ (not (str_eq key k) && contains t (at m.key_to_tags k))
unfolding untag
untag_lem key k t m = ground arith

pub set_entry-Agrees :
    (key value : String) (tags : List String) (m : Memory)
    → Agrees none_gone m
    → Agrees none_gone (set_entry key value tags m)
unfolding set_entry
set_entry-Agrees key value tags m v k t = ground (
  arith,
  link_lem key k t (to_set tags) (untag key m).tag_to_keys,
  untag-Agrees none_gone key m v k t,
  untag_lem key k t m,
)

pub remove_entries-Agrees :
    (gone : String → Bool) (keys : List String) (m : Memory)
    → Agrees gone m
    → Agrees gone (remove_entries keys m)
unfolding remove_entries remove_entry
remove_entries-Agrees gone [] m v = v
remove_entries-Agrees gone (key ∷ keys) m v =
    remove_entries-Agrees gone keys _
      (untag-Agrees gone key (record m { entries = erase key m.entries }) v)

pub remove_entries_lem :
    (keys : List String) (m : Memory) (k t : String)
    → ((remove_entries keys m).entries k ≡ (if contains k keys then none else m.entries k))
      × (contains t (at (remove_entries keys m).key_to_tags k)
          ≡ (not (contains k keys) && contains t (at m.key_to_tags k)))
unfolding remove_entries remove_entry untag
remove_entries_lem [] m k t = (refl, refl)
remove_entries_lem (key ∷ keys) m k t =
    ground
      (arith, remove_entries_lem keys (untag key (record m { entries = erase key m.entries })) k t)

-- A tag is removed with its keys: then no key has it.
pub remove_tag-Agrees :
    (tag : String) (m : Memory)
    → Agrees none_gone m
    → Agrees none_gone (remove_tag tag m)
      × ((k t : String)
          → ((remove_tag tag m).entries k
              ≡ (if contains tag (at m.key_to_tags k) then none else m.entries k))
            × (contains t (at (remove_tag tag m).key_to_tags k)
                ≡ (not (contains tag (at m.key_to_tags k)) && contains t (at m.key_to_tags k))))
unfolding remove_tag
remove_tag-Agrees tag m v = elim (Option-cases (m.tag_to_keys tag)) [
  | inl absent ↦ rw (remove_tag, absent) (v, λ k t. ground (arith, v k tag, absent))
  | inr (keys, e) ↦
      let start : Memory = record m { tag_to_keys = erase tag m.tag_to_keys } in
      let gone_first : Agrees (str_eq tag) start = λ k t. ground (arith, v k t) in
      let gone = remove_entries-Agrees (str_eq tag) keys start gone_first in
      let listed : (k : String) → contains k keys ≡ contains tag (at m.key_to_tags k) =
        λ k. ground (arith, v k tag, e) in
      rw (remove_tag, e)
        (
          λ k t.
              ground
                (arith, gone k t, (remove_entries_lem keys start k t).1, listed k, eq_iff tag t),
          λ k t. ground (arith, remove_entries_lem keys start k t, listed k),
        )
]
