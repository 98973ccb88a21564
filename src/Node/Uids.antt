-- ===== src/Node/Uids.antt =====
-- crates/proton-drive-sdk/src/node/mod.rs and node/revision.rs: `NodeUid` and `RevisionUid` as texts.
-- An id (`define_id!` of utils.rs) is its text.
use Prim.Native.Char.{Char, char, code}
use Prim.Native.String.{String, [], ◌∷◌, ◌++◌}
use text.Mathlib.TextLemmas.{nil-append, cons-append}
use text.Mathlib.TextEquality.{Char-path}
use proton_sdk_rs.Prelude.{
  ◌≡◌, refl, ap, ◌∙◌, inl, inr, Bool, true, false, Option, none, some, arith, ◌==◌, if◌then◌else◌,
  Option-cases, Bool-cases,
}

abbrev tilde : String
tilde = "~"

abbrev is_tilde : Char → Bool
is_tilde c = code c == 126

abbrev before : Char → Option (String × String) → Option (String × String)
before c none = none
before c (some (s, t)) = some (c ∷ s, t)

-- `split_once('~')`
unfoldable pub split_once : String → Option (String × String)
split_once [] = none
split_once (c ∷ s) = let rest = split_once s in if is_tilde c then some ([], s) else before c rest

abbrev or_else : Option (String × String) → Option (String × String) → Option (String × String)
or_else none o = o
or_else (some p) o = some p

-- `rsplitn(2, '~')` with its two parts in the order of the text
unfoldable pub split_last : String → Option (String × String)
split_last [] = none
split_last (c ∷ s) = or_else (before c (split_last s)) (if is_tilde c then some ([], s) else none)

pub record NodeUid : Type 0 where
  pub volume_id : String
  pub link_id : String

pub record RevisionUid : Type 0 where
  pub node_uid : NodeUid
  pub revision_id : String

unfoldable pub raw : NodeUid → String
raw uid = uid.volume_id ++ tilde ++ uid.link_id

-- `Display` of a revision
unfoldable pub revision_text : RevisionUid → String
unfolding raw
revision_text uid = raw uid.node_uid ++ tilde ++ uid.revision_id

unfoldable pub parse : String → Option NodeUid
unfolding split_once
parse s = elim (split_once s) [
  | none ↦ none
  | some (volume, link) ↦ some (record { volume_id = volume; link_id = link })
]

unfoldable pub parse_revision : String → Option RevisionUid
unfolding split_last parse
parse_revision s = elim (split_last s) [
  | none ↦ none
  | some (node_uid_str, revision_id) ↦ elim (parse node_uid_str) [
    | none ↦ none
    | some node_uid ↦ some (record { node_uid = node_uid; revision_id = revision_id })
  ]
]

abbrev pub has_tilde : String → Bool
has_tilde [] = false
has_tilde (c ∷ s) = let rest = has_tilde s in if is_tilde c then true else rest

tilde-append : (t : String) → tilde ++ t ≡ char 126 tt ∷ t
tilde-append t = cons-append (char 126 tt) [] t ∙ ap (λ s. char 126 tt ∷ s) (nil-append t)

between : (c : Char) (s t : String) → (c ∷ s) ++ tilde ++ t ≡ c ∷ (s ++ tilde ++ t)
between c s t = cons-append c s (tilde ++ t)

split_once-append :
    (s t : String) → has_tilde s ≡ false → split_once (s ++ tilde ++ t) ≡ some (s, t)
unfolding split_once
split_once-append [] t h = rw (nil-append, tilde-append t) refl
split_once-append (c ∷ s) t h = rw (between c s t) (ground (arith, split_once-append s t, h))

split_last_absent : (s : String) → has_tilde s ≡ false → split_last s ≡ none
unfolding split_last
split_last_absent [] h = refl
split_last_absent (c ∷ s) h = ground (arith, split_last_absent s)

split_last-append :
    (s t : String) → has_tilde t ≡ false → split_last (s ++ tilde ++ t) ≡ some (s, t)
unfolding split_last
split_last-append [] t h = rw (nil-append, tilde-append t) (ground (arith, split_last_absent t h))
split_last-append (c ∷ s) t h = rw (between c s t) (ground (arith, split_last-append s t h))

tilde_first : (c : Char) (s : String) → is_tilde c ≡ true → [] ++ tilde ++ s ≡ c ∷ s
tilde_first c s h =
    nil-append (tilde ++ s)
    ∙ tilde-append s
    ∙ ap (λ d. d ∷ s) (Char-path (char 126 tt) c (ground (arith, h)))

-- What a split gives spells the text.
split_once_joined : (s a b : String) → split_once s ≡ some (a, b) → a ++ tilde ++ b ≡ s
unfolding split_once
split_once_joined [] a b h = absurd (ground (arith, h))
split_once_joined (c ∷ s) a b h = elim (Bool-cases (is_tilde c)) [
  | inl hit ↦ ground (arith, tilde_first c s hit, hit, h)
  | inr miss ↦ elim (Option-cases (split_once s)) [
    | inl last ↦ absurd (ground (arith, miss, last, h))
    | inr ((x, y), e) ↦ ground (arith, miss, e, h, between c x y, split_once_joined s x y e)
  ]
]

split_last_joined : (s a b : String) → split_last s ≡ some (a, b) → a ++ tilde ++ b ≡ s
unfolding split_last
split_last_joined [] a b h = absurd (ground (arith, h))
split_last_joined (c ∷ s) a b h = elim (Option-cases (split_last s)) [
  | inl last ↦ elim (Bool-cases (is_tilde c)) [
    | inl hit ↦ ground (arith, tilde_first c s hit, hit, last, h)
    | inr miss ↦ absurd (ground (arith, miss, last, h))
  ]
  | inr ((x, y), e) ↦ ground (arith, e, h, between c x y, split_last_joined s x y e)
]

raw_of-parse : (s : String) (read : NodeUid) → parse s ≡ some read → raw read ≡ s
unfolding parse raw
raw_of-parse s read e = elim (Option-cases (split_once s)) [
  | inl absent ↦ absurd (ground (arith, absent, e))
  | inr ((a, b), split) ↦ ground (arith, split, e, split_once_joined s a b split)
]

revision_text_of-parse :
    (s : String) (read : RevisionUid) → parse_revision s ≡ some read → revision_text read ≡ s
unfolding parse_revision revision_text
revision_text_of-parse s read e = elim (Option-cases (split_last s)) [
  | inl absent ↦ absurd (ground (arith, absent, e))
  | inr ((a, b), split) ↦ elim (Option-cases (parse a)) [
    | inl absent ↦ absurd (ground (arith, split, absent, e))
    | inr (uid, parsed) ↦
        ground (arith, split, parsed, e, split_last_joined s a b split, raw_of-parse a uid parsed)
  ]
]

-- Reading the text of a node UID gives the UID back if its volume id has no tilde, and what is read
-- has the text that was read.
pub parse-raw :
    (uid : NodeUid) (s : String)
    → has_tilde uid.volume_id ≡ false
    → (parse (raw uid) ≡ some uid) × ((read : NodeUid) → parse s ≡ some read → raw read ≡ s)
unfolding parse raw
parse-raw uid s h = (rw (parse, split_once-append uid.volume_id uid.link_id h) refl, raw_of-parse s)

-- Reading the text of a revision UID gives the UID back if neither its volume id nor its revision id
-- has a tilde, and what is read has the text that was read.
pub parse_revision-revision_text :
    (uid : RevisionUid) (s : String)
    → has_tilde uid.node_uid.volume_id ≡ false
    → has_tilde uid.revision_id ≡ false
    → (parse_revision (revision_text uid) ≡ some uid)
      × ((read : RevisionUid) → parse_revision s ≡ some read → revision_text read ≡ s)
unfolding parse_revision revision_text
parse_revision-revision_text uid s v r = (
  rw
      (
        parse_revision,
        split_last-append (raw uid.node_uid) uid.revision_id r,
        (parse-raw uid.node_uid "" v).0,
      )
      refl,
  revision_text_of-parse s,
)
