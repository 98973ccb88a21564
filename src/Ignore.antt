-- ===== src/Ignore.antt =====
-- crates/pdcli/src/pdignore.rs: the rules that keep files from being uploaded. A text is the list of
-- its code points. The patterns themselves are those of the crate `globset`: a glob is a parameter that
-- compiles a text to the test of a path, or refuses it.
pub mod Scopes
pub mod Nearest
pub mod Decides
pub mod Parents
mod Tests
use proton_sdk_rs.Prelude.{
  ℕ, zero, suc, Bool, true, false, not, ◌&&◌, ◌||◌, Option, none, some, List, [], ◌∷◌, ◌++◌, map,
  length, ==_iff, leb, ◌==◌, if◌then◌else◌,
}

abbrev pub Text : Type 0
Text = List ℕ

abbrev pub is_empty : Text → Bool
is_empty [] = true
is_empty (c ∷ s) = false

abbrev pub is_slash : ℕ → Bool
is_slash c = c == b'/'

-- `char::is_whitespace`: White_Space of Unicode
abbrev pub is_whitespace : ℕ → Bool
is_whitespace c =
    (leb 9 c && leb c 13)
    || c == 32
    || c == 133
    || c == 160
    || c == 5760
    || (leb 8192 c && leb c 8202)
    || c == 8232
    || c == 8233
    || c == 8239
    || c == 8287
    || c == 12288

unfoldable pub trim_start : (ℕ → Bool) → Text → Text
trim_start p [] = []
trim_start p (c ∷ s) = if p c then trim_start p s else c ∷ s

unfoldable pub trim_end : (ℕ → Bool) → Text → Text
trim_end p [] = []
trim_end p (c ∷ s) = let rest = trim_end p s in if is_empty rest && p c then [] else c ∷ rest

abbrev add_char : ℕ → List Text → List Text
add_char c [] = (c ∷ []) ∷ []
add_char c (line ∷ rest) = (c ∷ line) ∷ rest

abbrev starts_with : ℕ → Text → Bool
starts_with p [] = false
starts_with p (c ∷ s) = p == c

abbrev ends_with : ℕ → Text → Bool
ends_with p [] = false
ends_with p (c ∷ []) = p == c
ends_with p (c ∷ d ∷ s) = ends_with p (d ∷ s)

abbrev contains : ℕ → Text → Bool
contains p [] = false
contains p (c ∷ s) = p == c || contains p s

-- `str::lines`: a line ends in LF or CR LF.
unfoldable pub lines : Text → List Text
lines [] = []
lines (c ∷ s) =
    let rest = lines s in
    if c == 10 then [] ∷ rest else if c == 13 && starts_with 10 s then rest else add_char c rest

abbrev strip_prefix : Text → Text → Option Text
strip_prefix [] s = some s
strip_prefix (p ∷ ps) [] = none
strip_prefix (p ∷ ps) (c ∷ s) = let rest = strip_prefix ps s in if p == c then rest else none

abbrev replace : ℕ → ℕ → Text → Text
replace from to [] = []
replace from to (c ∷ s) = (if c == from then to else c) ∷ replace from to s

unfoldable pub normalize_path : Text → Text
unfolding trim_start trim_end
normalize_path path = trim_start is_slash (trim_end is_slash (replace b'\\' b'/' path))

pub record Rule : Type 0 where
  pub negated : Bool
  pub dir_only : Bool
  pub matchers : List (Text → Bool)

abbrev pub any_match : List (Text → Bool) → Text → Bool
any_match [] path = false
any_match (m ∷ ms) path = m path || any_match ms path

abbrev behind : ℕ → Option Text → Option Text
behind c none = if is_slash c then some [] else none
behind c (some q) = some (c ∷ q)

-- The first part that `rsplit_once('/')` gives.
unfoldable pub parent_of : Text → Option Text
parent_of [] = none
parent_of (c ∷ s) = behind c (parent_of s)

-- The loop of `Rule::matches_parent_dir`, on fuel.
unfoldable pub parent_loop : ℕ → List (Text → Bool) → Text → Bool
unfolding parent_of
parent_loop zero matchers parent = false
parent_loop (suc fuel) matchers parent = elim (parent_of parent) [
  | none ↦ false
  | some [] ↦ false
  | some (c ∷ q) ↦
      let above = parent_loop fuel matchers (c ∷ q) in
      if any_match matchers (c ∷ q) then true else above
]

unfoldable pub matches_parent_dir : Rule → Text → Bool
unfolding parent_loop normalize_path
matches_parent_dir rule path =
    let parent = normalize_path path in parent_loop (suc (length parent)) rule.matchers parent

unfoldable pub matches : Rule → Text → Bool → Bool
unfolding matches_parent_dir
matches rule path is_dir =
    if rule.dir_only && not is_dir && not (matches_parent_dir rule path)
    then false
    else any_match rule.matchers path

abbrev or_same : Option Text → Text → Text
or_same none s = s
or_same (some rest) s = rest

abbrev strip_negation : Text → Bool × Text
strip_negation pattern = elim (strip_prefix (b'!' ∷ []) pattern) [
  | some rest ↦ (true, rest)
  | none ↦ (false, or_same (strip_prefix (b'\\' ∷ b'!' ∷ []) pattern) pattern)
]

abbrev strip_hash : Text → Text
strip_hash pattern = or_same (strip_prefix (b'\\' ∷ b'#' ∷ []) pattern) pattern

abbrev anywhere : Text → Text
anywhere pattern = b'*' ∷ b'*' ∷ b'/' ∷ pattern

abbrev below : Text → Text
below pattern = pattern ++ b'/' ∷ b'*' ∷ b'*' ∷ []

abbrev name_patterns : Bool → Text → List Text
name_patterns anchored pattern =
    if anchored || contains b'/' pattern
    then pattern ∷ (if anchored then [] else anywhere pattern ∷ [])
    else pattern ∷ anywhere pattern ∷ []

abbrev rule_patterns : Bool → Bool → Text → List Text
rule_patterns anchored dir_only pattern =
    let patterns = name_patterns anchored pattern in
    if dir_only then patterns ++ map below patterns else patterns

abbrev pub Glob : Type 0
Glob = Text → Option (Text → Bool)

module _ (glob : Glob) where
  abbrev keep_some : Option (Text → Bool) → List (Text → Bool) → List (Text → Bool)
  keep_some none ms = ms
  keep_some (some m) ms = m ∷ ms

  abbrev compile : List Text → List (Text → Bool)
  compile [] = []
  compile (p ∷ ps) = keep_some (glob p) (compile ps)

  abbrev made : Bool → Bool → List (Text → Bool) → Option Rule
  made negated dir_only [] = none
  made negated dir_only (m ∷ ms) =
      some (record { negated = negated; dir_only = dir_only; matchers = m ∷ ms })

  -- The part after the marks `!` and `#`.
  abbrev pattern_rule : Bool → Text → Option Rule
  pattern_rule negated pattern =
      let dir_only = ends_with b'/' pattern in
      let inner = trim_start is_slash (trim_end is_slash pattern) in
      if is_empty inner
      then none
      else made negated dir_only (compile (rule_patterns (starts_with b'/' pattern) dir_only inner))

  unfoldable pub parse_rule : Text → Option Rule
  unfolding trim_start trim_end
  parse_rule line =
      let pattern = trim_end is_whitespace line in
      let (negated, rest) = strip_negation pattern in
      if is_empty pattern || starts_with b'#' pattern
      then none
      else pattern_rule negated (strip_hash rest)

  abbrev push_rule : Option Rule → List Rule → List Rule
  push_rule none rules = rules
  push_rule (some rule) rules = rule ∷ rules

  abbrev rules_of : List Text → List Rule
  rules_of [] = []
  rules_of (line ∷ ls) = push_rule (parse_rule line) (rules_of ls)

  -- The rules after `add_ignore_text`.
  unfoldable pub add_ignore_text : List Rule → Text → List Rule
  unfolding parse_rule lines
  add_ignore_text rules text = rules ++ rules_of (lines text)

unfoldable pub check_loop : List Rule → Text → Bool → Option Bool → Option Bool
unfolding matches
check_loop [] path is_dir ignored = ignored
check_loop (rule ∷ rules) path is_dir ignored =
    check_loop rules path is_dir
      (if matches rule path is_dir then some (not rule.negated) else ignored)

unfoldable pub check : List Rule → Text → Bool → Option Bool
unfolding check_loop normalize_path
check rules path is_dir = check_loop rules (normalize_path path) is_dir none
