-- ===== src/Ignore/Tests.antt =====
-- The tests of crates/pdcli/src/pdignore.rs with a small glob, and the theorems at concrete inputs.
use Prim.Native.Char.{code}
use Prim.Native.String.{String}
use proton_sdk_rs.Prelude.{
  ℕ, zero, suc, ◌-◌, drop, ◌≡◌, ◌↔◌, refl, Bool, true, false, none, some, List, [], ◌∷◌, ◌&&◌,
  arith, ◌==◌,
}
use proton_sdk_rs.Prelude.Int.{pos}
use proton_sdk_rs.Db.Inodes.{InodeRow, Inodes, new_row, get_inode, lookup_child}
use proton_sdk_rs.Db.Inodes.Updates.{inode_path}
use proton_sdk_rs.Ignore.{
  Text, Glob, Rule, lines, add_ignore_text, check, matches_parent_dir, normalize_path,
}
use proton_sdk_rs.Ignore.Decides.{LastMatch, check_lem}
use proton_sdk_rs.Ignore.Parents.{FittingFolder, matches_parent_dir_lem}
use proton_sdk_rs.Ignore.Scopes.{
  Rules, is_upload_ignored, after_my_files, or_one, parts, or_no, matched,
}
use proton_sdk_rs.Ignore.Nearest.{Decided, is_upload_ignored_lem}

abbrev codes : String → List ℕ
codes String.[] = []
codes (String.◌∷◌ c s) = code c ∷ codes s

abbrev text_eq : Text → Text → Bool
text_eq [] [] = true
text_eq (a ∷ s) (b ∷ t) = a == b && text_eq s t
text_eq _ _ = false

-- A path at the fuel, a star for a name's characters and two for any.
abbrev star_fits : ℕ → Text → Text → Bool
star_fits zero p s = false
star_fits (suc n) [] [] = true
star_fits (suc n) [] (c ∷ s) = false
star_fits (suc n) (p ∷ ps) [] = p == b'*' && star_fits n ps []
star_fits (suc n) (p ∷ ps) (c ∷ s) = elim (p == b'*') [
  | true ↦ elim (star_fits n ps (c ∷ s)) [ true ↦ true | false ↦ star_fits n (p ∷ ps) s ]
  | false ↦ elim (p == c) [ true ↦ star_fits n ps s | false ↦ false ]
]

abbrev some_glob : Glob
some_glob pattern = some (star_fits 60 pattern)

abbrev logs : List Rule
logs = add_ignore_text some_glob [] (codes "*.log\nbuild/\r\n!keep.log\n# no rule\n")

parsed_lines : lines (codes "a\r\n\nb") ≡ codes "a" ∷ [] ∷ codes "b" ∷ []
unfolding lines
parsed_lines = refl

log_ignored : check logs (codes "app.log") false ≡ some true
unfolding check add_ignore_text
log_ignored = refl

kept_log : check logs (codes "keep.log") false ≡ some false
unfolding check add_ignore_text
kept_log = refl

below_build : check logs (codes "build/output.o") false ≡ some true
unfolding check add_ignore_text
below_build = refl

check_lem_example :
    (check logs (codes "app.log") false ≡ some true)
    ↔ LastMatch logs (normalize_path (codes "app.log")) false true
check_lem_example = check_lem logs (codes "app.log") false true

abbrev build_rule : Rule
build_rule = record {
  negated = false;
  dir_only = true;
  matchers = star_fits 60 (codes "build") ∷ [];
}

matches_parent_dir_lem_example :
    (matches_parent_dir build_rule (codes "build/output.o") ≡ true)
    ↔ FittingFolder build_rule.matchers (normalize_path (codes "build/output.o"))
matches_parent_dir_lem_example = matches_parent_dir_lem build_rule (codes "build/output.o")

abbrev row : ℕ → ℕ → String → Bool → InodeRow
row ino parent name is_dir = new_row ino parent name none none none is_dir (pos 0)

-- MyFiles, with a `.pdignore` in its folder `work`, and a file there.
abbrev mounted : Inodes
mounted = record {
  rows =
      row 1 1 "" true
      ∷ row 2 1 "MyFiles" true
      ∷ row 3 2 "work" true
      ∷ record (row 4 3 ".pdignore" false) { cached_path = some "rules" }
      ∷ row 5 3 "app.log" false
      ∷ [];
  next_ino = 6;
}

abbrev rules : Rules
rules = record {
  text_of = codes;
  glob = some_glob;
  global_text = codes "*.log\n";
  read_to_string = λ path. some (codes "!app.log\n");
}

abbrev file_path : List InodeRow
file_path =
    row 1 1 "" true ∷ row 2 1 "MyFiles" true ∷ row 3 2 "work" true ∷ row 5 3 "app.log" false ∷ []

file_path_found : inode_path 10 5 mounted ≡ some (some file_path)
unfolding inode_path get_inode
file_path_found = refl

kept_by_folder : is_upload_ignored rules mounted 10 (row 5 3 "app.log" false) ≡ some false
unfolding is_upload_ignored inode_path get_inode lookup_child check add_ignore_text
kept_by_folder = refl

named_below :
    parts rules mounted (drop (or_one (after_my_files file_path)) file_path)
    ≡ codes "work" ∷ codes "app.log" ∷ []
unfolding parts after_my_files
named_below = refl

is_upload_ignored_lem_example :
    (is_upload_ignored rules mounted 10 (row 5 3 "app.log" false) ≡ some false)
    ↔ Decided rules mounted false
        (drop (or_one (after_my_files file_path) - 1) file_path)
        (or_no
          (matched rules mounted (codes "work" ∷ codes "app.log" ∷ []) false (codes "*.log\n")))
        false
is_upload_ignored_lem_example =
    is_upload_ignored_lem rules mounted 10 (row 5 3 "app.log" false) file_path (codes "work")
      (codes "app.log" ∷ []) false (λ e. absurd (omega arith)) file_path_found named_below
