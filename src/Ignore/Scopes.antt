-- ===== src/Ignore/Scopes.antt =====
-- crates/pdcli/src/fs.rs: `is_upload_ignored`, which asks the global rules and then the `.pdignore` of
-- every folder on the way down to the file. Globs and the texts of files are parameters.
use text.Mathlib.Text.{◌==◌ as str_eq}
use mathlib.Core.Option as Option
use proton_sdk_rs.Prelude.{
  ℕ, suc, ◌-◌, String, Bool, false, Option, none, some, List, [], ◌∷◌, ◌++◌, length, drop, leb,
  ◌==◌, if◌then◌else◌,
}
use proton_sdk_rs.Db.Inodes.{InodeRow, Inodes, lookup_child}
use proton_sdk_rs.Db.Inodes.Updates.{inode_path}
use proton_sdk_rs.Ignore.{Text, Glob, is_empty, add_ignore_text, check}

-- What the function reads from outside: the code points of a name, the globs, the text of the global
-- rules, and the text of a file that can be read.
pub record Rules : Type 0 where
  pub text_of : String → Text
  pub glob : Glob
  pub global_text : Text
  pub read_to_string : String → Option Text

abbrev next_index : Option ℕ → Option ℕ
next_index none = none
next_index (some i) = some (suc i)

-- `position` of the row named MyFiles, plus 1
unfoldable pub after_my_files : List InodeRow → Option ℕ
after_my_files [] = none
after_my_files (r ∷ path) =
    let rest = after_my_files path in if str_eq r.name "MyFiles" then some 1 else next_index rest

abbrev pub or_one : Option ℕ → ℕ
or_one none = 1
or_one (some i) = i

abbrev pub or_no : Option Bool → Bool
or_no none = false
or_no (some b) = b

-- `join("/")`
unfoldable pub join : List Text → Text
join [] = []
join (t ∷ []) = t
join (t ∷ u ∷ ts) = t ++ b'/' ∷ join (u ∷ ts)

module _ (o : Rules) (db : Inodes) where
  abbrev keep_full : Text → List Text → List Text
  keep_full t ts = if is_empty t then ts else t ∷ ts

  -- The names that are not empty.
  unfoldable pub parts : List InodeRow → List Text
  parts [] = []
  parts (r ∷ path) = keep_full (o.text_of r.name) (parts path)

  abbrev pub matched : List Text → Bool → Text → Option Bool
  matched names is_dir text = check (add_ignore_text o.glob [] text) (join names) is_dir

  abbrev opinion_of_row : List Text → Bool → Option InodeRow → Option Bool
  opinion_of_row names is_dir none = none
  opinion_of_row names is_dir (some ignore_row) = elim ignore_row.cached_path [
    | none ↦ none
    | some ignore_path ↦ elim (o.read_to_string ignore_path) [
      | none ↦ none
      | some text ↦ matched names is_dir text
    ]
  ]

  -- What the `.pdignore` of a folder says of the path below it.
  unfoldable pub scoped_ignored : Bool → InodeRow → List InodeRow → Option Bool
  scoped_ignored is_dir scope [] = none
  scoped_ignored is_dir scope (r ∷ below) = elim (parts (r ∷ below)) [
    | [] ↦ none
    | name ∷ names ↦
        if scope.is_dir
        then opinion_of_row (name ∷ names) is_dir (lookup_child scope.ino ".pdignore" db)
        else none
  ]

  abbrev pub override : Option Bool → Bool → Bool
  override none ignored = ignored
  override (some b) ignored = b

  -- The loop over the folders, from the top: the last row of the path is no scope.
  unfoldable pub scope_loop : Bool → List InodeRow → Bool → Bool
  unfolding scoped_ignored
  scope_loop is_dir [] ignored = ignored
  scope_loop is_dir (scope ∷ below) ignored =
      scope_loop is_dir below (override (scoped_ignored is_dir scope below) ignored)

  unfoldable pub ignored_on : InodeRow → List InodeRow → Bool
  unfolding after_my_files parts scope_loop join
  ignored_on row path =
      let index = or_one (after_my_files path) in
      let relative_parts = parts (drop index path) in
      if leb (length path) index then false else elim relative_parts [
        | [] ↦ false
        | name ∷ names ↦
            scope_loop row.is_dir (drop (index - 1) path)
              (or_no (matched (name ∷ names) row.is_dir o.global_text))
      ]

  abbrev when_found : InodeRow → Option (List InodeRow) → Bool
  when_found row none = false
  when_found row (some path) = ignored_on row path

  -- `none` means that the loop of `inode_path` has not ended on the fuel.
  unfoldable pub is_upload_ignored : ℕ → InodeRow → Option Bool
  unfolding ignored_on
  is_upload_ignored fuel row =
      if row.ino == 1 then some false else Option.map (when_found row) (inode_path fuel row.ino db)
