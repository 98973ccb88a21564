-- ===== src/Ignore/Nearest.antt =====
-- crates/pdcli/src/fs.rs: which of the rules decides in `is_upload_ignored`.
use proton_sdk_rs.Prelude.{
  ℕ, zero, suc, ◌-◌, ◌≡◌, ◌≢◌, refl, ap, subst, ◌↔◌, inl, inr, Bool, false, none, some, List, [],
  ◌∷◌, ◌++◌, arith, length, drop, leb, ◌==◌, Option-cases,
}
use proton_sdk_rs.Db.Inodes.{InodeRow, Inodes}
use proton_sdk_rs.Db.Inodes.Updates.{inode_path}
use proton_sdk_rs.Ignore.{Text}
use proton_sdk_rs.Ignore.Scopes.{
  Rules, after_my_files, or_one, or_no, parts, matched, scoped_ignored, scope_loop, ignored_on,
  is_upload_ignored,
}

module _ (o : Rules) (db : Inodes) where
  -- No folder of the path has rules that answer for what is below it.
  abbrev pub Silent : Bool → List InodeRow → Type 0
  Silent is_dir [] = Unit {0}
  Silent is_dir (scope ∷ below) =
      (scoped_ignored o db is_dir scope below ≡ none) × Silent is_dir below

  -- The last folder of the path whose rules answer.
  pub record Nearest (is_dir : Bool) (path : List InodeRow) (ignored : Bool) : Type 0 where
    pub before : List InodeRow
    pub scope : InodeRow
    pub below : List InodeRow
    pub split : path ≡ before ++ scope ∷ below
    pub answer : scoped_ignored o db is_dir scope below ≡ some ignored
    pub silent : Silent is_dir below

  pub data Decided (is_dir : Bool) (path : List InodeRow) (global ignored : Bool) : Type 0 where
    by_folder : Nearest is_dir path ignored → Decided is_dir path global ignored
    by_default : Silent is_dir path → ignored ≡ global → Decided is_dir path global ignored

  scope_loop-Silent :
      (is_dir : Bool) (path : List InodeRow) (g : Bool)
      → Silent is_dir path
      → scope_loop o db is_dir path g ≡ g
  unfolding scope_loop
  scope_loop-Silent is_dir [] g q = refl
  scope_loop-Silent is_dir (s ∷ below) g q = rw q.0 (scope_loop-Silent is_dir below g q.1)

  scope_loop_answer :
      (is_dir : Bool) (before below : List InodeRow) (scope : InodeRow) (g b : Bool)
      → scoped_ignored o db is_dir scope below ≡ some b
      → Silent is_dir below
      → scope_loop o db is_dir (before ++ scope ∷ below) g ≡ b
  unfolding scope_loop
  scope_loop_answer is_dir [] below scope g b a q =
      rw (scope_loop, a) (scope_loop-Silent is_dir below b q)
  scope_loop_answer is_dir (r ∷ before) below scope g b a q =
      scope_loop_answer is_dir before below scope _ b a q

  below_row :
      (is_dir : Bool) (r : InodeRow) (path : List InodeRow) (b : Bool)
      → Nearest is_dir path b
      → Nearest is_dir (r ∷ path) b
  below_row is_dir r path b n = record {
    before = r ∷ n.before;
    scope = n.scope;
    below = n.below;
    split = ap (λ (s : List InodeRow). r ∷ s) n.split;
    answer = n.answer;
    silent = n.silent;
  }

  scope_loop-Decided :
      (is_dir : Bool) (path : List InodeRow) (g : Bool)
      → Decided is_dir path g (scope_loop o db is_dir path g)
  unfolding scope_loop
  scope_loop-Decided is_dir [] g = by_default tt refl
  scope_loop-Decided is_dir (r ∷ path) g = elim (Option-cases (scoped_ignored o db is_dir r path)) [
    | inl none_here ↦ rw none_here (elim (scope_loop-Decided is_dir path g) [
      | by_folder n ↦ by_folder (below_row is_dir r path _ n)
      | by_default q e ↦ by_default (none_here, q) e
    ])
    | inr (b, here) ↦ rw here (elim (scope_loop-Decided is_dir path b) [
      | by_folder n ↦ by_folder (below_row is_dir r path _ n)
      | by_default q e ↦ rw e (
          by_folder (record {
            before = [];
            scope = r;
            below = path;
            split = refl;
            answer = here;
            silent = q;
          }))
    ])
  ]

  Decided-scope_loop :
      (is_dir : Bool) (path : List InodeRow) (g b : Bool)
      → Decided is_dir path g b
      → scope_loop o db is_dir path g ≡ b
  Decided-scope_loop is_dir path g b (by_folder n) =
      rw n.split (scope_loop_answer is_dir n.before n.below n.scope g b n.answer n.silent)
  Decided-scope_loop is_dir path g b (by_default q e) = rw e (scope_loop-Silent is_dir path g q)

  parts_full :
      (i : ℕ) (path : List InodeRow) (name : Text) (names : List Text)
      → parts o db (drop i path) ≡ name ∷ names
      → leb (length path) i ≡ false
  unfolding parts
  parts_full zero [] name names h = absurd (ground arith)
  parts_full zero (r ∷ path) name names h = ground arith
  parts_full (suc i) [] name names h = absurd (ground arith)
  parts_full (suc i) (r ∷ path) name names h = ground (arith, parts_full i path name names h)

  -- For a row other than the mount root whose path is found and has names below MyFiles (below the
  -- first row, if no row is named MyFiles), `is_upload_ignored` gives the answer of the `.pdignore` of
  -- the nearest folder on the path whose rules answer, and that of the global rules if no folder's do.
  pub is_upload_ignored_lem :
      (fuel : ℕ) (row : InodeRow) (path : List InodeRow) (name : Text) (names : List Text)
      → (ignored : Bool) → row.ino ≢ 1
      → inode_path fuel row.ino db ≡ some (some path)
      → parts o db (drop (or_one (after_my_files path)) path) ≡ name ∷ names
      → (is_upload_ignored o db fuel row ≡ some ignored)
        ↔ Decided row.is_dir
            (drop (or_one (after_my_files path) - 1) path)
            (or_no (matched o db (name ∷ names) row.is_dir o.global_text))
            ignored
  unfolding is_upload_ignored ignored_on
  is_upload_ignored_lem fuel row path name names ignored other found full =
      let index = or_one (after_my_files path) in
      let global = or_no (matched o db (name ∷ names) row.is_dir o.global_text) in
      let scopes = drop (index - 1) path in
      let long = parts_full index path name names full in
      let root : (row.ino == 1) ≡ false = ground (arith, other) in
      let same : is_upload_ignored o db fuel row ≡ some (scope_loop o db row.is_dir scopes global) =
        rw (is_upload_ignored, root, found, ignored_on, long, full) refl in
      (
        λ h.
            let e : scope_loop o db row.is_dir scopes global ≡ ignored = ground (arith, same, h) in
            subst (Decided row.is_dir scopes global) e
              (scope_loop-Decided row.is_dir scopes global),
        λ d. rw same (ap some (Decided-scope_loop row.is_dir scopes global ignored d)),
      )
