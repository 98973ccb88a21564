-- ===== src/Db/Inodes/Paths.antt =====
-- crates/pdcli/src/db.rs: `path_components` and `inode_path` against chains of parents.
use mathlib.Core.List.{reverse, reverse-cons, append_assoc}
use proton_sdk_rs.Prelude.{
  ℕ, zero, suc, ◌<◌, ◌≡◌, ◌≢◌, ◌↔◌, refl, sym, ap, ◌∙◌, inl, inr, String, Bool, true, false, ◌||◌,
  none, some, List, [], ◌∷◌, ◌++◌, arith, ◌==◌, length, first_where, Option-cases, Bool-cases,
}
use proton_sdk_rs.Db.Inodes.{InodeRow, Inodes, has_ino, get_inode}
use proton_sdk_rs.Db.Inodes.Updates.{
  path_loop, path_components, max_depth, row_path_loop, inode_path,
}

-- The names from an inode up to the child of the mount root, along the stored parents.
pub data Ancestry (t : Inodes) : ℕ → List String → Type 0 where
  at_root : Ancestry t 1 []
  below :
      {ino : ℕ} {names : List String} (r : InodeRow)
      → ino ≢ 1
      → get_inode ino t ≡ some r
      → Ancestry t r.parent_ino names
      → Ancestry t ino (r.name ∷ names)

reverse_step {ℓ} :
    {A : Type ℓ} (x : A) (xs acc : List A) → reverse (x ∷ xs) ++ acc ≡ reverse xs ++ (x ∷ acc)
reverse_step x xs acc = rw (reverse-cons x xs) (append_assoc (reverse xs) (x ∷ []) acc)

path_loop_complete :
    {t : Inodes} {ino : ℕ} {names : List String} (rounds : ℕ) (acc : List String)
    → Ancestry t ino names
    → length names < rounds
    → path_loop rounds ino acc t ≡ some (reverse names ++ acc)
unfolding path_loop
path_loop_complete zero acc a h = absurd (omega arith)
path_loop_complete (suc n) acc at_root h = refl
path_loop_complete {ino = ino} (suc n) acc (below {names = ns} r ne e a) h =
    let other : (ino == 1) ≡ false = ground arith in
    rw (other, e, reverse_step r.name ns acc) (path_loop_complete n (r.name ∷ acc) a (omega arith))

abbrev Found : Inodes → ℕ → ℕ → List String → List String → Type 0
Found t rounds ino acc out =
    (names : List String) × Ancestry t ino names
    × (out ≡ reverse names ++ acc)
    × (length names < rounds)

path_loop_sound :
    (t : Inodes) (rounds ino : ℕ) (acc out : List String)
    → path_loop rounds ino acc t ≡ some out
    → Found t rounds ino acc out
unfolding path_loop
path_loop_sound t zero ino acc out h = absurd (ground arith)
path_loop_sound t (suc n) ino acc out h = elim (Bool-cases (ino == 1)) [
  | inl here ↦ root_case here
  | inr other ↦ elim (Option-cases (get_inode ino t)) [
    | inl missing ↦ absurd (ground (arith, other, missing))
    | inr (r, e) ↦
        step_case other r e
          (path_loop_sound t n r.parent_ino (r.name ∷ acc) out (ground (arith, other, e, h)))
  ]
]
  where
    root_case : (ino == 1) ≡ true → Found t (suc n) ino acc out
    root_case here =
        let one : ino ≡ 1 = ground arith in ([], rw one at_root, ground (arith, here), omega arith)

    step_case :
        (ino == 1) ≡ false
        → (r : InodeRow) → get_inode ino t ≡ some r
        → Found t n r.parent_ino (r.name ∷ acc) out
        → Found t (suc n) ino acc out
    step_case other r e (names, a, same, short) = (
      r.name ∷ names,
      below r (λ one. ground arith) e a,
      same ∙ sym (reverse_step r.name names acc),
      omega arith,
    )

-- For an inode whose chain of stored parents reaches the mount root through fewer than 4096 rows,
-- `path_components` gives the names of that chain from the root down.
pub path_components_complete :
    {t : Inodes} {ino : ℕ} {names : List String}
    → Ancestry t ino names
    → length names < max_depth
    → path_components ino t ≡ some (reverse names ++ [])
unfolding path_components
path_components_complete a h = path_loop_complete max_depth [] a h

-- `path_components` returns only the names of a chain of parents that reaches the mount root, from
-- the root down, and such a chain has fewer than 4096 rows.
pub path_components_sound :
    (t : Inodes) (ino : ℕ) (out : List String)
    → path_components ino t ≡ some out
    → (names : List String) × Ancestry t ino names
      × (out ≡ reverse names ++ [])
      × (length names < max_depth)
unfolding path_components
path_components_sound t ino out h = path_loop_sound t max_depth ino [] out h

-- `path_components` returns a path exactly when the chain of stored parents of the inode reaches the
-- mount root through fewer than 4096 rows, and then the names of that chain from the root down.
pub path_components_lem :
    (t : Inodes) (ino : ℕ) (out : List String)
    → (path_components ino t ≡ some out) ↔ (
        (names : List String) × Ancestry t ino names
        × (out ≡ reverse names ++ [])
        × (length names < max_depth))
path_components_lem t ino out = (
  path_components_sound t ino out,
  λ (names, a, e, h). path_components_complete a h ∙ ap some (sym e),
)

first_where_fits {ℓ} :
    {A : Type ℓ} (p : A → Bool) (rs : List A) (r : A) → first_where p rs ≡ some r → p r ≡ true
first_where_fits p [] r e = absurd (ground arith)
first_where_fits p (x ∷ rs) r e = elim (Bool-cases (p x)) [
  | inl hit ↦ ground (arith, hit, e)
  | inr miss ↦ first_where_fits p rs r (ground (arith, miss, e))
]

get_inode-ino : (t : Inodes) (ino : ℕ) (r : InodeRow) → get_inode ino t ≡ some r → r.ino ≡ ino
unfolding get_inode
get_inode-ino t ino r e = let fits = first_where_fits (has_ino ino) t.rows r e in ground arith

-- Two rows, neither of them the root, that are each the other's parent.
pub record ParentCycle (t : Inodes) (r s : InodeRow) : Type 0 where
  pub stored_left : get_inode s.parent_ino t ≡ some r
  pub stored_right : get_inode r.parent_ino t ≡ some s
  pub apart : r.ino ≢ s.ino
  pub left_not_root : r.ino ≢ 1
  pub right_not_root : s.ino ≢ 1

row_path_loop-cycle :
    (t : Inodes) (fuel : ℕ) (r s : InodeRow) (rows : List InodeRow)
    → ParentCycle t r s
    → row_path_loop fuel r rows t ≡ none
unfolding row_path_loop
row_path_loop-cycle t zero r s rows c = refl
row_path_loop-cycle t (suc fuel) r s rows c =
    let up = get_inode-ino t r.parent_ino s c.stored_right in
    let turned : ParentCycle t s r = record {
      stored_left = c.stored_right;
      stored_right = c.stored_left;
      apart = λ e. c.apart (sym e);
      left_not_root = c.right_not_root;
      right_not_root = c.left_not_root;
    } in
    let stay : (r.ino == 1 || r.ino == r.parent_ino) ≡ false = ground (arith, c.apart, up) in
    rw (stay, c.stored_right) (row_path_loop-cycle t fuel s r (r ∷ rows) turned)

-- On two rows that are each the other's parent the loop of `inode_path` never ends: it has not
-- returned after any number of rounds.
pub inode_path-cycle :
    (t : Inodes) (fuel : ℕ) (r s : InodeRow) → ParentCycle t r s → inode_path fuel r.ino t ≡ none
unfolding inode_path
inode_path-cycle t fuel r s c =
    let e : r.ino ≡ s.parent_ino = get_inode-ino t s.parent_ino r c.stored_left in
    rw (e, c.stored_left, inode_path) (row_path_loop-cycle t fuel r s [] c)
