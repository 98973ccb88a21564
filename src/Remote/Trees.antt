-- ===== src/Remote/Trees.antt =====
-- crates/pdcli/src/fs.rs: the rows below an inode, and the rows that `remove_inode_tree` takes.
use proton_sdk_rs.Prelude.{
  ℕ, zero, suc, ◌≡◌, refl, sym, subst, inl, inr, ◌⊎◌, Bool, true, false, not, ◌&&◌, ◌||◌, List, [],
  ◌∷◌, arith, ◌==◌, All, All-map, delete_where, select_where, insert_sorted, sort_by, Bool-cases,
}
use proton_sdk_rs.Db.Inodes.{InodeRow, Inodes}
use proton_sdk_rs.Db.Inodes.Updates.{name_le, list_children}

abbrev pub In : InodeRow → List InodeRow → Type 0
In r [] = ⊥
In r (x ∷ xs) = (r ≡ x) ⊎ In r xs

-- A child of an inode, as `list_children` takes it.
abbrev pub is_below : ℕ → InodeRow → Bool
is_below ino r = r.parent_ino == ino && not (r.ino == r.parent_ino)

-- An inode and all below it, along the stored parents.
pub data Reached (rows : List InodeRow) (top : ℕ) : ℕ → Type 0 where
  here : Reached rows top top
  child :
      {ino : ℕ} (r : InodeRow)
      → Reached rows top ino
      → In r rows
      → is_below ino r ≡ true
      → Reached rows top r.ino

pub In-delete_where :
    (p : InodeRow → Bool) (r : InodeRow) (rows : List InodeRow)
    → In r (delete_where p rows)
    → In r rows
In-delete_where p r [] h = h
In-delete_where p r (x ∷ rows) h = elim (Bool-cases (p x)) [
  | inl gone ↦ inr (In-delete_where p r rows (rw gone at h))
  | inr kept ↦ elim (rw kept at h) [
    | inl same ↦ inl same
    | inr later ↦ inr (In-delete_where p r rows later)
  ]
]

pub In-All {κ} :
    (P : InodeRow → Type κ) (r : InodeRow) (rows : List InodeRow) → All P rows → In r rows → P r
In-All P r [] a h = absurd h
In-All P r (x ∷ rows) a (inl same) = subst P (sym same) a.0
In-All P r (x ∷ rows) a (inr later) = In-All P r rows a.1 later

pub All-In : (rows : List InodeRow) → All (λ r. In r rows) rows
All-In [] = tt
All-In (x ∷ rows) = (inl refl, All-map (λ r h. inr h) rows (All-In rows))

pub All-kept_inv {κ} :
    (P : InodeRow → Type κ) (p : InodeRow → Bool) (rows : List InodeRow)
    → All P (delete_where p rows)
    → All (λ r. p r ≡ false → P r) rows
All-kept_inv P p [] h = tt
All-kept_inv P p (x ∷ rows) h = elim (Bool-cases (p x)) [
  | inl gone ↦ (λ f. absurd (ground (arith, gone, f)), All-kept_inv P p rows (rw gone at h))
  | inr kept ↦ let (first, rest) = rw kept at h in (λ f. first, All-kept_inv P p rows rest)
]

All-selected_inv {κ} :
    (P : InodeRow → Type κ) (p : InodeRow → Bool) (rows : List InodeRow)
    → All P (select_where p rows)
    → All (λ r. p r ≡ true → P r) rows
All-selected_inv P p [] h = tt
All-selected_inv P p (x ∷ rows) h = elim (Bool-cases (p x)) [
  | inl taken ↦ let (first, rest) = rw taken at h in (λ t. first, All-selected_inv P p rows rest)
  | inr left ↦ (λ t. absurd (ground (arith, left, t)), All-selected_inv P p rows (rw left at h))
]

All-selected {κ} :
    (P : InodeRow → Type κ) (p : InodeRow → Bool) (rows : List InodeRow)
    → All (λ r. p r ≡ true → P r) rows
    → All P (select_where p rows)
All-selected P p [] h = tt
All-selected P p (x ∷ rows) h = elim (Bool-cases (p x)) [
  | inl taken ↦ rw taken (h.0 taken, All-selected P p rows h.1)
  | inr left ↦ rw left (All-selected P p rows h.1)
]

module _ {κ} (P : InodeRow → Type κ) (le : InodeRow → InodeRow → Bool) where
  All-insert_sorted :
      (r : InodeRow) (rows : List InodeRow) → P r → All P rows → All P (insert_sorted le r rows)
  All-insert_sorted r [] h hs = (h, hs)
  All-insert_sorted r (s ∷ rows) h hs = elim (Bool-cases (le r s)) [
    | inl first ↦ rw first (h, hs)
    | inr later ↦ rw later (hs.0, All-insert_sorted r rows h hs.1)
  ]

  All-sort_by : (rows : List InodeRow) → All P rows → All P (sort_by le rows)
  All-sort_by [] h = h
  All-sort_by (r ∷ rows) h = All-insert_sorted r (sort_by le rows) h.0 (All-sort_by rows h.1)

  All-insert_sorted_inv :
      (r : InodeRow) (rows : List InodeRow) → All P (insert_sorted le r rows) → P r × All P rows
  All-insert_sorted_inv r [] h = h
  All-insert_sorted_inv r (s ∷ rows) h = elim (Bool-cases (le r s)) [
    | inl first ↦ rw first at h
    | inr later ↦
        let (head, rest) = rw later at h in
        let (mine, others) = All-insert_sorted_inv r rows rest in (mine, (head, others))
  ]

  All-sort_by_inv : (rows : List InodeRow) → All P (sort_by le rows) → All P rows
  All-sort_by_inv [] h = h
  All-sort_by_inv (r ∷ rows) h =
      let (mine, rest) = All-insert_sorted_inv r (sort_by le rows) h in
      (mine, All-sort_by_inv rows rest)

-- What holds of every child holds of every row that is listed, and the other way round.
pub All-list_children {κ} :
    (P : InodeRow → Type κ) (ino : ℕ) (t : Inodes)
    → All (λ r. is_below ino r ≡ true → P r) t.rows
    → All P (list_children ino t)
unfolding list_children
All-list_children P ino t h =
    All-sort_by P name_le (select_where (is_below ino) t.rows)
      (All-selected P (is_below ino) t.rows h)

pub All-list_children_inv {κ} :
    (P : InodeRow → Type κ) (ino : ℕ) (t : Inodes)
    → All P (list_children ino t)
    → All (λ r. is_below ino r ≡ true → P r) t.rows
unfolding list_children
All-list_children_inv P ino t h =
    All-selected_inv P (is_below ino) t.rows
      (All-sort_by_inv P name_le (select_where (is_below ino) t.rows) h)

-- Nothing below the inode lies deeper than this.
abbrev pub Within : List InodeRow → ℕ → ℕ → Type 0
Within rows zero ino = ⊥
Within rows (suc n) ino = All (λ r. is_below ino r ≡ true → Within rows n r.ino) rows

abbrev all_true : List InodeRow → (InodeRow → Bool) → Bool
all_true [] p = true
all_true (r ∷ rows) p = p r && all_true rows p

-- The test of it.
unfoldable pub within : List InodeRow → ℕ → ℕ → Bool
within rows zero ino = false
within rows (suc n) ino = all_true rows (λ r. not (is_below ino r) || within rows n r.ino)

all_true_inv :
    (p : InodeRow → Bool) (rows : List InodeRow)
    → all_true rows p ≡ true
    → All (λ r. p r ≡ true) rows
all_true_inv p [] h = tt
all_true_inv p (r ∷ rows) h = (ground (arith, h), all_true_inv p rows (ground (arith, h)))

pub within-Within :
    (rows : List InodeRow) (n ino : ℕ) → within rows n ino ≡ true → Within rows n ino
unfolding within
within-Within rows zero ino h = absurd (ground (arith, h))
within-Within rows (suc n) ino h =
    All-map (λ r k below. within-Within rows n r.ino (ground (arith, k, below))) rows
      (all_true_inv (λ r. not (is_below ino r) || within rows n r.ino) rows h)
