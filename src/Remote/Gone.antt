-- ===== src/Remote/Gone.antt =====
-- crates/pdcli/src/fs.rs: rows that are removed, together with all below them.
use proton_sdk_rs.Prelude.{
  ℕ, zero, suc, ◌≡◌, refl, sym, ap, subst, ◌∙◌, inl, inr, Bool, true, false, ◌||◌, List, [], ◌∷◌,
  arith, All, All-map, All-zip, All-delete_where, All-update_where, update_where, delete_where,
  Bool-cases,
}
use proton_sdk_rs.Db.Inodes.{InodeRow}
use proton_sdk_rs.Remote.{World, rows_of}
use proton_sdk_rs.Remote.Trees.{
  In, is_below, Reached, here, child, In-delete_where, All-In, All-kept_inv, Within,
}

-- A child of a number that is gone is gone.
abbrev pub Closing : (ℕ → Bool) → InodeRow → Type 0
Closing gone s = (p : ℕ) → gone p ≡ true → is_below p s ≡ true → gone s.ino ≡ true

-- The rows of some inode numbers are gone, the children of a row that is gone among them.
pub record Removes (P : ℕ → Type 0) (w v : World) : Type 0 where
  pub gone : ℕ → Bool
  pub rows : rows_of v ≡ delete_where (λ r. gone r.ino) (rows_of w)
  pub journal : v.daemon.journal ≡ w.daemon.journal
  pub only : (i : ℕ) → gone i ≡ true → P i
  pub closed : All (Closing gone) (rows_of w)

module _ (q : ℕ → Bool) (rows : List InodeRow) where
  pub Reached-fewer :
      (top i : ℕ) → Reached (delete_where (λ r. q r.ino) rows) top i → Reached rows top i
  Reached-fewer top i here = here
  Reached-fewer top i (child {ino = p} r h at below) =
      child r (Reached-fewer top p h) (In-delete_where (λ r. q r.ino) r rows at) below

  pub Within-fewer :
      (n top : ℕ) → Within rows n top → Within (delete_where (λ r. q r.ino) rows) n top
  Within-fewer zero top h = h
  Within-fewer (suc n) top h =
      All-delete_where _ (λ r. q r.ino) rows
        (All-map (λ r k below. Within-fewer n r.ino (k below)) rows h)

-- No inode lies deeper than this below another.
abbrev pub Shallow : List InodeRow → ℕ → Type 0
Shallow rows n = (i : ℕ) → Within rows n i

module _ (p : InodeRow → Bool) (f : InodeRow → InodeRow) (rows : List InodeRow)
    (same : (r : InodeRow) → ((f r).ino ≡ r.ino) × ((f r).parent_ino ≡ r.parent_ino)) where
  pub Within-update : (n top : ℕ) → Within rows n top → Within (update_where p f rows) n top
  Within-update zero top h = h
  Within-update (suc n) top h =
      All-update_where (λ r. is_below top r ≡ true → Within rows n r.ino)
        (λ r. is_below top r ≡ true → Within (update_where p f rows) n r.ino) p f rows
        (λ r k. elim (Bool-cases (p r)) [
          | inl changed ↦ rw changed λ below.
              let (ino, parent) = same r in
              rw ino (Within-update n r.ino (k (ground (arith, ino, parent, below))))
          | inr left ↦ rw left (λ below. Within-update n r.ino (k below))
        ])
        h

pub delete_where-twice :
    (p q : InodeRow → Bool) (rows : List InodeRow)
    → delete_where q (delete_where p rows) ≡ delete_where (λ r. p r || q r) rows
delete_where-twice p q [] = refl
delete_where-twice p q (r ∷ rows) = ground (arith, delete_where-twice p q rows)

pub Reached-step :
    (rows : List InodeRow) (top : ℕ) (c : InodeRow)
    → In c rows
    → is_below top c ≡ true
    → (i : ℕ) → Reached rows c.ino i
    → Reached rows top i
Reached-step rows top c at below i here = child c here at below
Reached-step rows top c at below i (child {ino = p} r h in_rows under) =
    child r (Reached-step rows top c at below p h) in_rows under

pub removes_none : (P : ℕ → Type 0) (w : World) → Removes P w w
removes_none P w = record {
  gone = λ i. false;
  rows = sym (kept (rows_of w));
  journal = refl;
  only = λ i h. absurd (ground (arith, h));
  closed = All-map (λ s h p g. absurd (ground (arith, g))) (rows_of w) (All-In (rows_of w));
}
  where
    kept : (rows : List InodeRow) → delete_where (λ r. false) rows ≡ rows
    kept [] = refl
    kept (r ∷ rows) = ap (λ (s : List InodeRow). r ∷ s) (kept rows)

pub Closing-or :
    (g h : ℕ → Bool) (s : InodeRow)
    → Closing g s
    → (g s.ino ≡ false → Closing h s)
    → Closing (λ i. g i || h i) s
Closing-or g h s first later p gone below = elim (Bool-cases (g s.ino)) [
  | inl yes_gone ↦ rw yes_gone refl
  | inr other ↦ elim (Bool-cases (g p)) [
    | inl up ↦ absurd (ground (arith, first p up below, other))
    | inr left ↦ let hit = later other p (ground (arith, left, gone)) below in rw hit (ground arith)
  ]
]

unfoldable pub removes_both :
    (P : ℕ → Type 0) (w v u : World) → Removes P w v → Removes P v u → Removes P w u
removes_both P w v u a b = record {
  gone = λ i. a.gone i || b.gone i;
  rows =
      b.rows
      ∙ ap (delete_where (λ r. b.gone r.ino)) a.rows
      ∙ delete_where-twice (λ r. a.gone r.ino) (λ r. b.gone r.ino) (rows_of w);
  journal = b.journal ∙ a.journal;
  only = λ i h. elim (Bool-cases (a.gone i)) [
    | inl first ↦ a.only i first
    | inr other ↦ b.only i (ground (arith, other, h))
  ];
  closed =
      All-map (λ s h. Closing-or a.gone b.gone s h.0 h.1) (rows_of w)
        (All-zip (Closing a.gone) (λ s. a.gone s.ino ≡ false → Closing b.gone s) (rows_of w)
          a.closed
          (All-kept_inv (Closing b.gone) (λ r. a.gone r.ino) (rows_of w)
            (subst (All (Closing b.gone)) a.rows b.closed)));
}

unfoldable pub removes_as :
    (P Q : ℕ → Type 0) (w v : World) → ((i : ℕ) → P i → Q i) → Removes P w v → Removes Q w v
removes_as P Q w v f r = record {
  gone = r.gone;
  rows = r.rows;
  journal = r.journal;
  only = λ i h. f i (r.only i h);
  closed = r.closed;
}
