-- ===== src/Prelude/Rows.antt =====
-- How the statements on a table change its number of rows, and what ORDER BY and LIMIT select.
use Prim.Native.Nat.{ℕ, zero, suc, ◌+◌, ◌≤◌}
use mathlib.Core.Path.{◌≡◌, refl, ap}
use mathlib.Core.Logic.{inl, inr}
use mathlib.Core.Bool.{Bool, true, false}
use mathlib.Core.List.{List, [], ◌∷◌}
use native.Mathlib.Omega.{arith}
use proton_sdk_rs.Prelude.Tests.{leb, Bool-cases}
use proton_sdk_rs.Prelude.Lists.{length, take, drop}
use proton_sdk_rs.Prelude.Tables.{
  All, All-map, delete_where, update_where, count_where, insert_by, order_by, SortedFrom,
}

module _ {ℓ} {A : Type ℓ} where
  pub length-delete_where :
      (p : A → Bool) (rs : List A) → length (delete_where p rs) + count_where p rs ≡ length rs
  length-delete_where p [] = refl
  length-delete_where p (r ∷ rs) = ground (arith, length-delete_where p rs)

  pub length-update_where :
      (p : A → Bool) (f : A → A) (rs : List A) → length (update_where p f rs) ≡ length rs
  length-update_where p f [] = refl
  length-update_where p f (r ∷ rs) = ap suc (length-update_where p f rs)

  count_where-insert_by :
      (p : A → Bool) (key : A → ℕ) (r : A) (rs : List A)
      → count_where p (insert_by key r rs) ≡ count_where p (r ∷ rs)
  count_where-insert_by p key r [] = refl
  count_where-insert_by p key r (s ∷ rs) = ground (arith, count_where-insert_by p key r rs)

  pub count_where-order_by :
      (p : A → Bool) (key : A → ℕ) (rs : List A)
      → count_where p (order_by key rs) ≡ count_where p rs
  count_where-order_by p key [] = refl
  count_where-order_by p key (r ∷ rs) =
      ground (arith, count_where-insert_by p key r (order_by key rs), count_where-order_by p key rs)

  -- Rows that all fit, at the front of a table.
  pub count_where-take :
      (p : A → Bool) (n : ℕ) (rs : List A)
      → All (λ r. p r ≡ true) (take n rs)
      → length (take n rs) ≤ count_where p rs
  count_where-take p zero rs h = omega arith
  count_where-take p (suc n) [] h = omega arith
  count_where-take p (suc n) (r ∷ rs) h = ground (arith, count_where-take p n rs h.1)

module _ {ℓ κ} {A : Type ℓ} (P : A → Type κ) (key : A → ℕ) where
  All-insert_by_inv : (r : A) (rs : List A) → All P (insert_by key r rs) → P r × All P rs
  All-insert_by_inv r [] h = h
  All-insert_by_inv r (s ∷ rs) h = elim (Bool-cases (leb (key r) (key s))) [
    | inl first ↦ rw first at h
    | inr later ↦
        let (head, rest) = rw later at h in
        let (mine, others) = All-insert_by_inv r rs rest in (mine, (head, others))
  ]

  pub All-order_by_inv : (rs : List A) → All P (order_by key rs) → All P rs
  All-order_by_inv [] h = tt
  All-order_by_inv (r ∷ rs) h =
      let (mine, rest) = All-insert_by_inv r (order_by key rs) h in (mine, All-order_by_inv rs rest)

module _ {ℓ} {A : Type ℓ} (key : A → ℕ) where
  SortedFrom-All : (n : ℕ) (rs : List A) → SortedFrom key n rs → All (λ r. n ≤ key r) rs
  SortedFrom-All n [] s = tt
  SortedFrom-All n (r ∷ rs) s =
      (s.0, All-map (λ q h. omega (arith, h, s.0)) rs (SortedFrom-All (key r) rs s.1))

  All-drop {κ} : (P : A → Type κ) (n : ℕ) (rs : List A) → All P rs → All P (drop n rs)
  All-drop P zero rs h = h
  All-drop P (suc n) [] h = h
  All-drop P (suc n) (r ∷ rs) h = All-drop P n rs h.1

  -- In a sorted table what stands in front is not after what stands behind.
  pub take-before-drop :
      (n m : ℕ) (rs : List A)
      → SortedFrom key m rs
      → All (λ v. All (λ r. key v ≤ key r) (drop n rs)) (take n rs)
  take-before-drop zero m rs s = tt
  take-before-drop (suc n) m [] s = tt
  take-before-drop (suc n) m (r ∷ rs) s = (
    All-drop (λ q. key r ≤ key q) n rs (SortedFrom-All (key r) rs s.1),
    take-before-drop n (key r) rs s.1,
  )

-- A predicate on the rows that stay.
pub All-kept {ℓ κ} :
    {A : Type ℓ} (P : A → Type κ) (p : A → Bool) (es : List A)
    → All (λ e. p e ≡ false → P e) es
    → All P (delete_where p es)
All-kept P p [] h = tt
All-kept P p (e ∷ es) h = elim (Bool-cases (p e)) [
  | inl gone ↦ rw gone (All-kept P p es h.1)
  | inr kept ↦ rw kept (h.0 kept, All-kept P p es h.1)
]
