-- ===== src/Upload/Sorting.antt =====
-- Lists in the order of distinct numbers, for the results of uploads that end in any order.
use proton_sdk_rs.Prelude.{
  ℕ, ◌≤◌, ◌<◌, ◌≡◌, ◌≢◌, refl, sym, ap, ◌∙◌, inl, inr, List, [], ◌∷◌, ◌++◌, arith, ◌==◌, All,
  insert_by, order_by, count_where, Bool-cases,
}

module _ {ℓ} {A : Type ℓ} (key : A → ℕ) where
  insert_by_comm :
      (a b : A) (xs : List A)
      → key a ≢ key b
      → insert_by key a (insert_by key b xs) ≡ insert_by key b (insert_by key a xs)
  insert_by_comm a b [] apart = ground arith
  insert_by_comm a b (x ∷ xs) apart = ground (arith, insert_by_comm a b xs apart)

  insert_by-append :
      (x a : A) (ys : List A)
      → key x < key a
      → insert_by key x (ys ++ a ∷ []) ≡ insert_by key x ys ++ a ∷ []
  insert_by-append x a [] h = ground arith
  insert_by-append x a (y ∷ ys) h = ground (arith, insert_by-append x a ys h)

  -- An element with the greatest number is the last.
  pub order_by_last :
      (xs : List A) (a : A)
      → All (λ x. key x < key a) xs
      → order_by key (xs ++ a ∷ []) ≡ order_by key xs ++ a ∷ []
  order_by_last [] a h = refl
  order_by_last (x ∷ xs) a h =
      ap (insert_by key x) (order_by_last xs a h.1) ∙ insert_by-append x a (order_by key xs) h.0

  count_where_here : (xs ys : List A) (a : A) → 1 ≤ count_where (λ x. key x == key a) (xs ++ a ∷ ys)
  count_where_here [] ys a = ground arith
  count_where_here (x ∷ xs) ys a = ground (arith, count_where_here xs ys a)

  order_by_middle :
      (xs ys : List A) (a : A)
      → count_where (λ x. key x == key a) (xs ++ a ∷ ys) ≤ 1
      → order_by key (xs ++ a ∷ ys) ≡ insert_by key a (order_by key (xs ++ ys))
  order_by_middle [] ys a once = refl
  order_by_middle (x ∷ xs) ys a once = elim (Bool-cases (key x == key a)) [
    | inl same ↦ absurd (ground (arith, same, once, count_where_here xs ys a))
    | inr other ↦
        ap (insert_by key x) (order_by_middle xs ys a (ground (arith, other, once)))
        ∙ insert_by_comm x a (order_by key (xs ++ ys)) (λ e. ground arith)
  ]

  -- An element whose number no other has may stand anywhere.
  pub order_by_moved :
      (xs zs ys : List A) (a : A)
      → count_where (λ x. key x == key a) (xs ++ (zs ++ a ∷ ys)) ≤ 1
      → order_by key (xs ++ a ∷ (zs ++ ys)) ≡ order_by key (xs ++ (zs ++ a ∷ ys))
  order_by_moved [] zs ys a once = sym (order_by_middle zs ys a once)
  order_by_moved (x ∷ xs) zs ys a once =
      ap (insert_by key x) (order_by_moved xs zs ys a (ground (arith, once)))
