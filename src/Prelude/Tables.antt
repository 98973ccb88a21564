-- ===== src/Prelude/Tables.antt =====
-- A SQL table as the list of its rows in rowid order, and the clauses of the statements on it.
use Prim.Native.Nat.{ℕ, zero, suc, ◌≤◌, ◌<◌}
use mathlib.Core.Path.{◌≡◌, refl}
use mathlib.Core.Bool.{Bool, true, false}
use mathlib.Core.List.{List, [], ◌∷◌, ◌++◌, Mem, mem-cons_self, mem-cons_of_mem}
use mathlib.Core.Option.{Option, none, some}
use native.Mathlib.Omega.{arith}
use proton_sdk_rs.Prelude.Tests.{if◌then◌else◌, leb, ◌==◌, Bool-cases}
use mathlib.Core.Logic.{inl, inr}
use proton_sdk_rs.Prelude.Lists.{length, take}

-- A predicate on every row, as a tuple.
abbrev pub All {ℓ κ} : {A : Type ℓ} → (A → Type κ) → List A → Type κ
All P [] = Unit
All P (r ∷ rs) = P r × All P rs

abbrev pub lesser : ℕ → Option ℕ → Option ℕ
lesser k none = some k
lesser k (some m) = if leb k m then some k else some m

module _ {ℓ} {A : Type ℓ} where
  -- SELECT … WHERE p
  abbrev pub select_where : (A → Bool) → List A → List A
  select_where p [] = []
  select_where p (r ∷ rs) = let rest = select_where p rs in if p r then r ∷ rest else rest

  -- DELETE … WHERE p: the rows that stay
  abbrev pub delete_where : (A → Bool) → List A → List A
  delete_where p [] = []
  delete_where p (r ∷ rs) = let rest = delete_where p rs in if p r then rest else r ∷ rest

  -- UPDATE … SET f WHERE p
  abbrev pub update_where : (A → Bool) → (A → A) → List A → List A
  update_where p f [] = []
  update_where p f (r ∷ rs) = (if p r then f r else r) ∷ update_where p f rs

  -- SELECT count(*) … WHERE p, and the number of rows that a statement touches
  abbrev pub count_where : (A → Bool) → List A → ℕ
  count_where p [] = 0
  count_where p (r ∷ rs) = let rest = count_where p rs in if p r then suc rest else rest

  -- The first row that `query_row` reads.
  abbrev pub first_where : (A → Bool) → List A → Option A
  first_where p [] = none
  first_where p (r ∷ rs) = let rest = first_where p rs in if p r then some r else rest

  -- ORDER BY key ASC, equal keys in rowid order
  abbrev pub insert_by : (A → ℕ) → A → List A → List A
  insert_by key r [] = r ∷ []
  insert_by key r (s ∷ rest) =
      let later = s ∷ insert_by key r rest in if leb (key r) (key s) then r ∷ s ∷ rest else later

  abbrev pub order_by : (A → ℕ) → List A → List A
  order_by key [] = []
  order_by key (r ∷ rs) = insert_by key r (order_by key rs)

  -- SELECT MIN(key)
  abbrev pub min_of : (A → ℕ) → List A → Option ℕ
  min_of key [] = none
  min_of key (r ∷ rs) = lesser (key r) (min_of key rs)

module _ {ℓ κ} {A : Type ℓ} (P : A → Type κ) where
  pub All-select_where : (p : A → Bool) (rs : List A) → All P rs → All P (select_where p rs)
  All-select_where p [] h = h
  All-select_where p (r ∷ rs) h = ground (arith, All-select_where p rs h.1)

  pub All-delete_where : (p : A → Bool) (rs : List A) → All P rs → All P (delete_where p rs)
  All-delete_where p [] h = h
  All-delete_where p (r ∷ rs) h = ground (arith, All-delete_where p rs h.1)

  pub All-insert_by :
      (key : A → ℕ) (r : A) (rs : List A) → P r → All P rs → All P (insert_by key r rs)
  All-insert_by key r [] h hs = (h, hs)
  All-insert_by key r (s ∷ rs) h hs = ground (arith, All-insert_by key r rs h hs.1)

  pub All-order_by : (key : A → ℕ) (rs : List A) → All P rs → All P (order_by key rs)
  All-order_by key [] h = h
  All-order_by key (r ∷ rs) h = All-insert_by key r (order_by key rs) h.0 (All-order_by key rs h.1)

  pub All-take : (n : ℕ) (rs : List A) → All P rs → All P (take n rs)
  All-take zero rs h = tt
  All-take (suc n) [] h = h
  All-take (suc n) (r ∷ rs) h = (h.0, All-take n rs h.1)

  pub All-append : (xs ys : List A) → All P xs → All P ys → All P (xs ++ ys)
  All-append [] ys h k = k
  All-append (x ∷ xs) ys h k = (h.0, All-append xs ys h.1 k)

module _ {ℓ} {A : Type ℓ} where
  pub length-insert_by :
      (key : A → ℕ) (r : A) (rs : List A) → length (insert_by key r rs) ≡ suc (length rs)
  length-insert_by key r [] = refl
  length-insert_by key r (s ∷ rs) = ground (arith, length-insert_by key r rs)

  pub length-order_by : (key : A → ℕ) (rs : List A) → length (order_by key rs) ≡ length rs
  length-order_by key [] = refl
  length-order_by key (r ∷ rs) =
      omega (arith, length-insert_by key r (order_by key rs), length-order_by key rs)

  -- Keys do not fall along the list.
  abbrev pub SortedFrom : (A → ℕ) → ℕ → List A → Type 0
  SortedFrom key n [] = Unit
  SortedFrom key n (r ∷ rs) = (n ≤ key r) × SortedFrom key (key r) rs

  insert_by-SortedFrom :
      (key : A → ℕ) (r : A) (n : ℕ) (rs : List A)
      → n ≤ key r
      → SortedFrom key n rs
      → SortedFrom key n (insert_by key r rs)
  insert_by-SortedFrom key r n [] h s = (h, s)
  insert_by-SortedFrom key r n (x ∷ rs) h s = ground (arith, insert_by-SortedFrom key r (key x) rs)

  pub order_by-SortedFrom : (key : A → ℕ) (rs : List A) → SortedFrom key 0 (order_by key rs)
  order_by-SortedFrom key [] = tt
  order_by-SortedFrom key (r ∷ rs) =
      insert_by-SortedFrom key r 0 (order_by key rs) (omega arith) (order_by-SortedFrom key rs)

pub All-map {ℓ κ μ} :
    {A : Type ℓ} {P : A → Type κ} {Q : A → Type μ} (f : (a : A) → P a → Q a) (rs : List A)
    → All P rs
    → All Q rs
All-map f [] h = tt
All-map f (r ∷ rs) h = (f r h.0, All-map f rs h.1)

abbrev LowerBound : Option ℕ → ℕ → Type 0
LowerBound none k = ⊥
LowerBound (some m) k = m ≤ k

LowerBound-lesser : (j : ℕ) (o : Option ℕ) (k : ℕ) → LowerBound o k → LowerBound (lesser j o) k
LowerBound-lesser j none k h = absurd h
LowerBound-lesser j (some m) k h = ground arith

LowerBound-lesser_self : (j : ℕ) (o : Option ℕ) → LowerBound (lesser j o) j
LowerBound-lesser_self j none = omega arith
LowerBound-lesser_self j (some m) = ground arith

module _ {ℓ} {A : Type ℓ} (key : A → ℕ) where
  min_of-LowerBound : (rs : List A) → All (λ r. LowerBound (min_of key rs) (key r)) rs
  min_of-LowerBound [] = tt
  min_of-LowerBound (r ∷ rs) = (
    LowerBound-lesser_self (key r) (min_of key rs),
    All-map (λ s h. LowerBound-lesser (key r) (min_of key rs) (key s) h) rs (min_of-LowerBound rs),
  )

  pub min_of-le : (rs : List A) {m : ℕ} → min_of key rs ≡ some m → All (λ r. m ≤ key r) rs
  min_of-le rs e = rw e at (min_of-LowerBound rs)

  -- The least key is some row's.
  pub min_of_attained :
      (rs : List A)
      → 0 < length rs
      → (m : ℕ) × (min_of key rs ≡ some m) × (0 < count_where (λ r. key r == m) rs)
  min_of_attained [] h = absurd (omega arith)
  min_of_attained (r ∷ []) h = (key r, refl, ground arith)
  min_of_attained (r ∷ s ∷ rs) h =
      let (m, e, c) = min_of_attained (s ∷ rs) (omega arith) in
      elim (Bool-cases (leb (key r) m)) [
        | inl first ↦ (key r, rw (e, first), ground arith)
        | inr later ↦ (m, rw (e, later), ground arith)
      ]

module _ {ℓ} {A : Type ℓ} where
  pub SortedFrom-take :
      (key : A → ℕ) (n k : ℕ) (rs : List A) → SortedFrom key n rs → SortedFrom key n (take k rs)
  SortedFrom-take key n zero rs s = tt
  SortedFrom-take key n (suc k) [] s = s
  SortedFrom-take key n (suc k) (r ∷ rs) s = (s.0, SortedFrom-take key (key r) k rs s.1)

  pub All-Mem : (rs : List A) → All (λ r. Mem r rs) rs
  All-Mem [] = tt
  All-Mem (r ∷ rs) = (mem-cons_self, All-map (λ s h. mem-cons_of_mem r h) rs (All-Mem rs))

  -- The rows that a WHERE clause selects fit it.
  pub select_where_fits : (p : A → Bool) (rs : List A) → All (λ r. p r ≡ true) (select_where p rs)
  select_where_fits p [] = tt
  select_where_fits p (r ∷ rs) = ground (arith, select_where_fits p rs)

  pub All-zip {κ μ} :
      (P : A → Type κ) (Q : A → Type μ) (rs : List A)
      → All P rs
      → All Q rs
      → All (λ r. P r × Q r) rs
  All-zip P Q [] h k = tt
  All-zip P Q (r ∷ rs) h k = ((h.0, k.0), All-zip P Q rs h.1 k.1)

  pub length-select_where :
      (p : A → Bool) (rs : List A) → length (select_where p rs) ≡ count_where p rs
  length-select_where p [] = refl
  length-select_where p (r ∷ rs) = ground (arith, length-select_where p rs)

  -- A WHERE clause that no row fits.
  pub none_fit : (p : A → Bool) (rs : List A) → count_where p rs ≡ 0 → All (λ r. p r ≡ false) rs
  none_fit p [] h = tt
  none_fit p (r ∷ rs) h = ground (arith, none_fit p rs)

  pub All-update_where {κ μ} :
      (P : A → Type κ) (Q : A → Type μ) (p : A → Bool) (f : A → A) (rs : List A)
      → ((r : A) → P r → Q (if p r then f r else r))
      → All P rs
      → All Q (update_where p f rs)
  All-update_where P Q p f [] step h = tt
  All-update_where P Q p f (r ∷ rs) step h = (step r h.0, All-update_where P Q p f rs step h.1)

  -- ORDER BY … ASC, by a test for "not after"
  abbrev pub insert_sorted : (A → A → Bool) → A → List A → List A
  insert_sorted le r [] = r ∷ []
  insert_sorted le r (s ∷ rest) =
      let later = s ∷ insert_sorted le r rest in if le r s then r ∷ s ∷ rest else later

  abbrev pub sort_by : (A → A → Bool) → List A → List A
  sort_by le [] = []
  sort_by le (r ∷ rs) = insert_sorted le r (sort_by le rs)

  pub update_where_none :
      (p : A → Bool) (f : A → A) (rs : List A) → count_where p rs ≡ 0 → update_where p f rs ≡ rs
  update_where_none p f [] h = refl
  update_where_none p f (r ∷ rs) h = ground (arith, update_where_none p f rs)
