-- ===== src/Node/Listing.antt =====
-- crates/proton-drive-sdk/src/node/revision.rs: the block listing of `create_download_state`, a page
-- at a time. `get_revision` is the API's answer for a first index; `none` is an error. Indexes stay
-- below the limit of an i32. The listing stops after at most `fuel` pages, or has no result.
use proton_sdk_rs.Prelude.{
  ℕ, zero, suc, ◌+◌, ◌-◌, ◌<◌, ◌≡◌, refl, sym, ap, ◌∙◌, subst, String, ◌||◌, ◌⊎◌, inl, inr, Option,
  none, some, List, [], ◌∷◌, ◌++◌, arith, if◌then◌else◌, ltb, ◌==◌, length, length-append,
  length-take, take, drop, take-append-drop, Option-cases, length-drop,
}
use mathlib.Core.List.{append_assoc, append-nil}

pub record BlockDto : Type 0 where
  pub index : ℕ
  pub bare_url : String

abbrev pub min_block_index : ℕ
min_block_index = 1

abbrev pub default_block_page_size : ℕ
default_block_page_size = 10

abbrev last_index : List BlockDto → Option ℕ
last_index [] = none
last_index (b ∷ []) = some b.index
last_index (b ∷ c ∷ bs) = last_index (c ∷ bs)

abbrev next : Option ℕ → Option ℕ
next none = none
next (some i) = some (i + 1)

unfoldable pub next_block_page_start : List BlockDto → ℕ → ℕ → Option ℕ
next_block_page_start blocks last_page_len page_size =
    if last_page_len == 0 || ltb last_page_len page_size then none else next (last_index blocks)

pub data Listing : Type 0 where
  listed : List BlockDto → Listing
  not_contiguous : ℕ → Listing
  api_error : Listing
  out_of_fuel : Listing

-- The first index that is not the expected one, from a position on.
unfoldable pub first_gap : ℕ → List BlockDto → Option ℕ
first_gap position [] = none
first_gap position (b ∷ bs) =
    let rest = first_gap (position + 1) bs in
    if b.index == min_block_index + position then rest else some b.index

unfoldable pub ensure_contiguous_blocks : List BlockDto → Listing
unfolding first_gap
ensure_contiguous_blocks blocks = elim (first_gap 0 blocks) [
  | none ↦ listed blocks
  | some i ↦ not_contiguous i
]

module _ (get_revision : ℕ → Option (List BlockDto)) where
  unfoldable pub more_pages : ℕ → List BlockDto → ℕ → Listing
  unfolding next_block_page_start ensure_contiguous_blocks
  more_pages zero blocks page_len = out_of_fuel
  more_pages (suc fuel) blocks page_len =
      elim (next_block_page_start blocks page_len default_block_page_size) [
        | none ↦ ensure_contiguous_blocks blocks
        | some from_index ↦ elim (get_revision from_index) [
          | none ↦ api_error
          | some page ↦ more_pages fuel (blocks ++ page) (length page)
        ]
      ]

  unfoldable pub list_blocks : ℕ → Listing
  unfolding more_pages
  list_blocks fuel = elim (get_revision min_block_index) [
    | none ↦ api_error
    | some page ↦ more_pages fuel page (length page)
  ]

-- Indexes that run on from a number.
abbrev pub RunFrom : ℕ → List BlockDto → Type 0
RunFrom n [] = Unit
RunFrom n (b ∷ bs) = (b.index ≡ n) × RunFrom (n + 1) bs

-- What the server answers that holds these blocks: a page from an index on.
abbrev pub page_of : List BlockDto → ℕ → Option (List BlockDto)
page_of blocks i = some (take default_block_page_size (drop (i - 1) blocks))

first_gap_absent :
    (n m : ℕ) (bs : List BlockDto) → m ≡ min_block_index + n → RunFrom m bs → first_gap n bs ≡ none
unfolding first_gap
first_gap_absent n m [] e r = refl
first_gap_absent n m (b ∷ bs) e r =
    ground (arith, r.0, first_gap_absent (n + 1) (m + 1) bs (omega (arith, e)) r.1)

last_index_lem :
    (n : ℕ) (bs : List BlockDto)
    → RunFrom n bs
    → 0 < length bs
    → last_index bs ≡ some (n + length bs - 1)
last_index_lem n [] r h = absurd (omega arith)
last_index_lem n (b ∷ []) r h = ground (arith, r.0)
last_index_lem n (b ∷ c ∷ bs) r h = ground (arith, last_index_lem (n + 1) (c ∷ bs) r.1)

RunFrom-prefix : (n : ℕ) (xs ys : List BlockDto) → RunFrom n (xs ++ ys) → RunFrom n xs
RunFrom-prefix n [] ys r = tt
RunFrom-prefix n (x ∷ xs) ys r = (r.0, RunFrom-prefix (n + 1) xs ys r.1)

drop-append {ℓ} : {A : Type ℓ} (xs ys : List A) → drop (length xs) (xs ++ ys) ≡ ys
drop-append [] ys = refl
drop-append (x ∷ xs) ys = drop-append xs ys

-- The blocks so far with those to come; the last page was short, or a full one.
more_pages_lem :
    (all : List BlockDto) (fuel : ℕ) (done rest : List BlockDto) (page_len : ℕ)
    → done ++ rest ≡ all
    → RunFrom 1 all
    → ((page_len < default_block_page_size) × (length rest ≡ 0) × (0 < fuel))
      ⊎ ((page_len ≡ default_block_page_size) × (0 < length done) × (length rest + 1 < fuel))
    → more_pages (page_of all) fuel done page_len ≡ listed all
unfolding more_pages next_block_page_start ensure_contiguous_blocks
more_pages_lem all zero done rest page_len e r h = absurd (ground (arith, h))
more_pages_lem all (suc fuel) done (b ∷ rest) page_len e r (inl h) = absurd (omega (arith, h.1))
more_pages_lem all (suc fuel) done [] page_len e r (inl h) =
    let whole : done ≡ all = sym (append-nil done) ∙ e in
    let ends : next_block_page_start done page_len default_block_page_size ≡ none =
      ground (arith, h.0) in
    rw (more_pages, ends, whole, ensure_contiguous_blocks, first_gap_absent 0 1 all refl r)
      (ap listed whole)
more_pages_lem all (suc fuel) done rest page_len e r (inr h) =
    let starts : next_block_page_start done page_len default_block_page_size
        ≡ some (length done + 1) =
      ground (
        arith,
        h,
        last_index_lem 1 done (RunFrom-prefix 1 done rest (subst (RunFrom 1) (sym e) r)) h.1,
      ) in
    let page : take default_block_page_size (drop (length done + 1 - 1) all)
        ≡ take default_block_page_size rest =
      ap (λ k. take default_block_page_size (drop k all)) (omega arith)
      ∙ ap (λ bs. take default_block_page_size (drop (length done) bs)) (sym e)
      ∙ ap (take default_block_page_size) (drop-append done rest) in
    rw (more_pages, starts, page)
      (more_pages_lem all fuel (done ++ take default_block_page_size rest)
        (drop default_block_page_size rest) (length (take default_block_page_size rest))
        (append_assoc done _ _
          ∙ ap (λ t. done ++ t) (take-append-drop default_block_page_size rest)
          ∙ e)
        r
        (ground (
          arith,
          h,
          length-take default_block_page_size rest,
          length-drop default_block_page_size rest,
          length-append done (take default_block_page_size rest),
        )))

-- From a server that holds blocks 1, 2, 3, …, and with more pages of fuel than there are blocks and
-- one, the listing is all of them in order.
pub list_blocks-page_of :
    (all : List BlockDto) (fuel : ℕ)
    → RunFrom 1 all
    → length all + 1 < fuel
    → list_blocks (page_of all) fuel ≡ listed all
unfolding list_blocks
list_blocks-page_of all fuel r f =
    more_pages_lem all fuel (take default_block_page_size all) (drop default_block_page_size all)
      (length (take default_block_page_size all)) (take-append-drop default_block_page_size all) r
      (ground (
        arith,
        length-take default_block_page_size all,
        length-drop default_block_page_size all,
        f,
      ))

first_gap-RunFrom :
    (n m : ℕ) (bs : List BlockDto) → m ≡ min_block_index + n → first_gap n bs ≡ none → RunFrom m bs
unfolding first_gap
first_gap-RunFrom n m [] e h = tt
first_gap-RunFrom n m (b ∷ bs) e h = (
  ground (arith, h, e),
  first_gap-RunFrom (n + 1) (m + 1) bs (omega (arith, e)) (ground (arith, h, e)),
)

ensure_contiguous_blocks-RunFrom :
    (blocks bs : List BlockDto) → ensure_contiguous_blocks blocks ≡ listed bs → RunFrom 1 bs
unfolding ensure_contiguous_blocks
ensure_contiguous_blocks-RunFrom blocks bs h = elim (Option-cases (first_gap 0 blocks)) [
  | inl fits ↦
      let same : blocks ≡ bs = ground (arith, fits, h) in
      subst (RunFrom 1) same (first_gap-RunFrom 0 1 blocks refl fits)
  | inr (i, gap) ↦ absurd (ground (arith, gap, h))
]

more_pages-RunFrom :
    (get_revision : ℕ → Option (List BlockDto)) (fuel : ℕ) (blocks : List BlockDto) (page_len : ℕ)
    (bs : List BlockDto)
    → more_pages get_revision fuel blocks page_len ≡ listed bs
    → RunFrom 1 bs
unfolding more_pages
more_pages-RunFrom get_revision zero blocks page_len bs h = absurd (ground (arith, h))
more_pages-RunFrom get_revision (suc fuel) blocks page_len bs h =
    elim (Option-cases (next_block_page_start blocks page_len default_block_page_size)) [
      | inl ends ↦ ensure_contiguous_blocks-RunFrom blocks bs (ground (arith, ends, h))
      | inr (from_index, starts) ↦ elim (Option-cases (get_revision from_index)) [
        | inl fails ↦ absurd (ground (arith, starts, fails, h))
        | inr (page, e) ↦
            more_pages-RunFrom get_revision fuel (blocks ++ page) (length page) bs
              (ground (arith, starts, e, h))
      ]
    ]

-- Whatever the server answers, blocks that are listed run 1, 2, 3, …
pub list_blocks-RunFrom :
    (get_revision : ℕ → Option (List BlockDto)) (fuel : ℕ) (bs : List BlockDto)
    → list_blocks get_revision fuel ≡ listed bs
    → RunFrom 1 bs
unfolding list_blocks
list_blocks-RunFrom get_revision fuel bs h = elim (Option-cases (get_revision min_block_index)) [
  | inl fails ↦ absurd (ground (arith, fails, h))
  | inr (page, e) ↦
      more_pages-RunFrom get_revision fuel page (length page) bs (ground (arith, e, h))
]
