-- ===== src/Ignore/Parents.antt =====
-- crates/pdcli/src/pdignore.rs: `matches_parent_dir` against the folders above a path.
use mathlib.Core.List.{append_assoc}
use proton_sdk_rs.Prelude.{
  ℕ, zero, suc, ◌<◌, ◌≡◌, ◌≢◌, refl, sym, ap, ◌∙◌, ◌↔◌, inl, inr, ◌⊎◌, Bool, true, some, List, [],
  ◌∷◌, ◌++◌, arith, length, length-append, Bool-cases, Option-cases,
}
use proton_sdk_rs.Ignore.{
  Text, Rule, any_match, parent_of, parent_loop, matches_parent_dir, normalize_path, is_slash,
}

-- The text `q` is what stands before some slash of the path.
abbrev pub Above : Text → Text → Type 0
Above q path = (t : Text) × (path ≡ q ++ b'/' ∷ t)

parent_of-Above : (path q : Text) → parent_of path ≡ some q → Above q path
unfolding parent_of
parent_of-Above [] q h = cc
parent_of-Above (c ∷ s) q h = elim (Option-cases (parent_of s)) [
  | inl missing ↦ elim (Bool-cases (is_slash c)) [
    | inl slash ↦ (s, ground (arith, missing, slash))
    | inr other ↦ absurd (ground (arith, missing, other))
  ]
  | inr (r, e) ↦ let (t, same) = parent_of-Above s r e in (t, ground (arith, e, same))
]

-- The next folder up is the longest of those above.
parent_of-longest :
    (q t : Text) → (r : Text) × (parent_of (q ++ b'/' ∷ t) ≡ some r) × ((q ≡ r) ⊎ Above q r)
unfolding parent_of
parent_of-longest [] t = elim (Option-cases (parent_of t)) [
  | inl missing ↦ ([], rw missing refl, inl refl)
  | inr (r, e) ↦ (b'/' ∷ r, rw e refl, inr (r, refl))
]
parent_of-longest (c ∷ q) t =
    let (r, e, order) = parent_of-longest q t in
    (
      c ∷ r,
      rw e refl,
      elim order [
        | inl same ↦ inl (ap (λ (s : Text). c ∷ s) same)
        | inr (u, same) ↦ inr (u, ap (λ (s : Text). c ∷ s) same)
      ],
    )

Above-length : (q path : Text) → Above q path → length q < length path
Above-length q path (t, e) = rw e (omega (arith, length-append q (b'/' ∷ t)))

Above-trans : (q r path : Text) → Above q r → Above r path → Above q path
Above-trans q r path (t, e) (u, h) =
    (t ++ b'/' ∷ u, h ∙ ap (λ (s : Text). s ++ b'/' ∷ u) e ∙ append_assoc q (b'/' ∷ t) (b'/' ∷ u))

-- A folder above the path that a matcher fits.
abbrev pub FittingFolder : List (Text → Bool) → Text → Type 0
FittingFolder ms path = (q : Text) × Above q path × (q ≢ []) × (any_match ms q ≡ true)

module _ (ms : List (Text → Bool)) where
  parent_loop_sound :
      (fuel : ℕ) (path : Text) → parent_loop fuel ms path ≡ true → FittingFolder ms path
  unfolding parent_loop
  parent_loop_sound zero path h = cc
  parent_loop_sound (suc fuel) path h = elim (Option-cases (parent_of path)) [
    | inl missing ↦ absurd (ground (arith, missing, h))
    | inr ([], e) ↦ absurd (ground (arith, e, h))
    | inr (c ∷ q, e) ↦ elim (Bool-cases (any_match ms (c ∷ q))) [
      | inl hit ↦ (c ∷ q, parent_of-Above path (c ∷ q) e, λ w. ground arith, hit)
      | inr miss ↦
          let (r, above, full, hit) = parent_loop_sound fuel (c ∷ q) (ground (arith, e, miss, h)) in
          (r, Above-trans r (c ∷ q) path above (parent_of-Above path (c ∷ q) e), full, hit)
    ]
  ]

  parent_loop_complete :
      (fuel : ℕ) (path : Text)
      → length path < fuel
      → FittingFolder ms path
      → parent_loop fuel ms path ≡ true
  unfolding parent_loop
  parent_loop_complete zero path short f = absurd (omega arith)
  parent_loop_complete (suc fuel) path short (q, (t, e), full, hit) =
      up (parent_of-longest q t) (parent_loop_complete fuel)
    where
      up :
          (r : Text) × (parent_of (q ++ b'/' ∷ t) ≡ some r) × ((q ≡ r) ⊎ Above q r)
          → ((p : Text) → length p < fuel → FittingFolder ms p → parent_loop fuel ms p ≡ true)
          → parent_loop (suc fuel) ms path ≡ true
      up ([], found, inl same) ih = absurd (full same)
      up ([], found, inr (u, same)) ih = elim q [
        | [] ↦ absurd (ground arith)
        | d ∷ r ↦ absurd (ground arith)
      ]
      up (c ∷ r, found, inl same) ih =
          let fits : any_match ms (c ∷ r) ≡ true = ap (any_match ms) (sym same) ∙ hit in
          rw (parent_loop, ap parent_of e ∙ found, fits) refl
      up (c ∷ r, found, inr above) ih =
          let here = ap parent_of e ∙ found in
          let shorter = Above-length (c ∷ r) path (parent_of-Above path (c ∷ r) here) in
          let rest = ih (c ∷ r) (omega arith) (q, above, full, hit) in
          rw (parent_loop, here, rest) (ground arith)

-- `matches_parent_dir` says yes exactly when a matcher of the rule fits a folder above the path: a
-- part of the normalised path, not empty, that ends before a slash. Its loop has ended by then.
pub matches_parent_dir_lem :
    (rule : Rule) (path : Text)
    → (matches_parent_dir rule path ≡ true) ↔ FittingFolder rule.matchers (normalize_path path)
unfolding matches_parent_dir
matches_parent_dir_lem rule path = (
  parent_loop_sound rule.matchers (suc (length (normalize_path path))) (normalize_path path),
  parent_loop_complete rule.matchers (suc (length (normalize_path path))) (normalize_path path)
      (omega arith),
)
