-- ===== src/Ignore/Decides.antt =====
-- crates/pdcli/src/pdignore.rs: which rule of an `IgnoreMatcher` decides.
use proton_sdk_rs.Prelude.{
  ◌≡◌, refl, ap, ◌↔◌, inl, inr, ◌⊎◌, Bool, true, false, not, Option, some, List, [], ◌∷◌, ◌++◌, All,
  Bool-cases,
}
use proton_sdk_rs.Ignore.{Text, Rule, matches, check, check_loop, normalize_path}

-- The last of the rules that matches, with the answer that it gives.
pub record LastMatch (rules : List Rule) (path : Text) (is_dir ignored : Bool) : Type 0 where
  pub before : List Rule
  pub rule : Rule
  pub after : List Rule
  pub split : rules ≡ before ++ rule ∷ after
  pub hit : matches rule path is_dir ≡ true
  pub quiet : All (λ r. matches r path is_dir ≡ false) after
  pub sign : ignored ≡ not rule.negated

module _ (path : Text) (is_dir : Bool) where
  abbrev Quiet : List Rule → Type 0
  Quiet = All (λ r. matches r path is_dir ≡ false)

  check_loop-Quiet :
      (rules : List Rule) (ignored : Option Bool)
      → Quiet rules
      → check_loop rules path is_dir ignored ≡ ignored
  unfolding check_loop
  check_loop-Quiet [] ignored q = refl
  check_loop-Quiet (r ∷ rules) ignored q = rw q.0 (check_loop-Quiet rules ignored q.1)

  check_loop_hit :
      (before after : List Rule) (rule : Rule) (ignored : Option Bool)
      → matches rule path is_dir ≡ true
      → Quiet after
      → check_loop (before ++ rule ∷ after) path is_dir ignored ≡ some (not rule.negated)
  unfolding check_loop
  check_loop_hit [] after rule ignored hit q = rw (check_loop, hit) (check_loop-Quiet after _ q)
  check_loop_hit (r ∷ before) after rule ignored hit q = check_loop_hit before after rule _ hit q

  abbrev Explained : List Rule → Option Bool → Bool → Type 0
  Explained rules ignored b = LastMatch rules path is_dir b ⊎ (Quiet rules × (ignored ≡ some b))

  behind_rule :
      (r : Rule) (rules : List Rule) (b : Bool)
      → LastMatch rules path is_dir b
      → LastMatch (r ∷ rules) path is_dir b
  behind_rule r rules b m = record {
    before = r ∷ m.before;
    rule = m.rule;
    after = m.after;
    split = ap (λ (s : List Rule). r ∷ s) m.split;
    hit = m.hit;
    quiet = m.quiet;
    sign = m.sign;
  }

  check_loop_inv :
      (rules : List Rule) (ignored : Option Bool) (b : Bool)
      → check_loop rules path is_dir ignored ≡ some b
      → Explained rules ignored b
  unfolding check_loop
  check_loop_inv [] ignored b h = inr (tt, h)
  check_loop_inv (r ∷ rules) ignored b h = elim (Bool-cases (matches r path is_dir)) [
    | inl hit ↦ elim (check_loop_inv rules (some (not r.negated)) b (rw hit at h)) [
      | inl m ↦ inl (behind_rule r rules b m)
      | inr (q, e) ↦ inl (record {
        before = [];
        rule = r;
        after = rules;
        split = refl;
        hit = hit;
        quiet = q;
        sign = cc;
      })
    ]
    | inr miss ↦ elim (check_loop_inv rules ignored b (rw miss at h)) [
      | inl m ↦ inl (behind_rule r rules b m)
      | inr (q, e) ↦ inr ((miss, q), e)
    ]
  ]

-- `check` gives an answer exactly when a rule matches the path, without the slashes at its ends and
-- with slashes for backslashes, and the last rule that matches gives it: not ignored if the rule is
-- negated, ignored otherwise.
pub check_lem :
    (rules : List Rule) (path : Text) (is_dir ignored : Bool)
    → (check rules path is_dir ≡ some ignored)
      ↔ LastMatch rules (normalize_path path) is_dir ignored
unfolding check
check_lem rules path is_dir ignored = (sound, complete)
  where
    sound :
        check rules path is_dir ≡ some ignored
        → LastMatch rules (normalize_path path) is_dir ignored
    sound h = elim (check_loop_inv (normalize_path path) is_dir rules _ ignored h) [
      | inl m ↦ m
      | inr (q, e) ↦ cc
    ]

    complete :
        LastMatch rules (normalize_path path) is_dir ignored
        → check rules path is_dir ≡ some ignored
    complete m =
        rw (m.split, m.sign)
          (check_loop_hit (normalize_path path) is_dir m.before m.after m.rule _ m.hit m.quiet)
