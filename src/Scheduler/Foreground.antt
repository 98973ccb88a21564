-- ===== src/Scheduler/Foreground.antt =====
-- event_scheduler.rs: one shared scope in the foreground at most, and the own volume always.
use text.Mathlib.Text.{◌==◌ as str_eq}
use text.Mathlib.TextEquality.{eq_iff}
use proton_sdk_rs.Prelude.{
  ◌+◌, ◌≤◌, ◌≡◌, refl, sym, ap, subst, ◌∙◌, inl, inr, String, Bool, true, false, not, ◌&&◌, ◌||◌,
  some, List, [], ◌∷◌, ◌++◌, arith, ltb, if◌then◌else◌, Bool-cases, Option-cases, All, All-append,
  All-update_where, All-delete_where, count_where, first_where, update_where, delete_where,
}
use proton_sdk_rs.Scheduler.{
  Scope, EventScheduler, new, has_key, is_raised, lower, raise, get, add_scope, set_foreground,
  set_background, remove_scope, Call, adds, foregrounds, backgrounds, removes, step, run,
}

-- The own volume is marked, and never in the background.
pub record IsScope (own : String) (s : Scope) : Type 0 where
  pub marked : s.is_own_volume ≡ str_eq s.id own
  pub polled : (s.is_own_volume && not s.is_foreground) ≡ false

pub record IsValid (t : EventScheduler) : Type 0 where
  pub distinct : (id : String) → count_where (has_key id) t.scopes ≤ 1
  pub scope : All (IsScope t.own_volume_id) t.scopes
  pub single : count_where is_raised t.scopes ≤ 1

count_append {ℓ} :
    {A : Type ℓ} (p : A → Bool) (rs : List A) (r : A)
    → count_where p (rs ++ r ∷ []) ≡ count_where p rs + (if p r then 1 else 0)
count_append p [] r = ground arith
count_append p (s ∷ rs) r = ground (arith, count_append p rs r)

count_delete {ℓ} :
    {A : Type ℓ} (p q : A → Bool) (rs : List A)
    → count_where p (delete_where q rs) ≤ count_where p rs
count_delete p q [] = omega arith
count_delete p q (s ∷ rs) = ground (arith, count_delete p q rs)

-- An update that keeps what the count looks at.
count_update {ℓ} :
    {A : Type ℓ} (p q : A → Bool) (f : A → A) (rs : List A)
    → ((r : A) → p (f r) ≡ p r)
    → count_where p (update_where q f rs) ≡ count_where p rs
count_update p q f [] h = refl
count_update p q f (s ∷ rs) h = elim (Bool-cases (q s)) [
  | inl hit ↦ rw (hit, h s) (ground (arith, count_update p q f rs h))
  | inr miss ↦ rw miss (ground (arith, count_update p q f rs h))
]

lowered : (scopes : List Scope) → count_where is_raised (update_where is_raised lower scopes) ≡ 0
lowered [] = refl
lowered (s ∷ scopes) = ground (arith, lowered scopes)

raised :
    (id : String) (scopes : List Scope)
    → count_where is_raised (update_where (has_key id) raise scopes)
      ≤ count_where is_raised scopes + count_where (has_key id) scopes
raised id [] = omega arith
raised id (s ∷ scopes) = ground (arith, raised id scopes)

lowered_key :
    (id : String) (scopes : List Scope)
    → count_where is_raised (update_where (has_key id) lower scopes) ≤ count_where is_raised scopes
lowered_key id [] = omega arith
lowered_key id (s ∷ scopes) = ground (arith, lowered_key id scopes)

-- Two keys that compare equal count the same scopes.
same_key :
    (a b : String) (scopes : List Scope)
    → str_eq a b ≡ true
    → count_where (has_key b) scopes ≡ count_where (has_key a) scopes
same_key a b scopes h = ap (λ k. count_where (has_key k) scopes) (sym ((eq_iff a b).0 h))

abbrev fresh_scope : String → String → Scope
fresh_scope id own = record {
  id = id;
  is_own_volume = str_eq id own;
  is_foreground = str_eq id own;
  commands = [];
}

add_scope-distinct :
    (id other : String) (t : EventScheduler)
    → IsValid t
    → ltb 0 (count_where (has_key id) t.scopes) ≡ false
    → count_where (has_key other) (t.scopes ++ fresh_scope id t.own_volume_id ∷ []) ≤ 1
add_scope-distinct id other t v fresh =
    let counted = count_append (has_key other) t.scopes (fresh_scope id t.own_volume_id) in
    let few = v.distinct other in
    elim (Bool-cases (str_eq id other)) [
      | inl same ↦ ground (arith, counted, few, fresh, same, same_key id other t.scopes same)
      | inr other_key ↦ ground (arith, counted, few, other_key)
    ]

add_scope-IsValid : (id : String) (t : EventScheduler) → IsValid t → IsValid (add_scope id t)
unfolding add_scope
add_scope-IsValid id t v = elim (Bool-cases (ltb 0 (count_where (has_key id) t.scopes))) [
  | inl known ↦ rw known v
  | inr fresh ↦ rw fresh (record {
    distinct = λ other. add_scope-distinct id other t v fresh;
    scope =
        All-append (IsScope t.own_volume_id) t.scopes (fresh_scope id t.own_volume_id ∷ []) v.scope
          (record { marked = refl; polled = ground arith }, tt);
    single =
        ground (arith, v.single, count_append is_raised t.scopes (fresh_scope id t.own_volume_id));
  })
]

raise-IsScope :
    (own id : String) (r : Scope)
    → IsScope own r
    → IsScope own (if has_key id r then raise r else r)
raise-IsScope own id r h = elim (Bool-cases (has_key id r)) [
  | inl hit ↦ rw hit (record { marked = h.marked; polled = ground arith })
  | inr miss ↦ rw miss h
]

lower-IsScope :
    (own : String) (r : Scope) → IsScope own r → IsScope own (if is_raised r then lower r else r)
lower-IsScope own r h = elim (Bool-cases (is_raised r)) [
  | inl hit ↦ rw hit (record { marked = h.marked; polled = ground (arith, hit) })
  | inr miss ↦ rw miss h
]

-- A shared scope may be sent to the background by its key.
lower_key-IsScope :
    (own id : String) (r : Scope)
    → str_eq id own ≡ false
    → IsScope own r
    → IsScope own (if has_key id r then lower r else r)
lower_key-IsScope own id r shared h = elim (Bool-cases (has_key id r)) [
  | inl hit ↦
      let same : str_eq r.id own ≡ str_eq id own =
        ap (λ k. str_eq k own) ((eq_iff r.id id).0 hit) in
      rw hit (record { marked = h.marked; polled = ground (arith, same, shared, h.marked) })
  | inr miss ↦ rw miss h
]

first_of {ℓ κ} :
    {A : Type ℓ} (P : A → Type κ) (p : A → Bool) (rs : List A) (r : A)
    → first_where p rs ≡ some r
    → All P rs
    → P r × (p r ≡ true)
first_of P p [] r f h = absurd (ground (arith, f))
first_of P p (s ∷ rs) r f h = elim (Bool-cases (p s)) [
  | inl hit ↦ let same : s ≡ r = ground (arith, hit, f) in (subst P same h.0, ap p (sym same) ∙ hit)
  | inr miss ↦ first_of P p rs r (ground (arith, miss, f)) h.1
]

set_foreground-IsValid :
    (id : String) (t : EventScheduler) → IsValid t → IsValid (set_foreground id t)
unfolding set_foreground
set_foreground-IsValid id t v = elim (Option-cases (first_where (has_key id) t.scopes)) [
  | inl missing ↦ rw (set_foreground, get, missing) v
  | inr (s, found) ↦
      rw (set_foreground, get, found)
        (elim (Bool-cases (s.is_own_volume || s.is_foreground)) [
          | inl already ↦ rw already v
          | inr shared ↦ rw shared (record {
            distinct = λ other. omega (
              arith,
              v.distinct other,
              count_update (has_key other) (has_key id) raise
                  (update_where is_raised lower t.scopes) (λ r. refl),
              count_update (has_key other) is_raised lower t.scopes (λ r. refl),
            );
            scope =
                All-update_where (IsScope t.own_volume_id) (IsScope t.own_volume_id) (has_key id)
                  raise (update_where is_raised lower t.scopes)
                  (λ r h. raise-IsScope t.own_volume_id id r h)
                  (All-update_where (IsScope t.own_volume_id) (IsScope t.own_volume_id) is_raised
                    lower t.scopes (λ r h. lower-IsScope t.own_volume_id r h) v.scope);
            single = omega (
              arith,
              raised id (update_where is_raised lower t.scopes),
              lowered t.scopes,
              v.distinct id,
              count_update (has_key id) is_raised lower t.scopes (λ r. refl),
            );
          })
        ])
]

set_background-IsValid :
    (id : String) (t : EventScheduler) → IsValid t → IsValid (set_background id t)
unfolding set_background
set_background-IsValid id t v = elim (Option-cases (first_where (has_key id) t.scopes)) [
  | inl missing ↦ rw (set_background, get, missing) v
  | inr (s, found) ↦
      rw (set_background, get, found)
        (elim (Bool-cases (s.is_own_volume || not s.is_foreground)) [
          | inl already ↦ rw already v
          | inr shared ↦
              let (of_own, hit) =
                first_of (IsScope t.own_volume_id) (has_key id) t.scopes s found v.scope in
              let same : str_eq s.id t.own_volume_id ≡ str_eq id t.own_volume_id =
                ap (λ k. str_eq k t.own_volume_id) ((eq_iff s.id id).0 hit) in
              rw shared (record {
                distinct = λ other. omega (
                  arith,
                  v.distinct other,
                  count_update (has_key other) (has_key id) lower t.scopes (λ r. refl),
                );
                scope =
                    All-update_where (IsScope t.own_volume_id) (IsScope t.own_volume_id)
                      (has_key id) lower t.scopes
                      (λ r h.
                        lower_key-IsScope t.own_volume_id id r
                          (ground (arith, same, shared, of_own.marked)) h)
                      v.scope;
                single = omega (arith, lowered_key id t.scopes, v.single);
              })
        ])
]

remove_scope-IsValid : (id : String) (t : EventScheduler) → IsValid t → IsValid (remove_scope id t)
unfolding remove_scope
remove_scope-IsValid id t v = record {
  distinct =
      λ other. omega (arith, v.distinct other, count_delete (has_key other) (has_key id) t.scopes);
  scope = All-delete_where (IsScope t.own_volume_id) (has_key id) t.scopes v.scope;
  single = omega (arith, v.single, count_delete is_raised (has_key id) t.scopes);
}

step-IsValid : (c : Call) (t : EventScheduler) → IsValid t → IsValid (step t c)
unfolding step
step-IsValid (adds id) t v = add_scope-IsValid id t v
step-IsValid (foregrounds id) t v = set_foreground-IsValid id t v
step-IsValid (backgrounds id) t v = set_background-IsValid id t v
step-IsValid (removes id) t v = remove_scope-IsValid id t v

run-IsValid : (cs : List Call) (t : EventScheduler) → IsValid t → IsValid (run t cs)
unfolding run
run-IsValid [] t v = v
run-IsValid (c ∷ cs) t v = run-IsValid cs (step t c) (step-IsValid c t v)

-- After any calls on a new scheduler: no key is stored twice, the scope of the own volume is in the
-- foreground, and at most one shared scope is.
pub run-new-IsValid : (own : String) (cs : List Call) → IsValid (run (new own) cs)
unfolding new
run-new-IsValid own cs =
    run-IsValid cs (new own)
      (record { distinct = λ id. omega arith; scope = tt; single = omega arith })
