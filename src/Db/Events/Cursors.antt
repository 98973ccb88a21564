-- ===== src/Db/Events/Cursors.antt =====
-- db.rs: a cursor reads back, and the cursors of other scopes stay.
use text.Mathlib.Text.{◌==◌ as str_eq}
use text.Mathlib.TextEquality.{eq_iff}
use proton_sdk_rs.Prelude.{
  ◌≡◌, refl, ap, ◌∙◌, inl, inr, String, true, false, some, [], ◌∷◌, ◌++◌, arith, delete_where,
  Bool-cases,
}
use proton_sdk_rs.Db.Events.{Cursors, get_event_cursor, set_event_cursor}

get_deleted :
    (scope : String) (tail c : Cursors)
    → get_event_cursor scope (delete_where (λ e. str_eq e.0 scope) c ++ tail)
      ≡ get_event_cursor scope tail
unfolding get_event_cursor
get_deleted scope tail [] = refl
get_deleted scope tail ((k, v) ∷ c) = elim (Bool-cases (str_eq k scope)) [
  | inl hit ↦ rw hit (get_deleted scope tail c)
  | inr miss ↦ rw (miss, miss) (get_deleted scope tail c)
]

get_other :
    (scope other event_id : String) (c : Cursors)
    → str_eq scope other ≡ false
    → get_event_cursor other (delete_where (λ e. str_eq e.0 scope) c ++ (scope, event_id) ∷ [])
      ≡ get_event_cursor other c
unfolding get_event_cursor
get_other scope other event_id [] h = rw h refl
get_other scope other event_id ((k, v) ∷ c) h = elim (Bool-cases (str_eq k scope)) [
  | inl hit ↦
      let apart : str_eq k other ≡ false = ap (λ x. str_eq x other) ((eq_iff k scope).0 hit) ∙ h in
      rw (hit, apart) (get_other scope other event_id c h)
  | inr miss ↦ rw miss (ground (arith, get_other scope other event_id c h))
]

pub get_event_cursor-set_self :
    (scope event_id : String) (c : Cursors)
    → get_event_cursor scope (set_event_cursor scope event_id c) ≡ some event_id
unfolding set_event_cursor get_event_cursor
get_event_cursor-set_self scope event_id c =
    let same : str_eq scope scope ≡ true = (eq_iff scope scope).1 refl in
    get_deleted scope ((scope, event_id) ∷ []) c ∙ rw same refl

-- After `set_event_cursor` the scope has the event id that was set, and any other scope the cursor
-- that it had.
pub set_event_cursor_lem :
    (scope other event_id : String) (c : Cursors)
    → str_eq scope other ≡ false
    → (get_event_cursor scope (set_event_cursor scope event_id c) ≡ some event_id)
      × (get_event_cursor other (set_event_cursor scope event_id c) ≡ get_event_cursor other c)
unfolding set_event_cursor
set_event_cursor_lem scope other event_id c h =
    (get_event_cursor-set_self scope event_id c, get_other scope other event_id c h)
