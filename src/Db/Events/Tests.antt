-- ===== src/Db/Events/Tests.antt =====
-- Cursors of two scopes.
use proton_sdk_rs.Prelude.{◌≡◌, refl, some, [], ◌∷◌}
use proton_sdk_rs.Db.Events.{Cursors, get_event_cursor, set_event_cursor}

abbrev two_scopes : Cursors
two_scopes = ("volume", "e1") ∷ ("shared", "e5") ∷ []

cursor_replaced : get_event_cursor "volume" (set_event_cursor "volume" "e2" two_scopes) ≡ some "e2"
unfolding get_event_cursor set_event_cursor
cursor_replaced = refl

other_cursor_kept :
    get_event_cursor "shared" (set_event_cursor "volume" "e2" two_scopes) ≡ some "e5"
unfolding get_event_cursor set_event_cursor
other_cursor_kept = refl
