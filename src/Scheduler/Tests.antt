-- ===== src/Scheduler/Tests.antt =====
-- Two shared scopes that are raised in turn.
use proton_sdk_rs.Prelude.{List, [], ◌∷◌}
use proton_sdk_rs.Scheduler.{Call, adds, foregrounds, backgrounds, new, run}
use proton_sdk_rs.Scheduler.Foreground.{IsValid, run-new-IsValid}

abbrev calls : List Call
calls =
    adds "own" ∷ adds "a" ∷ adds "b" ∷ foregrounds "a" ∷ foregrounds "b" ∷ backgrounds "own" ∷ []

run-new-IsValid_example : IsValid (run (new "own") calls)
run-new-IsValid_example = run-new-IsValid "own" calls
