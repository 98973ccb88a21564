-- ===== src/Progress/Tests.antt =====
-- A file that is sent and one that is skipped.
use proton_sdk_rs.Prelude.{List, [], ◌∷◌}
use proton_sdk_rs.Progress.{
  Call, totals, starts, stages, sends, finishes, hashing, transferred, skipped, new, run,
}
use proton_sdk_rs.Progress.Counters.{new_files, new_bytes, IsBalanced, run-new-IsBalanced}

abbrev calls : List Call
calls =
    totals 2 30
    ∷ starts 0 "a" 10
    ∷ starts 1 "b" 20
    ∷ stages 0 hashing
    ∷ sends 0 10
    ∷ finishes 0 transferred
    ∷ finishes 1 skipped
    ∷ finishes 1 skipped
    ∷ []

run-new-IsBalanced_example : IsBalanced (new_files calls) (new_bytes calls) (run calls new)
run-new-IsBalanced_example = run-new-IsBalanced calls
