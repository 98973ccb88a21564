-- ===== src/Batch/Tests.antt =====
-- Four ids in batches of three, with a loader that answers in another order and refuses some ids.
use proton_sdk_rs.Prelude.{
  ℕ, ◌≡◌, Option, none, some, List, [], ◌∷◌, ◌++◌, ltb, if◌then◌else◌, arith,
}
use proton_sdk_rs.Batch.{BatchLoaderBase, load_all}
use proton_sdk_rs.Batch.Batches.{IsCut, load_each, load_all_lem}

abbrev waiting : BatchLoaderBase ℕ
waiting = record { queue = 1 ∷ 2 ∷ []; batch_size = 3 }

abbrev from_the_end : List ℕ → Option (List ℕ)
from_the_end [] = some []
from_the_end (id ∷ ids) =
    let rest = from_the_end ids in
    elim rest [ none ↦ none | some ns ↦ if ltb 8 id then none else some (ns ++ id ∷ []) ]

load_all_lem_example :
    (batches : List (List ℕ)) × IsCut 3 batches (1 ∷ 2 ∷ 3 ∷ 4 ∷ [])
    × (load_all from_the_end (3 ∷ 4 ∷ []) waiting ≡ load_each from_the_end batches)
load_all_lem_example = load_all_lem from_the_end (3 ∷ 4 ∷ []) waiting (omega arith)
