-- ===== src/Streaming/Tests.antt =====
-- A file of three blocks, read across their borders.
use proton_sdk_rs.Prelude.{ℕ, ◌≡◌, refl, ◌<◌, Option, List, [], ◌∷◌, arith, get_elem?}
use proton_sdk_rs.Streaming.{Bytes, Cache, ok, read, len, new, starts_from, last}
use proton_sdk_rs.Streaming.Locate.{reader}
use proton_sdk_rs.Streaming.Kept.{IsCache}
use proton_sdk_rs.Streaming.Reads.{read_lem}

abbrev blocks : List Bytes
blocks = (10 ∷ 20 ∷ 30 ∷ []) ∷ (40 ∷ 50 ∷ []) ∷ (60 ∷ []) ∷ []

abbrev server : ℕ → Option Bytes
server i = get_elem? blocks i

abbrev one_cached : Cache
one_cached = (1, 40 ∷ 50 ∷ []) ∷ []

read_lem_example :
    ((read server (reader blocks) 2 3 one_cached).0 ≡ ok (30 ∷ 40 ∷ 50 ∷ []))
    × IsCache blocks (read server (reader blocks) 2 3 one_cached).1
read_lem_example =
    read_lem blocks server (λ i d h. h) 2 3 one_cached
      (record { right = (refl, tt); few = omega arith }) (omega arith)

before_end : 3 < len (reader blocks)
unfolding len new starts_from last
before_end = omega arith
