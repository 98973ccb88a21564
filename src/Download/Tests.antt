-- ===== src/Download/Tests.antt =====
-- A file of three blocks, and a block that is refused twice.
use proton_sdk_rs.Prelude.{ℕ, zero, suc, ◌≡◌, refl, Option, none, some, List, [], ◌∷◌, get_elem?}
use proton_sdk_rs.Download.{Block, DownloadState, Parallel, read_all_blocks_parallel, done}
use proton_sdk_rs.Download.Contents.{Written}
use proton_sdk_rs.Download.Ordered.{read_all_blocks_parallel_lem}
use proton_sdk_rs.Download.Retries.{
  Attempt, ok, err, http, too_many_requests, download, Made, download_lem,
}

abbrev blocks : List Block
blocks =
    record { bytes = 1 ∷ 2 ∷ []; digest = 7 ∷ [] }
    ∷ record { bytes = 3 ∷ []; digest = 8 ∷ [] }
    ∷ record { bytes = 4 ∷ []; digest = 9 ∷ [] }
    ∷ []

abbrev server : ℕ → Option Block
server zero = none
server (suc i) = get_elem? blocks i

abbrev fresh : DownloadState
fresh = record { downloaded_block_digests = []; bytes_written = 0 }

read_all_blocks_parallel_lem_example :
    (p : Parallel) × (read_all_blocks_parallel server (λ round. round) 3 fresh ≡ done p)
    × Written blocks fresh 3 p
read_all_blocks_parallel_lem_example =
    read_all_blocks_parallel_lem blocks fresh server (λ i. refl) (λ round. round)

abbrev busy_server : ℕ → Attempt
busy_server zero = err (too_many_requests (some 2))
busy_server (suc zero) = err (http 503)
busy_server (suc (suc n)) = ok (5 ∷ []) (6 ∷ [])

download_lem_example :
    Made busy_server 0 4 [] (download busy_server []).answer (download busy_server []).output
download_lem_example = download_lem busy_server []
