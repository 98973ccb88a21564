-- ===== src/Download.antt =====
-- crates/proton-drive-sdk/src/node/download.rs: `DownloadState` and the parallel download of
-- `RevisionReader::read_all_blocks_parallel`. Which download ends next is what `choose` says of each
-- round; pauses only delay. Block numbers are below 2 ^ 30, so that the i32 indices do not wrap.
pub mod Buffered
pub mod Contents
pub mod Placed
pub mod Arrivals
pub mod Filling
pub mod Ordered
pub mod Retries
mod Tests
use proton_sdk_rs.Prelude.{
  ℕ, zero, suc, ◌+◌, ◌-◌, Bool, true, false, Option, none, some, List, [], ◌∷◌, ◌++◌, ltb, leb,
  ◌==◌, if◌then◌else◌, length, count_where, get_or, min, ◌%◌,
}

abbrev pub Bytes : Type 0
Bytes = List ℕ

-- A downloaded block: its plaintext and the digest of its ciphertext.
pub record Block : Type 0 where
  pub bytes : Bytes
  pub digest : Bytes

pub record DownloadState : Type 0 where
  pub downloaded_block_digests : List Bytes
  pub bytes_written : ℕ

unfoldable pub get_next_block_index_to_download : DownloadState → ℕ
get_next_block_index_to_download s = length s.downloaded_block_digests + 1

unfoldable pub add_downloaded_block_digest : Bytes → DownloadState → DownloadState
add_downloaded_block_digest digest s = record s {
  downloaded_block_digests = s.downloaded_block_digests ++ digest ∷ [];
}

unfoldable pub add_number_of_bytes_written : ℕ → DownloadState → DownloadState
add_number_of_bytes_written bytes s = record s { bytes_written = s.bytes_written + bytes }

abbrev pub max_concurrent_downloads : ℕ
max_concurrent_downloads = 5

-- The locals of the method, with the output stream and the download state; `released` counts the
-- calls of `release_block_listing`.
pub record Parallel : Type 0 where
  pub next_download_index : ℕ
  pub next_write_index : ℕ
  pub buffered_blocks : List (ℕ × Block)
  pub download_futures : List ℕ
  pub output : Bytes
  pub state : DownloadState
  pub released : ℕ

abbrev pub begin : DownloadState → Parallel
begin s = record {
  next_download_index = 1;
  next_write_index = 1;
  buffered_blocks = [];
  download_futures = [];
  output = [];
  state = s;
  released = 0;
}

-- `fetch_add`, and a download when the index is in the file.
unfoldable pub start_next : ℕ → Parallel → Parallel
start_next total_blocks p =
    let idx = p.next_download_index in
    if leb idx total_blocks
    then record p {
      next_download_index = idx + 1;
      download_futures = p.download_futures ++ idx ∷ [];
    }
    else record p { next_download_index = idx + 1 }

-- The first downloads; a round of fuel for each place is enough.
unfoldable pub fill : ℕ → ℕ → Parallel → Parallel
unfolding start_next
fill zero total_blocks p = p
fill (suc fuel) total_blocks p =
    let more = fill fuel total_blocks (start_next total_blocks p) in
    if ltb (length p.download_futures) max_concurrent_downloads
    then (if leb p.next_download_index total_blocks then more else p)
    else p

abbrev pub find_block : ℕ → List (ℕ × Block) → Option Block
find_block idx [] = none
find_block idx ((k, b) ∷ bs) = let rest = find_block idx bs in if k == idx then some b else rest

abbrev pub remove_block : ℕ → List (ℕ × Block) → List (ℕ × Block)
remove_block idx [] = []
remove_block idx ((k, b) ∷ bs) =
    let rest = remove_block idx bs in if k == idx then bs else (k, b) ∷ rest

unfoldable pub write_block : Block → Parallel → Parallel
unfolding add_downloaded_block_digest add_number_of_bytes_written
write_block b p = record p {
  output = p.output ++ b.bytes;
  state =
      add_number_of_bytes_written (length b.bytes) (add_downloaded_block_digest b.digest p.state);
  released = p.released + 1;
  next_write_index = p.next_write_index + 1;
  buffered_blocks = remove_block p.next_write_index p.buffered_blocks;
}

-- `while let Some(..) = buffered_blocks.remove(&next_write_index)`; each round takes a block, so
-- a round of fuel for each buffered block is enough.
unfoldable pub write_ready : ℕ → Parallel → Parallel
unfolding write_block
write_ready zero p = p
write_ready (suc fuel) p = elim (find_block p.next_write_index p.buffered_blocks) [
  | none ↦ p
  | some b ↦ write_ready fuel (write_block b p)
]

abbrev pub remove_future : ℕ → List ℕ → List ℕ
remove_future idx [] = []
remove_future idx (k ∷ ks) = let rest = remove_future idx ks in if k == idx then ks else k ∷ rest

-- A download ended with its block.
unfoldable pub receive : ℕ → ℕ → Block → Parallel → Parallel
unfolding start_next write_ready
receive total_blocks idx b p =
    let next =
      start_next total_blocks
        (record p { download_futures = remove_future idx p.download_futures }) in
    let buffered = record next {
      buffered_blocks = (idx, b) ∷ remove_block idx next.buffered_blocks;
    } in
    write_ready (length buffered.buffered_blocks) buffered

pub data Result : Type 0 where
  done : Parallel → Result
  failed ordering_error out_of_fuel : Result

-- `pop_first` takes the least index.
abbrev first_index : List (ℕ × Block) → Option ℕ
first_index [] = none
first_index ((k, b) ∷ bs) = elim (first_index bs) [ none ↦ some k | some m ↦ some (min k m) ]

-- The blocks that are left when no download is in flight.
unfoldable pub write_rest : ℕ → Parallel → Result
unfolding write_block
write_rest zero p = done p
write_rest (suc fuel) p = elim (first_index p.buffered_blocks) [
  | none ↦ done p
  | some idx ↦ elim (find_block idx p.buffered_blocks) [
    | none ↦ done p
    | some b ↦
        let rest = write_rest fuel (write_block b p) in
        if idx == p.next_write_index then rest else ordering_error
  ]
]

-- `fetch` is `download_and_decrypt_block` of one block.
module _ (fetch : ℕ → Option Block) (choose : ℕ → ℕ) (total_blocks : ℕ) where
  -- The `while` loop: a download that is in flight ends in each round, until none is.
  unfoldable pub process : ℕ → Parallel → Result
  unfolding receive write_rest
  process zero p =
      if length p.download_futures == 0
      then (if leb p.next_write_index total_blocks
          then write_rest (length p.buffered_blocks) p
          else done p)
      else out_of_fuel
  process (suc fuel) p =
      let idx = get_or p.download_futures (choose fuel % length p.download_futures) 0 in
      let round : Result = elim (fetch idx) [
        | none ↦ failed
        | some b ↦ process fuel (receive total_blocks idx b p)
      ] in
      if length p.download_futures == 0
      then (if leb p.next_write_index total_blocks
          then write_rest (length p.buffered_blocks) p
          else done p)
      else round

  -- A download ends in each round, so a round of fuel for each block is enough.
  unfoldable pub read_all_blocks_parallel : DownloadState → Result
  unfolding process fill
  read_all_blocks_parallel s =
      if total_blocks == 0
      then done (begin s)
      else process total_blocks (fill max_concurrent_downloads total_blocks (begin s))
