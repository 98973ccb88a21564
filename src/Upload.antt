-- ===== src/Upload.antt =====
-- crates/proton-drive-sdk/src/node/revision.rs, block/upload.rs and block/verify.rs: how a
-- `RevisionWriter` writes the content of a file. A producer task reads and encrypts blocks into a
-- channel, and the writer uploads them, several at a time. A byte is a number, and block numbers and
-- sizes are taken to stay below 2^31. A pause delays a step and is left out. Reading, encrypting and
-- sending a block is one step, taken when the channel has room: the source reads and encrypts the next
-- block before it waits for room, so that it holds one block more, and meets an error of that block
-- earlier, than the model.
pub mod Blocks
pub mod Sorting
pub mod Contents
pub mod Numbered
pub mod Ordered
pub mod Kept
pub mod Written
pub mod Going
pub mod Finish
pub mod Returns
pub mod Commit
pub mod Requests
mod Tests
use proton_sdk_rs.Prelude.{
  ℕ, zero, suc, ◌+◌, ◌-◌, min, String, Bool, true, false, not, ◌&&◌, Option, none, some, List, [],
  ◌∷◌, ◌++◌, length, take, drop, replicate, ltb, leb, order_by, if◌then◌else◌,
}
use proton_sdk_rs.Upload.Blocks.{Bytes, Piece, read_block, Crypto, EncryptedBlock, encrypt_block}

-- `(block_number, BlockUploadResult, block_size)`
pub record Uploaded : Type 0 where
  pub number : ℕ
  pub plain_size : ℕ
  pub digest : Bytes
  pub size : ℕ

abbrev pub Queued : Type 0
Queued = EncryptedBlock × ℕ

abbrev pub uploaded_of : Queued → Uploaded
uploaded_of (b, size) = record {
  number = b.block_number;
  plain_size = b.plain_size;
  digest = b.sha256_digest;
  size = size;
}

pub data Task : Type 0 where
  running finished failed : Task

-- `write` in the midst of its two loops.
pub record Writing : Type 0 where
  pub stream : List Piece
  pub current_block : ℕ
  pub hashed : Bytes
  pub producer : Task
  pub channel : List Queued
  pub upload_futures : List Queued
  pub block_results : List Uploaded
  pub producer_done : Bool
  pub aborted : Bool

abbrev pub max_concurrent_uploads : ℕ
max_concurrent_uploads = 5

abbrev pub max_buffered_blocks : ℕ
max_buffered_blocks = 15

abbrev pub is_running : Task → Bool
is_running running = true
is_running _ = false

abbrev pub is_empty {ℓ} : {A : Type ℓ} → List A → Bool
is_empty [] = true
is_empty (x ∷ xs) = false

unfoldable pub new : List Piece → Writing
new stream = record {
  stream = stream;
  current_block = 1;
  hashed = [];
  producer = running;
  channel = [];
  upload_futures = [];
  block_results = [];
  producer_done = false;
  aborted = false;
}

module _ (c : Crypto) (target_block_size : ℕ) where
  abbrev pub queue_block : Writing → Bytes → List Piece → Option EncryptedBlock → Writing
  queue_block w block stream none = record w { stream = stream; producer = failed }
  queue_block w block stream (some e) = record w {
    stream = stream;
    current_block = w.current_block + 1;
    hashed = w.hashed ++ block;
    channel = w.channel ++ (e, length block) ∷ [];
  }

  abbrev pub produce_read : Writing → Option (Bytes × List Piece) → Writing
  produce_read w none = record w { producer = failed }
  produce_read w (some ([], stream)) = record w { stream = stream; producer = finished }
  produce_read w (some (b ∷ block, stream)) =
      queue_block w (b ∷ block) stream (encrypt_block c w.current_block (b ∷ block))

  -- A round of the producer, which waits while the channel is full.
  unfoldable pub produce : Writing → Writing
  unfolding read_block encrypt_block
  produce w =
      if is_running w.producer && ltb (length w.channel) max_buffered_blocks
      then produce_read w (read_block target_block_size w.stream)
      else w

abbrev pub take_block : Writing → List Queued → Writing
take_block w [] = if is_running w.producer then w else record w { producer_done = true }
take_block w (q ∷ channel) = record w {
  channel = channel;
  upload_futures = w.upload_futures ++ q ∷ [];
}

-- One of the three places that receive: `try_recv` and the guarded `recv` beside the uploads test the
-- number of uploads under way, and the `recv` without an upload is made where there are none, so that
-- the test holds there. `try_recv` on an empty channel changes nothing, and a `recv` that waits is no
-- step. The channel is disconnected when it is empty and the producer has ended.
unfoldable pub receive : Writing → Writing
receive w =
    if not w.producer_done && ltb (length w.upload_futures) max_concurrent_uploads
    then take_block w w.channel
    else w

abbrev beside : Queued → Option (Queued × List Queued) → Option (Queued × List Queued)
beside q none = none
beside q (some (r, rest)) = some (r, q ∷ rest)

unfoldable pub take_future : ℕ → List Queued → Option (Queued × List Queued)
take_future i [] = none
take_future zero (q ∷ qs) = some (q, qs)
take_future (suc i) (q ∷ qs) = beside q (take_future i qs)

abbrev pub keep_result : Writing → Option (Queued × List Queued) → Writing
keep_result w none = w
keep_result w (some (q, rest)) = record w {
  upload_futures = rest;
  block_results = w.block_results ++ uploaded_of q ∷ [];
}

-- An upload ends well, or with an error, which ends `write`.
unfoldable pub upload_done : ℕ → Writing → Writing
unfolding take_future
upload_done i w = keep_result w (take_future i w.upload_futures)

unfoldable pub upload_failed : ℕ → Writing → Writing
upload_failed i w = if ltb i (length w.upload_futures) then record w { aborted = true } else w

pub data Event : Type 0 where
  producer_round consumer_round : Event
  upload_answer upload_error : ℕ → Event

-- The fields of the writer that `write` sets.
pub record Revision : Type 0 where
  pub digests : Bytes
  pub block_sizes : List ℕ
  pub total_written : ℕ
  pub block_number : ℕ
  pub precomputed_sha1 : Option Bytes

unfoldable pub new_revision : Revision
new_revision = record {
  digests = [];
  block_sizes = [];
  total_written = 0;
  block_number = 1;
  precomputed_sha1 = none;
}

unfoldable pub add_results : List Uploaded → Revision → Revision
add_results [] r = r
add_results (u ∷ us) r = add_results us (record r {
  digests = r.digests ++ u.digest;
  block_sizes = r.block_sizes ++ u.size ∷ [];
  total_written = r.total_written + u.size;
})

pub data Outcome : Type 0 where
  pending broken : Outcome
  written : Revision → Outcome

module _ (c : Crypto) where
  -- After both loops have ended.
  abbrev pub conclude : Writing → Task → Revision → Outcome
  conclude w finished r =
      let sorted = add_results (order_by (λ u. u.number) w.block_results) r in
      written (record sorted {
        precomputed_sha1 = some (c.sha1 w.hashed);
        block_number = w.current_block - 1 + 1;
      })
  conclude w _ r = broken

  unfoldable pub outcome : Writing → Revision → Outcome
  unfolding add_results
  outcome w r =
      if w.aborted
      then broken
      else if is_empty w.upload_futures && w.producer_done
      then conclude w w.producer r
      else pending

  module _ (target_block_size : ℕ) where
    unfoldable pub step : Event → Writing → Writing
    unfolding produce receive upload_done upload_failed
    step producer_round w = if w.aborted then w else produce c target_block_size w
    step consumer_round w = if w.aborted then w else receive w
    step (upload_answer i) w = if w.aborted then w else upload_done i w
    step (upload_error i) w = if w.aborted then w else upload_failed i w

    unfoldable pub run : List Event → Writing → Writing
    unfolding step
    run [] w = w
    run (e ∷ es) w = run es (step e w)
