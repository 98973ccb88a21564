-- ===== src/Upload/Going.antt =====
-- crates/proton-drive-sdk/src/node/revision.rs: runs of `write` in which no upload fails.
use proton_sdk_rs.Prelude.{
  ℕ, ◌<◌, ◌≡◌, ◌≢◌, refl, Bool, true, false, not, ◌&&◌, Option, none, some, List, [], ◌∷◌, ltb,
  if◌then◌else◌, length,
}
use proton_sdk_rs.Upload.{
  Queued, failed, Writing, is_running, max_buffered_blocks, max_concurrent_uploads, produce_read,
  queue_block, produce, take_block, receive, take_future, keep_result, upload_done, Event,
  producer_round, consumer_round, upload_answer, upload_error, step, run,
}
use proton_sdk_rs.Upload.Blocks.{Bytes, Piece, read_block, Crypto, EncryptedBlock, encrypt_block}
use proton_sdk_rs.Upload.Contents.{read_block-Split}
use proton_sdk_rs.Upload.Ordered.{IsSound}
use proton_sdk_rs.Upload.Kept.{step-IsSound}

-- Events in which no upload fails.
abbrev pub NoError : List Event → Type 0
NoError [] = Unit {0}
NoError (producer_round ∷ es) = NoError es
NoError (consumer_round ∷ es) = NoError es
NoError (upload_answer n ∷ es) = NoError es
NoError (upload_error n ∷ es) = ⊥

pub NoError-join : (e : Event) (es : List Event) → NoError (e ∷ []) → NoError es → NoError (e ∷ es)
NoError-join producer_round es f n = n
NoError-join consumer_round es f n = n
NoError-join (upload_answer k) es f n = n
NoError-join (upload_error k) es f n = absurd f

pub NoError-cons : (e : Event) (es : List Event) → NoError (e ∷ es) → NoError (e ∷ []) × NoError es
NoError-cons producer_round es n = (tt, n)
NoError-cons consumer_round es n = (tt, n)
NoError-cons (upload_answer k) es n = (tt, n)
NoError-cons (upload_error k) es n = absurd n

-- No upload has failed, and neither has the producer.
pub record Going (w : Writing) : Type 0 where
  pub on : w.aborted ≡ false
  pub healthy : w.producer ≢ failed

module _ (c : Crypto) (target : ℕ) (start : List Piece) (pos : 0 < target)
    (makes : (n : ℕ) (p : Bytes) → encrypt_block c n p ≢ none) where
  queue_block-Going :
      (w : Writing) (b : Bytes) (rest : List Piece) (m : Option EncryptedBlock)
      → m ≢ none
      → Going w
      → Going (queue_block c target w b rest m)
  queue_block-Going w b rest none ne g = absurd (ne refl)
  queue_block-Going w b rest (some e) ne g = record { on = g.on; healthy = g.healthy }

  produce_read-Going :
      (w : Writing) (block : Bytes) (rest : List Piece)
      → Going w
      → Going (produce_read c target w (some (block, rest)))
  produce_read-Going w [] rest g = record { on = g.on; healthy = λ e. cc }
  produce_read-Going w (b ∷ block) rest g =
      queue_block-Going w (b ∷ block) rest (encrypt_block c w.current_block (b ∷ block))
        (makes w.current_block (b ∷ block)) g

  either-Going : (b : Bool) (w v : Writing) → Going w → Going v → Going (if b then w else v)
  either-Going true w v g h = g
  either-Going false w v g h = h

  pub produce-Going :
      (w : Writing) → (IsSound c target start) w → Going w → Going (produce c target w)
  unfolding produce
  produce-Going w i g =
      let (block, rest, e, s) = read_block-Split target w.stream i.reads in
      either-Going (is_running w.producer && ltb (length w.channel) max_buffered_blocks)
        (produce_read c target w (read_block target w.stream)) w
        (rw e (produce_read-Going w block rest g)) g

  take_block-Going : (w : Writing) (channel : List Queued) → Going w → Going (take_block w channel)
  take_block-Going w [] g =
      either-Going (is_running w.producer) w (record w { producer_done = true }) g
        (record { on = g.on; healthy = g.healthy })
  take_block-Going w (q ∷ channel) g = record { on = g.on; healthy = g.healthy }

  keep_result-Going :
      (w : Writing) (o : Option (Queued × List Queued)) → Going w → Going (keep_result w o)
  keep_result-Going w none g = g
  keep_result-Going w (some (q, rest)) g = record { on = g.on; healthy = g.healthy }

  pub step-Going :
      (e : Event) (w : Writing)
      → NoError (e ∷ [])
      → (IsSound c target start) w
      → Going w
      → Going (step c target e w)
  unfolding step receive upload_done
  step-Going producer_round w n i g = either-Going w.aborted w _ g (produce-Going w i g)
  step-Going consumer_round w n i g = either-Going w.aborted w _ g (
      either-Going (not w.producer_done && ltb (length w.upload_futures) max_concurrent_uploads)
        (take_block w w.channel) w (take_block-Going w w.channel g) g)
  step-Going (upload_answer k) w n i g =
      either-Going w.aborted w _ g (keep_result-Going w (take_future k w.upload_futures) g)
  step-Going (upload_error k) w n i g = absurd n

  pub run-Going :
      (es : List Event) (w : Writing)
      → NoError es
      → (IsSound c target start) w
      → Going w
      → Going (run c target es w)
  unfolding run
  run-Going [] w n i g = g
  run-Going (e ∷ es) w n i g =
      let (first, rest) = NoError-cons e es n in
      run-Going es (step c target e w) rest (step-IsSound c target start e w pos i)
        (step-Going e w first i g)
