-- ===== src/Upload/Returns.antt =====
-- crates/proton-drive-sdk/src/node/revision.rs: `write` returns if the uploads are answered.
use proton_sdk_rs.Prelude.{
  ℕ, zero, suc, ◌<◌, ◌≡◌, ◌≢◌, refl, inl, inr, true, ◌&&◌, none, List, [], ◌∷◌, arith, Bool-cases,
}
use proton_sdk_rs.Upload.{
  Task, running, finished, failed, Writing, is_empty, new, Event, step, run, Revision, new_revision,
  written, outcome, conclude,
}
use proton_sdk_rs.Upload.Blocks.{Bytes, Piece, Crypto, encrypt_block}
use proton_sdk_rs.Upload.Contents.{Reads}
use proton_sdk_rs.Upload.Ordered.{IsSound, new-IsSound}
use proton_sdk_rs.Upload.Kept.{step-IsSound, run-IsSound}
use proton_sdk_rs.Upload.Going.{NoError, NoError-join, Going, step-Going, run-Going}
use proton_sdk_rs.Upload.Finish.{measure, forward}

-- A run without an upload error after which `write` has returned.
pub record Finishes (c : Crypto) (target : ℕ) (w : Writing) : Type 0 where
  pub events : List Event
  pub revision : Revision
  pub answered : NoError events
  pub returned : outcome c (run c target events w) new_revision ≡ written revision

module _ (c : Crypto) (target : ℕ) (start : List Piece) (pos : 0 < target)
    (makes : (n : ℕ) (p : Bytes) → encrypt_block c n p ≢ none) where
  at_end :
      (w : Writing)
      → (IsSound c target start) w
      → Going w
      → (is_empty w.upload_futures && w.producer_done) ≡ true
      → Finishes c target w
  unfolding outcome run
  at_end w i g done = concluded w.producer refl
    where
      concluded : (p : Task) → w.producer ≡ p → Finishes c target w
      concluded running e =
          let off = (i.drained (ground (arith, done))).1 in absurd (ground (arith, off, e))
      concluded failed e = absurd (g.healthy e)
      concluded finished e =
          let h : outcome c w new_revision ≡ conclude c w finished new_revision =
            rw (outcome, g.on, done, e) refl in
          record { events = []; revision = _; answered = tt; returned = h }

  prepend :
      (e : Event) (w : Writing)
      → NoError (e ∷ [])
      → Finishes c target (step c target e w)
      → Finishes c target w
  unfolding run
  prepend e w n f = record {
    events = e ∷ f.events;
    revision = f.revision;
    answered = NoError-join e f.events n f.answered;
    returned = f.returned;
  }

  finish :
      (fuel : ℕ) (w : Writing)
      → measure w < fuel
      → (IsSound c target start) w
      → Going w
      → Finishes c target w
  finish zero w h i g = absurd (omega arith)
  finish (suc fuel) w h i g = elim (Bool-cases (is_empty w.upload_futures && w.producer_done)) [
    | inl done ↦ at_end w i g done
    | inr more ↦
        let (e, n, less) = forward c target start pos makes w i g more in
        prepend e w n (
          finish fuel (step c target e w) (omega arith) (step-IsSound c target start e w pos i)
            (step-Going c target start pos makes e w n i g))
  ]

-- If the reads of the stream give bytes and no error up to its end, blocks have room for a byte and
-- every block can be encrypted, then after any run in which no upload has failed `write` can still
-- return, with a writer, by answers to the uploads: it never gets stuck.
pub write-never_stuck :
    (c : Crypto) (target : ℕ) (start : List Piece) (es : List Event)
    → 0 < target
    → Reads start
    → ((n : ℕ) (p : Bytes) → encrypt_block c n p ≢ none)
    → NoError es
    → Finishes c target (run c target es (new start))
unfolding new
write-never_stuck c target start es pos reads makes n =
    let w = run c target es (new start) in
    let fresh = new-IsSound c target start reads in
    let i = run-IsSound c target start es (new start) pos fresh in
    let g =
      run-Going c target start pos makes es (new start) n fresh
        (record { on = refl; healthy = λ e. cc }) in
    finish c target start pos makes (suc (measure w)) w (omega arith) i g
