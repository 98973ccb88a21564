-- ===== src/Upload/Finish.antt =====
-- crates/proton-drive-sdk/src/node/revision.rs: while `write` has not returned, some event brings it
-- forward.
use proton_sdk_rs.Prelude.{
  ℕ, zero, suc, ◌+◌, ◌*◌, ◌-◌, ◌≤◌, ◌<◌, ◌≡◌, ◌≢◌, refl, sym, ap, ◌∙◌, subst, inl, inr, Bool, true,
  false, not, ◌&&◌, Option, none, some, List, [], ◌∷◌, arith, leb, ltb, if◌then◌else◌, length,
  length-append, length-take, length-drop, Bool-cases, Option-cases,
}
use proton_sdk_rs.Upload.{
  Queued, Writing, is_running, is_empty, max_buffered_blocks, max_concurrent_uploads, produce_read,
  queue_block, produce, take_block, receive, take_future, keep_result, upload_done, Event,
  producer_round, consumer_round, upload_answer, step,
}
use proton_sdk_rs.Upload.Blocks.{
  Bytes, Piece, piece, fault, read_block, Crypto, EncryptedBlock, encrypt_block,
}
use proton_sdk_rs.Upload.Contents.{read_block-Split}
use proton_sdk_rs.Upload.Ordered.{IsSound}
use proton_sdk_rs.Upload.Going.{NoError, Going}

size : List Piece → ℕ
size [] = 0
size (piece b ∷ s) = length b + size s
size (fault ∷ s) = size s

read_block-size :
    (n : ℕ) (s rest : List Piece) (block : Bytes)
    → read_block n s ≡ some (block, rest)
    → size rest + length block ≤ size s
unfolding read_block size
read_block-size zero s rest block h = ground arith
read_block-size (suc n) [] rest block h = ground arith
read_block-size (suc n) (fault ∷ s) rest block h = cc
read_block-size (suc n) (piece [] ∷ s) rest block h = ground arith
read_block-size (suc n) (piece (b ∷ c) ∷ s) rest block h = elim (Bool-cases (leb (length c) n)) [
  | inl fits ↦ elim (Option-cases (read_block (n - length c) s)) [
    | inl missing ↦ absurd (ground (arith, fits, missing, h))
    | inr ((more, left), e) ↦ ground (
      arith,
      fits,
      e,
      h,
      read_block-size (n - length c) s left more e,
      length-append (b ∷ c) more,
    )
  ]
  | inr over ↦ ground (arith, over, h, length-take (suc n) (b ∷ c), length-drop (suc n) (b ∷ c))
]

abbrev one_if : Bool → ℕ
one_if true = 1
one_if false = 0

pub measure : Writing → ℕ
measure w =
    3 * size w.stream
    + 2 * length w.channel
    + length w.upload_futures
    + one_if (is_running w.producer)
    + one_if (not w.producer_done)

if_false {ℓ} : {A : Type ℓ} (b : Bool) (x y : A) → b ≡ false → (if b then x else y) ≡ y
if_false true x y h = absurd (ground (arith, h))
if_false false x y h = refl

if_true {ℓ} : {A : Type ℓ} (b : Bool) (x y : A) → b ≡ true → (if b then x else y) ≡ x
if_true true x y h = refl
if_true false x y h = absurd (ground (arith, h))

module _ (c : Crypto) (target : ℕ) (start : List Piece) (pos : 0 < target)
    (makes : (n : ℕ) (p : Bytes) → encrypt_block c n p ≢ none) where
  produce_read-forward :
      (w : Writing) (block : Bytes) (rest : List Piece)
      → is_running w.producer ≡ true
      → w.channel ≡ []
      → size rest + length block ≤ size w.stream
      → measure (produce_read c target w (some (block, rest))) < measure w
  unfolding measure
  produce_read-forward w [] rest on empty less = ground (arith, on, less)
  produce_read-forward w (b ∷ block) rest on empty less =
      queued (encrypt_block c w.current_block (b ∷ block)) (makes w.current_block (b ∷ block))
    where
      queued :
          (m : Option EncryptedBlock)
          → m ≢ none
          → measure (queue_block c target w (b ∷ block) rest m) < measure w
      queued none ne = absurd (ne refl)
      queued (some e) ne =
          omega (arith, less, length-append w.channel ((e, length (b ∷ block)) ∷ []))

  produce-forward :
      (w : Writing)
      → (IsSound c target start) w
      → is_running w.producer ≡ true
      → w.channel ≡ []
      → measure (produce c target w) < measure w
  unfolding produce
  produce-forward w i on empty =
      let (block, rest, e, s) = read_block-Split target w.stream i.reads in
      let room : ltb (length w.channel) max_buffered_blocks ≡ true = rw empty refl in
      let go : (is_running w.producer && ltb (length w.channel) max_buffered_blocks) ≡ true =
        rw (on, room) refl in
      let less = read_block-size target w.stream rest block e in
      subst (λ v. measure v < measure w)
        (sym (if_true _ (produce_read c target w (read_block target w.stream)) w go))
        (subst (λ o. measure (produce_read c target w o) < measure w) (sym e)
          (produce_read-forward w block rest on empty less))

  -- An event that brings `write` forward.
  abbrev pub Forward : Writing → Type 0
  Forward w = (e : Event) × NoError (e ∷ []) × (measure (step c target e w) < measure w)

  answer-Forward :
      (w : Writing) (q : Queued) (futures : List Queued)
      → Going w
      → w.upload_futures ≡ q ∷ futures
      → Forward w
  unfolding step upload_done take_future measure
  answer-Forward w q futures g e =
      let less : measure (keep_result w (some (q, futures))) < measure w =
        omega (arith, ap length e) in
      (
        upload_answer 0,
        tt,
        subst (λ v. measure v < measure w)
            (sym (if_false w.aborted w _ g.on ∙ ap (λ fs. keep_result w (take_future 0 fs)) e))
            less,
      )

  take_block-forward :
      (w : Writing) (channel : List Queued)
      → w.channel ≡ channel
      → w.producer_done ≡ false
      → (channel ≡ [] → is_running w.producer ≡ false)
      → measure (take_block w channel) < measure w
  unfolding measure
  take_block-forward w [] e busy off =
      subst (λ v. measure v < measure w)
        (sym (if_false _ w (record w { producer_done = true }) (off refl))) (ground (arith, busy))
  take_block-forward w (q ∷ channel) e busy off =
      omega (arith, ap length e, length-append w.upload_futures (q ∷ []))

  receive-Forward :
      (w : Writing)
      → Going w
      → w.upload_futures ≡ []
      → w.producer_done ≡ false
      → (w.channel ≡ [] → is_running w.producer ≡ false)
      → Forward w
  unfolding step receive
  receive-Forward w g none_left busy off =
      let go : (not w.producer_done && ltb (length w.upload_futures) max_concurrent_uploads)
          ≡ true =
        rw (busy, none_left) refl in
      (
        consumer_round,
        tt,
        subst (λ v. measure v < measure w)
            (sym (if_false w.aborted w _ g.on ∙ if_true _ (take_block w w.channel) w go))
            (take_block-forward w w.channel refl busy off),
      )

  produce-Forward :
      (w : Writing)
      → (IsSound c target start) w
      → Going w
      → is_running w.producer ≡ true
      → w.channel ≡ []
      → Forward w
  unfolding step
  produce-Forward w i g on empty = (
    producer_round,
    tt,
    subst (λ v. measure v < measure w) (sym (if_false w.aborted w _ g.on))
        (produce-forward w i on empty),
  )

  pub forward :
      (w : Writing)
      → (IsSound c target start) w
      → Going w
      → (is_empty w.upload_futures && w.producer_done) ≡ false
      → Forward w
  forward w i g more = by_futures w.upload_futures refl
    where
      by_channel : (channel : List Queued) → w.channel ≡ channel → w.upload_futures ≡ [] → Forward w
      by_channel (q ∷ channel) e none_left =
          receive-Forward w g none_left (ground (arith, ap is_empty none_left, more))
            (λ f. ground (arith, e, f))
      by_channel [] e none_left = elim (Bool-cases (is_running w.producer)) [
        | inl on ↦ produce-Forward w i g on e
        | inr off ↦
            receive-Forward w g none_left (ground (arith, ap is_empty none_left, more)) (λ f. off)
      ]

      by_futures : (futures : List Queued) → w.upload_futures ≡ futures → Forward w
      by_futures (q ∷ futures) e = answer-Forward w q futures g e
      by_futures [] e = by_channel w.channel refl e
