-- ===== src/Upload/Kept.antt =====
-- crates/proton-drive-sdk/src/node/revision.rs: the order of the blocks through any run of `write`.
use mathlib.Core.List.{append_assoc, map-append}
use proton_sdk_rs.Prelude.{
  ℕ, zero, suc, ◌≤◌, ◌<◌, ◌≡◌, refl, sym, ap, ◌∙◌, subst, inl, inr, Bool, true, false, not, ◌&&◌,
  some, List, [], ◌∷◌, ◌++◌, arith, ltb, ◌==◌, map, if◌then◌else◌, length, order_by, count_where,
  count_where-order_by, Bool-cases, Option-cases,
}
use proton_sdk_rs.Upload.{
  Uploaded, Queued, uploaded_of, Writing, is_running, max_concurrent_uploads, take_block, receive,
  take_future, keep_result, upload_done, upload_failed, Event, producer_round, consumer_round,
  upload_answer, upload_error, step, run,
}
use proton_sdk_rs.Upload.Blocks.{Piece, Crypto}
use proton_sdk_rs.Upload.Numbered.{Uploads-once}
use proton_sdk_rs.Upload.Ordered.{IsSound, held, number, produce-IsSound}
use proton_sdk_rs.Upload.Sorting.{order_by_moved}

-- The future that is taken out, and those about it.
pub take_future_inv :
    (i : ℕ) (qs rest : List Queued) (q : Queued)
    → take_future i qs ≡ some (q, rest)
    → (before : List Queued) × (after : List Queued) × (qs ≡ before ++ q ∷ after)
      × (rest ≡ before ++ after)
unfolding take_future
take_future_inv i [] rest q h = cc
take_future_inv zero (p ∷ qs) rest q h = ([], qs, ground (arith, h), ground (arith, h))
take_future_inv (suc i) (p ∷ qs) rest q h = elim (Option-cases (take_future i qs)) [
  | inl missing ↦ absurd (ground (arith, missing, h))
  | inr ((r, others), e) ↦
      let (before, after, at, left) = take_future_inv i qs others r e in
      let same : r ≡ q = ground (arith, e, h) in
      let behind : rest ≡ p ∷ others = ground (arith, e, h) in
      (
        p ∷ before,
        after,
        ap (λ (s : List Queued). p ∷ s) (at ∙ ap (λ (x : Queued). before ++ x ∷ after) same),
        behind ∙ ap (λ (s : List Queued). p ∷ s) left,
      )
]

module _ (c : Crypto) (target : ℕ) (start : List Piece) where
  -- A step that only hands blocks on.
  abbrev Hands : Writing → Writing → Type 0
  Hands w v =
      (v.stream ≡ w.stream)
      × (v.hashed ≡ w.hashed)
      × (v.current_block ≡ w.current_block)
      × (v.producer ≡ w.producer)

  Hands-IsSound :
      (w v : Writing) (i : (IsSound c target start) w)
      → Hands w v
      → order_by number (held v) ≡ order_by number (held w)
      → (v.producer_done ≡ true → (v.channel ≡ []) × (is_running v.producer ≡ false))
      → (IsSound c target start) v
  Hands-IsSound w v i (s, h, b, p) same drained = record {
    blocks = i.blocks;
    uploads = i.uploads;
    made = i.made;
    sorted = same ∙ i.sorted;
    read = rw (s, p) i.read;
    hashed = h ∙ i.hashed;
    counted = b ∙ i.counted;
    cut = rw s i.cut;
    reads = rw s i.reads;
    ended = rw (s, p) i.ended;
    drained = drained;
  }

  handed :
      (w : Writing) (q : Queued) (channel : List Queued)
      → w.channel ≡ q ∷ channel
      → held (take_block w (q ∷ channel)) ≡ held w
  handed w q channel e = rw e (simp (map-append, append_assoc))

  receive-IsSound :
      (w : Writing) → (IsSound c target start) w → (IsSound c target start) (receive w)
  unfolding receive
  receive-IsSound w i =
      elim (Bool-cases
        (not w.producer_done && ltb (length w.upload_futures) max_concurrent_uploads)) [
          | inl go ↦ rw go (taken w.channel refl (ground (arith, go)))
          | inr stay ↦ rw stay i
        ]
    where
      taken :
          (channel : List Queued)
          → w.channel ≡ channel
          → w.producer_done ≡ false
          → (IsSound c target start) (take_block w channel)
      taken [] e busy = elim (Bool-cases (is_running w.producer)) [
        | inl on ↦ rw on i
        | inr off ↦ rw off (
            Hands-IsSound w (record w { producer_done = true }) i (refl, refl, refl, refl) refl
              (λ d. (e, off)))
      ]
      taken (q ∷ channel) e busy =
          Hands-IsSound w (take_block w (q ∷ channel)) i (refl, refl, refl, refl)
            (ap (order_by number) (handed w q channel e)) (λ d. cc)

  answered :
      (w : Writing) (i : (IsSound c target start) w) (q : Queued)
      → (rest before after : List Queued) → w.upload_futures ≡ before ++ q ∷ after
      → rest ≡ before ++ after
      → order_by number (held (keep_result w (some (q, rest)))) ≡ order_by number (held w)
  answered w i q rest before after at left =
      let u = uploaded_of q in
      let zs = map uploaded_of before in
      let ys = map uploaded_of after ++ map uploaded_of w.channel in
      let was : held w ≡ w.block_results ++ (zs ++ u ∷ ys) =
        rw at (simp (map-append, append_assoc)) in
      let is : held (keep_result w (some (q, rest))) ≡ w.block_results ++ u ∷ (zs ++ ys) =
        rw left (simp (map-append, append_assoc)) in
      let once : count_where (λ v. number v == number u) (held w) ≤ 1 = omega (
        arith,
        count_where-order_by (λ v. number v == number u) number (held w),
        ap (count_where (λ v. number v == number u)) i.sorted,
        Uploads-once c (number u) 1 i.blocks i.uploads i.made,
      ) in
      ap (order_by number) is
      ∙ order_by_moved number w.block_results zs ys u
          (subst (λ (s : List Uploaded). count_where (λ v. number v == number u) s ≤ 1) was once)
      ∙ ap (order_by number) (sym was)

  upload_done-IsSound :
      (n : ℕ) (w : Writing)
      → (IsSound c target start) w
      → (IsSound c target start) (upload_done n w)
  unfolding upload_done
  upload_done-IsSound n w i = elim (Option-cases (take_future n w.upload_futures)) [
    | inl missing ↦ rw missing i
    | inr ((q, rest), e) ↦
        let (before, after, at, left) = take_future_inv n w.upload_futures rest q e in
        rw e (
          Hands-IsSound w (keep_result w (some (q, rest))) i (refl, refl, refl, refl)
            (answered w i q rest before after at left) i.drained)
  ]

  either-IsSound :
      (b : Bool) (w v : Writing)
      → (IsSound c target start) w
      → (IsSound c target start) v
      → (IsSound c target start) (if b then w else v)
  either-IsSound true w v i j = i
  either-IsSound false w v i j = j

  pub step-IsSound :
      (e : Event) (w : Writing)
      → 0 < target
      → (IsSound c target start) w
      → (IsSound c target start) (step c target e w)
  unfolding step upload_failed
  step-IsSound producer_round w pos i =
      either-IsSound w.aborted w _ i (produce-IsSound c target start w pos i)
  step-IsSound consumer_round w pos i = either-IsSound w.aborted w _ i (receive-IsSound w i)
  step-IsSound (upload_answer n) w pos i =
      either-IsSound w.aborted w _ i (upload_done-IsSound n w i)
  step-IsSound (upload_error n) w pos i =
      let stopped =
        Hands-IsSound w (record w { aborted = true }) i (refl, refl, refl, refl) refl i.drained in
      either-IsSound w.aborted w _ i
        (either-IsSound (ltb n (length w.upload_futures)) (record w { aborted = true }) w stopped i)

  pub run-IsSound :
      (es : List Event) (w : Writing)
      → 0 < target
      → (IsSound c target start) w
      → (IsSound c target start) (run c target es w)
  unfolding run
  run-IsSound [] w pos i = i
  run-IsSound (e ∷ es) w pos i = run-IsSound es (step c target e w) pos (step-IsSound e w pos i)
