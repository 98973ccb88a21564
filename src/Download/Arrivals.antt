-- ===== src/Download/Arrivals.antt =====
-- node/download.rs: a download that ends is one round less to come.
use proton_sdk_rs.Prelude.{
  ℕ, suc, ◌+◌, ◌-◌, ◌≤◌, ◌<◌, ◌≡◌, refl, ap, ◌∙◌, inl, inr, Option, none, some, List, [], ◌∷◌,
  arith, leb, length, length-append, get_elem?, Bool-cases,
}
use proton_sdk_rs.Download.{
  Block, DownloadState, Parallel, start_next, find_block, remove_block, remove_future, receive,
  max_concurrent_downloads,
}
use proton_sdk_rs.Download.Buffered.{
  in_flight, waiting, in_flight-remove, length-remove_future, in_flight-append, remove_absent,
}
use proton_sdk_rs.Download.Placed.{IsSound, Settled, write_ready-Settled}

module _ (blocks : List Block) (s : DownloadState) (fetch : ℕ → Option Block)
    (serves : (i : ℕ) → fetch (suc i) ≡ get_elem? blocks i) where
  -- The measure of the loop: blocks in flight or not started.
  unfoldable pub left : Parallel → ℕ
  left p = length p.download_futures + (length blocks + 1 - p.next_download_index)

  -- What holds at the start of a round.
  pub record IsRound (p : Parallel) : Type 0 where
    pub sound : (IsSound blocks s fetch serves) p
    pub not_ready : find_block p.next_write_index p.buffered_blocks ≡ none
    pub busy : p.next_download_index ≤ length blocks → 0 < length p.download_futures
    pub few : length p.download_futures ≤ max_concurrent_downloads

  pub arrived : ℕ → Block → Parallel → Parallel
  arrived idx b p =
      let next =
        start_next (length blocks)
          (record p { download_futures = remove_future idx p.download_futures }) in
      record next { buffered_blocks = (idx, b) ∷ remove_block idx next.buffered_blocks }

  pub arrived-IsSound :
      (idx : ℕ) (b : Block) (p : Parallel)
      → 0 < in_flight idx p.download_futures
      → fetch idx ≡ some b
      → (IsSound blocks s fetch serves) p
      → (IsSound blocks s fetch serves) (arrived idx b p)
  unfolding arrived start_next
  arrived-IsSound idx b p h f v =
      let absent : waiting idx p.buffered_blocks ≡ 0 = ground (arith, h, v.placed idx) in
      let same = remove_absent idx p.buffered_blocks absent in
      elim (Bool-cases (leb p.next_download_index (length blocks))) [
        | inl more ↦
            rw (more, same)
              (record {
                n = v.n;
                written = record {
                  next = v.written.next;
                  output = v.written.output;
                  digests = v.written.digests;
                  counted = v.written.counted;
                  released = v.written.released;
                };
                placed = λ i. ground (
                  arith,
                  more,
                  v.placed i,
                  in_flight-remove idx i p.download_futures h,
                  in_flight-append i p.next_download_index (remove_future idx p.download_futures),
                );
                right = (f, v.right);
              })
        | inr last ↦
            rw (last, same)
              (record {
                n = v.n;
                written = record {
                  next = v.written.next;
                  output = v.written.output;
                  digests = v.written.digests;
                  counted = v.written.counted;
                  released = v.written.released;
                };
                placed = λ i.
                    ground (arith, last, v.placed i, in_flight-remove idx i p.download_futures h);
                right = (f, v.right);
              })
      ]

  pub arrived-left :
      (idx : ℕ) (b : Block) (p : Parallel)
      → 0 < in_flight idx p.download_futures
      → length p.download_futures ≤ max_concurrent_downloads
      → (left (arrived idx b p) + 1 ≡ left p)
        × ((arrived idx b p).next_download_index ≤ length blocks
            → 0 < length (arrived idx b p).download_futures)
        × (length (arrived idx b p).download_futures ≤ max_concurrent_downloads)
  unfolding arrived start_next left
  arrived-left idx b p h few =
      let removed = length-remove_future idx p.download_futures h in
      let added =
        length-append (remove_future idx p.download_futures) (p.next_download_index ∷ []) in
      elim (Bool-cases (leb p.next_download_index (length blocks))) [
        | inl more ↦ rw more (
          ground (arith, more, removed, added),
          λ d. omega (arith, added),
          omega (arith, removed, added, few),
        )
        | inr last ↦ rw last (
          ground (arith, last, removed),
          λ d. absurd (ground (arith, last, d)),
          omega (arith, removed, few),
        )
      ]

  pub Settled-IsRound :
      (q r : Parallel)
      → (Settled blocks s fetch serves) q r
      → (q.next_download_index ≤ length blocks → 0 < length q.download_futures)
      → length q.download_futures ≤ max_concurrent_downloads
      → IsRound r × (left r ≡ left q)
  unfolding left
  Settled-IsRound q r w busy few = (
    record {
      sound = w.sound;
      not_ready = w.not_ready;
      busy = rw (w.same_futures, w.same_next) busy;
      few = rw w.same_futures few;
    },
    rw (w.same_futures, w.same_next) refl,
  )

  pub receive-IsRound :
      (idx : ℕ) (b : Block) (p : Parallel)
      → 0 < in_flight idx p.download_futures
      → fetch idx ≡ some b
      → IsRound p
      → IsRound (receive (length blocks) idx b p)
        × (left (receive (length blocks) idx b p) + 1 ≡ left p)
  unfolding receive arrived
  receive-IsRound idx b p h f v =
      let q = arrived idx b p in
      let counts = arrived-left idx b p h v.few in
      let w =
        (write_ready-Settled blocks s fetch serves) (length q.buffered_blocks) q (omega arith)
          (arrived-IsSound idx b p h f v.sound) in
      let (round, same) = Settled-IsRound q _ w counts.1 counts.2 in
      (round, ap (λ k. k + 1) same ∙ counts.0)
