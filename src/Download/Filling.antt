-- ===== src/Download/Filling.antt =====
-- node/download.rs: the downloads that are started fill up the free places.
use mathlib.Core.List.{append-nil}
use proton_sdk_rs.Prelude.{
  ℕ, zero, suc, ◌+◌, ◌≤◌, ◌<◌, ◌≡◌, refl, sym, ap, subst, inl, inr, true, Option, List, [], ◌∷◌,
  arith, ltb, leb, length, length-append, get_elem?, Bool-cases,
}
use proton_sdk_rs.Download.{
  Block, DownloadState, Parallel, begin, start_next, fill, find_block, max_concurrent_downloads,
}
use proton_sdk_rs.Download.Buffered.{in_flight-append}
use proton_sdk_rs.Download.Contents.{Written}
use proton_sdk_rs.Download.Placed.{IsSound}
use proton_sdk_rs.Download.Arrivals.{left, IsRound}

module _ (blocks : List Block) (s : DownloadState) (fetch : ℕ → Option Block)
    (serves : (i : ℕ) → fetch (suc i) ≡ get_elem? blocks i) where
  -- The first downloads.
  pub start_next-IsSound :
      (p : Parallel)
      → (IsSound blocks s fetch serves) p
      → (IsSound blocks s fetch serves) (start_next (length blocks) p)
  unfolding start_next
  start_next-IsSound p v = elim (Bool-cases (leb p.next_download_index (length blocks))) [
    | inl more ↦ rw more (record {
      n = v.n;
      written = record {
        next = v.written.next;
        output = v.written.output;
        digests = v.written.digests;
        counted = v.written.counted;
        released = v.written.released;
      };
      placed = λ i.
          ground
            (arith, more, v.placed i, in_flight-append i p.next_download_index p.download_futures);
      right = v.right;
    })
    | inr last ↦ rw last (record {
      n = v.n;
      written = record {
        next = v.written.next;
        output = v.written.output;
        digests = v.written.digests;
        counted = v.written.counted;
        released = v.written.released;
      };
      placed = λ i. ground (arith, last, v.placed i);
      right = v.right;
    })
  ]

  -- The state of `fill`: nothing has (arrived blocks s fetch serves), and the blocks from 1 on are in flight.
  pub record IsFilling (p : Parallel) : Type 0 where
    pub sound : (IsSound blocks s fetch serves) p
    pub empty : p.buffered_blocks ≡ []
    pub count : length p.download_futures + 1 ≡ p.next_download_index
    pub within : p.next_download_index ≤ length blocks + 1
    pub few : length p.download_futures ≤ max_concurrent_downloads

  pub start_next-IsFilling :
      (p : Parallel)
      → IsFilling p
      → length p.download_futures < max_concurrent_downloads
      → leb p.next_download_index (length blocks) ≡ true
      → IsFilling (start_next (length blocks) p)
        × (length (start_next (length blocks) p).download_futures ≡ length p.download_futures + 1)
  unfolding start_next
  start_next-IsFilling p v room more =
      let added = length-append p.download_futures (p.next_download_index ∷ []) in
      let sound = start_next-IsSound p v.sound in
      rw more (
        record {
          sound = rw more at sound;
          empty = v.empty;
          count = omega (arith, added, v.count);
          within = ground (arith, more);
          few = omega (arith, added, room);
        },
        omega (arith, added),
      )

  pub fill_step :
      (fuel : ℕ) (p : Parallel)
      → ltb (length p.download_futures) max_concurrent_downloads ≡ true
      → leb p.next_download_index (length blocks) ≡ true
      → fill (suc fuel) (length blocks) p ≡ fill fuel (length blocks) (start_next (length blocks) p)
  unfolding fill start_next
  fill_step fuel p room more = rw (room, more) refl

  pub fill-IsFilling :
      (fuel : ℕ) (p : Parallel)
      → IsFilling p
      → max_concurrent_downloads ≤ length p.download_futures + fuel
      → IsFilling (fill fuel (length blocks) p)
        × ((fill fuel (length blocks) p).next_download_index ≤ length blocks
            → 0 < length (fill fuel (length blocks) p).download_futures)
  unfolding fill
  fill-IsFilling zero p v h = (v, λ d. omega (arith, h))
  fill-IsFilling (suc fuel) p v h =
      elim (Bool-cases (ltb (length p.download_futures) max_concurrent_downloads)) [
        | inr full ↦ rw (fill, full) (v, λ d. ground (arith, full))
        | inl room ↦ elim (Bool-cases (leb p.next_download_index (length blocks))) [
          | inr last ↦ rw (fill, room, last) (v, λ d. absurd (ground (arith, last, d)))
          | inl more ↦
              let (next, longer) = start_next-IsFilling p v (ground (arith, room)) more in
              subst
                (λ q.
                  IsFilling q
                  × (q.next_download_index ≤ length blocks → 0 < length q.download_futures))
                (sym (fill_step fuel p room more))
                (fill-IsFilling fuel (start_next (length blocks) p) next (omega (arith, longer, h)))
        ]
      ]

  pub begin-Written : Written blocks s 0 (begin s)
  begin-Written = record {
    next = refl;
    output = refl;
    digests = sym (append-nil s.downloaded_block_digests);
    counted = omega arith;
    released = refl;
  }

  pub filled-IsRound :
      (IsRound blocks s fetch serves) (fill max_concurrent_downloads (length blocks) (begin s))
      × ((left blocks s fetch serves) (fill max_concurrent_downloads (length blocks) (begin s))
          ≡ length blocks)
  unfolding left
  filled-IsRound =
      let (v, busy) =
        fill-IsFilling max_concurrent_downloads (begin s)
          (record {
            sound = record {
              n = 0;
              written = begin-Written;
              placed = λ i. ground arith;
              right = tt;
            };
            empty = refl;
            count = omega arith;
            within = omega arith;
            few = omega arith;
          })
          (omega arith) in
      (
        record { sound = v.sound; not_ready = ap (find_block _) v.empty; busy = busy; few = v.few },
        omega (arith, v.count, v.within),
      )
