-- ===== src/Download/Ordered.antt =====
-- node/download.rs: the parallel download writes the blocks of the file in order.
use proton_sdk_rs.Prelude.{
  ℕ, zero, suc, ◌%◌, ◌≤◌, ◌<◌, ◌≡◌, refl, subst, ◌∙◌, inl, inr, false, Option, some, List, [], ◌∷◌,
  arith, leb, ◌==◌, length, get_elem?, get_or, Bool-cases,
}
use proton_sdk_rs.Download.{
  Block, DownloadState, Parallel, begin, receive, Result, done, process, read_all_blocks_parallel,
}
use proton_sdk_rs.Download.Buffered.{in_flight, chosen_in_flight, find_block-none}
use proton_sdk_rs.Download.Contents.{Written}
use proton_sdk_rs.Download.Arrivals.{left, IsRound, receive-IsRound}
use proton_sdk_rs.Download.Filling.{begin-Written, filled-IsRound}

module _ (blocks : List Block) (s : DownloadState) (fetch : ℕ → Option Block)
    (serves : (i : ℕ) → fetch (suc i) ≡ get_elem? blocks i) where
  -- No download is in flight: every block is written.
  finished_lem :
      (p : Parallel)
      → (IsRound blocks s fetch serves) p
      → length p.download_futures ≡ 0
      → p.next_write_index ≡ suc (length blocks)
  finished_lem p v idle =
      let gone = find_block-none p.next_write_index p.buffered_blocks v.not_ready in
      let none_in_flight = λ (i : ℕ). idle_none i p.download_futures idle in
      let at_next = v.sound.placed p.next_write_index in
      let beyond = v.sound.placed (suc (length blocks)) in
      ground (
        arith,
        gone,
        v.busy,
        idle,
        none_in_flight p.next_write_index,
        none_in_flight (suc (length blocks)),
        at_next,
        beyond,
      )
    where
      idle_none : (i : ℕ) (ks : List ℕ) → length ks ≡ 0 → in_flight i ks ≡ 0
      idle_none i [] h = refl
      idle_none i (k ∷ ks) h = absurd (omega (arith, h))

  -- The whole file is written.
  abbrev pub WritesAll : Result → Type 0
  WritesAll r = (p : Parallel) × (r ≡ done p) × Written blocks s (length blocks) p

  idle_done :
      (p : Parallel)
      → (IsRound blocks s fetch serves) p
      → length p.download_futures ≡ 0
      → (leb p.next_write_index (length blocks) ≡ false) × Written blocks s (length blocks) p
  idle_done p v idle =
      let all_written = finished_lem p v idle in
      let same : v.sound.n ≡ length blocks = omega (arith, all_written, v.sound.written.next) in
      (ground (arith, all_written), subst (λ k. Written blocks s k p) same v.sound.written)

  chosen_stored :
      (idx : ℕ) (p : Parallel)
      → (IsRound blocks s fetch serves) p
      → 0 < in_flight idx p.download_futures
      → (b : Block) × (fetch idx ≡ some b)
  chosen_stored zero p v h = absurd (ground (arith, h, v.sound.placed zero, v.sound.written.next))
  chosen_stored (suc i) p v h =
      let (b, e) = stored_at i blocks (ground (arith, h, v.sound.placed (suc i))) in
      (b, serves i ∙ e)
    where
      stored_at :
          (i : ℕ) (bs : List Block) → i < length bs → (b : Block) × (get_elem? bs i ≡ some b)
      stored_at i [] h = absurd (omega arith)
      stored_at zero (b ∷ bs) h = (b, refl)
      stored_at (suc i) (b ∷ bs) h = stored_at i bs (omega arith)

  left-idle : (p : Parallel) → (left blocks s fetch serves) p ≤ 0 → length p.download_futures ≡ 0
  unfolding left
  left-idle p h = omega (arith, h)

  process_lem :
      (choose : ℕ → ℕ) (fuel : ℕ) (p : Parallel)
      → (IsRound blocks s fetch serves) p
      → (left blocks s fetch serves) p ≤ fuel
      → WritesAll (process fetch choose (length blocks) fuel p)
  unfolding process
  process_lem choose zero p v h =
      let idle : length p.download_futures ≡ 0 = left-idle p h in
      let (last, all_written) = idle_done p v idle in
      rw (process, idle, last) (p, refl, all_written)
  process_lem choose (suc fuel) p v h = elim (Bool-cases (length p.download_futures == 0)) [
    | inl none_left ↦
        let (last, all_written) = idle_done p v (ground (arith, none_left)) in
        rw (process, none_left, last) (p, refl, all_written)
    | inr some_left ↦
        let n = choose fuel % length p.download_futures in
        let idx = get_or p.download_futures n 0 in
        let running = chosen_in_flight n p.download_futures (ground (arith, some_left)) in
        let (b, e) = chosen_stored idx p v running in
        let (round, fewer) = (receive-IsRound blocks s fetch serves) idx b p running e v in
        rw (process, some_left, e)
          (process_lem choose fuel (receive (length blocks) idx b p) round
            (omega (arith, fewer, h)))
  ]

  -- When the server gives every block: whichever download ends first in each round, the parallel
  -- download finishes, and has written the blocks of the file in order, added their digests in
  -- order and counted their bytes, and released one block listing for each block.
  pub read_all_blocks_parallel_lem :
      (choose : ℕ → ℕ) → WritesAll (read_all_blocks_parallel fetch choose (length blocks) s)
  unfolding read_all_blocks_parallel
  read_all_blocks_parallel_lem choose = elim (Bool-cases (length blocks == 0)) [
    | inl empty ↦
        let no_block : 0 ≡ length blocks = ground (arith, empty) in
        rw empty (
          begin s,
          refl,
          subst (λ k. Written blocks s k (begin s)) no_block (begin-Written blocks s fetch serves),
        )
    | inr several ↦
        let (round, measure) = (filled-IsRound blocks s fetch serves) in
        rw several (process_lem choose (length blocks) _ round (omega (arith, measure)))
  ]
