-- ===== src/Download/Placed.antt =====
-- node/download.rs: each block that was started is in exactly one place, and stays so while blocks are
-- written.
use proton_sdk_rs.Prelude.{
  ℕ, zero, suc, ◌+◌, ◌≤◌, ◌≡◌, refl, sym, ap, ◌∙◌, inl, inr, ◌&&◌, Option, none, some, List, [],
  ◌∷◌, arith, ltb, leb, length, get_elem?, Option-cases, All,
}
use proton_sdk_rs.Download.{Block, DownloadState, Parallel, find_block, write_block, write_ready}
use proton_sdk_rs.Download.Buffered.{
  one_if, in_flight, waiting, waiting-remove, All-remove_block, find_block-All,
}
use proton_sdk_rs.Download.Contents.{Written, write_block-Written}

module _ (blocks : List Block) (s : DownloadState) (fetch : ℕ → Option Block)
    (serves : (i : ℕ) → fetch (suc i) ≡ get_elem? blocks i) where
  -- Every block that was started is in flight, waits to be written or is written: exactly one of
  -- these; and the blocks that wait are what the server gave.
  pub record IsSound (p : Parallel) : Type 0 where
    pub n : ℕ
    pub written : Written blocks s n p
    pub placed :
        (i : ℕ)
        → in_flight i p.download_futures
            + waiting i p.buffered_blocks
            + one_if (ltb i p.next_write_index)
          ≡ one_if (ltb i p.next_download_index && leb i (length blocks))
    pub right : All (λ e. fetch e.0 ≡ some e.1) p.buffered_blocks

  pub write_block-IsSound :
      (b : Block) (p : Parallel)
      → find_block p.next_write_index p.buffered_blocks ≡ some b
      → IsSound p
      → IsSound (write_block b p)
  unfolding write_block
  write_block-IsSound b p f v =
      let given =
        find_block-All (λ i c. fetch i ≡ some c) p.next_write_index b p.buffered_blocks v.right f in
      let at : get_elem? blocks v.n ≡ some b =
        sym (serves v.n) ∙ ap fetch (sym v.written.next) ∙ given in
      record {
        n = suc v.n;
        written = write_block-Written blocks s v.n b p at v.written;
        placed = λ i.
            ground
              (arith, v.placed i, (waiting-remove p.next_write_index i b p.buffered_blocks f).0);
        right =
            All-remove_block (λ i c. fetch i ≡ some c) p.next_write_index p.buffered_blocks v.right;
      }

  -- After the writing, the next block to write is not there, and the downloads are as before.
  pub record Settled (before p : Parallel) : Type 0 where
    pub sound : IsSound p
    pub not_ready : find_block p.next_write_index p.buffered_blocks ≡ none
    pub same_futures : p.download_futures ≡ before.download_futures
    pub same_next : p.next_download_index ≡ before.next_download_index

  pub write_ready-Settled :
      (fuel : ℕ) (p : Parallel)
      → length p.buffered_blocks ≤ fuel
      → IsSound p
      → Settled p (write_ready fuel p)
  unfolding write_ready write_block
  write_ready-Settled zero p h v = record {
    sound = v;
    not_ready = none_left p.buffered_blocks h;
    same_futures = refl;
    same_next = refl;
  }
    where
      none_left : (bs : List (ℕ × Block)) → length bs ≤ 0 → find_block p.next_write_index bs ≡ none
      none_left [] h = refl
      none_left (b ∷ bs) h = absurd (omega (arith, h))
  write_ready-Settled (suc fuel) p h v =
      elim (Option-cases (find_block p.next_write_index p.buffered_blocks)) [
        | inl none_ready ↦
            rw (write_ready, none_ready)
              (record { sound = v; not_ready = none_ready; same_futures = refl; same_next = refl })
        | inr (b, f) ↦
            let rest =
              write_ready-Settled fuel (write_block b p)
                (omega (arith, h, (waiting-remove p.next_write_index 0 b p.buffered_blocks f).1))
                (write_block-IsSound b p f v) in
            rw (write_ready, f)
              (record {
                sound = rest.sound;
                not_ready = rest.not_ready;
                same_futures = rest.same_futures;
                same_next = rest.same_next;
              })
      ]
