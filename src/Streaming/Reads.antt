-- ===== src/Streaming/Reads.antt =====
-- crates/pdcli/src/fs.rs: `StreamingFile::read` gives the bytes of the file, whatever it has cached.
use mathlib.Core.List.{append_assoc, append-nil}
use proton_sdk_rs.Prelude.{
  ℕ, zero, suc, ◌+◌, ◌-◌, ◌≤◌, ◌<◌, min, ◌≡◌, refl, sym, ap, ◌∙◌, inl, inr, true, false, Option,
  none, some, List, [], ◌∷◌, ◌++◌, arith, leb, ltb, ◌==◌, length, length-drop, get_elem?, take,
  drop, Bool-cases, Option-cases,
}
use proton_sdk_rs.Streaming.{
  BlockReader, Bytes, Cache, Result, ok, new, len, block_count, block_at, block_start, find, cached,
  fetch_block, block, read_ahead, read_loop, finish, read, get_index, u64_max,
}
use proton_sdk_rs.Streaming.Locate.{joined, reader, Place, block_at_lem, block_count_lem, len_lem}
use proton_sdk_rs.Streaming.Slices.{slice, take-min}
use proton_sdk_rs.Streaming.Kept.{IsCache, find-right, cached-IsCache, remember-IsCache}

module _ (fetch : ℕ → Option Bytes) (r : BlockReader) where
  -- A round of the loop that is given a block with bytes in it.
  read_loop_step :
      (end fuel position : ℕ) (d out : Bytes) (last_block : Option ℕ) (c : Cache)
      → ltb position end ≡ true
      → let index = get_index (block_at r position) in
        (block fetch r index c).0 ≡ ok d
        → 0 < min (end - position) (length d - (position - block_start r index))
        → let start = position - block_start r index in
          let n = min (end - position) (length d - start) in
          read_loop fetch r end (suc fuel) position out last_block c
          ≡ read_loop fetch r end fuel
              (position + n)
              (out ++ take n (drop start d))
              (some index)
              (block fetch r index c).1
  unfolding read_loop
  read_loop_step end fuel position d out last_block c before got more =
      let index = get_index (block_at r position) in
      let some_bytes : (min (end - position) (length d - (position - block_start r index)) == 0)
          ≡ false =
        ground (arith, more) in
      rw (before, got, some_bytes) refl

-- The server gives every block of the file as it was written.
module _ (blocks : List Bytes) (fetch : ℕ → Option Bytes)
    (serves : (i : ℕ) (d : Bytes) → get_elem? blocks i ≡ some d → fetch i ≡ some d) where
  in_range : (i : ℕ) (ds : List Bytes) (d : Bytes) → get_elem? ds i ≡ some d → i < length ds
  in_range i [] d s = absurd (ground (arith, s))
  in_range zero (e ∷ ds) d s = omega arith
  in_range (suc i) (e ∷ ds) d s = omega (arith, in_range i ds d s)

  fetch_block_lem :
      (index : ℕ) (d : Bytes) (c : Cache)
      → IsCache blocks c
      → get_elem? blocks index ≡ some d
      → ((fetch_block fetch (reader blocks) index c).0 ≡ ok d)
        × IsCache blocks (fetch_block fetch (reader blocks) index c).1
  unfolding fetch_block
  fetch_block_lem index d c h s =
      let inside : ltb index (block_count (reader blocks)) ≡ true =
        ground (arith, in_range index blocks d s, block_count_lem blocks) in
      rw (fetch_block, inside, serves index d s) (refl, remember-IsCache blocks index d c h s)

  block_lem :
      (index : ℕ) (d : Bytes) (c : Cache)
      → IsCache blocks c
      → get_elem? blocks index ≡ some d
      → ((block fetch (reader blocks) index c).0 ≡ ok d)
        × IsCache blocks (block fetch (reader blocks) index c).1
  unfolding block cached
  block_lem index d c h s = elim (Option-cases (find index c)) [
    | inl new ↦ rw (block, cached, new) (fetch_block_lem index d c h s)
    | inr (e, f) ↦
        rw (block, cached, f)
          (
            ground (arith, find-right blocks index c e h.right f, s),
            cached-IsCache blocks index c e h f,
          )
  ]

  stored_at : (i : ℕ) (ds : List Bytes) → i < length ds → (d : Bytes) × (get_elem? ds i ≡ some d)
  stored_at i [] h = absurd (omega arith)
  stored_at zero (d ∷ ds) h = (d, refl)
  stored_at (suc i) (d ∷ ds) h = stored_at i ds (omega arith)

  read_ahead-IsCache :
      (index : ℕ) (c : Cache)
      → IsCache blocks c
      → IsCache blocks (read_ahead fetch (reader blocks) index c)
  unfolding read_ahead cached
  read_ahead-IsCache index c h = elim (Bool-cases (leb (block_count (reader blocks)) index)) [
    | inl past ↦ rw (read_ahead, past) h
    | inr inside ↦
        let s = stored_at index blocks (ground (arith, inside, block_count_lem blocks)) in
        rw (read_ahead, inside)
          (elim (Option-cases (find index c)) [
            | inl new ↦ rw (cached, new) (fetch_block_lem index s.0 c h s.1).1
            | inr (e, f) ↦ rw (cached, f) (cached-IsCache blocks index c e h f)
          ])
  ]

  -- What the loop gives: the bytes so far and those from the position to the end.
  record Reads (end position : ℕ) (out : Bytes) (got : Result (Bytes × Option ℕ) × Cache)
      : Type 0 where
    last_block : Option ℕ
    given : got.0 ≡ ok (out ++ take (end - position) (drop position (joined blocks)), last_block)
    kept : IsCache blocks got.1

  nothing_more :
      (end position : ℕ) (out : Bytes)
      → end ≤ position
      → out ≡ out ++ take (end - position) (drop position (joined blocks))
  nothing_more end position out h =
      let z : end - position ≡ 0 = omega (arith, h) in rw z (sym (append-nil out))

  block_start_lem :
      (position index : ℕ) (p : Place 0 blocks position index)
      → block_start (reader blocks) index ≡ length p.before
  unfolding block_start new
  block_start_lem position index p = omega (arith, p.start)

  slice_at :
      (end position index n : ℕ) (p : Place 0 blocks position index)
      → position + n ≤ end
      → n + (position - block_start (reader blocks) index) ≤ length p.bytes
      → take (end - position) (drop position (joined blocks))
        ≡ take n (drop (position - block_start (reader blocks) index) p.bytes)
          ++ take (end - (position + n)) (drop (position + n) (joined blocks))
  slice_at end position index n p h l =
      let q = position - block_start (reader blocks) index in
      let split : end - position ≡ n + (end - (position + n)) = omega (arith, h) in
      ap (λ k. take k (drop position (joined blocks))) split
      ∙ slice (joined blocks) p.before p.bytes p.after position q n (end - (position + n)) p.whole
          (omega (arith, block_start_lem position index p, p.from)) l

  read_loop_lem :
      (end fuel position : ℕ) (out : Bytes) (last_block : Option ℕ) (c : Cache)
      → end ≤ length (joined blocks)
      → end ≤ position + fuel
      → IsCache blocks c
      → Reads end position out (read_loop fetch (reader blocks) end fuel position out last_block c)
  unfolding read_loop
  read_loop_lem end zero position out last_block c h f v = record {
    last_block = last_block;
    given = ap (λ o. ok (o, last_block)) (nothing_more end position out (omega (arith, f)));
    kept = v;
  }
  read_loop_lem end (suc fuel) position out last_block c h f v =
      elim (Bool-cases (ltb position end)) [
        | inr past ↦
            rw (read_loop, past)
              (record {
                last_block = last_block;
                given =
                    ap (λ o. ok (o, last_block))
                      (nothing_more end position out (ground (arith, past)));
                kept = v;
              })
        | inl before ↦
            let place = block_at_lem blocks position (ground (arith, before, h, len_lem blocks)) in
            let index = get_index (block_at (reader blocks) position) in
            let p : Place 0 blocks position index = rw (ap get_index place.1) place.2 in
            let got = block_lem index p.bytes c v p.stored in
            let q = position - block_start (reader blocks) index in
            let n = min (end - position) (length p.bytes - q) in
            let b = block_start_lem position index p in
            let some_bytes : 0 < n = ground (arith, before, b, p.from, p.below) in
            let rest =
              read_loop_lem end fuel (position + n) (out ++ take n (drop q p.bytes)) (some index)
                (block fetch (reader blocks) index c).1 h (omega (arith, f, some_bytes)) got.1 in
            let more = take (end - (position + n)) (drop (position + n) (joined blocks)) in
            let part : take (end - position) (drop position (joined blocks))
                ≡ take n (drop q p.bytes) ++ more =
              slice_at end position index n p (ground (arith, before))
                (omega (arith, some_bytes)) in
            rw
              (read_loop_step fetch (reader blocks) end fuel position p.bytes out last_block c
                before got.0 some_bytes)
              (record {
                last_block = rest.last_block;
                given =
                    rest.given
                    ∙ ap (λ o. ok (o, rest.last_block))
                        (append_assoc out (take n (drop q p.bytes)) more
                          ∙ ap (λ l. out ++ l) (sym part));
                kept = rest.kept;
              })
      ]

  finish_lem :
      (out : Bytes) (last_block : Option ℕ) (c : Cache)
      → IsCache blocks c
      → ((finish fetch (reader blocks) (ok (out, last_block)) c).0 ≡ ok out)
        × IsCache blocks (finish fetch (reader blocks) (ok (out, last_block)) c).1
  unfolding finish
  finish_lem out none c h = (refl, h)
  finish_lem out (some index) c h = (refl, read_ahead-IsCache (index + 1) c h)

  -- When the server gives the blocks of the file and they have the sizes claimed, and the request
  -- fits in 64 bits: whatever blocks of the file are cached, `StreamingFile::read` returns exactly
  -- the bytes of the file from the offset to the end of the request or of the file, and the
  -- cache stays right and holds at most six blocks.
  pub read_lem :
      (offset size : ℕ) (c : Cache)
      → IsCache blocks c
      → offset + size ≤ u64_max
      → ((read fetch (reader blocks) offset size c).0
          ≡ ok (take size (drop offset (joined blocks))))
        × IsCache blocks (read fetch (reader blocks) offset size c).1
  unfolding read
  read_lem offset size c h fits =
      let end = min (min (offset + size) u64_max) (len (reader blocks)) in
      let done =
        read_loop_lem end (end - offset) offset [] none c (omega (arith, len_lem blocks))
          (omega arith) h in
      let ended =
        finish_lem (take (end - offset) (drop offset (joined blocks))) done.last_block _
          done.kept in
      let short : end - offset ≡ min size (length (drop offset (joined blocks))) =
        omega (arith, fits, len_lem blocks, length-drop offset (joined blocks)) in
      let exact : take (end - offset) (drop offset (joined blocks))
          ≡ take size (drop offset (joined blocks)) =
        ap (λ k. take k (drop offset (joined blocks))) short
        ∙ take-min size (drop offset (joined blocks)) in
      rw done.given (ended.0 ∙ ap ok exact, ended.1)
