-- ===== src/Streaming.antt =====
-- Reading a revision block by block: `BlockReader` of
-- crates/proton-drive-sdk/src/node/file/download.rs, and `StreamingFile` of crates/pdcli/src/fs.rs
-- above it. `fetch` is the download of one block from the server; `none` is its failure.
pub mod Locate
pub mod Slices
pub mod Kept
pub mod Reads
mod Tests
use proton_sdk_rs.Prelude.{
  ℕ, zero, suc, ◌+◌, ◌-◌, ◌^◌, min, Bool, true, false, not, ◌&&◌, ◌||◌, Option, none, some, List,
  [], ◌∷◌, ◌++◌, ltb, leb, ◌==◌, if◌then◌else◌, length, get_elem?, get_or, take, drop, map,
}

pub record BlockReader : Type 0 where
  pub starts : List ℕ

-- The running offsets of `BlockReader::new`.
unfoldable pub starts_from : ℕ → List ℕ → List ℕ
starts_from offset [] = offset ∷ []
starts_from offset (size ∷ sizes) = offset ∷ starts_from (offset + size) sizes

unfoldable pub new : List ℕ → BlockReader
unfolding starts_from
new sizes = record { starts = starts_from 0 sizes }

unfoldable pub last : List ℕ → ℕ
last [] = 0
last (n ∷ []) = n
last (n ∷ m ∷ ns) = last (m ∷ ns)

unfoldable pub len : BlockReader → ℕ
unfolding last
len r = last r.starts

unfoldable pub block_count : BlockReader → ℕ
block_count r = length r.starts - 1

-- `partition_point(|start| *start <= offset)`
unfoldable pub partition_point : ℕ → List ℕ → ℕ
partition_point offset [] = 0
partition_point offset (s ∷ ss) =
    let rest = partition_point offset ss in if leb s offset then suc rest else 0

unfoldable pub block_at : BlockReader → ℕ → Option ℕ
unfolding last partition_point
block_at r offset =
    if leb (last r.starts) offset then none else some (partition_point offset r.starts - 1)

unfoldable pub block_start : BlockReader → ℕ → ℕ
block_start r index = get_or r.starts index 0

abbrev pub Bytes : Type 0
Bytes = List ℕ

-- The decrypted blocks that a file keeps, most recently used last.
abbrev pub Cache : Type 0
Cache = List (ℕ × Bytes)

abbrev pub stream_cached_blocks : ℕ
stream_cached_blocks = 6

unfoldable pub find : ℕ → Cache → Option Bytes
find index [] = none
find index ((i, d) ∷ c) = let rest = find index c in if i == index then some d else rest

unfoldable pub remove : ℕ → Cache → Cache
remove index [] = []
remove index ((i, d) ∷ c) = let rest = remove index c in if i == index then c else (i, d) ∷ rest

-- A hit moves to the back.
unfoldable pub cached : ℕ → Cache → Option (Bytes × Cache)
unfolding find remove
cached index c = elim (find index c) [
  | none ↦ none
  | some d ↦ some (d, remove index c ++ (index, d) ∷ [])
]

unfoldable pub remember : ℕ → Bytes → Cache → Cache
unfolding find
remember index d c = elim (find index c) [
  | some _ ↦ c
  | none ↦ (if length c == stream_cached_blocks then drop 1 c else c) ++ (index, d) ∷ []
]

pub data Result {ℓ} (A : Type ℓ) : Type ℓ where
  ok : A → Result A
  failed : Result A

abbrev pub u64_max : ℕ
u64_max = 2 ^ 64 - 1

-- `expect("position is before the end")`: there is a block wherever the loop asks.
abbrev pub get_index : Option ℕ → ℕ
get_index none = 0
get_index (some i) = i

module _ (fetch : ℕ → Option Bytes) where
  -- `read_block` with its range check, and `remember` on success.
  unfoldable pub fetch_block : BlockReader → ℕ → Cache → Result Bytes × Cache
  unfolding remember
  fetch_block r index c =
      if ltb index (block_count r)
      then elim (fetch index) [ none ↦ (failed, c) | some d ↦ (ok d, remember index d c) ]
      else (failed, c)

  unfoldable pub block : BlockReader → ℕ → Cache → Result Bytes × Cache
  unfolding cached fetch_block
  block r index c = elim (cached index c) [
    | some (d, c') ↦ (ok d, c')
    | none ↦ fetch_block r index c
  ]

  unfoldable pub read_ahead : BlockReader → ℕ → Cache → Cache
  unfolding cached fetch_block
  read_ahead r index c =
      if leb (block_count r) index
      then c
      else elim (cached index c) [ some (d, c') ↦ c' | none ↦ (fetch_block r index c).1 ]

  -- One round of the `while position < end` loop; `none` for `last_block` until a block is read.
  unfoldable pub read_loop :
      BlockReader → ℕ → ℕ → ℕ → Bytes → Option ℕ → Cache → Result (Bytes × Option ℕ) × Cache
  unfolding block
  read_loop r end zero position out last_block c = (ok (out, last_block), c)
  read_loop r end (suc fuel) position out last_block c =
      let index = get_index (block_at r position) in
      let got = block r index c in
      let start = position - block_start r index in
      let next = λ (d : Bytes).
        let n = min (end - position) (length d - start) in
        let rest =
          read_loop r end fuel (position + n) (out ++ take n (drop start d)) (some index) got.1 in
        (if n == 0 then (failed, got.1) else rest) in
      let round : Result (Bytes × Option ℕ) × Cache = elim got.0 [
        | failed ↦ (failed, got.1)
        | ok d ↦ next d
      ] in
      if ltb position end then round else (ok (out, last_block), c)

  -- The read-ahead, where a block was read.
  unfoldable pub finish : BlockReader → Result (Bytes × Option ℕ) → Cache → Result Bytes × Cache
  unfolding read_ahead
  finish r failed c = (failed, c)
  finish r (ok (out, none)) c = (ok out, c)
  finish r (ok (out, some index)) c = (ok out, read_ahead r (index + 1) c)

  -- Each round reads a byte at least, so the bytes asked for are fuel enough.
  unfoldable pub read : BlockReader → ℕ → ℕ → Cache → Result Bytes × Cache
  unfolding read_loop finish
  read r offset size c =
      let end = min (min (offset + size) u64_max) (len r) in
      let done = read_loop r end (end - offset) offset [] none c in finish r done.0 done.1
