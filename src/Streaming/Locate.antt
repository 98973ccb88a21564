-- ===== src/Streaming/Locate.antt =====
-- node/file/download.rs: `BlockReader::block_at` finds the block of an offset.
use mathlib.Core.List.{append_assoc}
use proton_sdk_rs.Prelude.{
  ℕ, zero, suc, ◌+◌, ◌-◌, ◌≤◌, ◌<◌, ◌≡◌, refl, sym, ap, ◌∙◌, inl, inr, some, List, [], ◌∷◌, ◌++◌,
  arith, ltb, length, length-append, get_elem?, get_or, Bool-cases,
}
use proton_sdk_rs.Streaming.{
  BlockReader, Bytes, starts_from, new, last, len, block_count, partition_point, block_at,
}

-- The bytes of a file.
abbrev pub joined : List Bytes → Bytes
joined [] = []
joined (d ∷ ds) = d ++ joined ds

abbrev pub sizes : List Bytes → List ℕ
sizes [] = []
sizes (d ∷ ds) = length d ∷ sizes ds

-- The reader of a file whose blocks have the sizes that they claim.
abbrev pub reader : List Bytes → BlockReader
reader blocks = new (sizes blocks)

length-sizes : (blocks : List Bytes) → length (sizes blocks) ≡ length blocks
length-sizes [] = refl
length-sizes (d ∷ ds) = ap suc (length-sizes ds)

length-starts : (base : ℕ) (ns : List ℕ) → length (starts_from base ns) ≡ suc (length ns)
unfolding starts_from
length-starts base [] = refl
length-starts base (n ∷ ns) = ap suc (length-starts (base + n) ns)

pub block_count_lem : (blocks : List Bytes) → block_count (reader blocks) ≡ length blocks
unfolding block_count new
block_count_lem blocks = omega (arith, length-starts 0 (sizes blocks), length-sizes blocks)

last-starts :
    (base : ℕ) (blocks : List Bytes)
    → last (starts_from base (sizes blocks)) ≡ base + length (joined blocks)
unfolding starts_from last
last-starts base [] = omega arith
last-starts base (d ∷ []) = omega (arith, length-append d [])
last-starts base (d ∷ e ∷ ds) =
    omega (arith, last-starts (base + length d) (e ∷ ds), length-append d (joined (e ∷ ds)))

pub len_lem : (blocks : List Bytes) → len (reader blocks) ≡ length (joined blocks)
unfolding len new
len_lem blocks = omega (arith, last-starts 0 blocks)

-- Where the byte at an offset stands: the block, and the bytes of the file around the block.
pub record Place (base : ℕ) (blocks : List Bytes) (offset index : ℕ) : Type 0 where
  pub bytes : Bytes
  pub before : Bytes
  pub after : Bytes
  pub stored : get_elem? blocks index ≡ some bytes
  pub whole : joined blocks ≡ before ++ (bytes ++ after)
  pub start : get_or (starts_from base (sizes blocks)) index 0 ≡ base + length before
  pub from : base + length before ≤ offset
  pub below : offset < base + length before + length bytes

none_before :
    (base offset : ℕ) (ns : List ℕ)
    → offset < base
    → partition_point offset (starts_from base ns) ≡ 0
unfolding partition_point starts_from
none_before base offset [] h = ground (arith, h)
none_before base offset (n ∷ ns) h = ground (arith, h)

one_before :
    (base offset : ℕ) (ns : List ℕ)
    → base ≤ offset
    → 0 < partition_point offset (starts_from base ns)
unfolding partition_point starts_from
one_before base offset [] h = ground (arith, h)
one_before base offset (n ∷ ns) h = ground (arith, h)

Place-of :
    (base offset index : ℕ) (blocks : List Bytes)
    → base ≤ offset
    → offset < base + length (joined blocks)
    → partition_point offset (starts_from base (sizes blocks)) ≡ suc index
    → Place base blocks offset index
unfolding starts_from partition_point
Place-of base offset index [] h l p = absurd (omega (arith, h, l))
Place-of base offset zero (d ∷ ds) h l p = elim (Bool-cases (ltb offset (base + length d))) [
  | inl here ↦ record {
    bytes = d;
    before = [];
    after = joined ds;
    stored = refl;
    whole = refl;
    start = omega arith;
    from = omega arith;
    below = ground (arith, here);
  }
  | inr later ↦ absurd (ground (arith, later, p, h, one_before (base + length d) offset (sizes ds)))
]
Place-of base offset (suc index) (d ∷ ds) h l p = elim (Bool-cases (ltb offset (base + length d))) [
  | inl here ↦ absurd (ground (arith, here, p, h, none_before (base + length d) offset (sizes ds)))
  | inr later ↦
      let next =
        Place-of (base + length d) offset index ds (ground (arith, later))
          (omega (arith, l, length-append d (joined ds))) (ground (arith, later, p, h)) in
      record {
        bytes = next.bytes;
        before = d ++ next.before;
        after = next.after;
        stored = next.stored;
        whole =
            ap (λ ys. d ++ ys) next.whole
            ∙ sym (append_assoc d next.before (next.bytes ++ next.after));
        start = omega (arith, next.start, length-append d next.before);
        from = omega (arith, next.from, length-append d next.before);
        below = omega (arith, next.below, length-append d next.before);
      }
]

-- Before the end of the file, `block_at` finds a block of it, that starts where `block_start` says
-- and holds the byte at the offset.
pub block_at_lem :
    (blocks : List Bytes) (offset : ℕ)
    → offset < len (reader blocks)
    → (index : ℕ) × (block_at (reader blocks) offset ≡ some index) × Place 0 blocks offset index
unfolding block_at new len
block_at_lem blocks offset h =
    let some_before = one_before 0 offset (sizes blocks) (omega arith) in
    let index = partition_point offset (starts_from 0 (sizes blocks)) - 1 in
    (
      index,
      ground (arith, h),
      Place-of 0 offset index blocks (omega arith) (omega (arith, h, len_lem blocks))
          (omega (arith, some_before)),
    )
