-- ===== src/Upload/Contents.antt =====
-- crates/proton-drive-sdk/src/node/revision.rs: the blocks that the producer makes of a content.
use mathlib.Core.List.{append_assoc}
use proton_sdk_rs.Prelude.{
  ℕ, zero, suc, ◌-◌, ◌<◌, ◌≡◌, refl, sym, ap, ◌∙◌, inl, inr, ◌⊎◌, some, List, [], ◌∷◌, ◌++◌, arith,
  leb, length, length-append, take, drop, take-append-drop, length-take, Bool-cases,
}
use proton_sdk_rs.Upload.Blocks.{Bytes, Piece, piece, fault, read_block}

-- The bytes that a reader gives before an error.
unfoldable pub content : List Piece → Bytes
content [] = []
content (fault ∷ stream) = []
content (piece c ∷ stream) = c ++ content stream

-- A reader that gives bytes with every read, and no error, until its end.
abbrev pub Reads : List Piece → Type 0
Reads [] = Unit {0}
Reads (fault ∷ stream) = ⊥
Reads (piece [] ∷ stream) = ⊥
Reads (piece (b ∷ c) ∷ stream) = Reads stream

-- A block with what follows it: the block is full, or it is what was left.
pub record Split (n : ℕ) (stream : List Piece) (block : Bytes) (rest : List Piece) : Type 0 where
  pub joined : content stream ≡ block ++ content rest
  pub full : (length block ≡ n) ⊎ ((length block < n) × (rest ≡ []))
  pub reads : Reads rest

Reads-drop :
    (n : ℕ) (c : Bytes) (stream : List Piece)
    → n < length c
    → Reads stream
    → Reads (piece (drop n c) ∷ stream)
Reads-drop n [] stream h r = elim h [ ]
Reads-drop zero (b ∷ c) stream h r = r
Reads-drop (suc n) (b ∷ c) stream h r = Reads-drop n c stream (omega arith) r

pub read_block-Split :
    (n : ℕ) (stream : List Piece)
    → Reads stream
    → (block : Bytes) × (rest : List Piece) × (read_block n stream ≡ some (block, rest))
      × Split n stream block rest
unfolding read_block content
read_block-Split zero stream r =
    ([], stream, refl, record { joined = refl; full = inl refl; reads = r })
read_block-Split (suc n) [] r =
    ([], [], refl, record { joined = refl; full = inr (omega arith, refl); reads = tt })
read_block-Split (suc n) (fault ∷ stream) r = absurd r
read_block-Split (suc n) (piece [] ∷ stream) r = absurd r
read_block-Split (suc n) (piece (b ∷ c) ∷ stream) r = elim (Bool-cases (leb (length c) n)) [
  | inl fits ↦
      let (block, rest, e, s) = read_block-Split (n - length c) stream r in
      (
        b ∷ c ++ block,
        rest,
        rw (fits, e) refl,
        record {
          joined = ap (λ t. b ∷ c ++ t) s.joined ∙ sym (append_assoc (b ∷ c) block (content rest));
          full = elim s.full [
            | inl same ↦ inl (ground (arith, fits, same, length-append c block))
            | inr (short, end) ↦ inr (ground (arith, fits, short, length-append c block), end)
          ];
          reads = s.reads;
        },
      )
  | inr over ↦ (
    take (suc n) (b ∷ c),
    piece (drop (suc n) (b ∷ c)) ∷ stream,
    rw over refl,
    record {
      joined =
          ap (λ t. b ∷ t)
            (ap (λ t. t ++ content stream) (sym (take-append-drop n c))
              ∙ append_assoc (take n c) (drop n c) (content stream));
      full = inl (ground (arith, over, length-take n c));
      reads = Reads-drop n c stream (ground (arith, over)) r;
    },
  )
]
