-- ===== src/Download/Contents.antt =====
-- node/download.rs: what a download has written after some blocks of the file.
use mathlib.Core.List.{append_assoc, append-nil}
use proton_sdk_rs.Prelude.{
  ℕ, zero, suc, ◌+◌, ◌≡◌, refl, sym, ap, ◌∙◌, some, List, [], ◌∷◌, ◌++◌, map, arith, length,
  length-append, get_elem?, take,
}
use proton_sdk_rs.Download.{
  Bytes, Block, DownloadState, Parallel, write_block, add_downloaded_block_digest,
  add_number_of_bytes_written,
}

-- The bytes and the digests of blocks in order.
abbrev pub contents : List Block → Bytes
contents [] = []
contents (b ∷ bs) = b.bytes ++ contents bs

abbrev pub digests : List Block → List Bytes
digests bs = map (λ b. b.digest) bs

contents-append : (xs ys : List Block) → contents (xs ++ ys) ≡ contents xs ++ contents ys
contents-append [] ys = refl
contents-append (x ∷ xs) ys =
    ap (λ l. x.bytes ++ l) (contents-append xs ys)
    ∙ sym (append_assoc x.bytes (contents xs) (contents ys))

digests-append : (xs ys : List Block) → digests (xs ++ ys) ≡ digests xs ++ digests ys
digests-append [] ys = refl
digests-append (x ∷ xs) ys = ap (λ l. x.digest ∷ l) (digests-append xs ys)

take_next :
    (n : ℕ) (b : Block) (bs : List Block)
    → get_elem? bs n ≡ some b
    → take (suc n) bs ≡ take n bs ++ b ∷ []
take_next n b [] h = absurd (ground (arith, h))
take_next zero b (c ∷ bs) h = let same : c ≡ b = ground (arith, h) in ap (λ x. x ∷ []) same
take_next (suc n) b (c ∷ bs) h = ap (λ l. c ∷ l) (take_next n b bs h)

-- What the program has written after `n` blocks of the file.
pub record Written (blocks : List Block) (s : DownloadState) (n : ℕ) (p : Parallel) : Type 0 where
  pub next : p.next_write_index ≡ suc n
  pub output : p.output ≡ contents (take n blocks)
  pub digests :
      p.state.downloaded_block_digests ≡ s.downloaded_block_digests ++ digests (take n blocks)
  pub counted : p.state.bytes_written ≡ s.bytes_written + length (contents (take n blocks))
  pub released : p.released ≡ n

module _ (blocks : List Block) (s : DownloadState) where
  pub write_block-Written :
      (n : ℕ) (b : Block) (p : Parallel)
      → get_elem? blocks n ≡ some b
      → Written blocks s n p
      → Written blocks s (suc n) (write_block b p)
  unfolding write_block add_downloaded_block_digest add_number_of_bytes_written
  write_block-Written n b p h v =
      let more = take_next n b blocks h in
      let grown : contents (take (suc n) blocks) ≡ contents (take n blocks) ++ b.bytes =
        ap contents more
        ∙ contents-append (take n blocks) (b ∷ [])
        ∙ ap (λ l. contents (take n blocks) ++ l) (append-nil b.bytes) in
      record {
        next = omega (arith, v.next);
        output = ap (λ l. l ++ b.bytes) v.output ∙ sym grown;
        digests =
            ap (λ l. l ++ b.digest ∷ []) v.digests
            ∙ append_assoc s.downloaded_block_digests (digests (take n blocks)) (b.digest ∷ [])
            ∙ ap (λ l. s.downloaded_block_digests ++ l)
                (sym (ap digests more ∙ digests-append (take n blocks) (b ∷ [])));
        counted = omega (
          arith,
          v.counted,
          ap (λ l. length l) grown,
          length-append (contents (take n blocks)) b.bytes,
        );
        released = omega (arith, v.released);
      }
