-- ===== src/Upload/Written.antt =====
-- crates/proton-drive-sdk/src/node/revision.rs: what `write` leaves in the writer when it returns.
use mathlib.Core.List.{append_assoc, append-nil}
use proton_sdk_rs.Prelude.{
  ℕ, suc, ◌+◌, ◌-◌, ◌<◌, ◌≡◌, refl, sym, ap, ◌∙◌, subst, inl, inr, true, ◌&&◌, some, List, [], ◌∷◌,
  ◌++◌, arith, map, All, length, length-append, order_by, Bool-cases,
}
use proton_sdk_rs.Upload.{
  Uploaded, uploaded_of, Queued, Task, running, finished, failed, Writing, is_empty, new, Event,
  run, Revision, new_revision, add_results, written, conclude, outcome,
}
use proton_sdk_rs.Upload.Blocks.{Bytes, Piece, Crypto}
use proton_sdk_rs.Upload.Contents.{content, Reads}
use proton_sdk_rs.Upload.Numbered.{Uploads}
use proton_sdk_rs.Upload.Ordered.{IsSound, FullButLast, joined, number, held, new-IsSound}
use proton_sdk_rs.Upload.Kept.{run-IsSound}

unfoldable pub digests_of : List Uploaded → Bytes
digests_of [] = []
digests_of (u ∷ us) = u.digest ++ digests_of us

-- The content in full blocks, but for the last, and the uploads of these blocks in order.
pub record IsWritten (c : Crypto) (target : ℕ) (bytes : Bytes) (r : Revision) : Type 0 where
  pub blocks : List Bytes
  pub uploads : List Uploaded
  pub whole : joined blocks ≡ bytes
  pub cut : FullButLast target blocks
  pub made : Uploads c 1 blocks uploads
  pub digests : r.digests ≡ digests_of uploads
  pub sizes : r.block_sizes ≡ map length blocks
  pub total : r.total_written ≡ length bytes
  pub next : r.block_number ≡ length blocks + 1
  pub sha1 : r.precomputed_sha1 ≡ some (c.sha1 bytes)

-- What `add_results` adds to the writer.
record Added (us : List Uploaded) (ps : List Bytes) (r s : Revision) : Type 0 where
  digests : s.digests ≡ r.digests ++ digests_of us
  sizes : s.block_sizes ≡ r.block_sizes ++ map length ps
  total : s.total_written ≡ r.total_written + length (joined ps)

abbrev add_result : Uploaded → Revision → Revision
add_result u r = record r {
  digests = r.digests ++ u.digest;
  block_sizes = r.block_sizes ++ u.size ∷ [];
  total_written = r.total_written + u.size;
}

module _ (c : Crypto) where
  add_results-Added :
      (n : ℕ) (ps : List Bytes) (us : List Uploaded) (r : Revision)
      → Uploads c n ps us
      → Added us ps r (add_results us r)
  unfolding add_results digests_of joined
  add_results-Added n [] [] r h = record {
    digests = sym (append-nil r.digests);
    sizes = sym (append-nil r.block_sizes);
    total = omega arith;
  }
  add_results-Added n [] (u ∷ us) r h = absurd h
  add_results-Added n (p ∷ ps) [] r h = absurd h
  add_results-Added n (p ∷ ps) (u ∷ us) r h =
      let size : u.size ≡ length p = ap (λ (v : Uploaded). v.size) h.0.same in
      let rest = add_results-Added (suc n) ps us (add_result u r) h.1 in
      record {
        digests = rest.digests ∙ append_assoc r.digests u.digest (digests_of us);
        sizes =
            rest.sizes
            ∙ append_assoc r.block_sizes (u.size ∷ []) (map length ps)
            ∙ ap (λ (k : ℕ). r.block_sizes ++ k ∷ map length ps) size;
        total = omega (arith, rest.total, size, length-append p (joined ps));
      }

FullButLast-all : (n : ℕ) (ps : List Bytes) → 0 < n → All (λ p. length p ≡ n) ps → FullButLast n ps
FullButLast-all n [] pos h = tt
FullButLast-all n (p ∷ []) pos h = (omega (arith, h.0), omega (arith, h.0))
FullButLast-all n (p ∷ q ∷ ps) pos h = (h.0, FullButLast-all n (q ∷ ps) pos h.1)

is_empty_inv {ℓ} : {A : Type ℓ} (xs : List A) → is_empty xs ≡ true → xs ≡ []
is_empty_inv [] h = refl
is_empty_inv (x ∷ xs) h = absurd (ground (arith, h))

module _ (c : Crypto) (target : ℕ) (start : List Piece) where
  -- The writer's fields after `write`, from the results in order.
  abbrev given : Writing → List Uploaded → Revision
  given w us = record (add_results us new_revision) {
    precomputed_sha1 = some (c.sha1 w.hashed);
    block_number = w.current_block - 1 + 1;
  }

  given-IsWritten :
      (w : Writing) (i : (IsSound c target start) w)
      → 0 < target
      → w.producer ≡ finished
      → IsWritten c target (content start) (given w i.uploads)
  unfolding content new_revision
  given-IsWritten w i pos end =
      let whole : joined i.blocks ≡ content start = sym (
        i.read (λ f. cc)
        ∙ ap (λ (s : List Piece). joined i.blocks ++ content s) (i.ended end)
        ∙ append-nil (joined i.blocks)) in
      let a = add_results-Added c 1 i.blocks i.uploads new_revision i.made in
      record {
        blocks = i.blocks;
        uploads = i.uploads;
        whole = whole;
        cut = elim i.cut [
          | inl full ↦ FullButLast-all target i.blocks pos full
          | inr (gone, most) ↦ most
        ];
        made = i.made;
        digests = a.digests;
        sizes = a.sizes;
        total = omega (arith, a.total, ap length whole);
        next = omega (arith, i.counted);
        sha1 = ap (λ (b : Bytes). some (c.sha1 b)) (i.hashed ∙ whole);
      }

  outcome-given :
      (w : Writing) (i : (IsSound c target start) w) (r : Revision)
      → outcome c w new_revision ≡ written r
      → (w.producer ≡ finished) × (r ≡ given w i.uploads)
  unfolding outcome
  outcome-given w i r h = elim (Bool-cases w.aborted) [
    | inl over ↦ absurd (ground (arith, over, h))
    | inr on ↦ elim (Bool-cases (is_empty w.upload_futures && w.producer_done)) [
      | inr busy ↦ absurd (ground (arith, on, busy, h))
      | inl idle ↦
          concluded w.producer refl (is_empty_inv w.upload_futures (ground (arith, idle)))
            (i.drained (ground (arith, idle))).0 (ground (arith, on, idle, h))
    ]
  ]
    where
      concluded :
          (p : Task)
          → w.producer ≡ p
          → w.upload_futures ≡ []
          → w.channel ≡ []
          → conclude c w p new_revision ≡ written r
          → (w.producer ≡ finished) × (r ≡ given w i.uploads)
      concluded running e none_left empty k = cc
      concluded failed e none_left empty k = cc
      concluded finished e none_left empty k =
          let results : held w ≡ w.block_results =
            ap (λ (s : List Uploaded). w.block_results ++ s)
              (ap (λ (q : List Queued). map uploaded_of q ++ map uploaded_of w.channel) none_left
                ∙ ap (map uploaded_of) empty)
            ∙ append-nil w.block_results in
          let order : order_by number w.block_results ≡ i.uploads =
            ap (order_by number) (sym results) ∙ i.sorted in
          let same : given w (order_by number w.block_results) ≡ r = ground (arith, k) in
          (e, sym same ∙ ap (given w) order)

-- If the reads of the stream give bytes and no error up to its end, and blocks have room for a byte,
-- then whatever order the blocks are read, sent and answered in, a `write` that returns leaves in a
-- new writer the digests of the encrypted blocks in order, their sizes, the length of the content, the
-- number of blocks plus 1, and the SHA-1 of the content; and the blocks are the content, all full but
-- the last.
pub write_lem :
    (c : Crypto) (target : ℕ) (start : List Piece) (es : List Event) (r : Revision)
    → 0 < target
    → Reads start
    → outcome c (run c target es (new start)) new_revision ≡ written r
    → IsWritten c target (content start) r
write_lem c target start es r pos reads h =
    let w = run c target es (new start) in
    let i = run-IsSound c target start es (new start) pos (new-IsSound c target start reads) in
    let (end, same) = outcome-given c target start w i r h in
    subst (IsWritten c target (content start)) (sym same)
      (given-IsWritten c target start w i pos end)
