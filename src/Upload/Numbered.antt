-- ===== src/Upload/Numbered.antt =====
-- crates/proton-drive-sdk/src/node/revision.rs: the uploads of the blocks of a content, in order.
use proton_sdk_rs.Prelude.{
  ℕ, suc, ◌+◌, ◌≤◌, ◌<◌, ◌≡◌, refl, inl, inr, some, List, [], ◌∷◌, ◌++◌, arith, ◌==◌, All, All-map,
  length, count_where, Bool-cases, Option-cases,
}
use proton_sdk_rs.Upload.{Uploaded, uploaded_of}
use proton_sdk_rs.Upload.Blocks.{Bytes, Crypto, EncryptedBlock, encrypt_block}

module _ (c : Crypto) where
  -- The upload of a block with this number.
  pub record IsUpload (n : ℕ) (p : Bytes) (u : Uploaded) : Type 0 where
    pub block : EncryptedBlock
    pub encrypted : encrypt_block c n p ≡ some block
    pub same : u ≡ uploaded_of (block, length p)

  -- Blocks and their uploads, numbered in order from `n`.
  abbrev pub Uploads : ℕ → List Bytes → List Uploaded → Type 0
  Uploads n [] [] = Unit {0}
  Uploads n [] (u ∷ us) = ⊥
  Uploads n (p ∷ ps) [] = ⊥
  Uploads n (p ∷ ps) (u ∷ us) = IsUpload n p u × Uploads (suc n) ps us

  pub encrypt_block-number :
      (n : ℕ) (p : Bytes) (e : EncryptedBlock)
      → encrypt_block c n p ≡ some e
      → (e.block_number ≡ n) × (e.plain_size ≡ length p)
  unfolding encrypt_block
  encrypt_block-number n p e h = elim (Option-cases (c.signature p)) [
    | inl missing ↦ absurd (ground (arith, missing, h))
    | inr (signature, signed) ↦ elim (Option-cases (c.encrypt p)) [
      | inl missing ↦ absurd (ground (arith, signed, missing, h))
      | inr (data_packet, made) ↦ ground (arith, signed, made, h)
    ]
  ]

  upload-number : (n : ℕ) (p : Bytes) (u : Uploaded) → IsUpload n p u → u.number ≡ n
  upload-number n p u i = rw i.same (encrypt_block-number n p i.block i.encrypted).0

  pub Uploads-range :
      (n : ℕ) (ps : List Bytes) (us : List Uploaded)
      → Uploads n ps us
      → All (λ u. (n ≤ u.number) × (u.number < n + length ps)) us
  Uploads-range n [] [] h = tt
  Uploads-range n [] (u ∷ us) h = absurd h
  Uploads-range n (p ∷ ps) [] h = absurd h
  Uploads-range n (p ∷ ps) (u ∷ us) h = (
    omega (arith, upload-number n p u h.0),
    All-map (λ v b. omega (arith, b)) us (Uploads-range (suc n) ps us h.1),
  )

  none_below :
      (i n : ℕ) (us : List Uploaded)
      → i < n
      → All (λ u. n ≤ u.number) us
      → count_where (λ u. u.number == i) us ≡ 0
  none_below i n [] h b = refl
  none_below i n (u ∷ us) h b = ground (arith, none_below i n us h b.1, b.0)

  pub Uploads-once :
      (i n : ℕ) (ps : List Bytes) (us : List Uploaded)
      → Uploads n ps us
      → count_where (λ u. u.number == i) us ≤ 1
  Uploads-once i n [] [] h = omega arith
  Uploads-once i n [] (u ∷ us) h = absurd h
  Uploads-once i n (p ∷ ps) [] h = absurd h
  Uploads-once i n (p ∷ ps) (u ∷ us) h =
      let e = upload-number n p u h.0 in
      elim (Bool-cases (u.number == i)) [
        | inl hit ↦ ground (
          arith,
          hit,
          e,
          none_below i (suc n) us (ground arith)
              (All-map (λ v b. b.0) us (Uploads-range (suc n) ps us h.1)),
        )
        | inr miss ↦ ground (arith, miss, Uploads-once i (suc n) ps us h.1)
      ]

  pub Uploads-append :
      (n m : ℕ) (ps : List Bytes) (us : List Uploaded) (p : Bytes) (u : Uploaded)
      → Uploads n ps us
      → m ≡ n + length ps
      → IsUpload m p u
      → Uploads n (ps ++ p ∷ []) (us ++ u ∷ [])
  Uploads-append n m [] [] p u h e i = let same : m ≡ n = omega arith in (rw same at i, tt)
  Uploads-append n m [] (v ∷ us) p u h e i = absurd h
  Uploads-append n m (q ∷ ps) [] p u h e i = absurd h
  Uploads-append n m (q ∷ ps) (v ∷ us) p u h e i =
      (h.0, Uploads-append (suc n) m ps us p u h.1 (omega arith) i)
