-- ===== src/Upload/Requests.antt =====
-- crates/proton-drive-sdk/src/node/revision.rs: what a revision that is committed says of the content.
use proton_sdk_rs.Prelude.{
  ℕ, ◌≡◌, ◌≢◌, refl, sym, ap, ◌∙◌, subst, inl, inr, String, Bool, true, false, Option, none, some,
  ◌++◌, arith, ◌==◌, length, Bool-cases,
}
use proton_sdk_rs.Upload.{Revision}
use proton_sdk_rs.Upload.Blocks.{Bytes, Crypto}
use proton_sdk_rs.Upload.Written.{IsWritten}
use proton_sdk_rs.Upload.Commit.{
  Request, Outside, Expected, committed, size_mismatch, or_empty, send, request_photos,
  request_sealed, request, verify, signed, commit, bytes_eq, bytes_eq_inv, Fits, IsRequest,
}

module _ (o : Outside) where
  -- A request that was sent, with the parts that it was made of.
  record Sent (r : Revision) (signature : String) (verified : Bool) (sha1 : Bytes) (q : Request)
      : Type 0 where
    manifest : q.manifest_signature ≡ signature
    checked : q.checksum_verified ≡ verified
    attributes :
        o.seal (record { size = r.total_written; block_sizes = r.block_sizes; sha1 = sha1 })
        ≡ some q.extended_attributes
    accepted : o.update_revision q ≡ true

  send_inv : (p q : Request) → send o p ≡ committed q → (p ≡ q) × (o.update_revision q ≡ true)
  send_inv p q h = elim (Bool-cases (o.update_revision p)) [
    | inl yes_sent ↦
        let same : p ≡ q = ground (arith, yes_sent, h) in
        (same, ap o.update_revision (sym same) ∙ yes_sent)
    | inr refused ↦ absurd (ground (arith, refused, h))
  ]

  request_inv :
      (r : Revision) (signature : String) (verified : Bool) (sha1 : Bytes) (q : Request)
      → request o r signature verified sha1 ≡ committed q
      → Sent r signature verified sha1 q
  request_inv r signature verified sha1 q h = sealed (o.seal _) refl h
    where
      pictured :
          (text : String) (photos : Option (Option String))
          → o.seal (record { size = r.total_written; block_sizes = r.block_sizes; sha1 = sha1 })
            ≡ some text
          → request_photos o signature verified text photos ≡ committed q
          → Sent r signature verified sha1 q
      pictured text none e k = cc
      pictured text (some photos) e k =
          let (same, taken) = send_inv _ q k in
          record {
            manifest = ap (λ (x : Request). x.manifest_signature) (sym same);
            checked = ap (λ (x : Request). x.checksum_verified) (sym same);
            attributes = e ∙ ap (λ (x : Request). some x.extended_attributes) same;
            accepted = taken;
          }

      sealed :
          (text : Option String)
          → o.seal (record { size = r.total_written; block_sizes = r.block_sizes; sha1 = sha1 })
            ≡ text
          → request_sealed o signature verified sha1 text ≡ committed q
          → Sent r signature verified sha1 q
      sealed none e k = cc
      sealed (some text) e k = pictured text (o.photos sha1) e k

  verify_inv :
      (r : Revision) (signature : String) (expected : Option Bytes) (sha1 : Bytes) (q : Request)
      → verify o r signature expected sha1 ≡ committed q
      → (Fits o) expected sha1 q.checksum_verified × ((b : Bool) × Sent r signature b sha1 q)
  verify_inv r signature none sha1 q h =
      let s = request_inv r signature false sha1 q h in (s.checked, (false, s))
  verify_inv r signature (some expected) sha1 q h = elim (Bool-cases (bytes_eq expected sha1)) [
    | inl same ↦
        let s = request_inv r signature true sha1 q (rw same at h) in
        ((bytes_eq_inv expected sha1 same, s.checked), (true, s))
    | inr other ↦ absurd (ground (arith, other, h))
  ]

  commit_signed :
      (c : Crypto) (e : Expected) (r : Revision) (sha1 : Bytes) (q : Request)
      → (s : Option String) → signed o e r sha1 s ≡ committed q
      → (r.total_written ≡ e.size)
        × ((Fits o) e.sha1 sha1 q.checksum_verified)
        × ((b : Bool) × (signature : String) × (s ≡ some signature) × Sent r signature b sha1 q)
  commit_signed c e r sha1 q none h = cc
  commit_signed c e r sha1 q (some signature) h = elim (Bool-cases (r.total_written == e.size)) [
    | inl same ↦
        let (fits, (b, s)) = verify_inv r signature e.sha1 sha1 q (rw same at h) in
        (ground (arith, same), fits, (b, signature, refl, s))
    | inr other ↦ absurd (ground (arith, other, h))
  ]

  -- If `write` has left a content in the writer, then a `commit` that succeeds has sent a request that
  -- the server took, with the digests of the thumbnails and of the blocks in order signed, the length
  -- of the content, the sizes of the blocks and the SHA-1 sealed; the length is the expected one, and
  -- the SHA-1 too, if one was expected, which the request then says. A content of another length is
  -- never committed: the error gives both lengths, if the manifest can be signed.
  pub commit_lem :
      (c : Crypto) (e : Expected) (target : ℕ) (bytes : Bytes) (r : Revision)
      → IsWritten c target bytes r
      → ((q : Request) → commit o c e r ≡ committed q → (IsRequest o) c e target bytes r q)
        × (length bytes ≢ e.size
            → (signature : String) → o.sign (e.thumbnail_digests ++ r.digests) ≡ some signature
            → commit o c e r ≡ size_mismatch (length bytes) e.size)
  unfolding commit
  commit_lem c e target bytes r w = (request_of, refused)
    where
      request_of : (q : Request) → commit o c e r ≡ committed q → (IsRequest o) c e target bytes r q
      request_of q h =
          let (size, fits, (b, signature, s, sent)) =
            commit_signed c e r (or_empty c r.precomputed_sha1) q
              (o.sign (e.thumbnail_digests ++ r.digests)) h in
          let hash : or_empty c r.precomputed_sha1 ≡ c.sha1 bytes = ap (or_empty c) w.sha1 in
          record {
            content = w;
            size = sym w.total ∙ size;
            sha1 = subst (λ x. (Fits o) e.sha1 x q.checksum_verified) hash fits;
            manifest =
                ap (λ d. o.sign (e.thumbnail_digests ++ d)) (sym w.digests)
                ∙ s
                ∙ ap some (sym sent.manifest);
            attributes = rw (← w.total, ← w.sizes, ← hash) sent.attributes;
            accepted = sent.accepted;
          }

      refused :
          length bytes ≢ e.size
          → (signature : String) → o.sign (e.thumbnail_digests ++ r.digests) ≡ some signature
          → commit o c e r ≡ size_mismatch (length bytes) e.size
      refused other signature s =
          let apart : (r.total_written == e.size) ≡ false = ground (arith, w.total, other) in
          rw (commit, s, apart) (ap (λ n. size_mismatch n e.size) w.total)
