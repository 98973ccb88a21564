-- ===== src/Upload/Commit.antt =====
-- crates/proton-drive-sdk/src/node/revision.rs: `RevisionWriter::commit`.
use proton_sdk_rs.Prelude.{
  ℕ, ◌≡◌, refl, String, Bool, true, false, ◌&&◌, Option, none, some, List, [], ◌∷◌, ◌++◌, arith,
  ◌==◌, map, length, if◌then◌else◌,
}
use proton_sdk_rs.Upload.{Revision}
use proton_sdk_rs.Upload.Blocks.{Bytes, Crypto}
use proton_sdk_rs.Upload.Written.{IsWritten, digests_of}

unfoldable pub bytes_eq : Bytes → Bytes → Bool
bytes_eq [] [] = true
bytes_eq [] (b ∷ t) = false
bytes_eq (a ∷ s) [] = false
bytes_eq (a ∷ s) (b ∷ t) = a == b && bytes_eq s t

pub bytes_eq_inv : (s t : Bytes) → bytes_eq s t ≡ true → s ≡ t
unfolding bytes_eq
bytes_eq_inv [] [] h = refl
bytes_eq_inv [] (b ∷ t) h = cc
bytes_eq_inv (a ∷ s) [] h = cc
bytes_eq_inv (a ∷ s) (b ∷ t) h = ground (arith, bytes_eq_inv s t)

-- `CommonExtendedAttributes`, without the modification time
pub record Attributes : Type 0 where
  pub size : ℕ
  pub block_sizes : List ℕ
  pub sha1 : Bytes

-- `RevisionUpdateRequest`, without the address
pub record Request : Type 0 where
  pub manifest_signature : String
  pub checksum_verified : Bool
  pub extended_attributes : String
  pub photos_attributes : Option String

-- The armoured signature, the JSON of the attributes (the modification time, the media and the
-- additional metadata of the writer included) encrypted and armoured, those of a photo, and whether
-- the server takes the request.
pub record Outside : Type 0 where
  pub sign : Bytes → Option String
  pub seal : Attributes → Option String
  pub photos : Bytes → Option (Option String)
  pub update_revision : Request → Bool

-- What the writer was opened with, and the digests of the thumbnails.
pub record Expected : Type 0 where
  pub size : ℕ
  pub sha1 : Option Bytes
  pub thumbnail_digests : Bytes

pub data Committed : Type 0 where
  committed : Request → Committed
  size_mismatch : ℕ → ℕ → Committed
  checksum_mismatch : Bytes → Bytes → Committed
  failed : Committed

abbrev pub or_empty : Crypto → Option Bytes → Bytes
or_empty c none = c.sha1 []
or_empty c (some hash) = hash

module _ (o : Outside) where
  abbrev pub send : Request → Committed
  send request = if o.update_revision request then committed request else failed

  abbrev pub request_photos : String → Bool → String → Option (Option String) → Committed
  request_photos signature verified sealed none = failed
  request_photos signature verified sealed (some photos) = send (record {
    manifest_signature = signature;
    checksum_verified = verified;
    extended_attributes = sealed;
    photos_attributes = photos;
  })

  abbrev pub request_sealed : String → Bool → Bytes → Option String → Committed
  request_sealed signature verified sha1 none = failed
  request_sealed signature verified sha1 (some sealed) =
      request_photos signature verified sealed (o.photos sha1)

  abbrev pub request : Revision → String → Bool → Bytes → Committed
  request r signature verified sha1 =
      request_sealed signature verified sha1
        (o.seal (record { size = r.total_written; block_sizes = r.block_sizes; sha1 = sha1 }))

  abbrev pub verify : Revision → String → Option Bytes → Bytes → Committed
  verify r signature none sha1 = request r signature false sha1
  verify r signature (some expected) sha1 =
      if bytes_eq expected sha1
      then request r signature true sha1
      else checksum_mismatch sha1 expected

  abbrev pub signed : Expected → Revision → Bytes → Option String → Committed
  signed e r sha1 none = failed
  signed e r sha1 (some signature) =
      if r.total_written == e.size
      then verify r signature e.sha1 sha1
      else size_mismatch r.total_written e.size

  unfoldable pub commit : Crypto → Expected → Revision → Committed
  unfolding bytes_eq
  commit c e r =
      signed e r (or_empty c r.precomputed_sha1) (o.sign (e.thumbnail_digests ++ r.digests))

  abbrev pub Fits : Option Bytes → Bytes → Bool → Type 0
  Fits none sha1 verified = verified ≡ false
  Fits (some expected) sha1 verified = (expected ≡ sha1) × (verified ≡ true)

  -- The request for a content: its size and SHA-1 are those that were expected, the digests of its
  -- blocks are signed in order, and its attributes are sealed.
  pub record IsRequest (c : Crypto) (e : Expected) (target : ℕ) (bytes : Bytes) (r : Revision)
      (q : Request) : Type 0 where
    pub content : IsWritten c target bytes r
    pub size : length bytes ≡ e.size
    pub sha1 : Fits e.sha1 (c.sha1 bytes) q.checksum_verified
    pub manifest :
        o.sign (e.thumbnail_digests ++ digests_of content.uploads) ≡ some q.manifest_signature
    pub attributes :
        o.seal (record {
          size = length bytes;
          block_sizes = map length content.blocks;
          sha1 = c.sha1 bytes;
        })
        ≡ some q.extended_attributes
    pub accepted : o.update_revision q ≡ true
