-- ===== src/Upload/Blocks.antt =====
-- crates/proton-drive-sdk/src/node/revision.rs, block/upload.rs and block/verify.rs: the blocks that
-- are read from a stream, and their encryption with the token for the server's verification.
use Prim.Native.Nat.{bit_xor}
use proton_sdk_rs.Prelude.{
  ℕ, zero, suc, ◌-◌, min, String, Option, none, some, List, [], ◌∷◌, ◌++◌, length, take, drop,
  replicate, leb, if◌then◌else◌,
}

abbrev pub Bytes : Type 0
Bytes = List ℕ

-- What a reader still gives: pieces of the content, or an error.
pub data Piece : Type 0 where
  piece : Bytes → Piece
  fault : Piece

abbrev pub after_piece : Bytes → Option (Bytes × List Piece) → Option (Bytes × List Piece)
after_piece c none = none
after_piece c (some (block, stream)) = some (c ++ block, stream)

-- The reads of one block: until the space is full or a read gives no bytes.
unfoldable pub read_block : ℕ → List Piece → Option (Bytes × List Piece)
read_block zero stream = some ([], stream)
read_block (suc n) [] = some ([], [])
read_block (suc n) (fault ∷ stream) = none
read_block (suc n) (piece [] ∷ stream) = some ([], stream)
read_block (suc n) (piece (b ∷ c) ∷ stream) =
    let rest = after_piece (b ∷ c) (read_block (n - length c) stream) in
    if leb (length c) n
    then rest
    else some (take (suc n) (b ∷ c), piece (drop (suc n) (b ∷ c)) ∷ stream)

-- OpenPGP and the hashes with the keys of the draft: the encrypted signature, the encrypted data, and
-- the digests. The code is the one that the server sent for the verification of blocks.
pub record Crypto : Type 0 where
  pub signature : Bytes → Option String
  pub encrypt : Bytes → Option Bytes
  pub sha256 : Bytes → Bytes
  pub sha1 : Bytes → Bytes
  pub verification_code : Bytes

-- The prefix is copied over zeros of the code's length.
abbrev pub padded : ℕ → Bytes → Bytes
padded n prefix =
    let copy_len = min (length prefix) n in take copy_len prefix ++ replicate (n - copy_len) 0

abbrev pub xor_all : Bytes → Bytes → Bytes
xor_all (a ∷ s) (b ∷ t) = bit_xor a b ∷ xor_all s t
xor_all _ _ = []

unfoldable pub create_verification_token : Bytes → Bytes → Bytes
create_verification_token code prefix = xor_all code (padded (length code) prefix)

abbrev pub aead_chunk_size : ℕ
aead_chunk_size = 131163

pub record EncryptedBlock : Type 0 where
  pub block_number : ℕ
  pub plain_size : ℕ
  pub encrypted_data : Bytes
  pub sha256_digest : Bytes
  pub encrypted_signature : String
  pub verification_token : Bytes

unfoldable pub encrypt_block : Crypto → ℕ → Bytes → Option EncryptedBlock
unfolding create_verification_token
encrypt_block c block_number plain = elim (c.signature plain) [
  | none ↦ none
  | some signature ↦ elim (c.encrypt plain) [
    | none ↦ none
    | some encrypted ↦ some (record {
      block_number = block_number;
      plain_size = length plain;
      encrypted_data = encrypted;
      sha256_digest = c.sha256 encrypted;
      encrypted_signature = signature;
      verification_token =
          create_verification_token c.verification_code
            (take (min (length encrypted) aead_chunk_size) encrypted);
    })
  ]
]
