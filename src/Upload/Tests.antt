-- ===== src/Upload/Tests.antt =====
-- node/revision.rs and block/verify.rs at concrete inputs.
use proton_sdk_rs.Prelude.{
  ℕ, ◌≡◌, ◌≢◌, refl, String, true, some, none, List, [], ◌∷◌, length, arith,
}
use proton_sdk_rs.Upload.{
  Event, producer_round, consumer_round, upload_answer, new, run, Revision, new_revision, outcome,
  written,
}
use proton_sdk_rs.Upload.Blocks.{
  Bytes, Piece, piece, Crypto, create_verification_token, encrypt_block,
}
use proton_sdk_rs.Upload.Contents.{content}
use proton_sdk_rs.Upload.Written.{IsWritten, write_lem}
use proton_sdk_rs.Upload.Returns.{Finishes, write-never_stuck}
use proton_sdk_rs.Upload.Commit.{
  Outside, Expected, Request, commit, committed, size_mismatch, IsRequest,
}
use proton_sdk_rs.Upload.Requests.{commit_lem}

abbrev plain : Crypto
plain = record {
  signature = λ p. some "signed";
  encrypt = λ p. some (0 ∷ p);
  sha256 = λ p. p;
  sha1 = λ p. p;
  verification_code = 1 ∷ 1 ∷ 1 ∷ [];
}

token_of_short_prefix : create_verification_token (1 ∷ 1 ∷ 1 ∷ []) (1 ∷ []) ≡ 0 ∷ 1 ∷ 1 ∷ []
unfolding create_verification_token
token_of_short_prefix = refl

token_of_long_prefix :
    create_verification_token (1 ∷ 1 ∷ 1 ∷ []) (1 ∷ 1 ∷ 1 ∷ 1 ∷ []) ≡ 0 ∷ 0 ∷ 0 ∷ []
unfolding create_verification_token
token_of_long_prefix = refl

abbrev reads : List Piece
reads = piece (7 ∷ 8 ∷ 9 ∷ []) ∷ piece (4 ∷ 5 ∷ []) ∷ []

-- Three blocks, of which the second is answered first.
abbrev events : List Event
events =
    producer_round
    ∷ producer_round
    ∷ consumer_round
    ∷ consumer_round
    ∷ upload_answer 1
    ∷ producer_round
    ∷ producer_round
    ∷ consumer_round
    ∷ upload_answer 1
    ∷ consumer_round
    ∷ upload_answer 0
    ∷ []

abbrev left : Revision
left = record {
  digests = 0 ∷ 7 ∷ 8 ∷ 0 ∷ 9 ∷ 4 ∷ 0 ∷ 5 ∷ [];
  block_sizes = 2 ∷ 2 ∷ 1 ∷ [];
  total_written = 5;
  block_number = 4;
  precomputed_sha1 = some (7 ∷ 8 ∷ 9 ∷ 4 ∷ 5 ∷ []);
}

events_write : outcome plain (run plain 2 events (new reads)) new_revision ≡ written left
unfolding outcome run new new_revision
events_write = refl

write_lem_example : IsWritten plain 2 (content reads) left
write_lem_example = write_lem plain 2 reads events left (omega arith) tt events_write

plain_makes : (n : ℕ) (p : Bytes) → encrypt_block plain n p ≢ none
unfolding encrypt_block
plain_makes n p h = cc

write-never_stuck_example :
    Finishes plain 2 (run plain 2 (producer_round ∷ consumer_round ∷ []) (new reads))
write-never_stuck_example =
    write-never_stuck plain 2 reads (producer_round ∷ consumer_round ∷ []) (omega arith) tt
      plain_makes tt

abbrev outside : Outside
outside = record {
  sign = λ m. some "manifest";
  seal = λ a. some "sealed";
  photos = λ s. some none;
  update_revision = λ q. true;
}

abbrev expected : Expected
expected = record { size = 5; sha1 = none; thumbnail_digests = [] }

commit_lem_example :
    ((q : Request)
      → commit outside plain expected left ≡ committed q
      → IsRequest outside plain expected 2 (content reads) left q)
    × (length (content reads) ≢ 5
        → (signature : String) → some "manifest" ≡ some signature
        → commit outside plain expected left ≡ size_mismatch (length (content reads)) 5)
commit_lem_example =
    commit_lem outside plain expected 2 (content reads) left
      (write_lem plain 2 reads events left (omega arith) tt events_write)
