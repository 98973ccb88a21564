-- ===== src/Node/Tests.antt =====
-- A revision UID whose link id has a tilde, and a listing of two blocks.
use proton_sdk_rs.Prelude.{◌≡◌, refl, some, List, [], ◌∷◌, arith}
use proton_sdk_rs.Node.Listing.{
  BlockDto, RunFrom, page_of, listed, list_blocks, more_pages, list_blocks-page_of,
  list_blocks-RunFrom,
}
use proton_sdk_rs.Node.Uids.{
  NodeUid, RevisionUid, raw, revision_text, parse, parse_revision, parse-raw,
  parse_revision-revision_text,
}

abbrev node : NodeUid
node = record { volume_id = "v"; link_id = "l~k" }

abbrev revision : RevisionUid
revision = record { node_uid = node; revision_id = "r" }

parse-raw_example :
    (parse (raw node) ≡ some node) × ((read : NodeUid) → parse "v~l" ≡ some read → raw read ≡ "v~l")
parse-raw_example = parse-raw node "v~l" refl

parse_revision-revision_text_example :
    (parse_revision (revision_text revision) ≡ some revision)
    × ((read : RevisionUid) → parse_revision "v~l~r" ≡ some read → revision_text read ≡ "v~l~r")
parse_revision-revision_text_example = parse_revision-revision_text revision "v~l~r" refl refl

abbrev blocks : List BlockDto
blocks = record { index = 1; bare_url = "a" } ∷ record { index = 2; bare_url = "b" } ∷ []

list_blocks-page_of_example : list_blocks (page_of blocks) 4 ≡ listed blocks
list_blocks-page_of_example = list_blocks-page_of blocks 4 (refl, (refl, tt)) (omega arith)

list_blocks-RunFrom_example : RunFrom 1 blocks
unfolding list_blocks more_pages
list_blocks-RunFrom_example =
    list_blocks-RunFrom (page_of blocks) 4 blocks (list_blocks-page_of_example)
