-- ===== src/Node.antt =====
-- crates/proton-drive-sdk/src/node/: the UIDs of nodes and revisions, and the pages of a block
-- listing.
pub mod Uids
pub mod Listing
mod Tests
