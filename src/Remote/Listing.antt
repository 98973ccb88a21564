-- ===== src/Remote/Listing.antt =====
-- crates/pdcli/src/fs.rs: what `populate_folder_children` does with a listing of a folder that the
-- server gave without an error, and the rows of nodes.
use text.Mathlib.Text.{◌==◌ as str_eq}
use proton_sdk_rs.Prelude.{
  ℕ, String, Bool, true, false, not, ◌||◌, Option, none, some, List, [], ◌∷◌, if◌then◌else◌,
}
use proton_sdk_rs.Prelude.Int.{ℤ, pos}
use proton_sdk_rs.Node.Uids.{NodeUid, RevisionUid, raw, revision_text}
use proton_sdk_rs.Db.Journal.{Journal, has_pending_journal}
use proton_sdk_rs.Db.Inodes.{InodeRow, find_by_node_uid, insert_inode}
use proton_sdk_rs.Db.Inodes.Updates.{list_children, update_remote_metadata, set_children_populated}
use proton_sdk_rs.Remote.{World, write, and_then, remove_inode_tree}
use proton_sdk_rs.Flush.Process.{as_u64}

-- `Node::File` and `Node::Photo`: the active revision and the rest.
pub record FileNode : Type 0 where
  pub claimed_size : Option ℤ
  pub total_size_on_cloud_storage : ℤ
  pub revision_uid : RevisionUid
  pub claimed_modification_time : Option ℤ
  pub media_type : String

pub data NodeKind : Type 0 where
  folder : NodeKind
  file : FileNode → NodeKind

pub record RemoteNode : Type 0 where
  pub uid : NodeUid
  pub name : String
  pub creation_time : ℤ
  pub is_trashed : Bool
  pub kind : NodeKind

-- A degraded node has no name where the name could not be decrypted.
pub record DegradedNode : Type 0 where
  pub uid : NodeUid
  pub name : Option String
  pub creation_time : ℤ
  pub is_dir : Bool

pub data Child : Type 0 where
  node : RemoteNode → Child
  degraded : DegradedNode → Child

abbrev pub or_int : Option ℤ → ℤ → ℤ
or_int none d = d
or_int (some n) d = n

abbrev pub is_folder : NodeKind → Bool
is_folder folder = true
is_folder (file f) = false

abbrev pub node_size : NodeKind → ℕ
node_size folder = 0
node_size (file f) = as_u64 (or_int f.claimed_size f.total_size_on_cloud_storage)

abbrev pub node_media_type : NodeKind → String
node_media_type folder = ""
node_media_type (file f) = f.media_type

abbrev pub node_revision : NodeKind → Option String
node_revision folder = none
node_revision (file f) = some (revision_text f.revision_uid)

abbrev pub node_mtime : ℤ → NodeKind → ℤ
node_mtime created folder = created
node_mtime created (file f) = or_int f.claimed_modification_time created

module _ (now : ℕ) (parent_ino : ℕ) where
  unfoldable pub insert_node_into_db : RemoteNode → World → World
  insert_node_into_db n w = elim (find_by_node_uid (raw n.uid) w.daemon.inodes) [
    | some existing ↦
        write
          (update_remote_metadata existing.ino (node_size n.kind) (node_media_type n.kind)
            (node_revision n.kind) (node_mtime n.creation_time n.kind))
          w
    | none ↦
        write
          (insert_inode parent_ino n.name (some (raw n.uid)) (some n.uid.volume_id)
            (some n.uid.link_id) (is_folder n.kind) (node_size n.kind) (node_media_type n.kind)
            (node_revision n.kind) (node_mtime n.creation_time n.kind) (pos now))
          w
  ]

  abbrev pub insert_degraded_named : DegradedNode → Option String → World → World
  insert_degraded_named d none w = w
  insert_degraded_named d (some name) w =
      write
        (insert_inode parent_ino name (some (raw d.uid)) (some d.uid.volume_id) (some d.uid.link_id)
          d.is_dir 0 "" none d.creation_time (pos now))
        w

  unfoldable pub insert_degraded_into_db : DegradedNode → World → World
  insert_degraded_into_db d w = elim (find_by_node_uid (raw d.uid) w.daemon.inodes) [
    | some existing ↦ w
    | none ↦ insert_degraded_named d d.name w
  ]

  -- The rows of the children, and the node UIDs that the server still lists.
  unfoldable pub insert_children : List Child → World → World × List String
  unfolding insert_node_into_db insert_degraded_into_db
  insert_children [] w = (w, [])
  insert_children (node n ∷ children) w =
      let inserted = insert_children children (insert_node_into_db n w) in
      let skipped = insert_children children w in
      if n.is_trashed then skipped else (inserted.0, raw n.uid ∷ inserted.1)
  insert_children (degraded d ∷ children) w =
      let rest = insert_children children (insert_degraded_into_db d w) in
      (rest.0, raw d.uid ∷ rest.1)

  abbrev pub contains : List String → String → Bool
  contains [] uid = false
  contains (u ∷ us) uid = str_eq u uid || contains us uid

  -- A local row that the server no longer lists and that holds nothing of its own to send.
  abbrev pub is_stale : List String → Journal → InodeRow → Bool
  is_stale remote_uids j local = elim local.node_uid [
    | none ↦ false
    | some uid ↦ not (contains remote_uids uid || local.dirty || has_pending_journal local.ino j)
  ]

  -- The loop looks at the journal as it goes; what it removes are rows of inodes.
  unfoldable pub drop_stale : ℕ → List String → List InodeRow → World → Option World
  unfolding remove_inode_tree
  drop_stale fuel remote_uids [] w = some w
  drop_stale fuel remote_uids (local ∷ rest) w =
      and_then
        (if is_stale remote_uids w.daemon.journal local
          then remove_inode_tree fuel local w
          else some w)
        (drop_stale fuel remote_uids rest)

  unfoldable pub apply_listing : ℕ → List Child → World → Option World
  unfolding insert_children drop_stale
  apply_listing fuel children w =
      let (inserted, remote_uids) = insert_children children w in
      and_then
        (drop_stale fuel remote_uids (list_children parent_ino inserted.daemon.inodes) inserted)
        (λ v. some (write (set_children_populated parent_ino) v))
