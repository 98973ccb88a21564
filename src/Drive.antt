-- ===== src/Drive.antt =====
-- What the file system daemon of crates/pdcli/src/fs.rs asks of the SDK (`ProtonDriveClient`), of the
-- file system and of the transfer list: a call, and a record of what is answered after any calls.
use proton_sdk_rs.Prelude.{ℕ, String, Bool, Option, List}
use proton_sdk_rs.Prelude.Int.{ℤ}
use proton_sdk_rs.Node.Uids.{NodeUid, RevisionUid}

-- `anyhow::Result`, with the error's text.
pub data Reply {ℓ} (A : Type ℓ) : Type ℓ where
  ok : A → Reply A
  error : String → Reply A

-- The arguments that the daemon leaves out at every call are left out here.
pub data Call : Type 0 where
  get_my_files_folder : Call
  create_folder : NodeUid → String → Call
  get_file_uploader : NodeUid → String → String → ℤ → Option ℕ → Call
  get_file_revision_uploader : RevisionUid → ℤ → Option ℕ → Call
  upload_from_stream : ℕ → Call
  enumerate_children : NodeUid → Call
  get_node_uncached : NodeUid → Call
  rename_node : NodeUid → String → Call
  move_nodes : NodeUid → NodeUid → Call
  trash_nodes : NodeUid → Call
  open_file : String → Call
  create_parent_dir : String → Call
  rename_file : String → String → Call
  copy_file : String → String → Call
  add_transfer : String → ℤ → Call
  mark_complete : ℕ → Call
  mark_failed : ℕ → Call

-- `Node::File` and `Node::Photo`, as far as the daemon reads them.
pub record RemoteFile : Type 0 where
  pub uid : NodeUid
  pub name : String
  pub active_revision : RevisionUid
  pub claimed_size : Option ℤ
  pub total_size_on_cloud_storage : ℤ

-- The answer to the last of the calls. `remote_file` is `none` on an error and for a node that is not a
-- file; `child_files` are the files among the children.
pub record Drive : Type 0 where
  pub folder_uid : List Call → Reply NodeUid
  pub created : List Call → Reply NodeUid
  pub uploader : List Call → Reply (Unit {0})
  pub opened : List Call → Reply (Unit {0})
  pub uploaded : List Call → Reply NodeUid
  pub child_files : List Call → Reply (List RemoteFile)
  pub remote_file : List Call → Option RemoteFile
  pub changed : List Call → Reply (Unit {0})
  pub renamed_file : List Call → Bool
  pub transfer_id : List Call → ℕ
