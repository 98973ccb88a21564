-- ===== src/Db/Inodes.antt =====
-- crates/pdcli/src/db.rs: the `inodes` table of `FuseDb`. A statement that breaks the unique index
-- on `node_uid` fails and changes nothing; `now` is the Unix time that `now_unix` reads.
pub mod Updates
pub mod Unique
pub mod Statements
pub mod Columns
pub mod Paths
pub mod Roots
pub mod Tidy
mod Tests
use text.Mathlib.Text.{◌==◌ as str_eq}
use proton_sdk_rs.Prelude.{
  ℕ, zero, suc, ◌+◌, max, ◌≡◌, String, Bool, true, false, not, ◌&&◌, ◌||◌, Option, none, some, List,
  [], ◌∷◌, ◌++◌, ltb, ◌==◌, if◌then◌else◌, select_where, delete_where, update_where, count_where,
  first_where,
}
use proton_sdk_rs.Prelude.Int.{ℤ}

pub record InodeRow : Type 0 where
  pub ino : ℕ
  pub parent_ino : ℕ
  pub name : String
  pub node_uid : Option String
  pub volume_id : Option String
  pub link_id : Option String
  pub is_dir : Bool
  pub size : ℕ
  pub media_type : String
  pub revision_uid : Option String
  pub mtime : ℤ
  pub ctime : ℤ
  pub cached_path : Option String
  pub dirty : Bool
  pub children_populated : Bool

-- The rows in rowid order, and the next AUTOINCREMENT value.
pub record Inodes : Type 0 where
  pub rows : List InodeRow
  pub next_ino : ℕ

pub data DbError : Type 0 where
  unique_node_uid : DbError

pub data Result {ℓ} (A : Type ℓ) : Type ℓ where
  ok : A → Result A
  err : DbError → Result A

-- A method of `FuseDb`: what it did before an error stays done.
abbrev pub M : Type 0 → Type 0
M A = Inodes → Inodes × Result A

abbrev pub and_then : {A B : Type 0} → Inodes × Result A → (A → M B) → Inodes × Result B
and_then (t, ok a) f = f a t
and_then (t, err e) f = (t, err e)

infixl 5 ◌>>=◌ ◌>>◌
abbrev pub ◌>>=◌ : {A B : Type 0} → M A → (A → M B) → M B
◌>>=◌ m f t = and_then (m t) f

abbrev pub ◌>>◌ : {B : Type 0} → M (Unit {0}) → M B → M B
◌>>◌ m k t = and_then (m t) (λ _. k)

abbrev pub pure : {A : Type 0} → A → M A
pure a t = (t, ok a)

abbrev pub opt_eq : Option String → Option String → Bool
opt_eq none none = true
opt_eq (some a) (some b) = str_eq a b
opt_eq _ _ = false

abbrev pub has_ino : ℕ → InodeRow → Bool
has_ino ino r = r.ino == ino

-- SQL's `node_uid = ?` is never true of NULL.
abbrev pub is_some_eq : Option String → Option String → Bool
is_some_eq (some a) (some b) = str_eq a b
is_some_eq _ _ = false

abbrev pub has_uid : Option String → InodeRow → Bool
has_uid uid r = is_some_eq r.node_uid uid

unfoldable pub get_inode : ℕ → Inodes → Option InodeRow
get_inode ino t = first_where (has_ino ino) t.rows

abbrev pub is_child : ℕ → String → InodeRow → Bool
is_child parent_ino name r = r.parent_ino == parent_ino && str_eq r.name name

unfoldable pub lookup_child : ℕ → String → Inodes → Option InodeRow
lookup_child parent_ino name t = first_where (is_child parent_ino name) t.rows

unfoldable pub find_by_node_uid : String → Inodes → Option InodeRow
find_by_node_uid uid t = first_where (has_uid (some uid)) t.rows

unfoldable pub find_by_link_id : String → Inodes → Option InodeRow
find_by_link_id link t = first_where (λ r. is_some_eq r.link_id (some link)) t.rows

unfoldable pub dirty_files : Inodes → List InodeRow
dirty_files t = select_where (λ r. r.dirty && not r.is_dir) t.rows

-- Whether a row other than the one with this ino has this node UID.
abbrev pub uid_taken : ℕ → Option String → List InodeRow → Bool
uid_taken ino uid rows = ltb 0 (count_where (λ r. not (has_ino ino r) && has_uid uid r) rows)

abbrev pub new_row :
    ℕ → ℕ → String → Option String → Option String → Option String → Bool → ℤ → InodeRow
new_row ino parent_ino name node_uid volume_id link_id is_dir now = record {
  ino = ino;
  parent_ino = parent_ino;
  name = name;
  node_uid = node_uid;
  volume_id = volume_id;
  link_id = link_id;
  is_dir = is_dir;
  size = 0;
  media_type = "";
  revision_uid = none;
  mtime = now;
  ctime = now;
  cached_path = none;
  dirty = false;
  children_populated = false;
}

abbrev pub uid_used : Option String → List InodeRow → Bool
uid_used uid rows = ltb 0 (count_where (has_uid uid) rows)

-- INSERT with an AUTOINCREMENT key.
unfoldable pub insert_row : (ℕ → InodeRow) → M ℕ
insert_row make t =
    let r = make t.next_ino in
    if uid_used r.node_uid t.rows
    then (t, err unique_node_uid)
    else (record { rows = t.rows ++ r ∷ []; next_ino = t.next_ino + 1 }, ok t.next_ino)

unfoldable pub insert_inode :
    ℕ
    → String
    → Option String
    → Option String
    → Option String
    → Bool
    → ℕ
    → String
    → Option String
    → ℤ
    → ℤ
    → M ℕ
unfolding insert_row
insert_inode parent_ino name node_uid volume_id link_id is_dir size media_type revision_uid mtime
      now =
    insert_row λ ino. record (new_row ino parent_ino name node_uid volume_id link_id is_dir now) {
      size = size;
      media_type = media_type;
      revision_uid = revision_uid;
      mtime = mtime;
    }

-- INSERT OR IGNORE of ino 1, which is the first rowid.
unfoldable pub insert_root : Option String → Option String → Option String → ℤ → M (Unit {0})
insert_root node_uid volume_id link_id now t =
    if ltb 0 (count_where (has_ino 1) t.rows) || uid_used node_uid t.rows then (t, ok tt) else (
      record {
        rows = new_row 1 1 "" node_uid volume_id link_id true now ∷ t.rows;
        next_ino = max t.next_ino 2;
      },
      ok tt,
    )

-- UPDATE … WHERE ino = ?, for columns without a constraint.
unfoldable pub update_ino : ℕ → (InodeRow → InodeRow) → M (Unit {0})
update_ino ino f t = (record t { rows = update_where (has_ino ino) f t.rows }, ok tt)

abbrev pub set_ids : Option String → Option String → Option String → InodeRow → InodeRow
set_ids node_uid volume_id link_id r = record r {
  node_uid = node_uid;
  volume_id = volume_id;
  link_id = link_id;
}

-- UPDATE inodes SET node_uid, volume_id, link_id WHERE ino = ?
unfoldable pub update_ids : ℕ → Option String → Option String → Option String → M (Unit {0})
unfolding update_ino
update_ids ino node_uid volume_id link_id t =
    if ltb 0 (count_where (has_ino ino) t.rows) && uid_taken ino node_uid t.rows
    then (t, err unique_node_uid)
    else update_ino ino (set_ids node_uid volume_id link_id) t

unfoldable pub update_node_uid : ℕ → String → String → String → M (Unit {0})
unfolding update_ids
update_node_uid ino node_uid volume_id link_id =
    update_ids ino (some node_uid) (some volume_id) (some link_id)
