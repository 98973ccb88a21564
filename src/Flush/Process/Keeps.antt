-- ===== src/Flush/Process/Keeps.antt =====
-- crates/pdcli/src/fs.rs: what the work on an entry leaves as it is: the journal, the switches, the
-- unique keys of the inode table, and the set of dirty files, which does not grow.
use proton_sdk_rs.Prelude.{
  ℕ, ◌≡◌, refl, ◌∙◌, String, Bool, true, false, Option, none, some, List, if◌then◌else◌,
}
use proton_sdk_rs.Node.Uids.{NodeUid}
use proton_sdk_rs.Drive.{Call, Reply, ok, error, Drive}
use proton_sdk_rs.Db.Inodes.{InodeRow, Inodes, dirty_files, get_inode}
use proton_sdk_rs.Db.Inodes as Inodes
use proton_sdk_rs.Db.Inodes.Tidy.{
  IsTidy, Tidy-refl, Tidy-trans, Tidies, set_dirty-Tidies, set_cached_path-Tidies,
  update_revision-Tidies, update_node_uid-Tidies, ensure_my_files_root-Tidies,
}
use proton_sdk_rs.Flush.{Daemon}
use proton_sdk_rs.Flush.Process.{
  M, and_then, ◌>>=◌, ◌>>◌, pure, fail, or_handle, catch, need, reply, read, ask, ignore_result,
  try_method, parse_uid, parse_revision_uid, set_node_uid, resolve_root, resolve_from_ids,
  resolve_unknown, resolve_parent_node_uid, stored_or,
}
use proton_sdk_rs.Flush.Process.Uploads.{when_some}

-- A change of the daemon that leaves the journal and each switch alone.
pub record IsSafe (d e : Daemon) : Type 0 where
  pub journal : e.journal ≡ d.journal
  pub online : e.online ≡ d.online
  pub force_offline : e.force_offline ≡ d.force_offline
  pub sync_paused : e.sync_paused ≡ d.sync_paused
  pub sync_now : e.sync_now ≡ d.sync_now
  pub tidy : IsTidy d.inodes e.inodes

Safe-refl : (d : Daemon) → IsSafe d d
Safe-refl d = record {
  journal = refl;
  online = refl;
  force_offline = refl;
  sync_paused = refl;
  sync_now = refl;
  tidy = Tidy-refl d.inodes;
}

Safe-trans : (c d e : Daemon) → IsSafe c d → IsSafe d e → IsSafe c e
Safe-trans c d e h k = record {
  journal = k.journal ∙ h.journal;
  online = k.online ∙ h.online;
  force_offline = k.force_offline ∙ h.force_offline;
  sync_paused = k.sync_paused ∙ h.sync_paused;
  sync_now = k.sync_now ∙ h.sync_now;
  tidy = Tidy-trans c.inodes d.inodes e.inodes h.tidy k.tidy;
}

-- A part of the work, from any daemon.
pub record Keeps {A : Type 0} (m : M A) : Type 0 where
  pub at : (d : Daemon) → IsSafe d (m d).0

pub Keeps-bind :
    {A B : Type 0} (m : M A) (f : A → M B) → Keeps m → ((a : A) → Keeps (f a)) → Keeps (m >>= f)
Keeps-bind m f h k = record { at = λ d. go d (m d) (h.at d) }
  where
    go : (d : Daemon) (p : Daemon × Reply _) → IsSafe d p.0 → IsSafe d (and_then p f).0
    go d (e, ok a) h = Safe-trans d e (f a e).0 h ((k a).at e)
    go d (e, error msg) h = h

pub Keeps-then : {B : Type 0} (m : M (Unit {0})) (k : M B) → Keeps m → Keeps k → Keeps (m >> k)
Keeps-then m k h l = Keeps-bind m (λ _. k) h (λ _. l)

pub Keeps-catch :
    {A : Type 0} (m : M A) (f : String → M A)
    → Keeps m
    → ((msg : String) → Keeps (f msg))
    → Keeps (catch m f)
Keeps-catch m f h k = record { at = λ d. go d (m d) (h.at d) }
  where
    go : (d : Daemon) (p : Daemon × Reply _) → IsSafe d p.0 → IsSafe d (or_handle p f).0
    go d (e, ok a) h = h
    go d (e, error msg) h = Safe-trans d e (f msg e).0 h ((k msg).at e)

pub Keeps-pure : {A : Type 0} (a : A) → Keeps (pure a)
Keeps-pure a = record { at = Safe-refl }

pub Keeps-fail : {A : Type 0} (msg : String) → Keeps (fail {A = A} msg)
Keeps-fail msg = record { at = Safe-refl }

pub Keeps-need : {A : Type 0} (msg : String) (o : Option A) → Keeps (need msg o)
Keeps-need msg none = Keeps-fail msg
Keeps-need msg (some a) = Keeps-pure a

pub Keeps-reply : {A : Type 0} (r : Reply A) → Keeps (reply r)
Keeps-reply r = record { at = Safe-refl }

pub Keeps-read : {A : Type 0} (q : Inodes → A) → Keeps (read q)
Keeps-read q = record { at = Safe-refl }

pub Keeps-ask : {A : Type 0} (c : Call) (answer : List Call → Reply A) → Keeps (ask c answer)
unfolding ask
Keeps-ask c answer = record {
  at = λ d. record {
    journal = refl;
    online = refl;
    force_offline = refl;
    sync_paused = refl;
    sync_now = refl;
    tidy = Tidy-refl d.inodes;
  };
}

pub Keeps-ignore_result : {A : Type 0} (m : Inodes.M A) → Tidies m → Keeps (ignore_result m)
unfolding ignore_result
Keeps-ignore_result m h = record {
  at = λ d. record {
    journal = refl;
    online = refl;
    force_offline = refl;
    sync_paused = refl;
    sync_now = refl;
    tidy = h.at d.inodes;
  };
}

pub Keeps-try_method : {A : Type 0} (m : Inodes.M A) → Tidies m → Keeps (try_method m)
unfolding try_method
Keeps-try_method m h = record {
  at = λ d. record {
    journal = refl;
    online = refl;
    force_offline = refl;
    sync_paused = refl;
    sync_now = refl;
    tidy = h.at d.inodes;
  };
}

pub Keeps-when_some :
    {A : Type 0} (o : Option A) (f : A → M (Unit {0}))
    → ((a : A) → Keeps (f a))
    → Keeps (when_some o f)
Keeps-when_some none f h = Keeps-pure tt
Keeps-when_some (some a) f h = h a

pub Keeps-if : {A : Type 0} (b : Bool) (m k : M A) → Keeps m → Keeps k → Keeps (if b then m else k)
Keeps-if true m k h l = h
Keeps-if false m k h l = l

pub ruleset keeps = (
  Keeps-bind, Keeps-then, Keeps-catch, Keeps-pure, Keeps-fail, Keeps-need, Keeps-reply, Keeps-read,
  Keeps-ask, Keeps-ignore_result, Keeps-try_method, Keeps-when_some, Keeps-if, set_dirty-Tidies,
  set_cached_path-Tidies, update_revision-Tidies, update_node_uid-Tidies,
  ensure_my_files_root-Tidies,
)

pub parse_uid-Keeps : (s : String) → Keeps (parse_uid s)
unfolding parse_uid
parse_uid-Keeps s = search keeps

pub parse_revision_uid-Keeps : (s : String) → Keeps (parse_revision_uid s)
unfolding parse_revision_uid
parse_revision_uid-Keeps s = search keeps

module _ (drive : Drive) (now : ℕ) where
  pub set_node_uid-Keeps : (ino : ℕ) (uid : NodeUid) → Keeps (set_node_uid drive now ino uid)
  unfolding set_node_uid
  set_node_uid-Keeps ino uid = search keeps

  resolve_root-Keeps : (parent_ino : ℕ) → Keeps (resolve_root drive now parent_ino)
  unfolding resolve_root
  resolve_root-Keeps parent_ino = search (keeps, set_node_uid-Keeps)

  resolve_from_ids-Keeps :
      (parent_ino : ℕ) (uid : Option String) → Keeps (resolve_from_ids drive now parent_ino uid)
  unfolding resolve_from_ids
  resolve_from_ids-Keeps parent_ino none = search keeps
  resolve_from_ids-Keeps parent_ino (some uid_str) = search keeps

  resolve_unknown-Keeps : (parent_ino : ℕ) → Keeps (resolve_unknown drive now parent_ino)
  unfolding resolve_unknown
  resolve_unknown-Keeps parent_ino = search (keeps, resolve_root-Keeps, resolve_from_ids-Keeps)

  stored_or-Keeps : (o : Option String) (m : M String) → Keeps m → Keeps (stored_or drive now o m)
  stored_or-Keeps none m h = h
  stored_or-Keeps (some uid) m h = Keeps-pure uid

  pub resolve_parent-Keeps : (parent_ino : ℕ) → Keeps (resolve_parent_node_uid drive now parent_ino)
  unfolding resolve_parent_node_uid
  resolve_parent-Keeps parent_ino = search (keeps, stored_or-Keeps, resolve_unknown-Keeps)
