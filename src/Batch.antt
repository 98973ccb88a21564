-- ===== src/Batch.antt =====
-- crates/proton-drive-sdk/src/utils/batch.rs: `BatchLoaderBase`, on a loader that is a parameter.
pub mod Batches
mod Tests
use proton_sdk_rs.Prelude.{
  ℕ, suc, ◌+◌, ◌≤◌, ◌<◌, Bool, true, false, Option, none, some, List, [], ◌∷◌, ◌++◌, ltb, ◌==◌,
  if◌then◌else◌, length,
}

pub record BatchLoaderBase {ℓ} (A : Type ℓ) : Type ℓ where
  pub queue : List A
  pub batch_size : ℕ

-- `none`: the assertion that the size is not zero fails.
unfoldable pub new {ℓ} : {A : Type ℓ} → ℕ → Option (BatchLoaderBase A)
new batch_size =
    if batch_size == 0 then none else some (record { queue = []; batch_size = batch_size })

-- `load` is `load_batch`; `none` is its error, after which the ids of the batch are gone.
module _ {ℓ κ} {A : Type ℓ} {B : Type κ} (load : List A → Option (List B)) where
  unfoldable pub load_queued_batch : BatchLoaderBase A → BatchLoaderBase A × Option (List B)
  load_queued_batch t = (record t { queue = [] }, load t.queue)

  unfoldable pub queue_and_try_load_batch :
      A → BatchLoaderBase A → BatchLoaderBase A × Option (List B)
  unfolding load_queued_batch
  queue_and_try_load_batch id t =
      let pushed = record t { queue = t.queue ++ id ∷ [] } in
      if ltb (length pushed.queue) pushed.batch_size
      then (pushed, some [])
      else load_queued_batch pushed

  unfoldable pub load_remaining : BatchLoaderBase A → BatchLoaderBase A × Option (List B)
  unfolding load_queued_batch
  load_remaining t = if length t.queue == 0 then (t, some []) else load_queued_batch t

  abbrev pub joined : Option (List B) → Option (List B) → Option (List B)
  joined none ys = none
  joined (some xs) none = none
  joined (some xs) (some ys) = some (xs ++ ys)

  -- The ids of all pages queued in turn and then the rest, as `enumerate_children` of node/folder.rs
  -- does; the first error ends it.
  unfoldable pub load_all : List A → BatchLoaderBase A → Option (List B)
  unfolding queue_and_try_load_batch load_remaining
  load_all [] t = (load_remaining t).1
  load_all (id ∷ ids) t =
      let (t', values) = queue_and_try_load_batch id t in joined values (load_all ids t')
