-- ===== src/Batch/Batches.antt =====
-- utils/batch.rs: into which batches the ids go.
use mathlib.Core.List.{append_assoc, append-nil}
use proton_sdk_rs.Prelude.{
  ◌<◌, ◌≡◌, refl, sym, ap, subst, ℕ, none, false, ◌∙◌, ◌⊎◌, inl, inr, Option, some, List, [], ◌∷◌,
  ◌++◌, arith, ltb, ◌==◌, length, length-append, Bool-cases, Option-cases,
}
use proton_sdk_rs.Batch.{
  BatchLoaderBase, load_queued_batch, queue_and_try_load_batch, load_remaining, load_all, joined,
}

module _ {ℓ κ} {A : Type ℓ} {B : Type κ} where
  -- A batch is loaded exactly when it is full, and the queue stays shorter than a batch.
  pub queue_and_try_load_batch_lem :
      (load : List A → Option (List B)) (id : A) (t : BatchLoaderBase A)
      → length t.queue < t.batch_size
      → let (u, values) = queue_and_try_load_batch load id t in
        (length u.queue < u.batch_size)
        × (u.batch_size ≡ t.batch_size)
        × (((values ≡ some []) × (u.queue ≡ t.queue ++ id ∷ []))
            ⊎ ((values ≡ load (t.queue ++ id ∷ []))
                × (u.queue ≡ [])
                × (length (t.queue ++ id ∷ []) ≡ t.batch_size)))
  unfolding queue_and_try_load_batch load_queued_batch
  queue_and_try_load_batch_lem load id t h =
      let grown = length-append t.queue (id ∷ []) in
      elim (Bool-cases (ltb (length (t.queue ++ id ∷ [])) t.batch_size)) [
        | inl room ↦ rw room (ground (arith, room), refl, inl (refl, refl))
        | inr full ↦
            rw full (omega (arith, h), refl, inr (refl, refl, ground (arith, full, grown, h)))
      ]

-- A list cut into batches: each is full, but for a last one that is shorter and not empty.
pub data IsCut {ℓ} {A : Type ℓ} (n : ℕ) : List (List A) → List A → Type ℓ where
  cut_none : IsCut n [] []
  cut_last : (x : A) (xs : List A) → length (x ∷ xs) < n → IsCut n ((x ∷ xs) ∷ []) (x ∷ xs)
  cut_full :
      (batch : List A) (batches : List (List A)) (rest : List A)
      → length batch ≡ n
      → IsCut n batches rest
      → IsCut n (batch ∷ batches) (batch ++ rest)

module _ {ℓ κ} {A : Type ℓ} {B : Type κ} (load : List A → Option (List B)) where
  -- Batches loaded one after the other; the first error ends it.
  pub load_each : List (List A) → Option (List B)
  load_each [] = some []
  load_each (batch ∷ batches) =
      let rest = load_each batches in
      elim (load batch) [
        | none ↦ none
        | some values ↦ elim rest [ none ↦ none | some others ↦ some (values ++ others) ]
      ]

  load_each_more :
      (batch : List A) (batches : List (List A))
      → load_each (batch ∷ batches) ≡ joined load (load batch) (load_each batches)
  unfolding load_each
  load_each_more batch batches = elim (Option-cases (load batch)) [
    | inl refused ↦ rw (load_each, refused) refl
    | inr (values, given) ↦ elim (Option-cases (load_each batches)) [
      | inl later ↦ rw (load_each, given, later) refl
      | inr (others, rest) ↦ rw (load_each, given, rest) refl
    ]
  ]

  joined_one : (o : Option (List B)) → joined load o (some []) ≡ o
  joined_one none = refl
  joined_one (some xs) = ap some (append-nil xs)

  joined_empty : (o : Option (List B)) → joined load (some []) o ≡ o
  joined_empty none = refl
  joined_empty (some xs) = refl

  load_remaining_lem :
      (q : List A) (n : ℕ)
      → length q < n
      → (batches : List (List A)) × IsCut n batches q
        × ((load_remaining load (record { queue = q; batch_size = n })).1 ≡ load_each batches)
  unfolding load_remaining load_queued_batch load_each
  load_remaining_lem [] n h = ([], cut_none, refl)
  load_remaining_lem (x ∷ q) n h =
      let loaded : load (x ∷ q) ≡ load_each ((x ∷ q) ∷ []) =
        sym (load_each_more (x ∷ q) [] ∙ joined_one (load (x ∷ q))) in
      let some_left : (length (x ∷ q) == 0) ≡ false = ground arith in
      ((x ∷ q) ∷ [], cut_last x q h, rw some_left loaded)

  -- From a queue that is shorter than a batch, and whatever the loader gives or refuses: queueing ids and
  -- loading the rest is to load, one after the other, the batches into which the queue and the ids are
  -- cut, every id in one of them and in order, all full but for a shorter last one.
  pub load_all_lem :
      (ids : List A) (t : BatchLoaderBase A)
      → length t.queue < t.batch_size
      → (batches : List (List A)) × IsCut t.batch_size batches (t.queue ++ ids)
        × (load_all load ids t ≡ load_each batches)
  unfolding load_all queue_and_try_load_batch load_queued_batch load_each
  load_all_lem [] t h =
      subst
        (λ q.
          (batches : List (List A)) × IsCut t.batch_size batches q
          × ((load_remaining load t).1 ≡ load_each batches))
        (sym (append-nil t.queue)) (load_remaining_lem t.queue t.batch_size h)
  load_all_lem (id ∷ ids) t h =
      let grown = length-append t.queue (id ∷ []) in
      let same = append_assoc t.queue (id ∷ []) ids in
      elim (Bool-cases (ltb (length (t.queue ++ id ∷ [])) t.batch_size)) [
        | inl room ↦
            let (bs, cut, done) =
              load_all_lem ids (record t { queue = t.queue ++ id ∷ [] }) (ground (arith, room)) in
            (
              bs,
              subst (IsCut t.batch_size bs) same cut,
              rw room (
                  joined_empty (load_all load ids (record t { queue = t.queue ++ id ∷ [] }))
                  ∙ done),
            )
        | inr full ↦
            let (bs, cut, done) = load_all_lem ids (record t { queue = [] }) (omega (arith, h)) in
            (
              (t.queue ++ id ∷ []) ∷ bs,
              subst (IsCut t.batch_size ((t.queue ++ id ∷ []) ∷ bs)) same
                  (cut_full (t.queue ++ id ∷ []) bs ids (ground (arith, full, grown, h)) cut),
              rw (full, done) (sym (load_each_more (t.queue ++ id ∷ []) bs)),
            )
      ]
