-- ===== src/Streaming/Kept.antt =====
-- crates/pdcli/src/fs.rs: what the stream keeps in memory are blocks of the file, six at most.
use proton_sdk_rs.Prelude.{
  ℕ, ◌+◌, ◌≤◌, ◌≡◌, refl, inl, inr, some, List, [], ◌∷◌, ◌++◌, arith, ◌==◌, length, length-append,
  length-drop, get_elem?, drop, Bool-cases, Option-cases, All, All-append,
}
use proton_sdk_rs.Streaming.{
  Bytes, Cache, new, find, remove, cached, remember, stream_cached_blocks,
}

-- Every cached block is a block of the file, and at most six are kept.
pub record IsCache (blocks : List Bytes) (c : Cache) : Type 0 where
  pub right : All (λ e. get_elem? blocks e.0 ≡ some e.1) c
  pub few : length c ≤ stream_cached_blocks

module _ (blocks : List Bytes) where
  abbrev pub IsRight : Cache → Type 0
  IsRight = All (λ e. get_elem? blocks e.0 ≡ some e.1)

  pub find-right :
      (index : ℕ) (c : Cache) (d : Bytes)
      → IsRight c
      → find index c ≡ some d
      → get_elem? blocks index ≡ some d
  unfolding find
  find-right index [] d h f = absurd (ground (arith, f))
  find-right index ((i, e) ∷ c) d h f = elim (Bool-cases (i == index)) [
    | inl hit ↦ ground (arith, hit, h.0, f)
    | inr miss ↦ find-right index c d h.1 (ground (arith, miss, f))
  ]

  pub remove-IsRight : (index : ℕ) (c : Cache) → IsRight c → IsRight (remove index c)
  unfolding remove
  remove-IsRight index [] h = h
  remove-IsRight index ((i, e) ∷ c) h = ground (arith, h, remove-IsRight index c h.1)

  pub find-remove :
      (index : ℕ) (c : Cache) (d : Bytes)
      → find index c ≡ some d
      → length (remove index c) + 1 ≡ length c
  unfolding find remove
  find-remove index [] d f = absurd (ground (arith, f))
  find-remove index ((i, e) ∷ c) d f = ground (arith, f, find-remove index c d)

  pub cached-some :
      (index : ℕ) (c : Cache) (d : Bytes)
      → find index c ≡ some d
      → cached index c ≡ some (d, remove index c ++ (index, d) ∷ [])
  unfolding cached
  cached-some index c d f = rw (cached, f) refl

  pub cached-IsCache :
      (index : ℕ) (c : Cache) (d : Bytes)
      → IsCache blocks c
      → find index c ≡ some d
      → IsCache blocks (remove index c ++ (index, d) ∷ [])
  cached-IsCache index c d h f = record {
    right =
        All-append (λ e. get_elem? blocks e.0 ≡ some e.1) (remove index c) ((index, d) ∷ [])
          (remove-IsRight index c h.right) (find-right index c d h.right f, tt);
    few =
        omega
          (arith, length-append (remove index c) ((index, d) ∷ []), find-remove index c d f, h.few);
  }

  pub drop-IsRight : (c : Cache) → IsRight c → IsRight (drop 1 c)
  drop-IsRight [] h = h
  drop-IsRight (e ∷ c) h = h.1

  pub remember-IsCache :
      (index : ℕ) (d : Bytes) (c : Cache)
      → IsCache blocks c
      → get_elem? blocks index ≡ some d
      → IsCache blocks (remember index d c)
  unfolding remember
  remember-IsCache index d c h s = elim (Option-cases (find index c)) [
    | inr (e, f) ↦ rw (remember, f) h
    | inl new ↦
        rw (remember, new)
          (elim (Bool-cases (length c == stream_cached_blocks)) [
            | inl full ↦ rw full (record {
              right =
                  All-append (λ e. get_elem? blocks e.0 ≡ some e.1) (drop 1 c) ((index, d) ∷ [])
                    (drop-IsRight c h.right) (s, tt);
              few =
                  omega (arith, length-append (drop 1 c) ((index, d) ∷ []), length-drop 1 c, h.few);
            })
            | inr room ↦ rw room (record {
              right =
                  All-append (λ e. get_elem? blocks e.0 ≡ some e.1) c ((index, d) ∷ []) h.right
                    (s, tt);
              few = ground (arith, length-append c ((index, d) ∷ []), h.few, room);
            })
          ])
  ]
