-- ===== src/Download/Buffered.antt =====
-- node/download.rs: the bookkeeping of blocks in flight and blocks that wait to be written.
use proton_sdk_rs.Prelude.{
  ℕ, zero, suc, ◌+◌, ◌<◌, ◌≡◌, refl, sym, inl, inr, Bool, none, some, List, [], ◌∷◌, ◌++◌, arith,
  ◌==◌, if◌then◌else◌, length, get_or, count_where, Bool-cases, All,
}
use proton_sdk_rs.Download.{Block, find_block, remove_block, remove_future}

abbrev pub one_if : Bool → ℕ
one_if b = if b then 1 else 0

abbrev pub in_flight : ℕ → List ℕ → ℕ
in_flight i ks = count_where (λ k. k == i) ks

abbrev pub waiting : ℕ → List (ℕ × Block) → ℕ
waiting i bs = count_where (λ e. e.0 == i) bs

pub chosen_in_flight : (n : ℕ) (ks : List ℕ) → n < length ks → 0 < in_flight (get_or ks n 0) ks
chosen_in_flight n [] h = absurd (omega arith)
chosen_in_flight zero (k ∷ ks) h = ground arith
chosen_in_flight (suc n) (k ∷ ks) h = ground (arith, chosen_in_flight n ks (omega arith))

pub in_flight-remove :
    (idx i : ℕ) (ks : List ℕ)
    → 0 < in_flight idx ks
    → in_flight i (remove_future idx ks) + one_if (idx == i) ≡ in_flight i ks
in_flight-remove idx i [] h = absurd (omega arith)
in_flight-remove idx i (k ∷ ks) h = ground (arith, h, in_flight-remove idx i ks)

pub length-remove_future :
    (idx : ℕ) (ks : List ℕ) → 0 < in_flight idx ks → length (remove_future idx ks) + 1 ≡ length ks
length-remove_future idx [] h = absurd (omega arith)
length-remove_future idx (k ∷ ks) h = ground (arith, h, length-remove_future idx ks)

pub in_flight-append :
    (i idx : ℕ) (ks : List ℕ) → in_flight i (ks ++ idx ∷ []) ≡ in_flight i ks + one_if (idx == i)
in_flight-append i idx [] = ground arith
in_flight-append i idx (k ∷ ks) = ground (arith, in_flight-append i idx ks)

pub find_block-none :
    (idx : ℕ) (bs : List (ℕ × Block)) → find_block idx bs ≡ none → waiting idx bs ≡ 0
find_block-none idx [] h = refl
find_block-none idx ((k, b) ∷ bs) h = ground (arith, h, find_block-none idx bs)

pub remove_absent :
    (idx : ℕ) (bs : List (ℕ × Block)) → waiting idx bs ≡ 0 → remove_block idx bs ≡ bs
remove_absent idx [] h = refl
remove_absent idx ((k, b) ∷ bs) h = ground (arith, h, remove_absent idx bs)

pub waiting-remove :
    (idx i : ℕ) (b : Block) (bs : List (ℕ × Block))
    → find_block idx bs ≡ some b
    → (waiting i (remove_block idx bs) + one_if (idx == i) ≡ waiting i bs)
      × (length (remove_block idx bs) + 1 ≡ length bs)
waiting-remove idx i b [] h = absurd (ground (arith, h))
waiting-remove idx i b ((k, c) ∷ bs) h = ground (arith, h, waiting-remove idx i b bs)

module _ (P : ℕ → Block → Type 0) where
  pub All-remove_block :
      (idx : ℕ) (bs : List (ℕ × Block))
      → All (λ e. P e.0 e.1) bs
      → All (λ e. P e.0 e.1) (remove_block idx bs)
  All-remove_block idx [] h = h
  All-remove_block idx ((k, b) ∷ bs) h = elim (Bool-cases (k == idx)) [
    | inl hit ↦ rw hit h.1
    | inr miss ↦ rw miss (h.0, All-remove_block idx bs h.1)
  ]

  pub find_block-All :
      (idx : ℕ) (b : Block) (bs : List (ℕ × Block))
      → All (λ e. P e.0 e.1) bs
      → find_block idx bs ≡ some b
      → P idx b
  find_block-All idx b [] h f = absurd (ground (arith, f))
  find_block-All idx b ((k, c) ∷ bs) h f = elim (Bool-cases (k == idx)) [
    | inl hit ↦
        let at : k ≡ idx = ground (arith, hit) in
        let same : c ≡ b = ground (arith, hit, f) in rw (sym at, sym same) h.0
    | inr miss ↦ find_block-All idx b bs h.1 (ground (arith, miss, f))
  ]
