-- ===== src/Streaming/Slices.antt =====
-- The bytes that one block gives to a read.
use proton_sdk_rs.Prelude.{
  ℕ, zero, suc, ◌+◌, ◌≤◌, ◌≡◌, refl, sym, ap, ◌∙◌, [], ◌∷◌, ◌++◌, arith, length, min, length-drop,
  take, drop,
}
use proton_sdk_rs.Streaming.{Bytes}

take_empty : (n : ℕ) → take {A = ℕ} n [] ≡ []
take_empty zero = refl
take_empty (suc n) = refl

drop_empty : (n : ℕ) → drop {A = ℕ} n [] ≡ []
drop_empty zero = refl
drop_empty (suc n) = refl

take_add : (n m : ℕ) (xs : Bytes) → take (n + m) xs ≡ take n xs ++ take m (drop n xs)
take_add zero m xs = let e : 0 + m ≡ m = omega arith in ap (λ k. take k xs) e
take_add (suc n) m [] = take_empty (suc n + m) ∙ sym (take_empty m)
take_add (suc n) m (x ∷ xs) =
    let e : suc n + m ≡ suc (n + m) = omega arith in
    ap (λ k. take k (x ∷ xs)) e ∙ ap (λ l. x ∷ l) (take_add n m xs)

drop_add : (n m : ℕ) (xs : Bytes) → drop (n + m) xs ≡ drop m (drop n xs)
drop_add zero m xs = let e : 0 + m ≡ m = omega arith in ap (λ k. drop k xs) e
drop_add (suc n) m [] = drop_empty (suc n + m) ∙ sym (drop_empty m)
drop_add (suc n) m (x ∷ xs) =
    let e : suc n + m ≡ suc (n + m) = omega arith in ap (λ k. drop k (x ∷ xs)) e ∙ drop_add n m xs

drop_before : (q : ℕ) (xs ys : Bytes) → drop (length xs + q) (xs ++ ys) ≡ drop q ys
drop_before q [] ys = let e : 0 + q ≡ q = omega arith in ap (λ k. drop k ys) e
drop_before q (x ∷ xs) ys =
    let e : suc (length xs) + q ≡ suc (length xs + q) = omega arith in
    ap (λ k. drop k (x ∷ (xs ++ ys))) e ∙ drop_before q xs ys

drop_within : (q : ℕ) (xs ys : Bytes) → q ≤ length xs → drop q (xs ++ ys) ≡ drop q xs ++ ys
drop_within zero xs ys h = refl
drop_within (suc q) [] ys h = absurd (omega arith)
drop_within (suc q) (x ∷ xs) ys h = drop_within q xs ys (omega arith)

take_within : (n : ℕ) (xs ys : Bytes) → n ≤ length xs → take n (xs ++ ys) ≡ take n xs
take_within zero xs ys h = refl
take_within (suc n) [] ys h = absurd (omega arith)
take_within (suc n) (x ∷ xs) ys h = ap (λ l. x ∷ l) (take_within n xs ys (omega arith))

-- A part of the file that starts within a block is the part of the block, and the rest.
pub slice :
    (whole before block after : Bytes) (position q n more : ℕ)
    → whole ≡ before ++ (block ++ after)
    → position ≡ length before + q
    → n + q ≤ length block
    → take (n + more) (drop position whole)
      ≡ take n (drop q block) ++ take more (drop (position + n) whole)
slice whole before block after position q n more w p h =
    rw (take_add n more (drop position whole), sym (drop_add position n whole))
      (ap (λ l. l ++ take more (drop (position + n) whole)) (here ∙ inside))
  where
    here : take n (drop position whole) ≡ take n (drop q block ++ after)
    here = ap (take n) (
        ap (λ k. drop k whole) p
        ∙ ap (drop (length before + q)) w
        ∙ drop_before q before (block ++ after)
        ∙ drop_within q block after (omega arith))

    inside : take n (drop q block ++ after) ≡ take n (drop q block)
    inside = take_within n (drop q block) after (omega (arith, length-drop q block))

pub take-min : (n : ℕ) (xs : Bytes) → take (min n (length xs)) xs ≡ take n xs
take-min zero xs = let e : min 0 (length xs) ≡ 0 = omega arith in ap (λ k. take k xs) e
take-min (suc n) [] = take_empty (min (suc n) 0)
take-min (suc n) (x ∷ xs) =
    let e : min (suc n) (suc (length xs)) ≡ suc (min n (length xs)) = omega arith in
    ap (λ k. take k (x ∷ xs)) e ∙ ap (λ l. x ∷ l) (take-min n xs)
