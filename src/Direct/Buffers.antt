-- ===== src/Direct/Buffers.antt =====
-- Pieces of lists, and buffers of zeros.
use pairfob.Prelude.{
  ℕ, zero, suc, ◌+◌, ◌-◌, ◌≡◌, refl, ap, sym, ◌∙◌, List, [], ◌∷◌, ◌++◌, arith, length, take, drop,
}
use pairfob.Direct.{zeros}

module _ {ℓ} {A : Type ℓ} where
  pub take-nil : (n : ℕ) → take {A = A} n [] ≡ []
  take-nil zero = refl
  take-nil (suc n) = refl

  pub drop-nil : (n : ℕ) → drop {A = A} n [] ≡ []
  drop-nil zero = refl
  drop-nil (suc n) = refl

  pub take-length : (xs : List A) → take (length xs) xs ≡ xs
  take-length [] = refl
  take-length (x ∷ xs) = ap (◌∷◌ x) (take-length xs)

  pub take-take-drop : (i j : ℕ) (xs : List A) → take i xs ++ take j (drop i xs) ≡ take (i + j) xs
  take-take-drop zero j xs = ap (λ k. take k xs) (omega arith)
  take-take-drop (suc i) j [] = take-nil j ∙ sym (take-nil (suc i + j))
  take-take-drop (suc i) j (x ∷ xs) =
      let next : suc (i + j) ≡ suc i + j = omega arith in
      ap (◌∷◌ x) (take-take-drop i j xs) ∙ ap (λ k. take k (x ∷ xs)) next

  pub drop-past : (xs ys : List A) (n : ℕ) → drop (length xs + n) (xs ++ ys) ≡ drop n ys
  drop-past [] ys n = ap (λ k. drop k ys) (omega arith)
  drop-past (x ∷ xs) ys n =
      let next : suc (length xs) + n ≡ suc (length xs + n) = omega arith in
      ap (λ k. drop k (x ∷ (xs ++ ys))) next ∙ drop-past xs ys n

pub drop-zeros : (n m : ℕ) → drop n (zeros m) ≡ zeros (m - n)
unfolding zeros
drop-zeros n zero = let none_left : 0 ≡ 0 - n = omega arith in drop-nil n ∙ ap zeros none_left
drop-zeros zero (suc m) = let all_left : suc m ≡ suc m - 0 = omega arith in ap zeros all_left
drop-zeros (suc n) (suc m) =
    let less : m - n ≡ suc m - suc n = omega arith in drop-zeros n m ∙ ap zeros less

pub length-zeros : (n : ℕ) → length (zeros n) ≡ n
unfolding zeros
length-zeros zero = refl
length-zeros (suc n) = ap suc (length-zeros n)
