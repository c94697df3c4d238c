-- ===== src/Middleware/Counts.antt =====
-- How many elements of a list pass a test: the view of a list that forgets its order.
use youtube_stream_tracker.Prelude.{
  not, ◌&&◌, false, length, true, ℕ, List, Bool, arith, if◌then◌else◌, ◌+◌, refl, [], ◌∷◌, ◌≤◌, ◌≡◌,
}

module _ {ℓ} {A : Type ℓ} where
  abbrev pub count : (A → Bool) → List A → ℕ
  count p [] = 0
  count p (x ∷ xs) = (if p x then 1 else 0) + count p xs

  -- The list without the elements that pass.
  abbrev pub without : (A → Bool) → List A → List A
  without p [] = []
  without p (x ∷ xs) = let rest = without p xs in if p x then rest else x ∷ rest

  pub count-le-length : (p : A → Bool) (xs : List A) → count p xs ≤ length xs
  count-le-length p [] = omega arith
  count-le-length p (x ∷ xs) = let rest = count-le-length p xs in ground arith

  pub count-true : (xs : List A) → count (λ x. true) xs ≡ length xs
  count-true [] = refl
  count-true (x ∷ xs) = omega (arith, count-true xs)

  pub length-without : (p : A → Bool) (xs : List A) → length (without p xs) + count p xs ≡ length xs
  length-without p [] = refl
  length-without p (x ∷ xs) = let rest = length-without p xs in ground arith

  pub count-without-same : (p : A → Bool) (xs : List A) → count p (without p xs) ≡ 0
  count-without-same p [] = refl
  count-without-same p (x ∷ xs) = let rest = count-without-same p xs in ground arith

  -- A test that no removed element passes counts as before.
  pub count-without-other :
      (p q : A → Bool) (xs : List A)
      → ((x : A) → p x ≡ true → q x ≡ false)
      → count q (without p xs) ≡ count q xs
  count-without-other p q [] apart = refl
  count-without-other p q (x ∷ xs) apart =
      let rest = count-without-other p q xs apart in let a = apart x in ground arith

  -- What is left is counted where it passes and is not taken out.
  pub count-without-and :
      (p q : A → Bool) (xs : List A) → count q (without p xs) ≡ count (λ x. not (p x) && q x) xs
  count-without-and p q [] = refl
  count-without-and p q (x ∷ xs) = let rest = count-without-and p q xs in ground arith

  pub without-nothing : (p : A → Bool) (xs : List A) → count p xs ≡ 0 → without p xs ≡ xs
  without-nothing p [] h = refl
  without-nothing p (x ∷ xs) h = let rest = without-nothing p xs in ground arith

  pub count-le :
      (p q : A → Bool) (xs : List A) → ((x : A) → p x ≡ true → q x ≡ true) → count p xs ≤ count q xs
  count-le p q [] h = omega arith
  count-le p q (x ∷ xs) h = let rest = count-le p q xs h in let here = h x in ground arith

-- Two lists of the same elements, each as often.
abbrev pub SameElements {ℓ} : {A : Type ℓ} → List A → List A → Type ℓ
SameElements xs ys = (p : _ → Bool) → count p xs ≡ count p ys
