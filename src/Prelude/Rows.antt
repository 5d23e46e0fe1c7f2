-- ===== src/Prelude/Rows.antt =====
-- Tables as lists of rows, with the reads and writes that the programs make: `findFirst`, `count`
-- and `updateMany`.
use situation_studio.Prelude.{
  ℕ, suc, ◌≤◌, ◌≡◌, refl, Bool, true, false, Option, none, some, List, [], ◌∷◌, arith,
  if◌then◌else◌, any,
}

module _ {ℓ} {A : Type ℓ} where
  unfoldable pub find_first : (A → Bool) → List A → Option A
  find_first p [] = none
  find_first p (x ∷ xs) = if p x then some x else find_first p xs

  unfoldable pub count : (A → Bool) → List A → ℕ
  count p [] = 0
  count p (x ∷ xs) = let rest = count p xs in if p x then suc rest else rest

  unfoldable pub update_many : (A → Bool) → (A → A) → List A → List A
  update_many p f [] = []
  update_many p f (x ∷ xs) = (if p x then f x else x) ∷ update_many p f xs

  -- `xs.filter(p)`.
  unfoldable pub select : (A → Bool) → List A → List A
  select p [] = []
  select p (x ∷ xs) = let rest = select p xs in if p x then x ∷ rest else rest

  -- A read returns a row that passes its test.
  pub find_first_sound :
      (p : A → Bool) (xs : List A) (x : A) → find_first p xs ≡ some x → p x ≡ true
  unfolding find_first
  find_first_sound p [] x h = ground arith
  find_first_sound p (y ∷ xs) x h = ground (arith, find_first_sound p xs x)

  -- Nothing is found exactly where no row passes.
  pub find_first-none : (p : A → Bool) (xs : List A) → any p xs ≡ false → find_first p xs ≡ none
  unfolding find_first
  find_first-none p [] h = refl
  find_first-none p (y ∷ xs) h = ground (arith, find_first-none p xs)

  pub any_of_find_first : (p : A → Bool) (xs : List A) → find_first p xs ≡ none → any p xs ≡ false
  unfolding find_first
  any_of_find_first p [] h = refl
  any_of_find_first p (y ∷ xs) h = ground (arith, any_of_find_first p xs)

  -- A write whose test no row passes changes nothing.
  pub update_many_none :
      (p : A → Bool) (f : A → A) (xs : List A) → any p xs ≡ false → update_many p f xs ≡ xs
  unfolding update_many
  update_many_none p f [] h = refl
  update_many_none p f (y ∷ xs) h = ground (arith, update_many_none p f xs)

  pub count-zero : (p : A → Bool) (xs : List A) → any p xs ≡ false → count p xs ≡ 0
  unfolding count
  count-zero p [] h = refl
  count-zero p (y ∷ xs) h = ground (arith, count-zero p xs)

  pub any_of_count : (p : A → Bool) (xs : List A) → count p xs ≡ 0 → any p xs ≡ false
  unfolding count
  any_of_count p [] h = refl
  any_of_count p (y ∷ xs) h = ground (arith, any_of_count p xs)

  -- Rows that a write does not turn into new passers of `q` keep the count of `q` from growing.
  pub count-update_many-le :
      (q p : A → Bool) (f : A → A)
      → ((x : A) → q (f x) ≡ true → q x ≡ true)
      → (xs : List A) → count q (update_many p f xs) ≤ count q xs
  unfolding count update_many
  count-update_many-le q p f keep [] = omega arith
  count-update_many-le q p f keep (y ∷ xs) =
      ground (arith, keep y, count-update_many-le q p f keep xs)
