-- ===== src/Prelude/Writes.antt =====
-- What a write does to the rows that pass a test.
use situation_studio.Prelude.{
  ◌++◌, ℕ, suc, ◌+◌, ◌≤◌, ◌≡◌, refl, Bool, true, false, Option, none, some, List, [], ◌∷◌, arith,
  if◌then◌else◌, any, all, ◌||◌,
}
use situation_studio.Prelude.Rows.{find_first, count, update_many}

module _ {ℓ} {A : Type ℓ} (q p : A → Bool) (f : A → A) where
  -- A write adds at most the rows that it writes.
  pub count-update_many-le-add :
      (xs : List A) → count q (update_many p f xs) ≤ count q xs + count p xs
  unfolding count update_many
  count-update_many-le-add [] = omega arith
  count-update_many-le-add (x ∷ xs) = ground (arith, count-update_many-le-add xs)

  -- A write of rows that then fail a test leaves no passer where there was none.
  pub any-update_many :
      ((x : A) → p x ≡ true → q (f x) ≡ false)
      → (xs : List A) → any q xs ≡ false
      → any q (update_many p f xs) ≡ false
  unfolding update_many
  any-update_many clears [] h = refl
  any-update_many clears (x ∷ xs) h = ground (arith, clears x, any-update_many clears xs)

  -- A write that changes no row's test leaves the count alone.
  pub count-update_many_same :
      ((x : A) → p x ≡ true → q (f x) ≡ q x)
      → (xs : List A) → count q (update_many p f xs) ≡ count q xs
  unfolding count update_many
  count-update_many_same keeps [] = refl
  count-update_many_same keeps (x ∷ xs) = ground (arith, keeps x, count-update_many_same keeps xs)

  pub any-update_many_same :
      ((x : A) → p x ≡ true → q (f x) ≡ q x) → (xs : List A) → any q (update_many p f xs) ≡ any q xs
  unfolding update_many
  any-update_many_same keeps [] = refl
  any-update_many_same keeps (x ∷ xs) = ground (arith, keeps x, any-update_many_same keeps xs)

  -- The first passer of `q` after a write that keeps its test is the written row.
  pub find_first-update_many :
      ((x : A) → p x ≡ true → q (f x) ≡ q x)
      → (xs : List A) (x : A) → find_first q xs ≡ some x
      → find_first q (update_many p f xs) ≡ some (if p x then f x else x)
  unfolding find_first update_many
  find_first-update_many keeps [] x h = ground arith
  find_first-update_many keeps (y ∷ xs) x h =
      ground (arith, keeps y, find_first-update_many keeps xs x)

module _ {ℓ} {A : Type ℓ} (p q : A → Bool) (f : A → A) where
  -- Writing the only passer of `p` so that it fails leaves none.
  pub any_cleared :
      ((x : A) → p (f x) ≡ false)
      → (xs : List A) (x : A) → find_first p xs ≡ some x
      → q x ≡ true
      → count p xs ≤ 1
      → any p (update_many q f xs) ≡ false
  unfolding find_first count update_many
  any_cleared clears [] x e h c = ground arith
  any_cleared clears (y ∷ xs) x e h c = ground (
    arith,
    clears y,
    any_cleared clears xs x,
    none_left xs,
    any-update_many p q f (λ z _. clears z) xs,
  )
    where
      none_left : (zs : List A) → count p zs ≡ 0 → any p zs ≡ false
      none_left zs e = situation_studio.Prelude.Rows.any_of_count p zs e

module _ {ℓ} {A : Type ℓ} (p q : A → Bool) where
  -- A stronger test is passed by no more rows.
  pub count_mono : ((x : A) → p x ≡ true → q x ≡ true) → (xs : List A) → count p xs ≤ count q xs
  unfolding count
  count_mono imp [] = omega arith
  count_mono imp (x ∷ xs) = ground (arith, imp x, count_mono imp xs)

  pub any_mono :
      ((x : A) → p x ≡ true → q x ≡ true) → (xs : List A) → any q xs ≡ false → any p xs ≡ false
  any_mono imp [] h = refl
  any_mono imp (x ∷ xs) h = ground (arith, imp x, any_mono imp xs)

  pub any_cover :
      (r : A → Bool)
      → ((x : A) → r x ≡ true → (p x || q x) ≡ true)
      → (xs : List A) → any p xs ≡ false
      → any q xs ≡ false
      → any r xs ≡ false
  any_cover r imp [] h k = refl
  any_cover r imp (x ∷ xs) h k = ground (arith, imp x, any_cover r imp xs)

  -- A row that was found shows that one is there.
  pub find_first-any : (xs : List A) (x : A) → find_first p xs ≡ some x → any p xs ≡ true
  unfolding find_first
  find_first-any [] x h = ground arith
  find_first-any (y ∷ xs) x h = ground (arith, find_first-any xs x)

  -- What no row passes, a found row does not pass.
  pub find_first_fails :
      (xs : List A) (x : A) → find_first p xs ≡ some x → any q xs ≡ false → q x ≡ false
  unfolding find_first
  find_first_fails [] x h n = ground arith
  find_first_fails (y ∷ xs) x h n = ground (arith, find_first_fails xs x)

module _ {ℓ} {A : Type ℓ} (q p : A → Bool) (f : A → A) where
  -- A write that makes no new passer of `q` does not raise its count.
  pub count-update_many-le_of :
      ((x : A) → p x ≡ true → q (f x) ≡ true → q x ≡ true)
      → (xs : List A) → count q (update_many p f xs) ≤ count q xs
  unfolding count update_many
  count-update_many-le_of keeps [] = omega arith
  count-update_many-le_of keeps (x ∷ xs) = ground (arith, keeps x, count-update_many-le_of keeps xs)

module _ {ℓ} {A : Type ℓ} (q p : A → Bool) (f : A → A) where
  -- No row passes after a write that clears its rows, if the other rows never do.
  pub any-update_many_all :
      ((x : A) → p x ≡ true → q (f x) ≡ false)
      → ((x : A) → p x ≡ false → q x ≡ false)
      → (xs : List A) → any q (update_many p f xs) ≡ false
  unfolding update_many
  any-update_many_all clears others [] = refl
  any-update_many_all clears others (x ∷ xs) =
      ground (arith, clears x, others x, any-update_many_all clears others xs)

  -- A write that makes no new passer of `q` leaves none where there was none.
  pub any-update_many_of :
      ((x : A) → p x ≡ true → q (f x) ≡ true → q x ≡ true)
      → (xs : List A) → any q xs ≡ false
      → any q (update_many p f xs) ≡ false
  unfolding update_many
  any-update_many_of keeps [] h = refl
  any-update_many_of keeps (x ∷ xs) h = ground (arith, keeps x, any-update_many_of keeps xs)

module _ {ℓ} {A : Type ℓ} (q : A → Bool) (x : A) where
  -- A new row at the end of a table.
  pub count-snoc : (xs : List A) → count q (xs ++ x ∷ []) ≡ count q xs + (if q x then 1 else 0)
  unfolding count
  count-snoc [] = ground arith
  count-snoc (y ∷ ys) = ground (arith, count-snoc ys)

  pub any-snoc : (xs : List A) → any q (xs ++ x ∷ []) ≡ (any q xs || q x)
  any-snoc [] = ground arith
  any-snoc (y ∷ ys) = ground (arith, any-snoc ys)
