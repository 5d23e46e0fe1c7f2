-- ===== src/Prelude/Members.antt =====
-- The rows of a table: what a read returns is one of them, and a unique key names at most one.
use situation_studio.Prelude.{
  ◌+◌, ◌≤◌, ◌≡◌, refl, ◌⊎◌, inl, inr, Bool, true, false, ◌&&◌, not, some, List, [], ◌∷◌, arith, any,
  Bool-cases,
}
use situation_studio.Prelude.Rows.{find_first, count, update_many, select}

module _ {A : Type 0} where
  abbrev pub In : A → List A → Type 0
  In x [] = ⊥
  In x (y ∷ ys) = (x ≡ y) ⊎ In x ys

  pub find_first-In : (p : A → Bool) (xs : List A) (x : A) → find_first p xs ≡ some x → In x xs
  unfolding find_first
  find_first-In p [] x h = ground arith
  find_first-In p (y ∷ ys) x h = elim (Bool-cases (p y)) [
    | inl e ↦ inl (ground arith)
    | inr e ↦ inr (find_first-In p ys x (ground arith))
  ]

  pub In-any : (p : A → Bool) (xs : List A) (x : A) → In x xs → p x ≡ true → any p xs ≡ true
  In-any p [] x m h = elim m [ ]
  In-any p (y ∷ ys) x (inl e) h = ground arith
  In-any p (y ∷ ys) x (inr m) h = ground (arith, In-any p ys x m h)

  pub In-fails : (p : A → Bool) (xs : List A) (x : A) → In x xs → any p xs ≡ false → p x ≡ false
  In-fails p [] x m h = elim m [ ]
  In-fails p (y ∷ ys) x (inl e) h = ground arith
  In-fails p (y ∷ ys) x (inr m) h = In-fails p ys x m (ground arith)

  pub select-In : (p : A → Bool) (xs : List A) (x : A) → In x (select p xs) → In x xs × (p x ≡ true)
  unfolding select
  select-In p [] x m = elim m [ ]
  select-In p (y ∷ ys) x m = elim (Bool-cases (p y)) [
    | inl e ↦ kept e (select-In p ys x) (rw (e, select) at m)
    | inr e ↦ let (i, t) = select-In p ys x (rw (e, select) at m) in (inr i, t)
  ]
    where
      kept :
          p y ≡ true
          → (In x (select p ys) → In x ys × (p x ≡ true))
          → (x ≡ y) ⊎ In x (select p ys)
          → In x (y ∷ ys) × (p x ≡ true)
      kept e ih (inl same) = (inl same, ground arith)
      kept e ih (inr rest) = let (i, t) = ih rest in (inr i, t)

  pub In-select : (p : A → Bool) (xs : List A) (x : A) → In x xs → p x ≡ true → In x (select p xs)
  unfolding select
  In-select p [] x m h = m
  In-select p (y ∷ ys) x (inl e) h = let t : p y ≡ true = ground arith in rw t (inl e)
  In-select p (y ∷ ys) x (inr m) h = elim (Bool-cases (p y)) [
    | inl t ↦ rw t (inr (In-select p ys x m h))
    | inr t ↦ rw t (In-select p ys x m h)
  ]

  -- With a unique key, every row under the key of `x` is like `x`.
  pub unique_row :
      (key r : A → Bool) (xs : List A) (x : A)
      → In x xs
      → key x ≡ true
      → count key xs ≤ 1
      → r x ≡ false
      → any (λ y. key y && r y) xs ≡ false
  unfolding count
  unique_row key r [] x m k c h = refl
  unique_row key r (y ∷ ys) x (inl e) k c h = ground (arith, none_left ys)
    where
      none_left : (zs : List A) → count key zs ≡ 0 → any (λ z. key z && r z) zs ≡ false
      none_left [] e = refl
      none_left (z ∷ zs) e = ground (arith, none_left zs)
  unique_row key r (y ∷ ys) x (inr m) k c h =
      ground (arith, unique_row key r ys x m k, some_left ys m)
    where
      some_left : (zs : List A) → In x zs → 1 ≤ count key zs
      some_left [] i = elim i [ ]
      some_left (z ∷ zs) (inl e) = ground arith
      some_left (z ∷ zs) (inr i) = ground (arith, some_left zs i)

  -- A write may also test what all its rows satisfy.
  pub update_many_restrict :
      (p r : A → Bool) (f : A → A) (xs : List A)
      → any (λ x. p x && not (r x)) xs ≡ false
      → update_many p f xs ≡ update_many (λ x. p x && r x) f xs
  unfolding update_many
  update_many_restrict p r f [] h = refl
  update_many_restrict p r f (x ∷ xs) h = ground (arith, update_many_restrict p r f xs)

module _ {A : Type 0} (p : A → Bool) (f : A → A) where
  pub In-update_many : (xs : List A) (x : A) → In x xs → p x ≡ true → In (f x) (update_many p f xs)
  unfolding update_many
  In-update_many [] x m h = m
  In-update_many (y ∷ ys) x (inl e) h = inl (ground arith)
  In-update_many (y ∷ ys) x (inr m) h = inr (In-update_many ys x m h)

module _ {A : Type 0} (p q : A → Bool) where
  -- Rows that pass `p` and not `q` make up for the rest.
  pub count_split : (xs : List A) → count p xs ≤ count q xs + count (λ x. p x && not (q x)) xs
  unfolding count
  count_split [] = omega arith
  count_split (x ∷ xs) = ground (arith, count_split xs)

module _ {A : Type 0} (p : A → Bool) where
  pub In-count : (xs : List A) (x : A) → In x xs → p x ≡ true → 1 ≤ count p xs
  unfolding count
  In-count [] x m h = elim m [ ]
  In-count (y ∷ ys) x (inl e) h = ground arith
  In-count (y ∷ ys) x (inr m) h = ground (arith, In-count ys x m h)

module _ {A : Type 0} (q p : A → Bool) (f : A → A) where
  -- Where a write makes its rows pass `q`, they all count.
  pub count-update_many-passing :
      ((x : A) → p x ≡ true → q (f x) ≡ true)
      → (xs : List A) → count q (update_many p f xs) ≡ count (λ x. q x && not (p x)) xs + count p xs
  unfolding count update_many
  count-update_many-passing makes [] = omega arith
  count-update_many-passing makes (x ∷ xs) =
      ground (arith, makes x, count-update_many-passing makes xs)

module _ {A : Type 0} (p : A → Bool) where
  pub any-In : (xs : List A) → any p xs ≡ true → (x : A) × In x xs × (p x ≡ true)
  any-In [] h = absurd (ground arith)
  any-In (y ∷ ys) h = elim (Bool-cases (p y)) [
    | inl e ↦ (y, inl refl, e)
    | inr e ↦ let (x, m, t) = any-In ys (ground arith) in (x, inr m, t)
  ]
