-- ===== src/Publisher/Events/Numbering.antt =====
-- Rows that are numbered 1, 2, … within each job: what an append under the next number keeps.
use situation_studio.Prelude.{
  ℕ, suc, ◌≡◌, refl, Bool, true, ◌&&◌, List, [], ◌∷◌, ◌++◌, arith, ◌==◌, ltb, leb, if◌then◌else◌,
}
use situation_studio.Prelude.Rows.{count, update_many}
use situation_studio.Prelude.Writes.{count-snoc}
use situation_studio.Publisher.Events.{greatest}

module _ {A : Type 0} (p : A → Bool) (f : A → ℕ) where
  abbrev pub bears : ℕ → A → Bool
  bears n x = p x && f x == n

  -- Each number from 1 to the count is borne once, no other is, and the greatest is the count.
  pub record Numbered (xs : List A) : Type 0 where
    pub once : (n : ℕ) → count (bears n) xs ≡ (if ltb 0 n && leb n (count p xs) then 1 else 0)
    pub last : greatest p f xs ≡ count p xs

  pub Numbered-nil : Numbered []
  unfolding count greatest
  Numbered-nil = record { once = λ n. ground arith; last = refl }

  pub greatest-snoc :
      (x : A) (xs : List A)
      → greatest p f (xs ++ x ∷ []) ≡ (
          if p x
          then (if ltb (greatest p f xs) (f x) then f x else greatest p f xs)
          else greatest p f xs)
  unfolding greatest
  greatest-snoc x [] = ground arith
  greatest-snoc x (y ∷ ys) = ground (arith, greatest-snoc x ys)

  pub Numbered-snoc :
      (x : A) (xs : List A)
      → Numbered xs
      → (p x ≡ true → f x ≡ suc (greatest p f xs))
      → Numbered (xs ++ x ∷ [])
  Numbered-snoc x xs inv next = record {
    once = λ n.
        ground (arith, count-snoc (bears n) x xs, count-snoc p x xs, inv.once n, inv.last, next);
    last = ground (arith, greatest-snoc x xs, count-snoc p x xs, inv.last, next);
  }

module _ {A : Type 0} (p : A → Bool) (f : A → ℕ) (r : A → Bool) (g : A → A) where
  -- A write that changes neither job nor number.
  pub greatest-update_many :
      ((x : A) → p (g x) ≡ p x)
      → ((x : A) → f (g x) ≡ f x)
      → (xs : List A) → greatest p f (update_many r g xs) ≡ greatest p f xs
  unfolding greatest update_many
  greatest-update_many h k [] = refl
  greatest-update_many h k (x ∷ xs) = ground (arith, h x, k x, greatest-update_many h k xs)
