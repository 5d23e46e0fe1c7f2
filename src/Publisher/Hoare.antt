-- ===== src/Publisher/Hoare.antt =====
-- What an action of the publisher guarantees: of the value and the progress that it leaves, or of the
-- progress where it throws.
use situation_studio.Prelude.{◌≡◌, refl, Bool, true, false, if◌then◌else◌}
use situation_studio.Prelude.Results.{Result, ok, err}
use situation_studio.Publisher.Failure.{PublisherError}
use situation_studio.Publisher.Action.{
  Progress, Action, ◌>>=◌, ◌>>◌, bind_with, give, throw, try_catch, catch_with, require_that,
}

abbrev pub After {ℓ} :
    {A : Type ℓ}
    → (A → Progress → Type 0)
    → (Progress → Type 0)
    → Result PublisherError A × Progress
    → Type 0
After Q E (ok a, p) = Q a p
After Q E (err e, p) = E p

abbrev pub Triple {ℓ} :
    {A : Type ℓ}
    → (Progress → Type 0)
    → Action A
    → (A → Progress → Type 0)
    → (Progress → Type 0)
    → Type 0
Triple P m Q E = (p : Progress) → P p → After Q E (m p)

module _ {ℓ κ} {A : Type ℓ} {B : Type κ} (P : Progress → Type 0) (Q : A → Progress → Type 0)
    (R : B → Progress → Type 0) (E : Progress → Type 0) where
  After-bind :
      (k : A → Action B)
      → ((a : A) → Triple (Q a) (k a) R E)
      → (r : Result PublisherError A × Progress) → After Q E r
      → After R E (bind_with k r)
  After-bind k h (ok a, p) q = h a p q
  After-bind k h (err e, p) q = q

  pub bind-Triple :
      (m : Action A) (k : A → Action B)
      → Triple P m Q E
      → ((a : A) → Triple (Q a) (k a) R E)
      → Triple P (m >>= k) R E
  unfolding ◌>>=◌
  bind-Triple m k h g p q = After-bind k g (m p) (h p q)

  pub then-Triple :
      (m : Action A) (k : Action B)
      → Triple P m Q E
      → ((a : A) → Triple (Q a) k R E)
      → Triple P (m >> k) R E
  unfolding ◌>>◌
  then-Triple m k h g p q = After-bind (λ _. k) g (m p) (h p q)

module _ {ℓ} {A : Type ℓ} (P : Progress → Type 0) (Q : A → Progress → Type 0)
    (M E : Progress → Type 0) where
  After-catch :
      (k : PublisherError → Action A)
      → ((e : PublisherError) → Triple M (k e) Q E)
      → (r : Result PublisherError A × Progress) → After Q M r
      → After Q E (catch_with k r)
  After-catch k h (ok a, p) q = q
  After-catch k h (err e, p) q = h e p q

  pub catch-Triple :
      (m : Action A) (k : PublisherError → Action A)
      → Triple P m Q M
      → ((e : PublisherError) → Triple M (k e) Q E)
      → Triple P (try_catch m k) Q E
  unfolding try_catch
  catch-Triple m k h g p q = After-catch k g (m p) (h p q)

-- An invariant that an action keeps, whether it throws or not.
abbrev pub Keeps {ℓ} : {A : Type ℓ} → (Progress → Type 0) → Action A → Type 0
Keeps I m = Triple I m (λ _. I) I

module _ (I : Progress → Type 0) where
  pub bind-Keeps {ℓ κ} :
      {A : Type ℓ} {B : Type κ} (m : Action A) (k : A → Action B)
      → Keeps I m
      → ((a : A) → Keeps I (k a))
      → Keeps I (m >>= k)
  bind-Keeps m k h g = bind-Triple I (λ _. I) (λ _. I) I m k h g

  pub then-Keeps {ℓ κ} :
      {A : Type ℓ} {B : Type κ} (m : Action A) (k : Action B)
      → Keeps I m
      → Keeps I k
      → Keeps I (m >> k)
  then-Keeps m k h g = then-Triple I (λ _. I) (λ _. I) I m k h (λ _. g)

  pub catch-Keeps {ℓ} :
      {A : Type ℓ} (m : Action A) (k : PublisherError → Action A)
      → Keeps I m
      → ((e : PublisherError) → Keeps I (k e))
      → Keeps I (try_catch m k)
  catch-Keeps m k h g = catch-Triple I (λ _. I) I I m k h g

  pub give-Keeps {ℓ} : {A : Type ℓ} (a : A) → Keeps I (give a)
  unfolding give
  give-Keeps a p h = h

  pub throw-Keeps {ℓ} : (A : Type ℓ) (e : PublisherError) → Keeps I (throw {A = A} e)
  unfolding throw
  throw-Keeps A e p h = h

  pub if-Keeps {ℓ} :
      {A : Type ℓ} (b : Bool) (m k : Action A)
      → Keeps I m
      → Keeps I k
      → Keeps I (if b then m else k)
  if-Keeps true m k h g = h
  if-Keeps false m k h g = g

  pub require_that-Keeps : (b : Bool) (e : PublisherError) → Keeps I (require_that b e)
  require_that-Keeps true e = give-Keeps tt
  require_that-Keeps false e = throw-Keeps (Unit {0}) e

-- A weaker end, and a stronger start.
pub Triple-weaken {ℓ} :
    {A : Type ℓ} (P P' : Progress → Type 0) (Q Q' : A → Progress → Type 0)
    (E E' : Progress → Type 0) (m : Action A)
    → ((p : Progress) → P' p → P p)
    → ((a : A) (p : Progress) → Q a p → Q' a p)
    → ((p : Progress) → E p → E' p)
    → Triple P m Q E
    → Triple P' m Q' E'
Triple-weaken {A = A} P P' Q Q' E E' m before value error h p i = after (m p) (h p (before p i))
  where
    after : (r : Result PublisherError A × Progress) → After Q E r → After Q' E' r
    after (ok a, q) g = value a q g
    after (err e, q) g = error q g

-- A branch on what the progress itself tells.
pub if-After {ℓ} :
    {A : Type ℓ} (Q : A → Progress → Type 0) (E : Progress → Type 0) (b : Bool) (m k : Action A)
    (p : Progress)
    → (b ≡ true → After Q E (m p))
    → (b ≡ false → After Q E (k p))
    → After Q E ((if b then m else k) p)
if-After Q E true m k p h g = h refl
if-After Q E false m k p h g = g refl
