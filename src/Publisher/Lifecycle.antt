-- ===== src/Publisher/Lifecycle.antt =====
-- The life of a publication as its states tell it, apart from the code: which state may follow which.
use situation_studio.Prelude.{
  ◌≡◌, refl, ◌∙◌, inl, inr, Bool, true, false, List, [], ◌∷◌, Bool-cases,
}
use situation_studio.Prelude.Rows.{update_many}
use situation_studio.Store.{PublicationJob, PublicationState, publication_is_active}
use situation_studio.Publisher.Lease.{is_working}

pub data Move : PublicationState → PublicationState → Type 0 where
  assemble : Move PublicationState.requested PublicationState.assembling
  promote : Move PublicationState.assembling PublicationState.promoting
  verify : {s : PublicationState} → is_working s ≡ true → Move s PublicationState.verifying
  outdate : {s : PublicationState} → is_working s ≡ true → Move s PublicationState.needs_refresh
  succeed : Move PublicationState.verifying PublicationState.succeeded
  fail : {s : PublicationState} → publication_is_active s ≡ true → Move s PublicationState.failed
  give_up :
      {s : PublicationState}
      → publication_is_active s ≡ true
      → Move s PublicationState.recovery_required
  restore : Move PublicationState.recovery_required PublicationState.restored

-- Any number of moves.
pub data Moves : PublicationState → PublicationState → Type 0 where
  stay : {s : PublicationState} → Moves s s
  then : {a b c : PublicationState} → Move a b → Moves b c → Moves a c

pub Moves-trans : {a b c : PublicationState} → Moves a b → Moves b c → Moves a c
Moves-trans stay k = k
Moves-trans (then m h) k = then m (Moves-trans h k)

pub Moves-move : {a b : PublicationState} → Move a b → Moves a b
Moves-move m = then m stay

-- The ends of the life.
abbrev pub is_over : PublicationState → Bool
is_over PublicationState.needs_refresh = true
is_over PublicationState.succeeded = true
is_over PublicationState.restored = true
is_over PublicationState.failed = true
is_over _ = false

active_not_over : (s : PublicationState) → publication_is_active s ≡ true → is_over s ≡ false
active_not_over PublicationState.requested h = refl
active_not_over PublicationState.assembling h = refl
active_not_over PublicationState.promoting h = refl
active_not_over PublicationState.verifying h = refl
active_not_over PublicationState.needs_refresh h = absurd (cc)
active_not_over PublicationState.succeeded h = absurd (cc)
active_not_over PublicationState.restored h = absurd (cc)
active_not_over PublicationState.recovery_required h = absurd (cc)
active_not_over PublicationState.failed h = absurd (cc)

pub working_active : (s : PublicationState) → is_working s ≡ true → publication_is_active s ≡ true
working_active PublicationState.assembling h = refl
working_active PublicationState.promoting h = refl
working_active PublicationState.verifying h = refl
working_active PublicationState.requested h = refl
working_active PublicationState.needs_refresh h = absurd (cc)
working_active PublicationState.succeeded h = absurd (cc)
working_active PublicationState.restored h = absurd (cc)
working_active PublicationState.recovery_required h = absurd (cc)
working_active PublicationState.failed h = absurd (cc)

over_stuck : {a b : PublicationState} → Move a b → is_over a ≡ false
over_stuck assemble = refl
over_stuck promote = refl
over_stuck (verify {s} w) = active_not_over s (working_active s w)
over_stuck (outdate {s} w) = active_not_over s (working_active s w)
over_stuck succeed = refl
over_stuck (fail {s} w) = active_not_over s w
over_stuck (give_up {s} w) = active_not_over s w
over_stuck restore = refl

-- Nothing follows an end.
pub Moves-over : {a b : PublicationState} → Moves a b → is_over a ≡ true → b ≡ a
Moves-over stay h = refl
Moves-over (then m k) h = absurd (let g = over_stuck m in cc)

-- New publications, each somewhere in a life that began as a request.
abbrev pub Born : List PublicationJob → Type 0
Born [] = Unit {0}
Born (k ∷ ks) = Moves PublicationState.requested k.state × Born ks

-- Row by row: the same publications, each further on in its life, and new ones after them.
pub data Follows : List PublicationJob → List PublicationJob → Type 0 where
  nil : {ks : List PublicationJob} → Born ks → Follows [] ks
  cons :
      {j k : PublicationJob} {js ks : List PublicationJob}
      → k.id ≡ j.id
      → Moves j.state k.state
      → Follows js ks
      → Follows (j ∷ js) (k ∷ ks)

pub Follows-refl : (js : List PublicationJob) → Follows js js
Follows-refl [] = nil tt
Follows-refl (j ∷ js) = cons refl stay (Follows-refl js)

Born-Follows : {js ks : List PublicationJob} → Follows js ks → Born js → Born ks
Born-Follows (nil c) b = c
Born-Follows (cons i n f) (m, b) = (Moves-trans m n, Born-Follows f b)

pub Follows-trans : {js ks ls : List PublicationJob} → Follows js ks → Follows ks ls → Follows js ls
Follows-trans (nil b) g = nil (Born-Follows g b)
Follows-trans (cons i m f) (cons i' m' g) = cons (i' ∙ i) (Moves-trans m m') (Follows-trans f g)

-- A write moves its rows on.
pub Follows-update_many :
    (p : PublicationJob → Bool) (f : PublicationJob → PublicationJob)
    → ((j : PublicationJob) → (f j).id ≡ j.id)
    → ((j : PublicationJob) → p j ≡ true → Moves j.state (f j).state)
    → (js : List PublicationJob) → Follows js (update_many p f js)
unfolding update_many
Follows-update_many p f ids moves [] = nil tt
Follows-update_many p f ids moves (j ∷ js) = elim (Bool-cases (p j)) [
  | inl e ↦ rw e (cons (ids j) (moves j e) (Follows-update_many p f ids moves js))
  | inr e ↦ rw e (cons refl stay (Follows-update_many p f ids moves js))
]
