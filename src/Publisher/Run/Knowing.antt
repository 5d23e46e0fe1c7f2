-- ===== src/Publisher/Run/Knowing.antt =====
-- What a run knows of Leadership's pointer, step by step: as long as the pointer shows the candidate,
-- the variables say that it was promoted or that this is not known.
use situation_studio.Prelude.{
  ◌≡◌, refl, inl, inr, Bool, true, false, ◌&&◌, ◌||◌, not, Option, none, some, arith, Bool-cases,
  ◌==◌,
}
use situation_studio.Prelude.Results.{Result, ok, err}
use situation_studio.Publisher.Tables.{Studio, Leadership, Candidate, Release}
use situation_studio.Publisher.Failure.{PublisherError, Matcher}
use situation_studio.Publisher.Identity.{
  Identity, database_identity, identity_matches, reconcile_ambiguous_promotion, reconcile_release,
  find_release,
}
use situation_studio.Publisher.Action.{Progress}
use situation_studio.Publisher.Steps.{set_promoted, set_attempted, set_known, set_candidate}
use situation_studio.Publisher.Hoare.{Triple}
use situation_studio.Publisher.Run.Quiet.{Knowledge, Knows}

abbrev pub is_promoted : Result PublisherError Bool → Bool
is_promoted (ok b) = b
is_promoted (err e) = false

-- Leadership has the candidate's release and its pointer shows it.
unfoldable pub is_shown : Matcher → Candidate → Leadership → Bool
is_shown test c l = is_promoted (reconcile_ambiguous_promotion test c l)

reconcile_release_matches :
    (test : Matcher) (c : Candidate) (i : Identity) (r : Option Release)
    → is_promoted (reconcile_release test c i r) ≡ true
    → identity_matches i c ≡ true
reconcile_release_matches test c i none h = absurd cc
reconcile_release_matches test c i (some r) h = ground arith

-- A shown candidate is what a read of the pointer gives.
pub shown-identity_matches :
    (test : Matcher) (c : Candidate) (l : Leadership) (i : Identity)
    → database_identity l ≡ ok i
    → is_shown test c l ≡ true
    → identity_matches i c ≡ true
unfolding is_shown reconcile_ambiguous_promotion
shown-identity_matches test c l i e h =
    reconcile_release_matches test c i (find_release c.publication_id l) (rw e at h)

pub unread-is_shown :
    (test : Matcher) (c : Candidate) (l : Leadership) (i : Identity)
    → database_identity l ≡ ok i
    → (i.release_id == c.release_id) ≡ false
    → is_shown test c l ≡ false
unread-is_shown test c l i e n = elim (Bool-cases (is_shown test c l)) [
  | inl h ↦
      absurd
        (let m = shown-identity_matches test c l i e h in unfold identity_matches in ground arith)
  | inr h ↦ h
]

module _ (test : Matcher) (l0 : Leadership) where
  -- Before there is a candidate.
  abbrev pub Untouched : Knowledge
  Untouched l promoted attempted known active = (l ≡ l0) × (active ≡ none)

  -- With a candidate that Leadership did not show at first.
  abbrev pub Tracked : Candidate → Knowledge
  Tracked c l promoted attempted known active =
      (active ≡ some c)
      × (is_shown test c l0 ≡ false
          → is_shown test c l ≡ true
          → (promoted || (attempted && not known)) ≡ true)

  abbrev pub Told : Candidate → Bool → Knowledge
  Told c b l promoted attempted known active =
      (active ≡ some c) × (is_shown test c l ≡ true → b ≡ true)

  -- The promotion is under way: nothing is said of the pointer.
  abbrev pub UnderWay : Candidate → Knowledge
  UnderWay c l promoted attempted known active =
      (active ≡ some c) × (attempted ≡ true) × (known ≡ false)

  abbrev pub Unpromoted : Candidate → Knowledge
  Unpromoted c l promoted attempted known active = (active ≡ some c) × (is_shown test c l ≡ false)

  abbrev pub UnpromotedYet : Candidate → Knowledge
  UnpromotedYet c l promoted attempted known active =
      (active ≡ some c) × (is_shown test c l ≡ false) × (attempted ≡ true) × (known ≡ false)

  -- What the `catch` clause may rely on.
  abbrev pub Known : Knowledge
  Known l promoted attempted known active =
      (c : Candidate)
      → active ≡ some c
      → is_shown test c l0 ≡ false
      → is_shown test c l ≡ true
      → (promoted || (attempted && not known)) ≡ true

  module _ (s0 : Studio) where
    pub Untouched-Known : (p : Progress) → Knows s0 Untouched p → Knows s0 Known p
    Untouched-Known p (g, (same, n)) = (g, λ c e f h. absurd cc)

    pub Tracked-Known : (c : Candidate) (p : Progress) → Knows s0 (Tracked c) p → Knows s0 Known p
    Tracked-Known c p (g, (a, k)) = (g, λ d e f h. let same : c ≡ d = cc in rw same at k f h)

    pub UnderWay-Tracked :
        (c : Candidate) (p : Progress) → Knows s0 (UnderWay c) p → Knows s0 (Tracked c) p
    UnderWay-Tracked c p (g, (a, t, n)) = (g, (a, λ f h. ground arith))

    pub set_candidate-Triple :
        (c : Candidate)
        → Triple (Knows s0 Untouched) (set_candidate c) (λ _. Knows s0 (Tracked c)) (Knows s0 Known)
    unfolding set_candidate
    set_candidate-Triple c p (g, (same, n)) =
        (g, (refl, λ f h. absurd (let t = rw same at h in cc)))

    pub set_attempted-Triple :
        (c : Candidate)
        → Triple
            (Knows s0 (Tracked c))
            set_attempted
            (λ _. Knows s0 (UnderWay c))
            (Knows s0 (Tracked c))
    unfolding set_attempted
    set_attempted-Triple c p (g, (a, k)) = (g, (a, refl, refl))

    pub set_promoted-Triple :
        (c : Candidate) (b : Bool)
        → Triple
            (Knows s0 (Told c b))
            (set_promoted b)
            (λ _. Knows s0 (Tracked c))
            (Knows s0 (Tracked c))
    unfolding set_promoted
    set_promoted-Triple c b p (g, (a, k)) = (g, (a, λ f h. let t = k h in ground arith))

    pub set_known-Triple :
        (c : Candidate) (b v : Bool)
        → Triple
            (Knows s0 (Told c b))
            (set_known v)
            (λ _. Knows s0 (Told c b))
            (Knows s0 (Tracked c))
    unfolding set_known
    set_known-Triple c b v p h = h
