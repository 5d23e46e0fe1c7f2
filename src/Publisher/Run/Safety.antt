-- ===== src/Publisher/Run/Safety.antt =====
-- The course of a run keeps track of Leadership's pointer up to where it ends or throws.
use situation_studio.Prelude.{
  ◌≡◌, inl, inr, true, false, ◌&&◌, ◌||◌, not, some, [], ◌∷◌, arith, Bool-cases, ◌==◌,
}
use situation_studio.Prelude.Results.{ok}
use situation_studio.Store.{EventKind, flag, number}
use situation_studio.Publisher.Tables.{Studio, Leadership, Candidate}
use situation_studio.Publisher.Identity.{Identity, database_identity, identity_matches}
use situation_studio.Publisher.Action.{World, Progress, Action, ◌>>=◌, ◌>>◌, query}
use situation_studio.Publisher.Promotion.{Insertion}
use situation_studio.Publisher.Steps.{Ending, Claimed, set_promoted, report, base_changed, refresh}
use situation_studio.Publisher.Course.{
  verify_promoted, after_promotion, promote, promote_or_verify, advance,
}
use situation_studio.Publisher.Hoare.{
  Triple, Keeps, bind-Triple, then-Triple, Triple-weaken, require_that-Keeps,
}
use situation_studio.Publisher.Run.Quiet.{OthersLawful, Knowledge, Knows, query-Keeps}
use situation_studio.Publisher.Run.Reports.{
  Unfailed, report-Keeps, mark_promoting-Keeps, refresh-Unfailed, record_promotion-Keeps,
}
use situation_studio.Publisher.Run.Verifying.{
  check_existing-Keeps, verify_runtime-Keeps, finalize-Unfailed,
}
use situation_studio.Publisher.Run.Knowing.{
  is_shown, Tracked, Unpromoted, shown-identity_matches, unread-is_shown,
}
use situation_studio.Publisher.Run.Promoting.{query-Learns, Answer, promote-Answer}

module _ (world : World) (lawful : OthersLawful world) (s0 : Studio) (l0 : Leadership) (r : Claimed)
    (c : Candidate) where
  abbrev pub Track : Progress → Type 0
  Track = Knows s0 (Tracked world.test l0 c)

  abbrev pub Ends : Ending → Progress → Type 0
  Ends = Unfailed world lawful s0 (Tracked world.test l0 c)

  -- The pointer as it was read.
  abbrev pub Reads : Identity → Knowledge
  Reads i l promoted attempted known active =
      (active ≡ some c)
      × (database_identity l ≡ ok i)
      × (is_shown world.test c l0 ≡ false
          → is_shown world.test c l ≡ true
          → (promoted || (attempted && not known)) ≡ true)

  Reads-Track : (i : Identity) (p : Progress) → Knows s0 (Reads i) p → Track p
  Reads-Track i p (g, (a, e, k)) = (g, (a, k))

  pub read-Reads : Triple Track (query world database_identity) (λ i. Knows s0 (Reads i)) Track
  read-Reads =
      Triple-weaken Track Track (λ i p. Track p × (database_identity p.leadership ≡ ok i))
        (λ i. Knows s0 (Reads i)) Track Track (query world database_identity) (λ p h. h)
        (λ i p h. (h.0.0, (h.0.1.0, h.1, h.0.1.1))) (λ p h. h)
        (query-Learns world lawful s0 l0 (Tracked world.test l0 c) database_identity)

  matched-Track :
      (i : Identity)
      → Triple (Knows s0 (Reads i)) (set_promoted (identity_matches i c)) (λ _. Track) Track
  unfolding set_promoted
  matched-Track i p (g, (a, e, k)) = (
    g,
    (a, λ f h. let m = shown-identity_matches world.test c p.leadership i e h in ground arith),
  )

  pub observed-Reads :
      (i : Identity)
      → Triple
          (Knows s0 (Reads i))
          (set_promoted (i.release_id == c.release_id))
          (λ _. Knows s0 (Reads i))
          Track
  unfolding set_promoted
  observed-Reads i p (g, (a, e, k)) = (
    g,
    (
      a,
      e,
      λ f h.
          let m = shown-identity_matches world.test c p.leadership i e h in
          unfold identity_matches in ground arith,
    ),
  )

  verify_promoted-Ends : Triple Track (verify_promoted world r c) Ends Track
  unfolding verify_promoted
  verify_promoted-Ends =
      bind-Triple Track (λ i. Knows s0 (Reads i)) Ends Track _ _ read-Reads
        (λ i.
          then-Triple (Knows s0 (Reads i)) (λ _. Track) Ends Track _ _ (matched-Track i)
            (λ _.
              then-Triple Track (λ _. Track) Ends Track _ _
                (require_that-Keeps Track (identity_matches i c) _)
                (λ _.
                  then-Triple Track (λ _. Track) Ends Track _ _
                    (record_promotion-Keeps world lawful s0 (Tracked world.test l0 c) r i)
                    (λ _.
                      bind-Triple Track (λ _. Track) Ends Track _ _
                        (verify_runtime-Keeps world lawful s0 (Tracked world.test l0 c) r c)
                        (finalize-Unfailed world lawful s0 (Tracked world.test l0 c) r c i)))))

  promoted-Track :
      (i : Insertion)
      → Triple (Answer world lawful s0 l0 c i) (set_promoted true) (λ _. Track) Track
  unfolding set_promoted
  promoted-Track i p (g, (a, n)) = (g, (a, λ f h. ground arith))

  recorded-Ends :
      (i : Insertion)
      → Triple
          (Answer world lawful s0 l0 c i)
          (set_promoted true
            >> (report world r EventKind.release_inserted
                  (flag i.inserted ∷ number c.manifest_hash ∷ number c.release_id ∷ [])
                >> verify_promoted world r c))
          Ends
          Track
  recorded-Ends i =
      then-Triple (Answer world lawful s0 l0 c i) (λ _. Track) Ends Track _ _ (promoted-Track i)
        (λ _.
          then-Triple Track (λ _. Track) Ends Track _ _
            (report-Keeps world lawful s0 (Tracked world.test l0 c) r EventKind.release_inserted _)
            (λ _. verify_promoted-Ends))

  after_promotion-Ends :
      (i : Insertion)
      → Triple (Answer world lawful s0 l0 c i) (after_promotion world r c i) Ends Track
  unfolding after_promotion
  after_promotion-Ends i p h = elim (Bool-cases i.pointer_changed) [
    | inl e ↦ rw e (refreshed p (h.0, (h.1.0, λ f g. let n = h.1.1 e in absurd cc)))
    | inr e ↦ rw e (recorded-Ends i p h)
  ]
    where
      refreshed : Triple Track (query world database_identity >>= refresh world r c) Ends Track
      refreshed =
          bind-Triple Track (λ _. Track) Ends Track _ _
            (query-Keeps world lawful s0 (Tracked world.test l0 c) database_identity)
            (refresh-Unfailed world lawful s0 (Tracked world.test l0 c) r c)

  Reads-Unpromoted :
      (i : Identity) (p : Progress)
      → (i.release_id == c.release_id) ≡ false
      → Knows s0 (Reads i) p
      → Knows s0 (Unpromoted world.test l0 c) p
  Reads-Unpromoted i p n (g, (a, e, k)) = (g, (a, unread-is_shown world.test c p.leadership i e n))

  promote_or_verify-Ends :
      (i : Identity) → Triple (Knows s0 (Reads i)) (promote_or_verify world r c i) Ends Track
  unfolding promote_or_verify
  promote_or_verify-Ends i = elim (Bool-cases (i.release_id == c.release_id)) [
    | inl e ↦ rw e (λ p h. verify_promoted-Ends p (Reads-Track i p h))
    | inr e ↦ rw e (λ p h.
        bind-Triple (Knows s0 (Unpromoted world.test l0 c)) (Answer world lawful s0 l0 c) Ends Track
          (promote world r c) (after_promotion world r c) (promote-Answer world lawful s0 l0 c r)
          after_promotion-Ends p (Reads-Unpromoted i p e h))
  ]

  quiet_Reads {ℓ} :
      {A : Type ℓ} (i : Identity) (m : Action A)
      → Keeps (Knows s0 (Reads i)) m
      → Triple (Knows s0 (Reads i)) m (λ _. Knows s0 (Reads i)) Track
  quiet_Reads i m h =
      Triple-weaken (Knows s0 (Reads i)) (Knows s0 (Reads i)) (λ _. Knows s0 (Reads i))
        (λ _. Knows s0 (Reads i)) (Knows s0 (Reads i)) Track m (λ p h. h) (λ a p h. h)
        (Reads-Track i) h

  pub advance-Ends : (i : Identity) → Triple (Knows s0 (Reads i)) (advance world r c i) Ends Track
  unfolding advance
  advance-Ends i = elim (Bool-cases (base_changed r.job c i)) [
    | inl e ↦ rw e (λ p h.
        refresh-Unfailed world lawful s0 (Tracked world.test l0 c) r c i p (Reads-Track i p h))
    | inr e ↦ rw e (
        then-Triple (Knows s0 (Reads i)) (λ _. Knows s0 (Reads i)) Ends Track _ _
          (quiet_Reads i _ (report-Keeps world lawful s0 (Reads i) r EventKind.pointer_observed _))
          (λ _.
            then-Triple (Knows s0 (Reads i)) (λ _. Knows s0 (Reads i)) Ends Track _ _
              (quiet_Reads i _ (mark_promoting-Keeps world lawful s0 (Reads i) r c))
              (λ _.
                then-Triple (Knows s0 (Reads i)) (λ _. Knows s0 (Reads i)) Ends Track _ _
                  (quiet_Reads i _ (check_existing-Keeps world lawful s0 (Reads i) c))
                  (λ _. promote_or_verify-Ends i))))
  ]
