-- ===== src/Publisher/Run/Promoting.antt =====
-- Promoting a candidate keeps track of Leadership's pointer.
use situation_studio.Prelude.{
  ◌≡◌, refl, suc, Bool, true, false, ◌&&◌, not, Option, none, some, arith, Uuid, ◌==◌,
  if◌then◌else◌,
}
use situation_studio.Prelude.Results.{Result, ok, err}
use situation_studio.Store.{PublicationJob}
use situation_studio.Publisher.Tables.{Studio, Leadership, Candidate, Release}
use situation_studio.Publisher.Failure.{PublisherError}
use situation_studio.Publisher.Identity.{reconcile_ambiguous_promotion, find_release, is_release_of}
use situation_studio.Publisher.Action.{
  World, Progress, Action, give, throw, query, query_with, require_that, step_on,
}
use situation_studio.Publisher.Promotion.{
  Insertion, assert_authority, commit, commit_to, promote_and_commit, promote_existing, promote_new,
  promote_from, insert_and_promote, pointer_is, at_parent, changed,
}
use situation_studio.Publisher.Steps.{
  Claimed, set_promoted, set_attempted, set_known, reconcile, connect,
}
use situation_studio.Publisher.Course.{reconcile_after, try_promotion, promote}
use situation_studio.Publisher.Hoare.{
  After, Triple, Keeps, bind-Triple, then-Triple, catch-Triple, Triple-weaken, require_that-Keeps,
}
use situation_studio.Publisher.Run.Quiet.{
  OthersLawful, Knowledge, Knows, query-Keeps, assert_authority-Keeps,
}
use situation_studio.Publisher.Run.Reports.{connect-Keeps}
use situation_studio.Publisher.Run.Knowing.{
  is_shown, Tracked, Told, UnderWay, Unpromoted, UnpromotedYet, UnderWay-Tracked, set_known-Triple,
}

module _ (world : World) (lawful : OthersLawful world) (s0 : Studio) (l0 : Leadership) where
  -- A query also tells what it read.
  module _ (K : Knowledge) where
    query_with-Learns :
        {A : Type 0} (e : Option PublisherError) (f : Leadership → Result PublisherError A)
        → Triple
            (Knows s0 K)
            (query_with e f)
            (λ a p. Knows s0 K p × (f p.leadership ≡ ok a))
            (Knows s0 K)
    query_with-Learns {A = A} none f p h = settled (f p.leadership) refl
      where
        settled :
            (r : Result PublisherError A)
            → f p.leadership ≡ r
            → After (λ a q. Knows s0 K q × (f q.leadership ≡ ok a)) (Knows s0 K) (r, p)
        settled (ok a) e = (h, e)
        settled (err e') e = h
    query_with-Learns (some e) f p h = h

    pub query-Learns :
        {A : Type 0} (f : Leadership → Result PublisherError A)
        → Triple
            (Knows s0 K)
            (query world f)
            (λ a p. Knows s0 K p × (f p.leadership ≡ ok a))
            (Knows s0 K)
    unfolding query
    query-Learns f p h = query_with-Learns (world.fault p.tick) f (record p { tick = suc p.tick }) h

  module _ (c : Candidate) where
    -- Reconciling tells whether Leadership shows the candidate.
    pub reconcile-Told :
        (K : Knowledge)
        → ((p : Progress) → Knows s0 K p → p.active_candidate ≡ some c)
        → Triple
            (Knows s0 K)
            (reconcile world c)
            (λ b. Knows s0 (Told world.test l0 c b))
            (Knows s0 K)
    unfolding reconcile is_shown
    reconcile-Told K active =
        Triple-weaken (Knows s0 K) (Knows s0 K)
          (λ b p. Knows s0 K p × (reconcile_ambiguous_promotion world.test c p.leadership ≡ ok b))
          (λ b. Knows s0 (Told world.test l0 c b)) (Knows s0 K) (Knows s0 K)
          (query world (reconcile_ambiguous_promotion world.test c)) (λ p h. h)
          (λ b p h. (h.0.0, (active p h.0, λ g. rw h.1 at g))) (λ p h. h)
          (query-Learns K (reconcile_ambiguous_promotion world.test c))

    -- After a promotion's answer: the pointer is elsewhere if the answer says so.
    abbrev pub Answered : Insertion → Knowledge
    Answered i l promoted attempted known active =
        (active ≡ some c) × (i.pointer_changed ≡ true → is_shown world.test c l ≡ false)

    abbrev AnsweredYet : Insertion → Knowledge
    AnsweredYet i l promoted attempted known active =
        (active ≡ some c)
        × (attempted ≡ true)
        × (known ≡ false)
        × (i.pointer_changed ≡ true → is_shown world.test c l ≡ false)

    abbrev Yet : Progress → Type 0
    Yet = Knows s0 (UnpromotedYet world.test l0 c)

    abbrev Busy : Progress → Type 0
    Busy = Knows s0 (UnderWay world.test l0 c)

    abbrev Reply : Insertion → Progress → Type 0
    Reply i = Knows s0 (AnsweredYet i)

    Yet-Busy : (p : Progress) → Yet p → Busy p
    Yet-Busy p (g, (a, n, t, k)) = (g, (a, t, k))

    quiet_Yet {ℓ} : {A : Type ℓ} (m : Action A) → Keeps Yet m → Triple Yet m (λ _. Yet) Busy
    quiet_Yet m h =
        Triple-weaken Yet Yet (λ _. Yet) (λ _. Yet) Yet Busy m (λ p i. i) (λ a p i. i) Yet-Busy h

    commit_to-Busy :
        (e : Option PublisherError) (lands : Bool) (l : Leadership)
        → Triple Yet (commit_to e lands l) (λ _. Busy) Busy
    commit_to-Busy none lands l p (g, (a, n, t, k)) = (g, (a, t, k))
    commit_to-Busy (some e) true l p (g, (a, n, t, k)) = (g, (a, t, k))
    commit_to-Busy (some e) false l p (g, (a, n, t, k)) = (g, (a, t, k))

    commit-Busy : (l : Leadership) → Triple Yet (commit world l) (λ _. Busy) Busy
    unfolding commit
    commit-Busy l p h =
        commit_to-Busy (world.fault p.tick) (world.commit_lands p.tick) l (step_on p) h

    give-Reply : (i : Insertion) → i.pointer_changed ≡ false → Triple Busy (give i) Reply Busy
    unfolding give
    give-Reply i n p (g, (a, t, k)) = (g, (a, t, k, λ e. absurd cc))

    module _ (job : PublicationJob) (token : Uuid) where
      authority-Yet : Triple Yet (assert_authority world job token) (λ _. Yet) Busy
      authority-Yet =
          quiet_Yet (assert_authority world job token)
            (assert_authority-Keeps world lawful s0 (UnpromotedYet world.test l0 c) job token)

      query-Yet {ℓ} :
          {A : Type ℓ} (f : Leadership → Result PublisherError A)
          → Triple Yet (query world f) (λ _. Yet) Busy
      query-Yet f =
          quiet_Yet (query world f) (query-Keeps world lawful s0 (UnpromotedYet world.test l0 c) f)

      promote_and_commit-Reply :
          (inserted : Bool) (l : Leadership)
          → Triple Yet (promote_and_commit world job token c inserted l) Reply Busy
      unfolding promote_and_commit
      promote_and_commit-Reply inserted l =
          then-Triple Yet (λ _. Yet) Reply Busy _ _ authority-Yet
            (λ _.
              bind-Triple Yet (λ _. Yet) Reply Busy _ _ (query-Yet _)
                (λ l'.
                  then-Triple Yet (λ _. Yet) Reply Busy _ _ authority-Yet
                    (λ _.
                      then-Triple Yet (λ _. Busy) Reply Busy _ _ (commit-Busy l')
                        (λ _.
                          give-Reply (record { inserted = inserted; pointer_changed = false })
                            refl))))

      give-Yet : (i : Insertion) → Triple Yet (give i) Reply Busy
      unfolding give
      give-Yet i p (g, (a, n, t, k)) = (g, (a, t, k, λ e. n))

      if-Reply :
          (b : Bool) (m k : Action Insertion)
          → Triple Yet m Reply Busy
          → Triple Yet k Reply Busy
          → Triple Yet (if b then m else k) Reply Busy
      if-Reply true m k h g = h
      if-Reply false m k h g = g

      promote_existing-Reply :
          (x : Release) (l : Leadership)
          → Triple Yet (promote_existing world job token c x l) Reply Busy
      unfolding promote_existing
      promote_existing-Reply x l =
          then-Triple Yet (λ _. Yet) Reply Busy _ _
            (quiet_Yet _ (require_that-Keeps Yet (is_release_of c x) _))
            (λ _.
              then-Triple Yet (λ _. Yet) Reply Busy _ _ (query-Yet (world.matches_release c))
                (λ _.
                  if-Reply (pointer_is (λ y. y.release_id == c.release_id) l.current_release) _ _
                    (give-Yet _)
                    (if-Reply (not (x.validated && pointer_is (at_parent c) l.current_release)) _ _
                      (give-Yet changed) (promote_and_commit-Reply false l))))

      promote_new-Reply : (l : Leadership) → Triple Yet (promote_new world job token c l) Reply Busy
      unfolding promote_new
      promote_new-Reply l =
          if-Reply (pointer_is (at_parent c) l.current_release) _ _
            (bind-Triple Yet (λ _. Yet) Reply Busy _ _ (query-Yet (world.insert_release c))
              (λ staged. promote_and_commit-Reply true staged))
            (give-Yet changed)

      promote_from-Reply :
          (l : Leadership) (x : Option Release)
          → Triple Yet (promote_from world job token c l x) Reply Busy
      promote_from-Reply l none = promote_new-Reply l
      promote_from-Reply l (some x) = promote_existing-Reply x l

      insert_and_promote-Reply : Triple Yet (insert_and_promote world job token c) Reply Busy
      unfolding insert_and_promote
      insert_and_promote-Reply =
          then-Triple Yet (λ _. Yet) Reply Busy _ _ authority-Yet
            (λ _.
              bind-Triple Yet (λ _. Yet) Reply Busy _ _ (query-Yet (λ l. ok l))
                (λ l. promote_from-Reply l (find_release c.publication_id l)))

    abbrev Track : Progress → Type 0
    Track = Knows s0 (Tracked world.test l0 c)

    abbrev pub Answer : Insertion → Progress → Type 0
    Answer i = Knows s0 (Answered i)

    known-Answer : (i : Insertion) → Triple (Reply i) (set_known true) (λ _. Answer i) Busy
    unfolding set_known
    known-Answer i p (g, (a, t, k, n)) = (g, (a, n))

    give-Answer : (i : Insertion) (E : Progress → Type 0) → Triple (Answer i) (give i) Answer E
    unfolding give
    give-Answer i E p h = h

    try_promotion-Answer : (r : Claimed) → Triple Yet (try_promotion world r c) Answer Busy
    unfolding try_promotion
    try_promotion-Answer r =
        bind-Triple Yet Reply Answer Busy _ _ (insert_and_promote-Reply r.job r.token) (λ i.
          then-Triple (Reply i) (λ _. Answer i) Answer Busy _ _ (known-Answer i)
            (λ _. give-Answer i Busy))

    abbrev Tells : Bool → Progress → Type 0
    Tells b = Knows s0 (Told world.test l0 c b)

    require-Told :
        (b : Bool) (e : PublisherError) → Triple (Tells b) (require_that b e) (λ _. Tells b) Track
    require-Told true e p h = unfold give in h
    require-Told false e p (g, (a, n)) = unfold throw in (g, (a, λ f h. absurd (let t = n h in cc)))

    -- The promotion's answer is settled: nothing changed it any more.
    abbrev Settled : Knowledge
    Settled l promoted attempted known active = (active ≡ some c) × (promoted ≡ true)

    promoted-Settled :
        (b : Bool) → Triple (Tells b) (set_promoted true) (λ _. Knows s0 Settled) Track
    unfolding set_promoted
    promoted-Settled b p (g, (a, n)) = (g, (a, refl))

    Settled-Track : (p : Progress) → Knows s0 Settled p → Track p
    Settled-Track p (g, (a, t)) = (g, (a, λ f h. ground arith))

    give-Settled :
        (i : Insertion)
        → i.pointer_changed ≡ false
        → Triple (Knows s0 Settled) (give i) Answer Track
    unfolding give
    give-Settled i n p (g, (a, t)) = (g, (a, λ e. absurd cc))

    reconcile_after-Answer :
        (e : PublisherError) → Triple Busy (reconcile_after world c e) Answer Track
    unfolding reconcile_after
    reconcile_after-Answer e =
        bind-Triple Busy Tells Answer Track (reconcile world c) _
          (Triple-weaken Busy Busy Tells Tells Busy Track (reconcile world c) (λ p h. h)
            (λ b p h. h) (UnderWay-Tracked world.test l0 s0 c)
            (reconcile-Told (UnderWay world.test l0 c) (λ p h. h.1.0)))
          (λ b.
            then-Triple (Tells b) (λ _. Tells b) Answer Track _ _
              (set_known-Triple world.test l0 s0 c b true)
              (λ _.
                then-Triple (Tells b) (λ _. Tells b) Answer Track _ _ (require-Told b e)
                  (λ _.
                    then-Triple (Tells b) (λ _. Knows s0 Settled) Answer Track _ _
                      (promoted-Settled b)
                      (λ _.
                        then-Triple (Knows s0 Settled) (λ _. Knows s0 Settled) Answer Track
                          (connect world) _
                          (Triple-weaken (Knows s0 Settled) (Knows s0 Settled)
                            (λ _. Knows s0 Settled) (λ _. Knows s0 Settled) (Knows s0 Settled) Track
                            (connect world) (λ p h. h) (λ a p h. h) Settled-Track
                            (connect-Keeps world lawful s0 Settled))
                          (λ _.
                            give-Settled (record { inserted = false; pointer_changed = false })
                              refl)))))

    attempted-Yet : Triple (Knows s0 (Unpromoted world.test l0 c)) set_attempted (λ _. Yet) Track
    unfolding set_attempted
    attempted-Yet p (g, (a, n)) = (g, (a, n, refl, refl))

    -- From a pointer elsewhere, a promotion answers, or fails with what is known of the pointer.
    pub promote-Answer :
        (r : Claimed)
        → Triple (Knows s0 (Unpromoted world.test l0 c)) (promote world r c) Answer Track
    unfolding promote
    promote-Answer r =
        then-Triple (Knows s0 (Unpromoted world.test l0 c)) (λ _. Yet) Answer Track set_attempted _
          attempted-Yet
          (λ _.
            catch-Triple Yet Answer Busy Track (try_promotion world r c) (reconcile_after world c)
              (try_promotion-Answer r) reconcile_after-Answer)
