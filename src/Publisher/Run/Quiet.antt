-- ===== src/Publisher/Run/Quiet.antt =====
-- The steps of a run that write Studio's tables and leave Leadership and the variables of the run as
-- they are. `K` is whatever is known of those.
use situation_studio.Prelude.{refl, ℕ, suc, Bool, Option, none, some, Uuid, Millis}
use situation_studio.Prelude.Results.{Result, ok, err, Always}
use situation_studio.Store.{PublicationJob}
use situation_studio.Publisher.Tables.{Studio, Leadership, Candidate, publications}
use situation_studio.Publisher.Failure.{PublisherError, lease_lost}
use situation_studio.Publisher.Action.{
  World, Progress, transaction, transact, commit_with, query, query_with, write, valueless,
}
use situation_studio.Publisher.Lifecycle.{Follows-refl, Follows-trans, stay}
use situation_studio.Publisher.Writing.{Lawful, owned_update-Lawful}
use situation_studio.Publisher.Lease.{
  renew_publication_lease, assert_publication_fence, is_renewable, extend_lease,
}
use situation_studio.Publisher.Promotion.{renew, assert_fence, assert_authority, fence_read}
use situation_studio.Publisher.Hoare.{After, Keeps, then-Keeps}

-- From tables in order, other processes lead to tables in order: each publication moves on in its life,
-- and new ones, which began as requests, come after those that are there.
abbrev pub OthersLawful : World → Type 0
OthersLawful world = (n : ℕ) (s : Studio) → Lawful s s → Lawful s (world.others n s)

pub Lawful-trans : (a b c : Studio) → Lawful a b → Lawful b c → Lawful a c
Lawful-trans a b c h g = record {
  follows = Follows-trans h.follows g.follows;
  numbered = g.numbered;
  attempts = g.attempts;
}

abbrev pub Knowledge : Type 1
Knowledge = Leadership → Bool → Bool → Bool → Option Candidate → Type 0

abbrev pub Knows : Studio → Knowledge → Progress → Type 0
Knows s0 K p =
    Lawful s0 p.studio
    × K p.leadership p.promoted p.promotion_attempted p.promotion_state_known p.active_candidate

module _ (world : World) (lawful : OthersLawful world) (s0 : Studio) (K : Knowledge) where
  others-Lawful : (n : ℕ) (s : Studio) → Lawful s0 s → Lawful s0 (world.others n s)
  others-Lawful n s h = Lawful-trans s0 s (world.others n s) h (
      lawful n s (record {
        follows = Follows-refl (publications s);
        numbered = h.numbered;
        attempts = h.attempts;
      }))

  module _ {ℓ} {A : Type ℓ} where
    commit_with-Keeps :
        (lost : Option PublisherError) (p : Progress) (r : Result PublisherError (A × Studio))
        → Knows s0 K p
        → Always (λ q. Lawful s0 q.1) r
        → After (λ _. Knows s0 K) (Knows s0 K) (commit_with lost p r)
    commit_with-Keeps lost p (err e) h a = h
    commit_with-Keeps none p (ok (x, s)) (g, k) a = (a, k)
    commit_with-Keeps (some e) p (ok (x, s)) (g, k) a = (a, k)

    transact-Keeps :
        (n : ℕ) (e : Option PublisherError)
        (f : Millis → Studio → Result PublisherError (A × Studio))
        → ((now : Millis) (s : Studio) → Lawful s0 s → Always (λ q. Lawful s0 q.1) (f now s))
        → (p : Progress) → Knows s0 K p
        → After (λ _. Knows s0 K) (Knows s0 K) (transact world n e f p)
    transact-Keeps n (some e) f a p h = h
    transact-Keeps n none f a p h =
        commit_with-Keeps (world.no_reply n) p (f (world.now n) p.studio) h
          (a (world.now n) p.studio h.0)

    pub transaction-Keeps :
        (f : Millis → Studio → Result PublisherError (A × Studio))
        → ((now : Millis) (s : Studio) → Lawful s0 s → Always (λ q. Lawful s0 q.1) (f now s))
        → Keeps (Knows s0 K) (transaction world f)
    unfolding transaction
    transaction-Keeps f a p (g, k) =
        transact-Keeps p.tick (world.fault p.tick) f a
          (record p { studio = world.others p.tick p.studio; tick = suc p.tick })
          (others-Lawful p.tick p.studio g, k)

    query_with-Keeps :
        (e : Option PublisherError) (f : Leadership → Result PublisherError A)
        → Keeps (Knows s0 K) (query_with e f)
    query_with-Keeps none f p h = settled (f p.leadership)
      where
        settled : (r : Result PublisherError A) → After (λ _. Knows s0 K) (Knows s0 K) (r, p)
        settled (ok a) = h
        settled (err e) = h
    query_with-Keeps (some e) f p h = h

    pub query-Keeps :
        (f : Leadership → Result PublisherError A) → Keeps (Knows s0 K) (query world f)
    unfolding query
    query-Keeps f p h = query_with-Keeps (world.fault p.tick) f (record p { tick = suc p.tick }) h

  pub write-Keeps :
      (f : Millis → Studio → Result PublisherError Studio)
      → ((now : Millis) (s : Studio) → Lawful s0 s → Always (Lawful s0) (f now s))
      → Keeps (Knows s0 K) (write world f)
  unfolding write
  write-Keeps f a =
      transaction-Keeps (λ now s. valueless (f now s)) (λ now s h. each (f now s) (a now s h))
    where
      each :
          (r : Result PublisherError Studio)
          → Always (Lawful s0) r
          → Always (λ q. Lawful s0 q.1) (valueless r)
      each (ok s) h = h
      each (err e) h = h

  pub renew-Keeps : (job_id token : Uuid) → Keeps (Knows s0 K) (renew world job_id token)
  unfolding renew
  renew-Keeps job_id token =
      write-Keeps (λ now s. renew_publication_lease now job_id token s)
        (λ now s h.
          unfold renew_publication_lease in
          owned_update-Lawful s0 lease_lost job_id token is_renewable (extend_lease now)
            ((λ j. refl), (λ j w. stay)) s h)

  pub assert_fence-Keeps :
      (job : PublicationJob) (token : Uuid) → Keeps (Knows s0 K) (assert_fence world job token)
  unfolding assert_fence
  assert_fence-Keeps job token =
      write-Keeps (λ now s. fence_read job token s (assert_publication_fence job token s))
        (λ now s h. each s h (assert_publication_fence job token s))
    where
      each :
          (s : Studio)
          → Lawful s0 s
          → (r : Result PublisherError (Unit {0})) → Always (Lawful s0) (fence_read job token s r)
      each s h (ok u) = h
      each s h (err e) = tt

  pub assert_authority-Keeps :
      (job : PublicationJob) (token : Uuid) → Keeps (Knows s0 K) (assert_authority world job token)
  unfolding assert_authority
  assert_authority-Keeps job token =
      then-Keeps (Knows s0 K) (renew world job.id token) (assert_fence world job token)
        (renew-Keeps job.id token) (assert_fence-Keeps job token)
