-- ===== src/Publisher/Run/Guarantees.antt =====
-- What a run of `processPublicationJob` guarantees, in terms of its start and its end.
use mathlib.Core.Path.{subst}
use situation_studio.Prelude.{◌≡◌, ◌∙◌, refl, sym, false, none, some, Uuid, String}
use situation_studio.Prelude.Results.{Result, ok, err}
use situation_studio.Store.{FailureCode}
use situation_studio.Publisher.Tables.{Candidate, publications}
use situation_studio.Publisher.Failure.{PublisherError}
use situation_studio.Publisher.Events.Appending.{EventsNumbered}
use situation_studio.Publisher.Attempts.Counting.{AttemptsInv}
use situation_studio.Publisher.Lifecycle.{Follows, Follows-refl}
use situation_studio.Publisher.Writing.{Lawful}
use situation_studio.Publisher.Action.{World, Progress}
use situation_studio.Publisher.Steps.{Ending, failed}
use situation_studio.Publisher.Process.{process_publication_job}
use situation_studio.Publisher.Hoare.{After}
use situation_studio.Publisher.Run.Quiet.{OthersLawful}
use situation_studio.Publisher.Run.Showing.{shows, is_shown-shows}
use situation_studio.Publisher.Run.Handling.{Safe, process-Safe}

module _ (world : World) (lawful : OthersLawful world) (code_text : FailureCode → String)
    (job_id token : Uuid) (p : Progress) (numbered : EventsNumbered p.studio)
    (attempts : AttemptsInv p.studio.attempts) (start : p.active_candidate ≡ none) where
  abbrev run : Result PublisherError Ending × Progress
  run = process_publication_job world code_text job_id token p

  started : Lawful p.studio p.studio
  started = record {
    follows = Follows-refl (publications p.studio);
    numbered = numbered;
    attempts = attempts;
  }

  safe :
      After (Safe world lawful p.studio p.leadership code_text) (λ q. Lawful p.studio q.studio) run
  safe =
      process-Safe world lawful p.studio p.leadership code_text job_id token p
        (started, (refl, start))

  lawful_end :
      (r : Result PublisherError Ending × Progress)
      → After (Safe world lawful p.studio p.leadership code_text) (λ q. Lawful p.studio q.studio) r
      → Lawful p.studio r.1.studio
  lawful_end (ok e, q) h = h.0
  lawful_end (err e, q) h = h

  -- Whatever the outside answers, also where the run throws: every publication is where it was or
  -- further on in the abstract life of a publication, new ones come after them, and events and attempts are numbered without a
  -- gap, with at most one attempt of a job open. Other processes are assumed to keep the same; what they
  -- add are publications whose life began as a request.
  pub run_refines :
      Follows (publications p.studio) (publications run.1.studio)
      × EventsNumbered run.1.studio
      × AttemptsInv run.1.studio.attempts
  run_refines = let h = lawful_end run safe in (h.follows, h.numbered, h.attempts)

  -- A run that records FAILED, for a candidate that Leadership's tables did not show when it began, leaves
  -- them not showing it, whatever the outside answers and even if a COMMIT landed whose answer
  -- was lost. Other processes are assumed to keep Studio's tables in order and to leave Leadership alone.
  pub failed_unshown :
      (q : Progress) (c : Candidate)
      → run ≡ (ok failed, q)
      → q.active_candidate ≡ some c
      → shows c p.leadership ≡ false
      → shows c q.leadership ≡ false
  failed_unshown q c e a n =
      let h =
        subst
          (After (Safe world lawful p.studio p.leadership code_text)
            (λ q. Lawful p.studio q.studio))
          e safe in
      sym (is_shown-shows world.test c q.leadership)
      ∙ h.1 refl c a (is_shown-shows world.test c p.leadership ∙ n)
