-- ===== src/Worker/Concluding.antt =====
-- Stages are started once, and a review that is completed has one proposal.
use situation_studio.Prelude.{
  ◌≡◌, ◌≤◌, refl, inl, inr, Bool, true, false, ◌&&◌, not, some, List, [], ◌∷◌, ◌++◌, arith, any,
  Uuid, Millis, ◌==◌, Bool-cases, ◌∙◌,
}
use situation_studio.Prelude.Rows.{count, count-zero}
use situation_studio.Prelude.Writes.{any-update_many_all, count-snoc}
use situation_studio.Prelude.Results.{ok}
use situation_studio.Store.{Db, ReviewJob, ReviewStep, Proposal, Revision, JobState, step_is_ready}
use situation_studio.Worker.Lane.{update_job}
use situation_studio.Worker.Steps.{Authority, is_held}
use situation_studio.Worker.Running.{
  complete_review, write_completion, with_proposal, succeed_job, new_proposal,
}
use situation_studio.Workflow.Guards.{latest_revision}

abbrev could_start : Uuid → ReviewStep → Bool
could_start id s = s.id == id && step_is_ready s.state

abbrev is_of : Uuid → Proposal → Bool
is_of id p = p.job_id == id

abbrev pub concluded : JobState → Bool
concluded JobState.succeeded = true
concluded _ = false

any-count : (q : Proposal → Bool) (ps : List Proposal) → any q ps ≡ true → 1 ≤ count q ps
unfolding count
any-count q [] h = absurd cc
any-count q (p ∷ ps) h = ground (arith, any-count q ps)

proposals :
    (now : Millis) (id job_id : Uuid) (input latest : Revision) (db : Db)
    → latest_revision input.draft_id db.revisions ≡ some latest
    → count (is_of job_id) db.proposals ≤ 1
    → (ps : List Proposal) × (with_proposal now id job_id input db ≡ ok ps)
      × (count (is_of job_id) ps ≡ 1)
proposals now id job_id input latest db found single =
    elim (Bool-cases (any (is_of job_id) db.proposals)) [
      | inl e ↦ (
        db.proposals,
        unfold with_proposal in rw e refl,
        omega (arith, single, any-count (is_of job_id) db.proposals e),
      )
      | inr e ↦ (
        db.proposals ++ new_proposal now id job_id input latest ∷ [],
        unfold with_proposal in rw (e, found) refl,
        count-snoc (is_of job_id) (new_proposal now id job_id input latest) db.proposals
            ∙ unfold new_proposal in ground (arith, count-zero (is_of job_id) db.proposals e),
      )
    ]

-- A worker that holds a job whose draft has a revision completes it, in a transaction that runs alone: the job has succeeded and given up
-- the lane, no job is held by the worker's fence and claim token any longer, and the job has one proposal,
-- also where an earlier completion had written it.
pub completed_once :
    (now : Millis) (id : Uuid) (a : Authority) (input latest : Revision) (db : Db)
    → any (is_held a) db.jobs ≡ true
    → latest_revision input.draft_id db.revisions ≡ some latest
    → count (λ p. p.job_id == a.job_id) db.proposals ≤ 1
    → (db' : Db) × (complete_review now id a input db ≡ ok db')
      × (any (λ j. j.id == a.job_id && not (concluded j.state && not j.lane_owner)) db'.jobs
          ≡ false)
      × (any (is_held a) db'.jobs ≡ false)
      × (count (λ p. p.job_id == a.job_id) db'.proposals ≡ 1)
unfolding complete_review write_completion update_job succeed_job
completed_once now id a input latest db held found single =
    let (ps, e, one) = proposals now id a.job_id input latest db found single in
    let f : ReviewJob → ReviewJob = succeed_job now in
    (
      record db { proposals = ps; jobs = update_job a.job_id f db.jobs },
      rw (held, e) refl,
      any-update_many_all (λ j. j.id == a.job_id && not (concluded j.state && not j.lane_owner))
          (λ x. x.id == a.job_id) f (λ x h. ground arith) (λ x h. ground arith) db.jobs,
      any-update_many_all (is_held a) (λ x. x.id == a.job_id) f
          (λ x h. unfold is_held in ground arith) (λ x h. unfold is_held in ground arith) db.jobs,
      one,
    )
