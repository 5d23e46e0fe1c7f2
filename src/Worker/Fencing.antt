-- ===== src/Worker/Fencing.antt =====
-- A worker whose check finds that it has lost its job changes nothing that matters.
use situation_studio.Prelude.{◌≡◌, ◌⊎◌, Bool, false}
use situation_studio.Prelude.Results.{Result, ok, err}
use situation_studio.Store.{Db}
use situation_studio.Worker.Failure.{WorkerError}

-- Jobs with their steps, checkouts and the audit trail are as they were.
pub record SameWork (db db' : Db) : Type 0 where
  pub jobs : db'.jobs ≡ db.jobs
  pub checkouts : db'.checkouts ≡ db.checkouts
  pub audit : db'.audit ≡ db.audit

-- What a report of a failure leaves behind.
abbrev pub Leaves : Db → Result WorkerError Db → Type 0
Leaves db (ok db') = SameWork db db'
Leaves db (err e) = (e ≡ WorkerError.bad_retry_delays) ⊎ (e ≡ WorkerError.invalid_metadata)

-- A report of a success that commits no step.
abbrev pub CommitsNone : Db → Result WorkerError (Bool × Db) → Type 0
CommitsNone db (ok r) = (r.0 ≡ false) × SameWork db r.1
CommitsNone db (err e) = ⊥
