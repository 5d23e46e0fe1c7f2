-- ===== src/Health/Backup/Readiness.antt =====
-- When a publication may be requested, as far as the backups go.
use situation_studio.Prelude.{
  ℕ, ◌+◌, ◌*◌, ◌≤◌, ◌≡◌, ◌↔◌, refl, Option, none, some, Millis, String, arith, ap, eq_iff, ◌∙◌,
}
use situation_studio.Health.Backup.{
  Patterns, BackupEvidence, DrillEvidence, Instant, at, invalid, ready, complete_verified_backup,
  drill_status, restore_drill_status, publication_backup_status, finite, drill_complete,
  backup_complete, max_age_seconds, max_future_skew_seconds, drill_max_age_seconds,
}

-- What the policy asks for: a complete receipt that is neither from the future nor older than 26 hours,
-- and a drill that passed, of a complete receipt, after it, and at most 30 days ago.
module _ (patterns : Patterns) (now : Millis) where
  abbrev Recent : ℕ → Millis → Type 0
  Recent age t = (t ≤ now + max_future_skew_seconds * 1000) × (now ≤ t + age * 1000)

  pub record Drilled (d : DrillEvidence) : Type 0 where
    pub verified : Millis
    pub created : Millis
    pub drilled : Millis
    pub complete : complete_verified_backup patterns d.backup ≡ some verified
    pub creation : d.created_at ≡ some (at created)
    pub drill : d.restore_drill_at ≡ some (at drilled)
    pub after : (verified ≤ drilled) × (created ≤ drilled)
    pub recent : Recent drill_max_age_seconds drilled
    pub passed : d.restore_drill_result ≡ some "PASSED"

  Drilled-ready :
      (d : DrillEvidence) → Drilled d → restore_drill_status patterns now (some d) ≡ ready
  unfolding restore_drill_status drill_status
  Drilled-ready d r =
      rw (r.complete, r.creation, r.drill, r.passed) (ground (arith, r.after, r.recent))

  parts :
      (d : DrillEvidence) (drill : Option Instant) (result : Option String)
      (creation : Option Instant) (complete : Option Millis)
      → complete_verified_backup patterns d.backup ≡ complete
      → d.created_at ≡ creation
      → d.restore_drill_at ≡ drill
      → d.restore_drill_result ≡ result
      → drill_complete patterns now drill result (finite creation) complete ≡ ready
      → Drilled d
  unfolding drill_status
  parts d (some (at t)) (some r) (some (at c)) (some v) ev ec ed er h = record {
    verified = v;
    created = c;
    drilled = t;
    complete = ev;
    creation = ec;
    drill = ed;
    after = (ground arith, ground arith);
    recent = (ground arith, ground arith);
    passed = er ∙ ap some ((eq_iff r "PASSED").0 (ground arith));
  }
  parts d (some invalid) (some r) (some (at c)) (some v) ev ec ed er h = absurd (ground arith)
  parts d (some t) (some r) (some (at c)) none ev ec ed er h = absurd (ground arith)
  parts d (some t) (some r) (some invalid) o ev ec ed er h = absurd (ground arith)
  parts d (some t) (some r) none o ev ec ed er h = absurd (ground arith)
  parts d (some t) none o o2 ev ec ed er h = absurd (ground arith)
  parts d none o o2 o3 ev ec ed er h = absurd (ground arith)

  pub record Backed (backup : Option BackupEvidence) (drill : Option DrillEvidence) : Type 0 where
    pub evidence : BackupEvidence
    pub given : backup ≡ some evidence
    pub verified : Millis
    pub complete : complete_verified_backup patterns evidence ≡ some verified
    pub recent : Recent max_age_seconds verified
    pub exercise : DrillEvidence
    pub performed : drill ≡ some exercise
    pub drilled : Drilled exercise

  Backed-ready :
      (b : Option BackupEvidence) (d : Option DrillEvidence)
      → Backed b d
      → publication_backup_status patterns b d now ≡ ready
  unfolding publication_backup_status
  Backed-ready b d k =
      rw (k.given, k.complete, k.performed)
        (ground (arith, Drilled-ready k.exercise k.drilled, k.recent))

  ready-Backed :
      (b : Option BackupEvidence) (d : Option DrillEvidence) (o : Option Millis)
      (e : BackupEvidence)
      → b ≡ some e
      → complete_verified_backup patterns e ≡ o
      → backup_complete patterns now d o ≡ ready
      → Backed b d
  unfolding restore_drill_status
  ready-Backed b none none e eb ec h = absurd (ground arith)
  ready-Backed b (some d) none e eb ec h = absurd (ground arith)
  ready-Backed b none (some v) e eb ec h = absurd (ground arith)
  ready-Backed b (some d) (some v) e eb ec h = record {
    evidence = e;
    given = eb;
    verified = v;
    complete = ec;
    recent = (ground arith, ground arith);
    exercise = d;
    performed = refl;
    drilled =
        parts d d.restore_drill_at d.restore_drill_result d.created_at
          (complete_verified_backup patterns d.backup) refl refl refl refl (ground arith);
  }

-- The policy says READY exactly where there is a complete receipt of a backup that is at most 26 hours
-- old, and a drill that passed, at most 30 days ago and not before the time at which its own complete
-- receipt was verified or created; no time is more than five minutes ahead.
pub ready_exactly :
    (patterns : Patterns) (backup : Option BackupEvidence) (drill : Option DrillEvidence)
    (now : Millis)
    → (publication_backup_status patterns backup drill now ≡ ready)
      ↔ Backed patterns now backup drill
unfolding publication_backup_status
ready_exactly patterns none drill now =
    (λ h. absurd (ground arith), Backed-ready patterns now none drill)
ready_exactly patterns (some b) drill now = (
  λ h. ready-Backed patterns now (some b) drill (complete_verified_backup patterns b) b refl refl h,
  Backed-ready patterns now (some b) drill,
)
