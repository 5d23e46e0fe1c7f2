-- ===== src/Health/Backup.antt =====
-- apps/web/src/server/health/publication-backup-policy.ts and process-status.ts. A date is an instant
-- in milliseconds or JavaScript's invalid date; a comparison of a difference is written with both
-- terms on their own sides.
pub mod Readiness
use situation_studio.Prelude.{
  ℕ, ◌+◌, ◌*◌, Bool, true, false, ◌&&◌, ◌||◌, not, Option, none, some, Millis, String, str_eq, ltb,
  is_none, if◌then◌else◌,
}

abbrev pub max_age_seconds : ℕ
max_age_seconds = 93600

abbrev pub max_future_skew_seconds : ℕ
max_future_skew_seconds = 300

abbrev pub drill_max_age_seconds : ℕ
drill_max_age_seconds = 2592000

pub data Instant : Type 0 where
  at : (ms : Millis) → Instant
  invalid : Instant

-- The three patterns of `completeVerifiedBackup`; their engine is JavaScript's.
pub record Patterns : Type 0 where
  pub is_destination : String → Bool
  pub is_object_key : String → Bool
  pub is_checksum : String → Bool

pub record BackupEvidence : Type 0 where
  pub destination_id : String
  pub encrypted : Bool
  pub object_key : Option String
  pub checksum : Option String
  pub byte_length : Option ℕ
  pub verified_at : Option Instant

pub record DrillEvidence : Type 0 where
  pub backup : BackupEvidence
  pub created_at : Option Instant
  pub restore_drill_at : Option Instant
  pub restore_drill_result : Option String

pub data BackupState : Type 0 where
  ready backup_missing backup_incomplete backup_timestamp_invalid backup_stale : BackupState
  restore_drill_missing restore_drill_incomplete restore_drill_timestamp_invalid : BackupState
  restore_drill_stale restore_drill_failed : BackupState

abbrev pub is_ready : BackupState → Bool
is_ready ready = true
is_ready _ = false

-- A text that is there and not empty.
abbrev pub present : Option String → (String → Bool) → Bool
present none p = false
present (some s) p = not (str_eq s "") && p s

abbrev pub positive : Option ℕ → Bool
positive none = false
positive (some n) = ltb 0 n

abbrev pub finite : Option Instant → Option Millis
finite (some (at ms)) = some ms
finite _ = none

module _ (patterns : Patterns) where
  -- `completeVerifiedBackup`: the time of a complete receipt.
  unfoldable pub complete_verified_backup : BackupEvidence → Option Millis
  complete_verified_backup b =
      if patterns.is_destination b.destination_id
        && b.encrypted
        && present b.object_key patterns.is_object_key
        && present b.checksum patterns.is_checksum
        && positive b.byte_length
      then finite b.verified_at
      else none

  -- The checks of a drill whose receipt is complete: `verified` and `created` are its times.
  unfoldable pub drill_status : Millis → Millis → Millis → Instant → String → BackupState
  drill_status now verified created invalid result = restore_drill_timestamp_invalid
  drill_status now verified created (at drill) result =
      if ltb drill verified || ltb drill created || ltb (now + max_future_skew_seconds * 1000) drill
      then restore_drill_timestamp_invalid
      else if ltb (drill + drill_max_age_seconds * 1000) now
      then restore_drill_stale
      else if not (str_eq result "PASSED")
      then restore_drill_failed
      else ready

  abbrev pub drill_complete :
      Millis → Option Instant → Option String → Option Millis → Option Millis → BackupState
  drill_complete now (some t) (some result) (some created) (some verified) =
      if str_eq result ""
      then restore_drill_incomplete
      else drill_status now verified created t result
  drill_complete now _ _ _ _ = restore_drill_incomplete

  unfoldable pub restore_drill_status : Millis → Option DrillEvidence → BackupState
  unfolding complete_verified_backup drill_status
  restore_drill_status now none = restore_drill_missing
  restore_drill_status now (some d) =
      drill_complete now d.restore_drill_at d.restore_drill_result (finite d.created_at)
        (complete_verified_backup d.backup)

  abbrev pub backup_complete : Millis → Option DrillEvidence → Option Millis → BackupState
  backup_complete now drill none = backup_incomplete
  backup_complete now drill (some verified) =
      if ltb (now + max_future_skew_seconds * 1000) verified
      then backup_timestamp_invalid
      else if ltb (verified + max_age_seconds * 1000) now
      then backup_stale
      else restore_drill_status now drill

  unfoldable pub publication_backup_status :
      Option BackupEvidence → Option DrillEvidence → Millis → BackupState
  unfolding complete_verified_backup restore_drill_status
  publication_backup_status none drill now = backup_missing
  publication_backup_status (some b) drill now =
      backup_complete now drill (complete_verified_backup b)

pub data ReadinessState : Type 0 where
  verified stale not_yet_verified deferred : ReadinessState

abbrev is_backup_stale : BackupState → Bool
is_backup_stale backup_stale = true
is_backup_stale _ = false

-- `backupReadiness`: the state, and whether it degrades the service. An empty mode counts as none.
unfoldable pub backup_readiness : Option String → BackupState → ReadinessState × Bool
backup_readiness mode status =
    if present mode (λ m. str_eq m "deferred")
    then (deferred, false)
    else if present mode (λ m. not (str_eq m "required"))
    then (not_yet_verified, true)
    else if is_ready status
    then (verified, false)
    else if is_backup_stale status
    then (stale, true)
    else (not_yet_verified, true)
