-- ===== src/Tests/Accounts.antt =====
-- Logins, sessions and the backup policy.
use situation_studio.Prelude.{
  ◌+◌, ◌≡◌, ◌≤◌, ◌<◌, ◌↔◌, inl, refl, true, none, some, List, [], ◌∷◌, arith,
}
use situation_studio.Prelude.Rows.{find_first}
use situation_studio.Prelude.Members.{In}
use situation_studio.Auth.Throttle.{
  KeyKind, LoginThrottle, ThrottleKeys, has_key, is_blocked, record_failure, evaluate_login_attempt,
}
use situation_studio.Auth.Throttle.Lockout.{lockout, failure_counts, tally}
use situation_studio.Auth.Sessions.{
  Crypto, User, UserState, Session, current_session, admit_session, is_invalid,
}
use situation_studio.Auth.Sessions.Expiry.{session_is_live, refused_for_good}
use situation_studio.Health.Backup.{
  Patterns, BackupEvidence, DrillEvidence, at, publication_backup_status, ready,
}
use situation_studio.Health.Backup.Readiness.{ready_exactly, Backed}

abbrev editor : User
editor = record { id = 2; state = UserState.active; password_version = 1 }

abbrev keys : ThrottleKeys
keys = record { username = 7; ip = 8 }

abbrev four_failures : List LoginThrottle
four_failures =
    record {
      key_kind = KeyKind.username;
      key_hash = 7;
      failure_count = 4;
      window_started_at = 1000;
      blocked_until = none;
    }
    ∷ []

abbrev elsewhere : ThrottleKeys
elsewhere = record keys { ip = 9 }

lockout_example :
    (is_blocked elsewhere 3000 (record_failure keys 2000 four_failures) ≡ true)
    × (evaluate_login_attempt elsewhere (some editor) 3000 (record_failure keys 2000 four_failures)
        ≡ (record { blocked = true; value = none }, record_failure keys 2000 four_failures))
lockout_example =
    lockout keys elsewhere 2000 3000 four_failures (omega arith) (some editor) (inl (refl, four))
  where
    four : 5 ≤ tally KeyKind.username 7 2000 four_failures + 1
    four = unfold find_first in unfold has_key in omega arith

failure_counts_example :
    (tally KeyKind.username 7 2000 (record_failure keys 2000 four_failures)
      ≡ tally KeyKind.username 7 2000 four_failures + 1)
    × (tally KeyKind.ip 8 2000 (record_failure keys 2000 four_failures)
        ≡ tally KeyKind.ip 8 2000 four_failures + 1)
failure_counts_example = failure_counts keys 2000 four_failures

abbrev crypto : Crypto
crypto = record { sha256 = λ n. n + 1; session_csrf = λ u h. u + h }

abbrev opened : Session
opened = record {
  id = 90;
  token_hash = 6;
  user_id = 2;
  password_version = 1;
  csrf_hash = 9;
  ip_hash = none;
  created_at = 1000;
  last_seen_at = 1000;
  idle_expires_at = 7201000;
  absolute_expires_at = 43201000;
  revoked_at = none;
  revoked_reason = none;
}

abbrev rows : List Session
rows = opened ∷ []

session_is_live_example :
    In opened rows
    × (opened.revoked_at ≡ none)
    × (2000 < opened.idle_expires_at)
    × (2000 < opened.absolute_expires_at)
    × (editor.state ≡ UserState.active)
    × (opened.password_version ≡ editor.password_version)
unfolding current_session admit_session is_invalid find_first
session_is_live_example = session_is_live crypto (λ u. editor) (some 5) 2000 rows rows opened refl

refused_for_good_example :
    (current_session crypto
      (λ u. editor)
      (some 5)
      60000000
      (current_session crypto
        (λ u. record editor { state = UserState.deactivated })
        (some 5)
        50000000
        rows).1).0
    ≡ none
unfolding current_session admit_session is_invalid find_first
refused_for_good_example =
    refused_for_good crypto (λ u. record editor { state = UserState.deactivated }) (λ u. editor) 5
      50000000 60000000 rows opened refl refl

abbrev patterns : Patterns
patterns = record { is_destination = λ s. true; is_object_key = λ s. true; is_checksum = λ s. true }

abbrev receipt : BackupEvidence
receipt = record {
  destination_id = "offsite-verified:0";
  encrypted = true;
  object_key = some "key";
  checksum = some "0";
  byte_length = some 10;
  verified_at = some (at 1000);
}

abbrev drill : DrillEvidence
drill = record {
  backup = receipt;
  created_at = some (at 1000);
  restore_drill_at = some (at 2000);
  restore_drill_result = some "PASSED";
}

ready_exactly_example :
    (publication_backup_status patterns (some receipt) (some drill) 3000 ≡ ready)
    ↔ Backed patterns 3000 (some receipt) (some drill)
ready_exactly_example = ready_exactly patterns (some receipt) (some drill) 3000
