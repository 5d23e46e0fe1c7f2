-- ===== src/Auth/Throttle.antt =====
-- apps/web/src/server/auth/throttle.ts: failed logins are counted by username and by address, and
-- block both for a while. The hashes of the keys are numbers here; times are milliseconds, and
-- `windowStartedAt > now - windowMs` is written with the window on the left.
pub mod Lockout
use situation_studio.Prelude.{
  ℕ, ◌+◌, ◌*◌, Bool, true, false, ◌&&◌, ◌||◌, not, Option, none, some, List, [], ◌∷◌, ◌++◌, Millis,
  Digest, ltb, leb, ◌==◌, if◌then◌else◌, any,
}
use situation_studio.Prelude.Rows.{find_first, update_many, select}

abbrev pub failure_limit : ℕ
failure_limit = 5

abbrev pub window_ms : Millis
window_ms = 900000

abbrev pub block_ms : Millis
block_ms = 900000

pub data KeyKind : Type 0 where
  username ip : KeyKind

abbrev pub same_kind : KeyKind → KeyKind → Bool
same_kind username username = true
same_kind ip ip = true
same_kind _ _ = false

pub record LoginThrottle : Type 0 where
  pub key_kind : KeyKind
  pub key_hash : Digest
  pub failure_count : ℕ
  pub window_started_at : Millis
  pub blocked_until : Option Millis

-- What `throttleKeys` gives.
pub record ThrottleKeys : Type 0 where
  pub username : Digest
  pub ip : Digest

unfoldable pub has_key : KeyKind → Digest → LoginThrottle → Bool
has_key kind hash r = same_kind r.key_kind kind && r.key_hash == hash

abbrev pub blocks : Millis → LoginThrottle → Bool
blocks now r = elim r.blocked_until [ none ↦ false | some t ↦ ltb now t ]

-- The reads of `isBlocked` and of `evaluateLoginAttempt`.
unfoldable pub is_blocked : ThrottleKeys → Millis → List LoginThrottle → Bool
unfolding has_key
is_blocked keys now rows =
    any (blocks now)
      (select (λ r. has_key KeyKind.username keys.username r || has_key KeyKind.ip keys.ip r) rows)

abbrev pub is_inside : Millis → LoginThrottle → Bool
is_inside now r = ltb now (r.window_started_at + window_ms)

unfoldable pub next_count : Millis → Option LoginThrottle → ℕ
next_count now none = 1
next_count now (some r) = if is_inside now r then r.failure_count + 1 else 1

unfoldable pub next_window : Millis → LoginThrottle → Millis
next_window now r = if is_inside now r then r.window_started_at else now

abbrev pub blocked_from : Millis → ℕ → Option Millis
blocked_from now count = if leb failure_limit count then some (now + block_ms) else none

-- The upsert of one key, given the row that was found.
unfoldable pub upsert_failure :
    KeyKind → Digest → Millis → Option LoginThrottle → List LoginThrottle → List LoginThrottle
unfolding has_key next_count next_window
upsert_failure kind hash now none rows =
    let count = next_count now none in
    rows
    ++ record {
      key_kind = kind;
      key_hash = hash;
      failure_count = count;
      window_started_at = now;
      blocked_until = blocked_from now count;
    }
      ∷ []
upsert_failure kind hash now (some r) rows =
    let count = next_count now (some r) in
    update_many (has_key kind hash)
      (λ x. record x {
        failure_count = count;
        window_started_at = next_window now r;
        blocked_until = blocked_from now count;
      })
      rows

-- The body of the loop over the two keys.
unfoldable pub count_failure : KeyKind → Digest → Millis → List LoginThrottle → List LoginThrottle
unfolding upsert_failure
count_failure kind hash now rows =
    upsert_failure kind hash now (find_first (has_key kind hash) rows) rows

-- `recordFailure`, and `recordFailureInTransaction`, which repeats it.
unfoldable pub record_failure : ThrottleKeys → Millis → List LoginThrottle → List LoginThrottle
unfolding count_failure
record_failure keys now rows =
    count_failure KeyKind.ip keys.ip now (count_failure KeyKind.username keys.username now rows)

-- `clearUsernameFailure`
unfoldable pub clear_username_failure : Digest → List LoginThrottle → List LoginThrottle
unfolding has_key
clear_username_failure hash rows = select (λ r. not (has_key KeyKind.username hash r)) rows

pub record Attempt {ℓ} (T : Type ℓ) : Type ℓ where
  pub blocked : Bool
  pub value : Option T

-- `verify` is the check of the password in the same transaction.
unfoldable pub evaluate_login_attempt {ℓ} :
    {T : Type ℓ}
    → ThrottleKeys
    → Option T
    → Millis
    → List LoginThrottle
    → Attempt T × List LoginThrottle
unfolding is_blocked record_failure clear_username_failure
evaluate_login_attempt keys verified now rows =
    if is_blocked keys now rows
    then (record { blocked = true; value = none }, rows)
    else (elim verified [
      | some v ↦
          (record { blocked = false; value = some v }, clear_username_failure keys.username rows)
      | none ↦ (record { blocked = false; value = none }, record_failure keys now rows)
    ])
