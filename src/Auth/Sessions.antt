-- ===== src/Auth/Sessions.antt =====
-- apps/web/src/server/auth/sessions.ts: sessions by the hash of their token, with two expiry times.
-- The cookie is an argument, hashes are numbers, and the digest functions are the platform's.
pub mod Expiry
use situation_studio.Prelude.{
  ℕ, ◌+◌, ◌*◌, Bool, true, false, ◌&&◌, ◌||◌, not, Option, none, some, List, [], ◌∷◌, ◌++◌, Millis,
  Digest, Uuid, String, ltb, leb, ◌==◌, if◌then◌else◌, is_some, is_none,
}
use situation_studio.Prelude.Rows.{find_first, update_many}

pub data UserState : Type 0 where
  active deactivated : UserState

pub record User : Type 0 where
  pub id : Uuid
  pub state : UserState
  pub password_version : ℕ

pub record Session : Type 0 where
  pub id : Uuid
  pub token_hash : Digest
  pub user_id : Uuid
  pub password_version : ℕ
  pub csrf_hash : Digest
  pub ip_hash : Option Digest
  pub created_at : Millis
  pub last_seen_at : Millis
  pub idle_expires_at : Millis
  pub absolute_expires_at : Millis
  pub revoked_at : Option Millis
  pub revoked_reason : Option String

-- The digests of apps/web/src/server/auth/crypto.ts; a token and a keyed hash are numbers too.
pub record Crypto : Type 0 where
  pub sha256 : ℕ → Digest
  pub session_csrf : Uuid → Digest → ℕ

abbrev pub idle_ms : Millis
idle_ms = 7200000

abbrev pub absolute_ms : Millis
absolute_ms = 43200000

-- `token` and `id` are new.
unfoldable pub create_session :
    Crypto → ℕ → Uuid → User → Option Digest → Millis → List Session → Session × List Session
create_session crypto token id user ip_hash now rows =
    let row : Session = record {
      id = id;
      token_hash = crypto.sha256 token;
      user_id = user.id;
      password_version = user.password_version;
      csrf_hash = crypto.sha256 (crypto.session_csrf user.id (crypto.sha256 token));
      ip_hash = ip_hash;
      created_at = now;
      last_seen_at = now;
      idle_expires_at = now + idle_ms;
      absolute_expires_at = now + absolute_ms;
      revoked_at = none;
      revoked_reason = none;
    } in
    (row, rows ++ row ∷ [])

abbrev pub user_is_active : UserState → Bool
user_is_active active = true
user_is_active deactivated = false

unfoldable pub is_invalid : Millis → User → Session → Bool
is_invalid now user s =
    is_some s.revoked_at
    || leb s.idle_expires_at now
    || leb s.absolute_expires_at now
    || not (user_is_active user.state)
    || not (s.password_version == user.password_version)

abbrev min : ℕ → ℕ → ℕ
min a b = if ltb a b then a else b

unfoldable pub revoke : Millis → String → Session → Session
revoke now reason s = record s { revoked_at = some now; revoked_reason = some reason }

unfoldable pub touch : Millis → Millis → Session → Session
touch now absolute s = record s {
  last_seen_at = now;
  idle_expires_at = min (now + idle_ms) absolute;
}

-- The rest of `currentSession`, once the row and its user are read. The row that is returned is the
-- one that was read.
unfoldable pub admit_session :
    Millis → User → Session → List Session → Option Session × List Session
unfolding is_invalid revoke touch
admit_session now user s rows =
    if is_invalid now user s
    then (
      none,
      if is_none s.revoked_at
          then update_many (λ x. x.id == s.id) (revoke now "EXPIRED_OR_INVALID") rows
          else rows,
    )
    else (
      some s,
      if ltb (s.last_seen_at + 60000) now
          then update_many (λ x. x.id == s.id) (touch now s.absolute_expires_at) rows
          else rows,
    )

-- `users` gives the user of a row, which a foreign key guarantees.
unfoldable pub current_session :
    Crypto → (Uuid → User) → Option ℕ → Millis → List Session → Option Session × List Session
unfolding admit_session
current_session crypto users none now rows = (none, rows)
current_session crypto users (some token) now rows =
    elim (find_first (λ (s : Session). s.token_hash == crypto.sha256 token) rows) [
      | none ↦ (none, rows)
      | some s ↦ admit_session now (users s.user_id) s rows
    ]

unfoldable pub revoke_session : Uuid → String → Millis → List Session → List Session
unfolding revoke
revoke_session id reason now =
    update_many (λ s. s.id == id && is_none s.revoked_at) (revoke now reason)
