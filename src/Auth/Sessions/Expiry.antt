-- ===== src/Auth/Sessions/Expiry.antt =====
-- How long a session lasts.
use mathlib.Core.Option.{some-injective}
use situation_studio.Prelude.{
  ℕ, ◌<◌, ◌≡◌, ◌∙◌, refl, inl, inr, Bool, true, false, Option, none, some, List, Millis, Uuid, ◌==◌,
  is_some, is_none, arith, Bool-cases, Option-cases, ap, ==_self,
}
use situation_studio.Prelude.Rows.{find_first}
use situation_studio.Prelude.Writes.{find_first-update_many}
use situation_studio.Prelude.Members.{In, find_first-In}
use situation_studio.Auth.Sessions.{
  Crypto, User, Session, UserState, current_session, admit_session, is_invalid, revoke,
}

module _ (now : Millis) (user : User) (s : Session) (rows : List Session) where
  admitted :
      (t : Session) (rows' : List Session)
      → admit_session now user s rows ≡ (some t, rows')
      → (s ≡ t) × (is_invalid now user s ≡ false)
  unfolding admit_session
  admitted t rows' h = elim (Bool-cases (is_invalid now user s)) [
    | inl e ↦ ground (arith, e, h)
    | inr e ↦
        (some-injective s t (ap (λ (r : Option Session × List Session). r.0) (rw (e) at h)), e)
  ]

  refused :
      (key : Session → Bool)
      → ((x : Session) → key (revoke now "EXPIRED_OR_INVALID" x) ≡ key x)
      → find_first key rows ≡ some s
      → (admit_session now user s rows).0 ≡ none
      → (t : Session) × (find_first key (admit_session now user s rows).1 ≡ some t)
        × (is_some t.revoked_at ≡ true)
  unfolding admit_session is_invalid
  refused key keeps e h = elim (Bool-cases (is_invalid now user s)) [
    | inr v ↦ ground (arith, v, h)
    | inl v ↦ rw (v) (elim (Bool-cases (is_none s.revoked_at)) [
      | inr r ↦ rw (r) (s, e, ground arith)
      | inl r ↦ rw (r) (
        revoke now "EXPIRED_OR_INVALID" s,
        find_first-update_many key (λ x. x.id == s.id) (revoke now "EXPIRED_OR_INVALID")
              (λ x _. keeps x) rows s e
            ∙ ground (arith, ==_self s.id),
        unfold revoke in refl,
      )
    ])
  ]

-- The session of a token is told only while its row is not revoked, both its expiry times lie ahead, its
-- user is active, and the user's password is still the one it was opened with.
pub session_is_live :
    (crypto : Crypto) (users : Uuid → User) (token : Option ℕ) (now : Millis)
    (rows rows' : List Session) (t : Session)
    → current_session crypto users token now rows ≡ (some t, rows')
    → In t rows
      × (t.revoked_at ≡ none)
      × (now < t.idle_expires_at)
      × (now < t.absolute_expires_at)
      × ((users t.user_id).state ≡ UserState.active)
      × (t.password_version ≡ (users t.user_id).password_version)
unfolding current_session is_invalid
session_is_live crypto users none now rows rows' t h = absurd (ground arith)
session_is_live crypto users (some token) now rows rows' t h =
    elim (Option-cases (find_first (λ (s : Session). s.token_hash == crypto.sha256 token) rows)) [
      | inl e ↦ absurd (ground (arith, e, h))
      | inr (s, e) ↦
          let (same, v) =
            admitted now (users s.user_id) s rows t rows' (rw (e, current_session) at h) in
          rw (← same) (
            live s (find_first-In (λ (x : Session). x.token_hash == crypto.sha256 token) rows s e)
              v)
    ]
  where
    live :
        (s : Session)
        → In s rows
        → is_invalid now (users s.user_id) s ≡ false
        → In s rows
          × (s.revoked_at ≡ none)
          × (now < s.idle_expires_at)
          × (now < s.absolute_expires_at)
          × ((users s.user_id).state ≡ UserState.active)
          × (s.password_version ≡ (users s.user_id).password_version)
    live s m v = (m, ground arith, ground arith, ground arith, ground arith, ground arith)

-- A token that names a row and is refused once is refused at any other time too, with the rows
-- that the refusal leaves, whatever has become of its user.
pub refused_for_good :
    (crypto : Crypto) (users users' : Uuid → User) (token : ℕ) (now later : Millis)
    (rows : List Session) (s : Session)
    → find_first (λ (x : Session). x.token_hash == crypto.sha256 token) rows ≡ some s
    → (current_session crypto users (some token) now rows).0 ≡ none
    → (current_session crypto users'
        (some token)
        later
        (current_session crypto users (some token) now rows).1).0
      ≡ none
unfolding current_session
refused_for_good crypto users users' token now later rows s e h =
    let (t, f, r) =
      refused now (users s.user_id) s rows (λ (x : Session). x.token_hash == crypto.sha256 token)
        (λ x. unfold revoke in refl) e (rw (e, current_session) at h) in
    rw (e, current_session, f) (unfold admit_session is_invalid in ground (arith, r))
