-- ===== src/Auth/Throttle/Lockout.antt =====
-- What the throttle counts, and whom it blocks.
use situation_studio.Prelude.{
  ℕ, ◌+◌, ◌≤◌, ◌<◌, ◌≡◌, ◌∙◌, refl, inl, inr, ◌⊎◌, Bool, true, false, ◌&&◌, ◌||◌, Option, none,
  some, List, [], ◌∷◌, ◌++◌, Millis, Digest, ◌==◌, if◌then◌else◌, any, arith, ==_self,
}
use situation_studio.Prelude.Rows.{find_first, update_many, select, find_first_sound}
use situation_studio.Prelude.Writes.{find_first-update_many}
use situation_studio.Auth.Throttle.{
  KeyKind, username, ip, LoginThrottle, ThrottleKeys, has_key, blocks, is_blocked, is_inside,
  next_count, next_window, upsert_failure, blocked_from, count_failure, record_failure,
  evaluate_login_attempt, failure_limit, block_ms, same_kind,
}

-- The failures of a key in its current window, for an attempt at `now`.
abbrev pub tally_of : Millis → Option LoginThrottle → ℕ
tally_of now none = 0
tally_of now (some r) = if is_inside now r then r.failure_count else 0

abbrev pub tally : KeyKind → Digest → Millis → List LoginThrottle → ℕ
tally kind hash now rows = tally_of now (find_first (has_key kind hash) rows)

module _ {A : Type 0} (p : A → Bool) where
  find_first-snoc :
      (xs : List A) (x : A)
      → find_first p xs ≡ none
      → p x ≡ true
      → find_first p (xs ++ x ∷ []) ≡ some x
  unfolding find_first
  find_first-snoc [] x h t = ground arith
  find_first-snoc (y ∷ ys) x h t = ground (arith, find_first-snoc ys x)

  find_first-snoc_other :
      (xs : List A) (x : A) → p x ≡ false → find_first p (xs ++ x ∷ []) ≡ find_first p xs
  unfolding find_first
  find_first-snoc_other [] x t = ground arith
  find_first-snoc_other (y ∷ ys) x t = ground (arith, find_first-snoc_other ys x t)

  find_first-update_many_other :
      (q : A → Bool) (f : A → A)
      → ((x : A) → q x ≡ true → (p x ≡ false) × (p (f x) ≡ false))
      → (xs : List A) → find_first p (update_many q f xs) ≡ find_first p xs
  unfolding find_first update_many
  find_first-update_many_other q f h [] = refl
  find_first-update_many_other q f h (y ∷ ys) =
      ground (arith, h y, find_first-update_many_other q f h ys)

module _ (kind : KeyKind) (hash : Digest) (now : Millis) (rows : List LoginThrottle) where
  same_key :
      (t : Millis) (r : LoginThrottle)
      → r.key_kind ≡ kind
      → r.key_hash ≡ hash
      → has_key kind hash r ≡ true
  unfolding has_key
  same_key t r k h = rw (k, h) (kind_self kind (==_self hash))
    where
      kind_self : (x : KeyKind) → (hash == hash) ≡ true → (same_kind x x && hash == hash) ≡ true
      kind_self username h = h
      kind_self ip h = h

  -- The row of a key after one more failure, where `n` were counted before.
  abbrev Counted : ℕ → LoginThrottle → Type 0
  Counted n r =
      (r.failure_count ≡ n + 1)
      × (r.blocked_until ≡ blocked_from now (n + 1))
      × (is_inside now r ≡ true)

  counted :
      (o : Option LoginThrottle)
      → find_first (has_key kind hash) rows ≡ o
      → (r : LoginThrottle) × (find_first (has_key kind hash) (upsert_failure kind hash now o rows)
          ≡ some r)
        × Counted (tally_of now o) r
  unfolding upsert_failure next_count next_window
  counted none e =
      let row : LoginThrottle = record {
        key_kind = kind;
        key_hash = hash;
        failure_count = 1;
        window_started_at = now;
        blocked_until = blocked_from now 1;
      } in
      (
        row,
        find_first-snoc (has_key kind hash) rows row e (same_key now row refl refl),
        (refl, refl, ground arith),
      )
  counted (some r) e =
      let n = next_count now (some r) in
      let f : LoginThrottle → LoginThrottle = λ x. record x {
        failure_count = n;
        window_started_at = next_window now r;
        blocked_until = blocked_from now n;
      } in
      (
        f r,
        find_first-update_many (has_key kind hash) (has_key kind hash) f
              (λ x h. unfold has_key in refl) rows r e
            ∙ ground (arith, find_first_sound (has_key kind hash) rows r e),
        (ground arith, ground arith, ground arith),
      )

  counts :
      (r : LoginThrottle) × (find_first (has_key kind hash) (count_failure kind hash now rows)
        ≡ some r)
      × Counted (tally kind hash now rows) r
  unfolding count_failure
  counts = counted (find_first (has_key kind hash) rows) refl

apart :
    (k k2 k3 : KeyKind) → same_kind k k2 ≡ false → same_kind k3 k ≡ true → same_kind k3 k2 ≡ false
apart username username k3 d e = ground arith
apart username ip username d e = refl
apart username ip ip d e = ground arith
apart ip ip k3 d e = ground arith
apart ip username username d e = ground arith
apart ip username ip d e = refl

module _ (kind : KeyKind) (hash : Digest) (now : Millis) (rows : List LoginThrottle)
    (kind2 : KeyKind) (hash2 : Digest) (d : same_kind kind kind2 ≡ false) where
  not_here : (x : LoginThrottle) → has_key kind hash x ≡ true → has_key kind2 hash2 x ≡ false
  unfolding has_key
  not_here x h = ground (arith, apart kind kind2 x.key_kind d)

  -- Other keys are left alone.
  left :
      (o : Option LoginThrottle)
      → find_first (has_key kind2 hash2) (upsert_failure kind hash now o rows)
        ≡ find_first (has_key kind2 hash2) rows
  unfolding upsert_failure
  left none =
      find_first-snoc_other (has_key kind2 hash2) rows
        (record {
          key_kind = kind;
          key_hash = hash;
          failure_count = next_count now none;
          window_started_at = now;
          blocked_until = blocked_from now (next_count now none);
        })
        (unfold has_key in ground (arith, d))
  left (some r) =
      find_first-update_many_other (has_key kind2 hash2) (has_key kind hash)
        (λ x. record x {
          failure_count = next_count now (some r);
          window_started_at = next_window now r;
          blocked_until = blocked_from now (next_count now (some r));
        })
        (λ x h. (not_here x h, unfold has_key in not_here x h)) rows

  leaves :
      find_first (has_key kind2 hash2) (count_failure kind hash now rows)
      ≡ find_first (has_key kind2 hash2) rows
  unfolding count_failure
  leaves = left (find_first (has_key kind hash) rows)

module _ (p q s : LoginThrottle → Bool)
    (wider : (x : LoginThrottle) → p x ≡ true → s x ≡ true) where
  select-any :
      (rows : List LoginThrottle) (r : LoginThrottle)
      → find_first p rows ≡ some r
      → q r ≡ true
      → any q (select s rows) ≡ true
  unfolding select find_first
  select-any [] r e t = ground arith
  select-any (x ∷ xs) r e t = ground (arith, wider x, select-any xs r)

module _ (keys other : ThrottleKeys) (now later : Millis) (rows : List LoginThrottle)
    (t : later < now + block_ms) where
  full_row :
      (n : ℕ) (r : LoginThrottle)
      → failure_limit ≤ n + 1
      → r.blocked_until ≡ blocked_from now (n + 1)
      → blocks later r ≡ true
  full_row n r h e = rw (e) (ground (arith, h, t))

  blocked_by :
      ((other.username ≡ keys.username)
          × (failure_limit ≤ tally KeyKind.username keys.username now rows + 1))
        ⊎ ((other.ip ≡ keys.ip) × (failure_limit ≤ tally KeyKind.ip keys.ip now rows + 1))
      → is_blocked other later (record_failure keys now rows) ≡ true
  unfolding is_blocked record_failure
  blocked_by (inl (u, h)) =
      let (r, e, (c, b, i)) = counts KeyKind.username keys.username now rows in
      let rows' = count_failure KeyKind.username keys.username now rows in
      select-any (has_key KeyKind.username keys.username) (blocks later)
        (λ x. has_key KeyKind.username other.username x || has_key KeyKind.ip other.ip x)
        (λ x k. rw u (ground arith)) (count_failure KeyKind.ip keys.ip now rows') r
        (leaves KeyKind.ip keys.ip now rows' KeyKind.username keys.username refl ∙ e)
        (full_row (tally KeyKind.username keys.username now rows) r h b)
  blocked_by (inr (u, h)) =
      let rows' = count_failure KeyKind.username keys.username now rows in
      let (r, e, (c, b, i)) = counts KeyKind.ip keys.ip now rows' in
      select-any (has_key KeyKind.ip keys.ip) (blocks later)
        (λ x. has_key KeyKind.username other.username x || has_key KeyKind.ip other.ip x)
        (λ x k. rw u (ground arith)) (count_failure KeyKind.ip keys.ip now rows') r e
        (full_row (tally KeyKind.ip keys.ip now rows') r
          (rw (leaves KeyKind.username keys.username now rows KeyKind.ip keys.ip refl) h) b)

  -- A failure at `now` that is the fifth or a later one in the window of its user name blocks every login
  -- with that user name, from any address, before 15 minutes have passed; one that is the fifth or a later
  -- one in the window of its address blocks every login from that address, under any user name. A
  -- blocked attempt is turned away whatever its password, with the counts left as they are.
  pub lockout :
      {T : Type 0} (verified : Option T)
      → ((other.username ≡ keys.username)
          × (failure_limit ≤ tally KeyKind.username keys.username now rows + 1))
        ⊎ ((other.ip ≡ keys.ip) × (failure_limit ≤ tally KeyKind.ip keys.ip now rows + 1))
      → (is_blocked other later (record_failure keys now rows) ≡ true)
        × (evaluate_login_attempt other verified later (record_failure keys now rows)
            ≡ (record { blocked = true; value = none }, record_failure keys now rows))
  unfolding evaluate_login_attempt
  lockout verified h = (blocked_by h, rw (blocked_by h) refl)

module _ (keys : ThrottleKeys) (now : Millis) (rows : List LoginThrottle) where
  same_tally :
      (n : ℕ) (kind : KeyKind) (hash : Digest) (rows' : List LoginThrottle) (r : LoginThrottle)
      → find_first (has_key kind hash) rows' ≡ some r
      → r.failure_count ≡ n
      → is_inside now r ≡ true
      → tally kind hash now rows' ≡ n
  same_tally n kind hash rows' r e c i = rw (e) (ground (arith, c, i))

  -- A failed login counts once for its user name and once for its address: each window's tally grows by
  -- one, from zero where the window has passed.
  pub failure_counts :
      (tally KeyKind.username keys.username now (record_failure keys now rows)
        ≡ tally KeyKind.username keys.username now rows + 1)
      × (tally KeyKind.ip keys.ip now (record_failure keys now rows)
          ≡ tally KeyKind.ip keys.ip now rows + 1)
  unfolding record_failure
  failure_counts =
      let rows' = count_failure KeyKind.username keys.username now rows in
      let (r, e, (c, b, i)) = counts KeyKind.username keys.username now rows in
      let (q, f, (d, w, j)) = counts KeyKind.ip keys.ip now rows' in
      (
        same_tally (tally KeyKind.username keys.username now rows + 1) KeyKind.username
            keys.username (count_failure KeyKind.ip keys.ip now rows') r
            (leaves KeyKind.ip keys.ip now rows' KeyKind.username keys.username refl ∙ e) c i,
        same_tally (tally KeyKind.ip keys.ip now rows + 1) KeyKind.ip keys.ip
            (count_failure KeyKind.ip keys.ip now rows') q f
            (d ∙ rw (leaves KeyKind.username keys.username now rows KeyKind.ip keys.ip refl) refl)
            j,
      )
