-- ===== src/Auth/PasswordReset/Alive.antt =====
-- A code that was mailed resets the password in time
-- (services/auth-service/app/services/password_reset_service.py).
use backend_platform.Prelude.{
  ℕ, ◌+◌, ◌≤◌, ◌≡◌, refl, ◌∙◌, ap, true, false, Bool, ◌&&◌, Option, none, some, List, [], ◌∷◌, ◌++◌,
  find, update, any, arith, ◌==◌, ==_refl, Option-cases, inl, inr, any-update, find-append_last,
  find_sound,
}
use backend_platform.Prelude.Text.{Text, lower, text_eq_refl}
use backend_platform.Redis.{Redis, RedisLaws}
use backend_platform.Redis.Keys.{password_reset, password_reset_account}
use backend_platform.Auth.Db.{Db, User, PasswordResetToken}
use backend_platform.Auth.Errors.{Result, ok}
use backend_platform.Auth.Settings.{Settings}
use backend_platform.Auth.Providers.{Providers}
use backend_platform.Auth.World.{World, ◌>>=◌, in_session}
use backend_platform.Auth.BruteForce.{assert_not_locked}
use backend_platform.Auth.Events.{log_event}
use backend_platform.Auth.Passwords.{validate_password_policy, hash_password}
use backend_platform.Auth.Privacy.{client_identifier}
use backend_platform.Auth.Repositories.Users
use backend_platform.Auth.Repositories.Users.{has_email}
use backend_platform.Auth.Repositories.ResetTokens
use backend_platform.Auth.Repositories.ResetTokens.{has_hash, is_unused_of_user, used}
use backend_platform.Auth.Repositories.RefreshTokens
use backend_platform.Auth.Repositories.Sessions
use backend_platform.Auth.PasswordReset.Completed.{renewed, conclude_reset-marks}
use backend_platform.Auth.PasswordReset.{
  delivered, PasswordResetRequestResult, generate_code, hash_token, normalize_optional, issue_code,
  deliver, request_reset, mark_access_sessions_revoked, replace_password, conclude_reset,
  complete_reset, reset_password,
}

module _ {S : Type 0} (redis : Redis S) (p : Providers) (settings : Settings) (ip ua : Option Text)
    (email : Text) (drawn : ℕ) (w : World S) where
  abbrev asked : Result PasswordResetRequestResult × World S
  asked = request_reset redis p settings ip ua email drawn delivered w

  abbrev code_row : User → PasswordResetToken
  code_row user = record {
    user_id = user.id;
    token_hash = hash_token p settings (generate_code drawn);
    requested_ip = normalize_optional ip;
    requested_user_agent = normalize_optional ua;
    expires_at = w.now + settings.password_reset_token_ttl;
    used_at = none;
  }

  -- What a request leaves that says that a mail was sent.
  pub record IsMailed (db : Db) : Type 0 where
    pub user : User
    pub known : Users.get_by_email (lower email) w.db ≡ some user
    pub open_ : user.password_reset_blocked ≡ false
    pub free :
        any (has_hash (hash_token p settings (generate_code drawn))) w.db.reset_tokens ≡ false
    pub users : db.users ≡ w.db.users
    pub rows :
        db.reset_tokens
        ≡ update (is_unused_of_user user.id) (used w.now) w.db.reset_tokens ++ (code_row user ∷ [])

  asked-IsMailed :
      (r : PasswordResetRequestResult)
      → asked.0 ≡ ok r
      → r.email_sent ≡ true
      → IsMailed asked.1.committed
  unfolding request_reset issue_code deliver ◌>>=◌ log_event ResetTokens.mark_active_for_user_used
      ResetTokens.create
  asked-IsMailed r h sent = elim (Option-cases (Users.get_by_email (lower email) w.db)) [
    | inl e ↦ absurd (ground (arith, e, h))
    | inr (user, e) ↦
        let same =
          any-update (has_hash (hash_token p settings (generate_code drawn)))
            (is_unused_of_user user.id) (used w.now) (λ t. refl) w.db.reset_tokens in
        record {
          user = user;
          known = e;
          open_ = ground (arith, e, h);
          free = ground (arith, e, h, sent, same);
          users = ground (arith, e, h, sent);
          rows = ground (arith, e, h, sent);
        }
  ]

-- Where the rows of a user are replaced, the first that fits is the new one.
find-replaced :
    (q : User → Bool) (id : ℕ) (new : User) (users : List User) (user : User)
    → find q users ≡ some user
    → user.id ≡ id
    → q new ≡ true
    → find q (update (λ u. u.id == id) (λ _. new) users) ≡ some new
find-replaced q id new [] user h same fits = cc
find-replaced q id new (u ∷ users) user h same fits =
    ground (arith, h, same, fits, ==_refl id, find-replaced q id new users user)

no_other :
    (hash : Text) (user : ℕ) (rows : List PasswordResetToken)
    → any (has_hash hash) rows ≡ false
    → any (λ t. has_hash hash t && is_unused_of_user user t) rows ≡ false
no_other hash user [] h = refl
no_other hash user (t ∷ rows) h = ground (arith, h, no_other hash user rows)

module _ {S : Type 0} (redis : Redis S) (laws : RedisLaws redis) (p : Providers)
    (settings : Settings) (ip ua : Option Text) where
  concluded :
      (id account : Text) (user : User) (ids : List ℕ) (w : World S)
      → ((conclude_reset redis p settings ip ua id account user ids w).0 ≡ ok tt)
        × ((conclude_reset redis p settings ip ua id account user ids w).1.committed.users
            ≡ w.db.users)
  unfolding conclude_reset ◌>>=◌ log_event mark_access_sessions_revoked
  concluded id account user ids w = (
    ap (λ (r : Result (Unit {0}) × World S). r.0)
        (conclude_reset-marks redis laws p settings ip ua id account user ids w),
    ap (λ (r : Result (Unit {0}) × World S). r.1.committed.users)
        (conclude_reset-marks redis laws p settings ip ua id account user ids w),
  )

  -- A reset whose code is found good goes through where the password fits the policy.
  completed :
      (id account password salt : Text) (user : User) (row : PasswordResetToken) (w : World S)
      → validate_password_policy password ≡ ok tt
      → ((complete_reset redis p settings ip ua id account password salt user row w).0 ≡ ok tt)
        × ((complete_reset redis p settings ip ua id account password salt user row
              w).1.committed.users
            ≡ update
                (λ u. u.id == user.id)
                (λ _. renewed (p.argon2_hash salt password) user)
                w.db.users)
  unfolding complete_reset replace_password hash_password ◌>>=◌ Users.update_password Users.save
      ResetTokens.mark_used RefreshTokens.revoke_all_for_user Sessions.revoke_user_sessions
      Sessions.list_active_session_ids_for_user
  completed id account password salt user row w fits = rw fits (
      concluded id account user (Sessions.list_active_session_ids_for_user user.id w.db)
        (replace_password redis p settings ip ua (p.argon2_hash salt password) user row w).1)

  module _ (email : Text) (drawn : ℕ) (w : World S) (db : Db)
      (m : IsMailed redis p settings ip ua email drawn w db) where
    found_row :
        ResetTokens.get_active_for_user_by_hash m.user.id
          (hash_token p settings (generate_code drawn))
          db
        ≡ some (code_row redis p settings ip ua email drawn w m.user)
    unfolding ResetTokens.get_active_for_user_by_hash
    found_row =
        let hash = hash_token p settings (generate_code drawn) in
        let rest = update (is_unused_of_user m.user.id) (used w.now) w.db.reset_tokens in
        rw m.rows (
          find-append_last (λ t. has_hash hash t && is_unused_of_user m.user.id t) rest _
            (no_other hash m.user.id rest (
              any-update (has_hash hash) (is_unused_of_user m.user.id) (used w.now) (λ t. refl)
                w.db.reset_tokens
              ∙ m.free))
            (ground (arith, text_eq_refl hash, ==_refl m.user.id)))

    module _ (ip' ua' : Option Text) (password salt : Text) (v : World S) (same : v.db ≡ db)
        (in_time : v.now ≤ w.now + settings.password_reset_token_ttl)
        (open' : assert_not_locked redis p.hmac settings password_reset
            (client_identifier (lower email) ip')
            v.now
            v.redis
          ≡ ok tt)
        (account_open : assert_not_locked redis p.hmac settings password_reset_account
            (lower email)
            v.now
            v.redis
          ≡ ok tt) where
      known_still : Users.get_by_email (lower email) v.db ≡ some m.user
      unfolding Users.get_by_email
      known_still =
          ap (λ (users : List User). find (has_email (lower (lower email))) users)
            (ap (λ (d : Db). d.users) same ∙ m.users)
          ∙ m.known

      reset_completes :
          reset_password redis p settings ip' ua' email (generate_code drawn) password salt v
          ≡ complete_reset redis p settings ip' ua'
              (client_identifier (lower email) ip')
              (lower email)
              password
              salt
              m.user
              (code_row redis p settings ip ua email drawn w m.user)
              v
      unfolding reset_password ◌>>=◌
      reset_completes =
          let found =
            ap
              (ResetTokens.get_active_for_user_by_hash m.user.id
                (hash_token p settings (generate_code drawn)))
              same
            ∙ found_row in
          ground (arith, open', account_open, known_still, m.open_, found, in_time)

-- Where a reset is the next request after one that mailed a code to the user, from any address and at
-- any second up to the end of the code's lifetime, the code resets the password, where the new one fits
-- the policy and neither the email with the address nor the account is locked: the user's row then has
-- the new password and is not blocked.
pub mailed_code_accepted :
    {S : Type 0} (redis : Redis S) (laws : RedisLaws redis) (p : Providers) (settings : Settings)
    (email password salt : Text) (ip ua ip' ua' : Option Text) (drawn now : ℕ) (w : World S)
    (r : PasswordResetRequestResult)
    → (in_session (request_reset redis p settings ip ua email drawn delivered) w).0 ≡ ok r
    → r.email_sent ≡ true
    → now ≤ w.now + settings.password_reset_token_ttl
    → validate_password_policy password ≡ ok tt
    → assert_not_locked redis p.hmac settings password_reset
        (client_identifier (lower email) ip')
        now
        (in_session (request_reset redis p settings ip ua email drawn delivered) w).1.redis
      ≡ ok tt
    → assert_not_locked redis p.hmac settings password_reset_account
        (lower email)
        now
        (in_session (request_reset redis p settings ip ua email drawn delivered) w).1.redis
      ≡ ok tt
    → let v = record (in_session (request_reset redis p settings ip ua email drawn delivered) w).1 {
      now = now;
    } in
      let run =
        in_session
          (reset_password redis p settings ip' ua' email (generate_code drawn) password salt)
          v in
      (run.0 ≡ ok tt)
      × (user : User) × (Users.get_by_email (lower email) w.committed ≡ some user)
      × (Users.get_by_email (lower email) run.1.committed
          ≡ some (renewed (p.argon2_hash salt password) user))
unfolding in_session Users.get_by_email
mailed_code_accepted redis laws p settings email password salt ip ua ip' ua' drawn now w r mailed
      sent in_time fits open' account_open =
    let u = record w { db = w.committed } in
    let m = asked-IsMailed redis p settings ip ua email drawn u r mailed sent in
    let after = (request_reset redis p settings ip ua email drawn delivered u).1 in
    let v = record after { db = after.committed; now = now } in
    let run =
      reset_completes redis laws p settings ip ua email drawn u after.committed m ip' ua' password
        salt v refl in_time open' account_open in
    let (done, users) =
      completed redis laws p settings ip' ua' (client_identifier (lower email) ip') (lower email)
        password salt m.user (code_row redis p settings ip ua email drawn u m.user) v fits in
    (
      rw run done,
      m.user,
      m.known,
      rw (run, users, m.users)
          (find-replaced (has_email (lower (lower email))) m.user.id
            (renewed (p.argon2_hash salt password) m.user) w.committed.users m.user m.known refl
            (find_sound (has_email (lower (lower email))) w.committed.users m.user m.known)),
    )
