-- ===== src/Auth/Requests/SignedIn.antt =====
-- Who logged in stays signed in (services/auth-service/app/services/auth_service.py).
use backend_platform.Prelude.{
  ℕ, ◌+◌, ◌≤◌, ◌<◌, ◌≡◌, ◌∙◌, true, false, ◌==◌, Option, some, none, arith, any, inl, inr,
}
use backend_platform.Prelude.Text.{Text, lower}
use backend_platform.Redis.{Redis}
use backend_platform.Redis.Keys.{login, login_account}
use backend_platform.Auth.Db.{User}
use backend_platform.Auth.Errors.{Result, ok, is_ok, Result-cases}
use backend_platform.Auth.Settings.{Settings}
use backend_platform.Auth.Providers.{Providers}
use backend_platform.Auth.World.{World, ◌>>=◌, in_session}
use backend_platform.Auth.BruteForce.{assert_not_locked, clear_failures}
use backend_platform.Auth.Events.{log_event}
use backend_platform.Auth.Passwords.{verify_password}
use backend_platform.Auth.Privacy.{client_identifier}
use backend_platform.Auth.Repositories.Users
use backend_platform.Auth.Repositories.RefreshTokens.{has_jti}
use backend_platform.Auth.TokenService.{TokenPair, NewSession, issue_for_user}
use backend_platform.Auth.TokenService.Issued.{ReadsBack}
use backend_platform.Auth.TokenService.Opened.{
  IsOpened, issued_pair, issue_succeeds, issue-IsOpened, opened_rotates,
}
use backend_platform.Auth.AuthService.Login.{
  LoginStepResult, accept_password, admit_user, login_user, log_in,
}
use backend_platform.Auth.AuthService.Outcomes.{IsAdmitted, log_in-IsAdmitted}
use backend_platform.Auth.AuthService.Refresh.{refresh_tokens}
use backend_platform.Auth.Requests.Alive.{granted_ok}

module _ {S : Type 0} (redis : Redis S) (p : Providers) (settings : Settings)
    (email password : Text) (ip ua : Option Text) (drawn : NewSession) (challenge : ℕ)
    (w : World S) where
  -- The state in which the tokens of an admitted user are issued.
  abbrev cleared : World S
  cleared = record w {
    redis =
        clear_failures redis p.hmac settings login_account (lower email)
          (clear_failures redis p.hmac settings login (client_identifier (lower email) ip) w.redis);
  }

  abbrev issued : User → Result TokenPair × World S
  issued user = issue_for_user p settings user.id ip ua drawn cleared

  log_in_accepts :
      (r : LoginStepResult)
      → (a : IsAdmitted redis p settings email password ip w r)
      → log_in redis p settings email password ip ua drawn challenge w
        ≡ accept_password redis p settings (lower email) ip ua a.user drawn challenge w
  unfolding log_in login_user ◌>>=◌
  log_in_accepts r a = rw (a.known, log_in) (ground arith)

  module _ (user : User) (single : user.two_factor_enabled ≡ false) where
    accept_admits :
        accept_password redis p settings (lower email) ip ua user drawn challenge w
        ≡ admit_user redis p settings (lower email) ip ua user drawn cleared
    unfolding accept_password ◌>>=◌
    accept_admits = ground (arith, single)

    admitted_rows :
        (r : LoginStepResult) (pair : TokenPair)
        → (admit_user redis p settings (lower email) ip ua user drawn cleared).0 ≡ ok r
        → r.tokens ≡ some pair
        → ((issued user).0 ≡ ok pair)
          × ((admit_user redis p settings
                (lower email)
                ip
                ua
                user
                drawn
                cleared).1.committed.refresh_tokens
              ≡ (issued user).1.db.refresh_tokens)
          × ((admit_user redis p settings
                (lower email)
                ip
                ua
                user
                drawn
                cleared).1.committed.sessions
              ≡ (issued user).1.db.sessions)
    unfolding admit_user log_event ◌>>=◌
    admitted_rows r pair h t = elim (Result-cases (issued user).0) [
      | inr (e, failed) ↦ absurd (ground (arith, h, failed))
      | inl (other, granted) ↦
          (ground (arith, h, t, granted), ground (arith, granted), ground (arith, granted))
    ]

  -- A login that hands out tokens opens a family with them, and commits it.
  log_in-IsOpened :
      (r : LoginStepResult) (pair : TokenPair)
      → (log_in redis p settings email password ip ua drawn challenge w).0 ≡ ok r
      → r.tokens ≡ some pair
      → (user : User) × IsOpened p settings user.id ip ua drawn w pair
          (log_in redis p settings email password ip ua drawn challenge w).1.committed
  log_in-IsOpened r pair h t =
      let a = log_in-IsAdmitted redis p settings email password ip ua drawn challenge w r h in
      let single : a.user.two_factor_enabled ≡ false = ground (arith, a.tokens, t) in
      let run = log_in_accepts r a ∙ accept_admits a.user single in
      let (granted, rows, sessions) = admitted_rows a.user single r pair (rw run at h) t in
      let opened = issue-IsOpened p settings a.user.id ip ua drawn cleared pair granted in
      (
        a.user,
        rw run (record {
          token = opened.token;
          free = opened.free;
          rows = rows ∙ opened.rows;
          sessions = sessions ∙ opened.sessions;
        }),
      )

-- What a login of a user without a second factor needs.
pub record IsAdmissible {S : Type 0} (redis : Redis S) (p : Providers) (settings : Settings)
    (email password : Text) (ip : Option Text) (drawn : NewSession) (w : World S) (user : User)
    : Type 0 where
  pub known : Users.get_by_email (lower email) w.db ≡ some user
  pub password_right : verify_password p password user.password_hash ≡ true
  pub active : user.is_active ≡ true
  pub not_blocked : user.login_blocked ≡ false
  pub not_locked :
      assert_not_locked redis p.hmac settings login
        (client_identifier (lower email) ip)
        w.now
        w.redis
      ≡ ok tt
  pub account_not_locked :
      assert_not_locked redis p.hmac settings login_account (lower email) w.now w.redis ≡ ok tt
  pub single_factor : user.two_factor_enabled ≡ false
  -- What is drawn is new.
  pub session_free : any (λ s. s.id == drawn.session_id) w.db.sessions ≡ false
  pub name_free : any (has_jti drawn.refresh_jti) w.db.refresh_tokens ≡ false

module _ {S : Type 0} (redis : Redis S) (p : Providers) (settings : Settings)
    (email password : Text) (ip ua : Option Text) (drawn : NewSession) (challenge : ℕ) where
  log_in_admits :
      (w : World S) (user : User)
      → IsAdmissible redis p settings email password ip drawn w user
      → log_in redis p settings email password ip ua drawn challenge w
        ≡ admit_user redis p settings
            (lower email)
            ip
            ua
            user
            drawn
            (cleared redis p settings email password ip ua drawn challenge w)
  unfolding log_in login_user accept_password ◌>>=◌
  log_in_admits w user a = rw (a.known, log_in) (ground arith)

  abbrev pub signed_in : ℕ → ℕ → LoginStepResult
  signed_in user now = record {
    requires_2fa = false;
    challenge_id = none;
    tokens = some (issued_pair p settings user ip ua drawn now);
  }

  -- Who is known and active, not blocked, has the right password and no second factor is handed
  -- tokens, where neither the email with the address nor the account is locked and the names drawn
  -- for the session and the token are new.
  pub admissible_signed_in :
      (w : World S) (user : User)
      → IsAdmissible redis p settings email password ip drawn (record w { db = w.committed }) user
      → (in_session (log_in redis p settings email password ip ua drawn challenge) w).0
        ≡ ok (signed_in user.id w.now)
  unfolding in_session admit_user log_event ◌>>=◌
  admissible_signed_in w user a =
      let u = record w { db = w.committed } in
      rw (log_in_admits u user a) (
        ground (
          arith,
          issue_succeeds p settings user.id ip ua drawn
              (cleared redis p settings email password ip ua drawn challenge u) a.session_free
              a.name_free,
        ))

-- The refresh token that a login handed out is refreshed by the next request, from any address, up
-- to the end of its lifetime, where signed tokens are read back as they were written and the name
-- that is drawn for the successor is free.
pub login_token_accepted :
    {S : Type 0} (redis : Redis S) (p : Providers) (settings : Settings) (email password : Text)
    (ip ua ip' ua' : Option Text) (drawn : NewSession) (challenge new_jti access_jti now : ℕ)
    (w : World S) (r : LoginStepResult) (pair : TokenPair)
    → ReadsBack p settings
    → (in_session (log_in redis p settings email password ip ua drawn challenge) w).0 ≡ ok r
    → r.tokens ≡ some pair
    → w.now ≤ now
    → now < w.now + settings.jwt_refresh_ttl_seconds
    → any
        (has_jti new_jti)
        (in_session
          (log_in redis p settings email password ip ua drawn challenge)
          w).1.committed.refresh_tokens
      ≡ false
    → is_ok
        (in_session
          (refresh_tokens redis p settings ip' ua' pair.refresh_token new_jti access_jti)
          (record (in_session (log_in redis p settings email password ip ua drawn challenge) w).1 {
            now = now;
          })).0
      ≡ true
unfolding in_session
login_token_accepted redis p settings email password ip ua ip' ua' drawn challenge new_jti
      access_jti now w r pair reads admitted handed after before free =
    let u = record w { db = w.committed } in
    let (user, opened) =
      log_in-IsOpened redis p settings email password ip ua drawn challenge u r pair admitted
        handed in
    granted_ok redis p settings ip' ua' pair.refresh_token new_jti access_jti _ (
      opened_rotates p settings user.id ip ua drawn reads u _ pair opened after before ip' ua'
        new_jti access_jti free)
