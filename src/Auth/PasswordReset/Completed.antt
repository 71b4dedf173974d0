-- ===== src/Auth/PasswordReset/Completed.antt =====
-- What `reset_password` needs to succeed, and what it does then
-- (services/auth-service/app/services/password_reset_service.py).
use backend_platform.Prelude.{
  ℕ, ◌≤◌, max, ◌≡◌, refl, ◌∙◌, sym, ap, false, not, Option, none, some, List, [], ◌∷◌, All, map,
  select, update-clears, select-clears, select-others, arith, ◌==◌, ==_refl, Option-cases, inl, inr,
}
use backend_platform.Prelude.Text.{Text, codes, lower, text_eq_refl}
use backend_platform.Redis.{Redis, RedisLaws}
use backend_platform.Redis.Keys.{access_session_revoked_key}
use backend_platform.Auth.Db.{Db, User, PasswordResetToken, UserSession}
use backend_platform.Auth.Errors.{Result, ok, err, bad_request, Result-cases}
use backend_platform.Auth.Settings.{Settings}
use backend_platform.Auth.Providers.{Providers}
use backend_platform.Auth.World.{World, ◌>>=◌, bind_ok}
use backend_platform.Auth.Events.{log_event}
use backend_platform.Auth.Passwords.{hash_password}
use backend_platform.Auth.Privacy.{client_identifier}
use backend_platform.Auth.Repositories.Users
use backend_platform.Auth.Repositories.ResetTokens
use backend_platform.Auth.Repositories.RefreshTokens
use backend_platform.Auth.Repositories.RefreshTokens.{is_unrevoked_of_user, revoked}
use backend_platform.Auth.Repositories.Sessions
use backend_platform.Auth.Repositories.Sessions.{is_active_of_user, ended}
use backend_platform.Auth.AuthService.Steps.{mark_access_session_revoked}
use backend_platform.Auth.AuthService.Reuse.{flag}
use backend_platform.Auth.PasswordReset.{
  hash_token, mark_access_sessions_revoked, replace_password, conclude_reset, complete_reset,
  refuse_code, record_reset_failure, block_reset, check_code, reset_user, reset_password,
}

-- The user's row with a new password, which lifts both blocks.
abbrev pub renewed : Text → User → User
renewed hash user = record user {
  password_hash = hash;
  login_blocked = false;
  password_reset_blocked = false;
}

-- The same rows in the tables that a reset is about.
record Stored (db db' : Db) : Type 0 where
  refresh_tokens : db'.refresh_tokens ≡ db.refresh_tokens
  sessions : db'.sessions ≡ db.sessions
  users : db'.users ≡ db.users
  secrets : db'.secrets ≡ db.secrets
  backup_codes : db'.backup_codes ≡ db.backup_codes

module _ {S : Type 0} (redis : Redis S) (laws : RedisLaws redis) (p : Providers)
    (settings : Settings) where
  abbrev revoked_key : ℕ → Text
  revoked_key session_id = access_session_revoked_key (p.uuid_text session_id)

  -- The server after each session's flag is set.
  abbrev marks : List ℕ → ℕ → S → S
  marks [] now s = s
  marks (i ∷ is) now s =
      marks is now
        (redis.set s now (revoked_key i) (codes "1") (max settings.jwt_access_ttl_seconds 60))

  mark_access_sessions_revoked_run :
      (ids : List ℕ) (w : World S)
      → mark_access_sessions_revoked redis p settings ids w
        ≡ (ok tt, record w { redis = marks ids w.now w.redis })
  unfolding mark_access_sessions_revoked ◌>>=◌ mark_access_session_revoked
  mark_access_sessions_revoked_run [] w = refl
  mark_access_sessions_revoked_run (i ∷ is) w = mark_access_sessions_revoked_run is (record w {
    redis =
        redis.set w.redis w.now (revoked_key i) (codes "1")
          (max settings.jwt_access_ttl_seconds 60);
  })

  abbrev IsFlagged : ℕ → S → ℕ → Type 0
  IsFlagged now s i = redis.stored s (revoked_key i) ≡ flag redis laws p settings now

  -- A flag that is set stays set while others are.
  marks-keep :
      (ids : List ℕ) (now : ℕ) (s : S) (i : ℕ)
      → IsFlagged now s i
      → IsFlagged now (marks ids now s) i
  marks-keep [] now s i h = h
  marks-keep (j ∷ js) now s i h = marks-keep js now _ i (
      ground (
        arith,
        h,
        laws.stored-set s now (revoked_key j) (codes "1") (max settings.jwt_access_ttl_seconds 60)
            (revoked_key i),
      ))

  marks-IsFlagged : (ids : List ℕ) (now : ℕ) (s : S) → All (IsFlagged now (marks ids now s)) ids
  marks-IsFlagged [] now s = tt
  marks-IsFlagged (i ∷ is) now s = (
    marks-keep is now _ i (
        ground (
          arith,
          laws.stored-set s now (revoked_key i) (codes "1") (max settings.jwt_access_ttl_seconds 60)
              (revoked_key i),
          text_eq_refl (revoked_key i),
        )),
    marks-IsFlagged is now _,
  )

  module _ (ip ua : Option Text) where
    -- The tables after a reset.
    pub record IsShutOut (user_id : ℕ) (w w' : World S) : Type 0 where
      -- No refresh token of the user is unrevoked, and no session is active.
      pub no_token : All (λ t. is_unrevoked_of_user user_id t ≡ false) w'.committed.refresh_tokens
      pub no_session : Sessions.list_active_session_ids_for_user user_id w'.committed ≡ []
      -- Other users' tokens, sessions and rows are as they were.
      pub others :
          select (λ t. not (t.user_id == user_id)) w'.committed.refresh_tokens
          ≡ select (λ t. not (t.user_id == user_id)) w.db.refresh_tokens
      pub other_sessions :
          select (λ s. not (s.user_id == user_id)) w'.committed.sessions
          ≡ select (λ s. not (s.user_id == user_id)) w.db.sessions
      pub other_users :
          select (λ u. not (u.id == user_id)) w'.committed.users
          ≡ select (λ u. not (u.id == user_id)) w.db.users
      pub second_factors : w'.committed.secrets ≡ w.db.secrets
      pub backup_codes : w'.committed.backup_codes ≡ w.db.backup_codes

    pub conclude_reset-marks :
        (id account : Text) (user : User) (ids : List ℕ) (w : World S)
        → conclude_reset redis p settings ip ua id account user ids w
          ≡ conclude_reset redis p settings ip ua id account user []
              (record w { redis = marks ids w.now w.redis })
    unfolding conclude_reset mark_access_sessions_revoked ◌>>=◌
    conclude_reset-marks id account user ids w =
        bind_ok (mark_access_sessions_revoked redis p settings ids)
          (λ _. conclude_reset redis p settings ip ua id account user []) w _ tt
          (mark_access_sessions_revoked_run ids w)

    -- The part that follows the writes commits them.
    conclude_reset_commits :
        (id account : Text) (user : User) (ids : List ℕ) (w : World S)
        → Stored w.db (conclude_reset redis p settings ip ua id account user ids w).1.committed
    unfolding conclude_reset ◌>>=◌ log_event mark_access_sessions_revoked
    conclude_reset_commits id account user ids w =
        rw (conclude_reset-marks id account user ids w) (record {
          refresh_tokens = refl;
          sessions = refl;
          users = refl;
          secrets = refl;
          backup_codes = refl;
        })

    complete_reset_shuts :
        (id account password salt : Text) (user : User) (row : PasswordResetToken) (w : World S)
        → (complete_reset redis p settings ip ua id account password salt user row w).0 ≡ ok tt
        → IsShutOut user.id w
            (complete_reset redis p settings ip ua id account password salt user row w).1
    unfolding complete_reset replace_password ◌>>=◌ Users.update_password Users.save
        ResetTokens.mark_used RefreshTokens.revoke_all_for_user Sessions.revoke_user_sessions
        Sessions.list_active_session_ids_for_user
    complete_reset_shuts id account password salt user row w h =
        elim (Result-cases (hash_password p salt password)) [
          | inr (e, bad) ↦ absurd (ground (arith, bad, h))
          | inl (hash, good) ↦
              let stored =
                conclude_reset_commits id account user
                  (Sessions.list_active_session_ids_for_user user.id w.db)
                  (replace_password redis p settings ip ua hash user row w).1 in
              rw good (record {
                no_token = rw stored.refresh_tokens (
                    update-clears (is_unrevoked_of_user user.id)
                      (revoked w.now (codes "password_reset")) (λ x. ground arith)
                      w.db.refresh_tokens);
                no_session = rw stored.sessions (
                    ap (λ (rows : List UserSession). map (λ s. s.id) rows)
                      (select-clears (is_active_of_user user.id) (ended w.now) (λ x. ground arith)
                        w.db.sessions));
                others = rw stored.refresh_tokens (
                    select-others (λ t. not (t.user_id == user.id)) (is_unrevoked_of_user user.id)
                      (revoked w.now (codes "password_reset")) (λ x q. ground (arith, q))
                      (λ x q. refl) w.db.refresh_tokens);
                other_sessions = rw stored.sessions (
                    select-others (λ s. not (s.user_id == user.id)) (is_active_of_user user.id)
                      (ended w.now) (λ x q. ground (arith, q)) (λ x q. refl) w.db.sessions);
                other_users = rw stored.users (
                    select-others (λ u. not (u.id == user.id)) (λ u. u.id == user.id)
                      (λ _. renewed hash user) (λ x q. ground (arith, q))
                      (λ x q. ground (arith, q, ==_refl user.id)) w.db.users);
                second_factors = stored.secrets;
                backup_codes = stored.backup_codes;
              })
        ]

    refuse_code_err :
        (id account : Text) (found : Option User) (w : World S)
        → (refuse_code redis p settings ip ua id account found w).0 ≡ err bad_request
    unfolding refuse_code record_reset_failure block_reset ◌>>=◌ Users.save
    refuse_code_err id account none w = refl
    refuse_code_err id account (some user) w = ground arith

    -- A reset that went through: the code is an unused one of the user's, in time, and the user is shut
    -- out everywhere.
    pub record IsReset (email code : Text) (w w' : World S) : Type 0 where
      pub user : User
      pub row : PasswordResetToken
      pub known : Users.get_by_email (lower email) w.db ≡ some user
      pub not_blocked : user.password_reset_blocked ≡ false
      pub stored :
          ResetTokens.get_active_for_user_by_hash user.id (hash_token p settings code) w.db
          ≡ some row
      pub in_time : w.now ≤ row.expires_at
      pub shut_out : IsShutOut user.id w w'

    reset_user_run :
        (id account code password salt : Text) (user : User) (row : PasswordResetToken)
        (w : World S)
        → ResetTokens.get_active_for_user_by_hash user.id (hash_token p settings code) w.db
          ≡ some row
        → (reset_user redis p settings ip ua id account code password salt (some user) w).0 ≡ ok tt
        → (user.password_reset_blocked ≡ false)
          × (w.now ≤ row.expires_at)
          × (reset_user redis p settings ip ua id account code password salt (some user) w
              ≡ complete_reset redis p settings ip ua id account password salt user row w)
    unfolding reset_user check_code ◌>>=◌
    reset_user_run id account code password salt user row w e h = (
      ground (arith, e, h),
      ground (arith, e, h, refuse_code_err id account (some user) w),
      ground (arith, e, h, refuse_code_err id account (some user) w),
    )

    no_code :
        (id account code password salt : Text) (user : User) (w : World S)
        → ResetTokens.get_active_for_user_by_hash user.id (hash_token p settings code) w.db ≡ none
        → (reset_user redis p settings ip ua id account code password salt (some user) w).0 ≡ ok tt
        → ⊥
    unfolding reset_user check_code ◌>>=◌
    no_code id account code password salt user w e h =
        ground (arith, e, h, refuse_code_err id account (some user) w)

    no_user :
        (id account code password salt : Text) (w : World S)
        → (reset_user redis p settings ip ua id account code password salt none w).0 ≡ ok tt
        → ⊥
    unfolding reset_user
    no_user id account code password salt w h = ground (arith, h, refuse_code_err id account none w)

    reset_user-IsReset :
        (id account email code password salt : Text) (user : User) (w : World S)
        → Users.get_by_email (lower email) w.db ≡ some user
        → (reset_user redis p settings ip ua id account code password salt (some user) w).0 ≡ ok tt
        → IsReset email code w
            (reset_user redis p settings ip ua id account code password salt (some user) w).1
    reset_user-IsReset id account email code password salt user w known h =
        elim (Option-cases
          (ResetTokens.get_active_for_user_by_hash user.id (hash_token p settings code) w.db)) [
            | inl e ↦ absurd (no_code id account code password salt user w e h)
            | inr (row, e) ↦
                let (not_blocked, in_time, run) =
                  reset_user_run id account code password salt user row w e h in
                record {
                  user = user;
                  row = row;
                  known = known;
                  not_blocked = not_blocked;
                  stored = e;
                  in_time = in_time;
                  shut_out = rw run (
                      complete_reset_shuts id account password salt user row w
                        (ap (λ (r : Result (Unit {0}) × World S). r.0) (sym run) ∙ h));
                }
          ]

    reset_password_run :
        (email code password salt : Text) (w : World S)
        → (reset_password redis p settings ip ua email code password salt w).0 ≡ ok tt
        → reset_password redis p settings ip ua email code password salt w
          ≡ reset_user redis p settings ip ua
              (client_identifier (lower email) ip)
              (lower email)
              code
              password
              salt
              (Users.get_by_email (lower email) w.db)
              w
    unfolding reset_password ◌>>=◌
    reset_password_run email code password salt w h = ground (arith, h)

    -- A reset that succeeds was asked for with an unused code of the user's that had not expired, and
    -- once it is committed no refresh token of the user is unrevoked and no session is active, while the
    -- refresh tokens, the sessions and the rows of other users are as they were, and so are all second
    -- factors.
    pub reset_password-IsReset :
        (email code password salt : Text) (w : World S)
        → (reset_password redis p settings ip ua email code password salt w).0 ≡ ok tt
        → IsReset email code w (reset_password redis p settings ip ua email code password salt w).1
    reset_password-IsReset email code password salt w h =
        let run = reset_password_run email code password salt w h in
        let ran = ap (λ (r : Result (Unit {0}) × World S). r.0) (sym run) ∙ h in
        elim (Option-cases (Users.get_by_email (lower email) w.db)) [
          | inl e ↦ absurd (
              no_user (client_identifier (lower email) ip) (lower email) code password salt w
                (rw e at ran))
          | inr (user, e) ↦
              let run' =
                run
                ∙ ap
                    (λ found.
                      reset_user redis p settings ip ua (client_identifier (lower email) ip)
                        (lower email) code password salt found w)
                    e in
              rw run' (
                reset_user-IsReset (client_identifier (lower email) ip) (lower email) email code
                  password salt user w e (rw e at ran))
        ]

    -- After the loop every session of the list is flagged, those that came first included, for as
    -- long as the setting says and a minute at least.
    pub marked_sessions_flagged :
        (ids : List ℕ) (w : World S)
        → All
            (λ i.
              redis.stored
                (mark_access_sessions_revoked redis p settings ids w).1.redis
                (access_session_revoked_key (p.uuid_text i))
              ≡ flag redis laws p settings w.now)
            ids
    marked_sessions_flagged ids w =
        rw (mark_access_sessions_revoked_run ids w) (marks-IsFlagged ids w.now w.redis)
