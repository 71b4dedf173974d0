-- ===== src/Auth/TokenService/Spent.antt =====
-- Tokens that are spent, over the operations of services/auth-service/app/services/refresh_token_service.py.
use backend_platform.Prelude.{
  ℕ, ◌≡◌, refl, Bool, true, Option, none, some, arith, if◌then◌else◌, is_some, update, find-append,
  find-update,
}
use backend_platform.Prelude.Text.{Text}
use backend_platform.Auth.Db.{Db, RefreshToken, UserSession}
use backend_platform.Auth.Settings.{Settings}
use backend_platform.Auth.Providers.{Providers}
use backend_platform.Auth.World.Keeps.{
  Keeps, Keeps-modify, Keeps-flush, Keeps-clock, Keeps-bind, keeps_rules,
}
use backend_platform.Auth.RefreshClaims.{RefreshIds}
use backend_platform.Auth.Repositories.RefreshTokens
use backend_platform.Auth.Repositories.RefreshTokens.{
  has_jti, is_unrevoked_of_family, is_unrevoked_of_user, revoked_by_logout, rotated, revoked,
}
use backend_platform.Auth.Repositories.Sessions
use backend_platform.Auth.TokenService.Checks.{check_rotation_reads}
use backend_platform.Auth.TokenService.Kept.{TokenProperty}
use backend_platform.Auth.TokenService.{
  NewSession, issue_for_user, check_rotation, reject_reuse, replace, rotate, check_record,
  check_revocation, apply_revocation, finish_revocation, revoke,
}

-- The row of `jti` is there, and revoked.
pub record IsSpent (jti : ℕ) (db : Db) : Type 0 where
  pub token : RefreshToken
  pub stored : RefreshTokens.get_by_jti_for_update jti db ≡ some token
  pub dead : is_some token.revoked_at ≡ true

-- An update of rows that keeps their names and revokes none back.
IsSpent-update :
    (jti : ℕ) (q : RefreshToken → Bool) (f : RefreshToken → RefreshToken)
    → ((t : RefreshToken) → has_jti jti (f t) ≡ has_jti jti t)
    → ((t : RefreshToken) → is_some t.revoked_at ≡ true → is_some (f t).revoked_at ≡ true)
    → (db : Db) → IsSpent jti db
    → IsSpent jti (record db { refresh_tokens = update q f db.refresh_tokens })
unfolding RefreshTokens.get_by_jti_for_update
IsSpent-update jti q f same still db h = record {
  token = if q h.token then f h.token else h.token;
  stored = find-update (has_jti jti) q f same db.refresh_tokens h.token h.stored;
  dead = ground (arith, still h.token, h.dead);
}

-- What leaves the table of tokens alone keeps the row.
pub same_tokens :
    (jti : ℕ) (db db' : Db)
    → db'.refresh_tokens ≡ db.refresh_tokens
    → IsSpent jti db
    → IsSpent jti db'
unfolding RefreshTokens.get_by_jti_for_update
same_tokens jti db db' same h = record { token = h.token; stored = rw same h.stored; dead = h.dead }

module _ {S : Type 0} (jti : ℕ) where
  create-IsSpent : (t : RefreshToken) → Keeps (IsSpent jti) (RefreshTokens.create {S = S} t)
  unfolding RefreshTokens.create RefreshTokens.get_by_jti_for_update
  create-IsSpent t = Keeps-flush _ _ λ db free h. record {
    token = h.token;
    stored = find-append (has_jti jti) db.refresh_tokens _ h.token h.stored;
    dead = h.dead;
  }

  revoke_token-IsSpent :
      (t : RefreshToken) (reason : Text)
      → Keeps (IsSpent jti) (RefreshTokens.revoke_token {S = S} t reason)
  unfolding RefreshTokens.revoke_token
  revoke_token-IsSpent t reason = Keeps-bind _ _ Keeps-clock λ now.
      Keeps-modify _ (
        IsSpent-update jti (has_jti t.jti) (revoked_by_logout now reason) (λ r. refl) (λ r d. refl))

  mark_rotated-IsSpent :
      (t : RefreshToken) (new_jti : ℕ)
      → Keeps (IsSpent jti) (RefreshTokens.mark_rotated {S = S} t new_jti)
  unfolding RefreshTokens.mark_rotated
  mark_rotated-IsSpent t new_jti = Keeps-bind _ _ Keeps-clock λ now.
      Keeps-modify _
        (IsSpent-update jti (has_jti t.jti) (rotated now new_jti) (λ r. refl) (λ r d. refl))

  revoke_family-IsSpent :
      (family : ℕ) (reason : Text)
      → Keeps (IsSpent jti) (RefreshTokens.revoke_family {S = S} family reason)
  unfolding RefreshTokens.revoke_family
  revoke_family-IsSpent family reason = Keeps-bind _ _ Keeps-clock λ now. Keeps-modify _ (
      IsSpent-update jti (is_unrevoked_of_family family) (revoked now reason) (λ r. refl)
        (λ r d. refl))

  pub revoke_all_for_user-IsSpent :
      (user : ℕ) (reason : Text)
      → Keeps (IsSpent jti) (RefreshTokens.revoke_all_for_user {S = S} user reason)
  unfolding RefreshTokens.revoke_all_for_user
  revoke_all_for_user-IsSpent user reason = Keeps-bind _ _ Keeps-clock λ now. Keeps-modify _ (
      IsSpent-update jti (is_unrevoked_of_user user) (revoked now reason) (λ r. refl) (λ r d. refl))

  create_session-IsSpent : (s : UserSession) → Keeps (IsSpent jti) (Sessions.create {S = S} s)
  unfolding Sessions.create
  create_session-IsSpent s = Keeps-flush _ _ λ db free. same_tokens jti db _ refl

  end_family-IsSpent : (family : ℕ) → Keeps (IsSpent jti) (Sessions.revoke_family {S = S} family)
  unfolding Sessions.revoke_family
  end_family-IsSpent family =
      Keeps-bind _ _ Keeps-clock λ now. Keeps-modify _ (λ db. same_tokens jti db _ refl)

  touch_family-IsSpent : (family : ℕ) → Keeps (IsSpent jti) (Sessions.touch_family {S = S} family)
  unfolding Sessions.touch_family
  touch_family-IsSpent family =
      Keeps-bind _ _ Keeps-clock λ now. Keeps-modify _ (λ db. same_tokens jti db _ refl)

ruleset spent_rules = (
  keeps_rules, create-IsSpent, revoke_token-IsSpent, mark_rotated-IsSpent, revoke_family-IsSpent,
  create_session-IsSpent, end_family-IsSpent, touch_family-IsSpent,
)

module _ {S : Type 0} (p : Providers) (settings : Settings) (jti : ℕ) where
  pub issue_for_user-IsSpent :
      (user : ℕ) (ip ua : Option Text) (drawn : NewSession)
      → Keeps (IsSpent jti) (issue_for_user {S = S} p settings user ip ua drawn)
  unfolding issue_for_user
  issue_for_user-IsSpent user ip ua drawn = search spent_rules

  check_rotation-IsSpent :
      (raw : Text) → Keeps (IsSpent jti) (check_rotation {S = S} p settings raw)
  check_rotation-IsSpent raw = record { at = λ w h. rw check_rotation_reads h }

  reject_reuse-IsSpent :
      (ids : RefreshIds) → Keeps (IsSpent jti) (reject_reuse {S = S} p settings ids)
  unfolding reject_reuse
  reject_reuse-IsSpent ids = search spent_rules

  replace-IsSpent :
      (ids : RefreshIds) (t : RefreshToken) (ip ua : Option Text) (new_jti access_jti : ℕ)
      → Keeps (IsSpent jti) (replace {S = S} p settings ids t ip ua new_jti access_jti)
  unfolding replace
  replace-IsSpent ids t ip ua new_jti access_jti = search spent_rules

  pub rotate-IsSpent :
      (raw : Text) (ip ua : Option Text) (new_jti access_jti : ℕ)
      → Keeps (IsSpent jti) (rotate {S = S} p settings raw ip ua new_jti access_jti)
  unfolding rotate
  rotate-IsSpent raw ip ua new_jti access_jti =
      search (spent_rules, check_rotation-IsSpent, reject_reuse-IsSpent, replace-IsSpent)

  check_record-IsSpent :
      (raw : Text) (ids : RefreshIds) (found : Option RefreshToken)
      → Keeps (IsSpent jti) (check_record {S = S} p settings raw ids found)
  unfolding check_record
  check_record-IsSpent raw ids none = search spent_rules
  check_record-IsSpent raw ids (some t) = search spent_rules

  apply_revocation-IsSpent :
      (ids : RefreshIds) (t : RefreshToken) (family : Bool) (reason : Text)
      → Keeps (IsSpent jti) (apply_revocation {S = S} p settings ids t family reason)
  unfolding apply_revocation
  apply_revocation-IsSpent ids t family reason = search spent_rules

  finish_revocation-IsSpent :
      (family : Bool) (reason : Text) (checked : Option (RefreshIds × RefreshToken))
      → Keeps (IsSpent jti) (finish_revocation {S = S} p settings family reason checked)
  unfolding finish_revocation
  finish_revocation-IsSpent family reason none = search spent_rules
  finish_revocation-IsSpent family reason (some (ids, t)) =
      search (spent_rules, apply_revocation-IsSpent)

  pub revoke-IsSpent :
      (raw : Text) (family : Bool) (reason : Text)
      → Keeps (IsSpent jti) (revoke {S = S} p settings raw family reason)
  unfolding revoke check_revocation
  revoke-IsSpent raw family reason =
      search (spent_rules, check_record-IsSpent, finish_revocation-IsSpent)

-- Spent tokens stay spent.
pub IsSpent-kept :
    {S : Type 0} (p : Providers) (settings : Settings) (jti : ℕ)
    → TokenProperty S p settings (IsSpent jti)
IsSpent-kept p settings jti = record {
  same = same_tokens jti;
  issue = issue_for_user-IsSpent p settings jti;
  rotates = rotate-IsSpent p settings jti;
  revokes = revoke-IsSpent p settings jti;
  revokes_all = revoke_all_for_user-IsSpent jti;
}
