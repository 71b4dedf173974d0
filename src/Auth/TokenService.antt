-- ===== src/Auth/TokenService.antt =====
-- Issuing, rotating and revoking refresh tokens
-- (services/auth-service/app/services/refresh_token_service.py). What `uuid4` draws is an argument.
pub mod Checks
pub mod Spent
pub mod Kept
pub mod OneLive
pub mod Issued
pub mod Opened
pub mod Refines
pub mod Rotation
pub mod SingleUse
use backend_platform.Prelude.{
  ℕ, Bool, not, ◌||◌, Option, none, some, is_some, ltb, ◌==◌, if◌then◌else◌,
}
use backend_platform.Prelude.Text.{Text, codes, text_eq}
use backend_platform.Auth.Db.{RefreshToken}
use backend_platform.Auth.Errors.{invalid_token, token_reuse_detected}
use backend_platform.Auth.Settings.{Settings}
use backend_platform.Auth.Providers.{Providers}
use backend_platform.Auth.Jwt.{issue_access_token, issue_refresh_token}
use backend_platform.Auth.World.{
  Action, pure, raise, lift, gets, or_raise, raise_if, clock, branch, ◌>>=◌, ◌>>◌,
}
use backend_platform.Auth.RefreshClaims.{RefreshIds, refresh_ids}
use backend_platform.Auth.Repositories.RefreshTokens
use backend_platform.Auth.Repositories.Sessions

pub record TokenPair : Type 0 where
  pub access_token : Text
  pub refresh_token : Text
  pub access_expires_in : ℕ
  pub refresh_family_id : ℕ
  pub session_id : ℕ

pub record RefreshRevocationResult : Type 0 where
  pub family_id : ℕ
  pub session_id : ℕ

-- The identifiers drawn for a new session.
pub record NewSession : Type 0 where
  pub family_id : ℕ
  pub session_id : ℕ
  pub refresh_jti : ℕ
  pub access_jti : ℕ

-- `_hash_refresh_token`
unfoldable pub hash_refresh_token : Providers → Settings → Text → Text
hash_refresh_token p settings raw_token = p.hmac settings.refresh_token_hash_pepper raw_token

module _ {S : Type 0} (p : Providers) (settings : Settings) where
  unfoldable pub issue_for_user : ℕ → Option Text → Option Text → NewSession → Action S TokenPair
  issue_for_user user_id ip_address user_agent drawn = do
    now ← clock
    Sessions.create (record {
      id = drawn.session_id;
      user_id = user_id;
      refresh_family_id = drawn.family_id;
      ip_address = ip_address;
      user_agent = user_agent;
      last_seen_at = now;
      revoked_at = none;
    })
    let (refresh_token, refresh_exp) =
        issue_refresh_token p settings user_id drawn.session_id drawn.family_id drawn.refresh_jti
          now
    RefreshTokens.create (record {
      user_id = user_id;
      jti = drawn.refresh_jti;
      family_id = drawn.family_id;
      parent_jti = none;
      token_hash = hash_refresh_token p settings refresh_token;
      expires_at = refresh_exp;
      rotated_at = none;
      revoked_at = none;
      replaced_by_jti = none;
      revocation_reason = none;
      ip_address = ip_address;
      user_agent = user_agent;
    })
    let (access_token, access_expires_in) =
        issue_access_token p settings user_id drawn.session_id drawn.access_jti now
    pure (record {
      access_token = access_token;
      refresh_token = refresh_token;
      access_expires_in = access_expires_in;
      refresh_family_id = drawn.family_id;
      session_id = drawn.session_id;
    })

  -- The checks of `rotate`, up to the test for reuse.
  unfoldable pub check_rotation : Text → Action S (RefreshIds × RefreshToken)
  check_rotation raw_refresh_token = do
    now ← clock
    ids ← lift (refresh_ids p settings raw_refresh_token now)
    found ← gets (RefreshTokens.get_by_jti_for_update ids.token_jti)
    token_record ← or_raise found invalid_token
    raise_if
        (not (token_record.user_id == ids.user_id) || not (token_record.family_id == ids.family_id))
        invalid_token
    raise_if
        (not (text_eq token_record.token_hash (hash_refresh_token p settings raw_refresh_token)))
        invalid_token
    family_active ← gets (Sessions.is_family_active ids.family_id)
    raise_if (not family_active) invalid_token
    raise_if (ltb token_record.expires_at now) invalid_token
    pure (ids, token_record)

  -- The answer of `rotate` to a token that was rotated or revoked before.
  unfoldable pub reject_reuse : RefreshIds → Action S TokenPair
  reject_reuse ids = do
    RefreshTokens.revoke_family ids.family_id (codes "reuse_detected")
    Sessions.revoke_family ids.family_id
    raise (token_reuse_detected ids.session_id ids.family_id)

  -- The rest of `rotate`: the old token gives way to a new one of its family.
  unfoldable pub replace :
      RefreshIds → RefreshToken → Option Text → Option Text → ℕ → ℕ → Action S TokenPair
  replace ids token_record ip_address user_agent new_jti access_jti = do
    now ← clock
    let (new_refresh_token, new_refresh_exp) =
        issue_refresh_token p settings ids.user_id ids.session_id ids.family_id new_jti now
    RefreshTokens.mark_rotated token_record new_jti
    RefreshTokens.create (record {
      user_id = ids.user_id;
      jti = new_jti;
      family_id = ids.family_id;
      parent_jti = some token_record.jti;
      token_hash = hash_refresh_token p settings new_refresh_token;
      expires_at = new_refresh_exp;
      rotated_at = none;
      revoked_at = none;
      replaced_by_jti = none;
      revocation_reason = none;
      ip_address = ip_address;
      user_agent = user_agent;
    })
    Sessions.touch_family ids.family_id
    let (access_token, access_expires_in) =
        issue_access_token p settings ids.user_id ids.session_id access_jti now
    pure (record {
      access_token = access_token;
      refresh_token = new_refresh_token;
      access_expires_in = access_expires_in;
      refresh_family_id = ids.family_id;
      session_id = ids.session_id;
    })

  unfoldable pub rotate : Text → Option Text → Option Text → ℕ → ℕ → Action S TokenPair
  rotate raw_refresh_token ip_address user_agent new_jti access_jti = do
    checked ← check_rotation raw_refresh_token
    let (ids, token_record) = checked
    branch (is_some token_record.revoked_at || is_some token_record.rotated_at) (reject_reuse ids)
        (replace ids token_record ip_address user_agent new_jti access_jti)

  -- The checks of `revoke` on the record that the token names, and `none` where there is none.
  unfoldable pub check_record :
      Text → RefreshIds → Option RefreshToken → Action S (Option (RefreshIds × RefreshToken))
  check_record raw_refresh_token ids none = pure none
  check_record raw_refresh_token ids (some token_record) = do
    raise_if
        (not (text_eq token_record.token_hash (hash_refresh_token p settings raw_refresh_token)))
        invalid_token
    raise_if (not (token_record.family_id == ids.family_id)) invalid_token
    raise_if (not (token_record.user_id == ids.user_id)) invalid_token
    pure (some (ids, token_record))

  unfoldable pub check_revocation : Text → Action S (Option (RefreshIds × RefreshToken))
  unfolding check_record
  check_revocation raw_refresh_token = do
    now ← clock
    ids ← lift (refresh_ids p settings raw_refresh_token now)
    found ← gets (RefreshTokens.get_by_jti_for_update ids.token_jti)
    check_record raw_refresh_token ids found

  -- The writes of `revoke`.
  unfoldable pub apply_revocation :
      RefreshIds → RefreshToken → Bool → Text → Action S RefreshRevocationResult
  apply_revocation ids token_record family reason = do
    branch family
        (do RefreshTokens.revoke_family ids.family_id reason; Sessions.revoke_family ids.family_id)
        (RefreshTokens.revoke_token token_record reason)
    pure (record { family_id = ids.family_id; session_id = ids.session_id })

  unfoldable pub finish_revocation :
      Bool → Text → Option (RefreshIds × RefreshToken) → Action S (Option RefreshRevocationResult)
  finish_revocation family reason none = pure none
  finish_revocation family reason (some (ids, token_record)) = do
    result ← apply_revocation ids token_record family reason
    pure (some result)

  unfoldable pub revoke : Text → Bool → Text → Action S (Option RefreshRevocationResult)
  unfolding finish_revocation
  revoke raw_refresh_token family reason = do
    checked ← check_revocation raw_refresh_token
    finish_revocation family reason checked
