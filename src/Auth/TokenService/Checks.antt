-- ===== src/Auth/TokenService/Checks.antt =====
-- What the checks of `rotate` and `revoke` guarantee, and that they change nothing.
use backend_platform.Prelude.{ℕ, ◌≡◌, true, some, arith, ◌≤◌}
use backend_platform.Prelude.Text.{Text, text_eq_iff}
use backend_platform.Auth.Db.{Db, RefreshToken}
use backend_platform.Auth.Errors.{ok}
use backend_platform.Auth.Settings.{Settings}
use backend_platform.Auth.Providers.{Providers}
use backend_platform.Auth.World.{World, ◌>>=◌}
use backend_platform.Auth.RefreshClaims.{RefreshIds, refresh_ids}
use backend_platform.Auth.Repositories.RefreshTokens
use backend_platform.Auth.Repositories.Sessions
use backend_platform.Auth.TokenService.{hash_refresh_token, check_rotation}

-- The record is the one that the token names, with the token's owner, family and digest; its
-- family has an active session; and it has not expired.
pub record IsMatch (p : Providers) (settings : Settings) (raw : Text) (now : ℕ) (db : Db)
    (ids : RefreshIds) (t : RefreshToken) : Type 0 where
  pub named : refresh_ids p settings raw now ≡ ok ids
  pub stored : RefreshTokens.get_by_jti_for_update ids.token_jti db ≡ some t
  pub owner : t.user_id ≡ ids.user_id
  pub family : t.family_id ≡ ids.family_id
  pub digest : t.token_hash ≡ hash_refresh_token p settings raw
  pub active : Sessions.is_family_active ids.family_id db ≡ true
  pub unexpired : now ≤ t.expires_at

module _ {S : Type 0} (p : Providers) (settings : Settings) (raw : Text) where
  -- The checks read, and write nothing.
  pub check_rotation_reads : (w : World S) → (check_rotation p settings raw w).1 ≡ w
  unfolding check_rotation ◌>>=◌
  check_rotation_reads w = ground arith

  pub check_rotation_sound :
      (w : World S) (ids : RefreshIds) (t : RefreshToken)
      → (check_rotation p settings raw w).0 ≡ ok (ids, t)
      → IsMatch p settings raw w.now w.db ids t
  unfolding check_rotation ◌>>=◌
  check_rotation_sound w ids t h = record {
    named = ground arith;
    stored = ground arith;
    owner = ground arith;
    family = ground arith;
    digest = ground (arith, text_eq_iff t.token_hash (hash_refresh_token p settings raw));
    active = ground arith;
    unexpired = ground arith;
  }

  pub check_rotation_complete :
      (w : World S) (ids : RefreshIds) (t : RefreshToken)
      → IsMatch p settings raw w.now w.db ids t
      → check_rotation p settings raw w ≡ (ok (ids, t), w)
  unfolding check_rotation ◌>>=◌
  check_rotation_complete w ids t m = ground (
    arith,
    m.named,
    m.stored,
    m.owner,
    m.family,
    m.active,
    m.unexpired,
    (text_eq_iff t.token_hash (hash_refresh_token p settings raw)).1 m.digest,
  )
