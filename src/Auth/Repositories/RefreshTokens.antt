-- ===== src/Auth/Repositories/RefreshTokens.antt =====
-- services/auth-service/app/repositories/refresh_token_repository.py
use backend_platform.Prelude.{
  ℕ, Bool, not, ◌&&◌, Option, none, some, is_some, [], ◌∷◌, ◌++◌, find, update, any, ◌==◌,
}
use backend_platform.Prelude.Text.{Text, codes}
use backend_platform.Auth.Db.{Db, RefreshToken}
use backend_platform.Auth.World.{Action, flush, modify, clock, ◌>>=◌}

abbrev pub has_jti : ℕ → RefreshToken → Bool
has_jti jti t = t.jti == jti

-- `revoked_at IS NULL`
abbrev pub is_unrevoked : RefreshToken → Bool
is_unrevoked t = not (is_some t.revoked_at)

abbrev pub is_unrevoked_of_family : ℕ → RefreshToken → Bool
is_unrevoked_of_family family_id t = t.family_id == family_id && is_unrevoked t

abbrev pub is_unrevoked_of_user : ℕ → RefreshToken → Bool
is_unrevoked_of_user user_id t = t.user_id == user_id && is_unrevoked t

-- The values that the statements and methods write.
abbrev pub revoked_by_logout : ℕ → Text → RefreshToken → RefreshToken
revoked_by_logout now reason t = record t {
  revoked_at = some now;
  revocation_reason = some reason;
  replaced_by_jti = none;
}

abbrev pub rotated : ℕ → ℕ → RefreshToken → RefreshToken
rotated now replaced_by_jti t = record t {
  rotated_at = some now;
  revoked_at = some now;
  revocation_reason = some (codes "rotated");
  replaced_by_jti = some replaced_by_jti;
}

abbrev pub revoked : ℕ → Text → RefreshToken → RefreshToken
revoked now reason t = record t { revoked_at = some now; revocation_reason = some reason }

unfoldable pub get_by_jti_for_update : ℕ → Db → Option RefreshToken
get_by_jti_for_update jti db = find (has_jti jti) db.refresh_tokens

module _ {S : Type 0} where
  -- The column `jti` is unique.
  unfoldable pub create : RefreshToken → Action S (Unit {0})
  create token =
      flush (λ db. any (has_jti token.jti) db.refresh_tokens)
        (λ db. record db { refresh_tokens = db.refresh_tokens ++ (token ∷ []) })

  unfoldable pub revoke_token : RefreshToken → Text → Action S (Unit {0})
  revoke_token token reason = do
    now ← clock
    modify λ db. record db {
      refresh_tokens = update (has_jti token.jti) (revoked_by_logout now reason) db.refresh_tokens;
    }

  unfoldable pub mark_rotated : RefreshToken → ℕ → Action S (Unit {0})
  mark_rotated token replaced_by_jti = do
    now ← clock
    modify λ db. record db {
      refresh_tokens = update (has_jti token.jti) (rotated now replaced_by_jti) db.refresh_tokens;
    }

  unfoldable pub revoke_family : ℕ → Text → Action S (Unit {0})
  revoke_family family_id reason = do
    now ← clock
    modify λ db. record db {
      refresh_tokens =
          update (is_unrevoked_of_family family_id) (revoked now reason) db.refresh_tokens;
    }

  unfoldable pub revoke_all_for_user : ℕ → Text → Action S (Unit {0})
  revoke_all_for_user user_id reason = do
    now ← clock
    modify λ db. record db {
      refresh_tokens = update (is_unrevoked_of_user user_id) (revoked now reason) db.refresh_tokens;
    }
