-- ===== src/Auth/TokenService/OneLive.antt =====
-- The tokens of a family that are not revoked, over the operations of the token tables
-- (services/auth-service/app/repositories/refresh_token_repository.py and
-- session_repository.py).
pub mod Kept
use backend_platform.Prelude.{
  ℕ, ◌++◌, ◌∷◌, [], ◌≤◌, ◌≡◌, refl, sym, subst, Bool, true, false, ◌||◌, Option, none, some, List,
  arith, is_some, ◌==◌, ==_iff, update, any, count, count-append, count-update_le, count-update_lt,
  count-update_same, not, ◌&&◌, find, find_sound, Bool-cases, inl, inr,
}
use backend_platform.Prelude.Text.{Text, codes}
use backend_platform.Auth.Db.{Db, RefreshToken, UserSession}
use backend_platform.Auth.Errors.{Result-cases}
use backend_platform.Auth.Settings.{Settings}
use backend_platform.Auth.Providers.{Providers}
use backend_platform.Auth.World.{World, modify}
use backend_platform.Auth.World.Keeps.{
  Keeps, Holds, Keeps-modify, Keeps-flush, Keeps-clock, Keeps-bind, keeps_rules,
}
use backend_platform.Auth.RefreshClaims.{RefreshIds}
use backend_platform.Auth.Repositories.RefreshTokens
use backend_platform.Auth.Repositories.RefreshTokens.{
  has_jti, is_unrevoked_of_family, is_unrevoked_of_user, revoked_by_logout, rotated, revoked,
}
use backend_platform.Auth.Repositories.Sessions
use backend_platform.Auth.TokenService.Checks.{IsMatch, check_rotation_sound}
use backend_platform.Auth.TokenService.Rotation.{
  successor, rotate_err_check, rotate_reused, rotate_taken, rotate_fresh,
}
use backend_platform.Auth.TokenService.Kept.{TokenProperty}
use backend_platform.Auth.TokenService.{
  NewSession, issue_for_user, check_rotation, rotate, check_record, check_revocation,
  apply_revocation, finish_revocation, revoke,
}

-- How many tokens of a family are not revoked.
abbrev pub live : ℕ → Db → ℕ
live family db = count (is_unrevoked_of_family family) db.refresh_tokens

-- The tokens with which a login opened a family: those that no other token gave way to.
abbrev pub is_first_of_family : ℕ → RefreshToken → Bool
is_first_of_family family t = t.family_id == family && not (is_some t.parent_jti)

abbrev pub opened : ℕ → Db → ℕ
opened family db = count (is_first_of_family family) db.refresh_tokens

pub record IsCovered (family : ℕ) (db : Db) : Type 0 where
  pub bound : live family db ≤ opened family db

module _ (family : ℕ) where
  pub same-IsCovered :
      (db db' : Db)
      → db'.refresh_tokens ≡ db.refresh_tokens
      → IsCovered family db
      → IsCovered family db'
  same-IsCovered db db' same h = record { bound = rw same h.bound }

  pub modify-IsCovered :
      (q : RefreshToken → Bool) (f : RefreshToken → RefreshToken)
      → ((t : RefreshToken) → is_unrevoked_of_family family (f t) ≡ false)
      → ((t : RefreshToken) → is_first_of_family family (f t) ≡ is_first_of_family family t)
      → (db : Db) → IsCovered family db
      → IsCovered family (record db { refresh_tokens = update q f db.refresh_tokens })
  modify-IsCovered q f dead same db h = record {
    bound = ground (
      arith,
      h.bound,
      count-update_le (is_unrevoked_of_family family) q f dead db.refresh_tokens,
      count-update_same (is_first_of_family family) q f same db.refresh_tokens,
    );
  }

module _ {S : Type 0} (family : ℕ) where
  untouched-IsCovered :
      (f : Db → Db)
      → ((db : Db) → (f db).refresh_tokens ≡ db.refresh_tokens)
      → Keeps (IsCovered family) (modify {S = S} f)
  untouched-IsCovered f same = Keeps-modify f λ db. same-IsCovered family db (f db) (same db)

  pub create-IsCovered :
      (t : RefreshToken)
      → t.parent_jti ≡ none
      → Keeps (IsCovered family) (RefreshTokens.create {S = S} t)
  unfolding RefreshTokens.create
  create-IsCovered t first = Keeps-flush _ _ λ db free h. record {
    bound = ground (
      arith,
      h.bound,
      first,
      count-append (is_unrevoked_of_family family) db.refresh_tokens (t ∷ []),
      count-append (is_first_of_family family) db.refresh_tokens (t ∷ []),
    );
  }

  pub revoke_token-IsCovered :
      (t : RefreshToken) (reason : Text)
      → Keeps (IsCovered family) (RefreshTokens.revoke_token {S = S} t reason)
  unfolding RefreshTokens.revoke_token
  revoke_token-IsCovered t reason = Keeps-bind _ _ Keeps-clock λ now. Keeps-modify _ (
      modify-IsCovered family (has_jti t.jti) (revoked_by_logout now reason) (λ r. ground arith)
        (λ r. refl))

  pub revoke_family-IsCovered :
      (other : ℕ) (reason : Text)
      → Keeps (IsCovered family) (RefreshTokens.revoke_family {S = S} other reason)
  unfolding RefreshTokens.revoke_family
  revoke_family-IsCovered other reason = Keeps-bind _ _ Keeps-clock λ now. Keeps-modify _ (
      modify-IsCovered family (is_unrevoked_of_family other) (revoked now reason)
        (λ r. ground arith) (λ r. refl))

  pub revoke_all-IsCovered :
      (user : ℕ) (reason : Text)
      → Keeps (IsCovered family) (RefreshTokens.revoke_all_for_user {S = S} user reason)
  unfolding RefreshTokens.revoke_all_for_user
  revoke_all-IsCovered user reason = Keeps-bind _ _ Keeps-clock λ now. Keeps-modify _ (
      modify-IsCovered family (is_unrevoked_of_user user) (revoked now reason) (λ r. ground arith)
        (λ r. refl))

  pub create_session-IsCovered :
      (s : UserSession) → Keeps (IsCovered family) (Sessions.create {S = S} s)
  unfolding Sessions.create
  create_session-IsCovered s =
      Keeps-flush _ (λ db. record db { sessions = db.sessions ++ (s ∷ []) })
        λ db free. same-IsCovered family db (record db { sessions = db.sessions ++ (s ∷ []) }) refl

  pub end_family-IsCovered :
      (other : ℕ) → Keeps (IsCovered family) (Sessions.revoke_family {S = S} other)
  unfolding Sessions.revoke_family
  end_family-IsCovered other = Keeps-bind _ _ Keeps-clock λ now. untouched-IsCovered _ λ db. refl

pub ruleset live_rules = (
  keeps_rules, create-IsCovered, revoke_token-IsCovered, revoke_family-IsCovered,
  create_session-IsCovered, end_family-IsCovered,
)
