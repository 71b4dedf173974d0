-- ===== src/Auth/Repositories/Sessions.antt =====
-- services/auth-service/app/repositories/session_repository.py, which
-- services/auth-service/app/services/session_service.py passes on call by call.
use backend_platform.Prelude.{
  ℕ, Bool, not, ◌&&◌, some, is_some, List, [], ◌∷◌, ◌++◌, map, select, update, any, count, ltb,
  ◌==◌,
}
use backend_platform.Auth.Db.{Db, UserSession}
use backend_platform.Auth.World.{Action, flush, modify, clock, ◌>>=◌}

-- `revoked_at IS NULL`
abbrev pub is_active_session : UserSession → Bool
is_active_session s = not (is_some s.revoked_at)

abbrev pub is_active_of_family : ℕ → UserSession → Bool
is_active_of_family family_id s = s.refresh_family_id == family_id && is_active_session s

abbrev pub is_active_of_user : ℕ → UserSession → Bool
is_active_of_user user_id s = s.user_id == user_id && is_active_session s

-- The values that the statements write.
abbrev pub ended : ℕ → UserSession → UserSession
ended now s = record s { revoked_at = some now }

abbrev pub touched : ℕ → UserSession → UserSession
touched now s = record s { last_seen_at = now }

-- `select(func.count())` and the test `> 0`
unfoldable pub is_family_active : ℕ → Db → Bool
is_family_active family_id db = ltb 0 (count (is_active_of_family family_id) db.sessions)

unfoldable pub list_active_session_ids_for_user : ℕ → Db → List ℕ
list_active_session_ids_for_user user_id db =
    map (λ s. s.id) (select (is_active_of_user user_id) db.sessions)

module _ {S : Type 0} where
  -- The key `id` is unique.
  unfoldable pub create : UserSession → Action S (Unit {0})
  create session =
      flush (λ db. any (λ s. s.id == session.id) db.sessions)
        (λ db. record db { sessions = db.sessions ++ (session ∷ []) })

  unfoldable pub revoke_family : ℕ → Action S (Unit {0})
  revoke_family family_id = do
    now ← clock
    modify λ db. record db {
      sessions = update (is_active_of_family family_id) (ended now) db.sessions;
    }

  unfoldable pub touch_family : ℕ → Action S (Unit {0})
  touch_family family_id = do
    now ← clock
    modify λ db. record db {
      sessions = update (is_active_of_family family_id) (touched now) db.sessions;
    }

  unfoldable pub revoke_user_sessions : ℕ → Action S (Unit {0})
  revoke_user_sessions user_id = do
    now ← clock
    modify λ db. record db { sessions = update (is_active_of_user user_id) (ended now) db.sessions }
