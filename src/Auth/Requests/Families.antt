-- ===== src/Auth/Requests/Families.antt =====
-- The families of refresh tokens over sequences of requests (services/auth-service/app/api/v1).
use backend_platform.Prelude.{ℕ, ◌≤◌, ◌≡◌, [], arith}
use backend_platform.Redis.{Redis}
use backend_platform.Auth.Settings.{Settings}
use backend_platform.Auth.Providers.{Providers}
use backend_platform.Auth.World.{World}
use backend_platform.Auth.TokenService.OneLive.{live, opened}
use backend_platform.Auth.TokenService.OneLive.Kept.{IsCovered-kept}
use backend_platform.Auth.Requests.{Reaches}
use backend_platform.Auth.Requests.Reached.{reached-Holds}

-- Whatever requests are served from an empty table of refresh tokens on, by whomever and in whatever
-- order, a family never has more tokens that are not revoked than tokens without a parent, which are
-- those that a login issued.
pub one_live_token :
    {S : Type 0} (redis : Redis S) (p : Providers) (settings : Settings) (u v : World S)
    (family : ℕ)
    → u.db.refresh_tokens ≡ []
    → u.committed.refresh_tokens ≡ []
    → Reaches redis p settings u v
    → live family v.committed ≤ opened family v.committed
one_live_token redis p settings u v family fresh stored reached =
    (reached-Holds redis (IsCovered-kept p settings family) v reached (record {
      here = record { bound = rw fresh (ground arith) };
      there = record { bound = rw stored (ground arith) };
    })).there.bound
