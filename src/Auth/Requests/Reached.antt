-- ===== src/Auth/Requests/Reached.antt =====
-- What is true of the refresh tokens in every state that requests lead to
-- (services/auth-service/app/api/v1).
use backend_platform.Redis.{Redis}
use backend_platform.Auth.Db.{Db}
use backend_platform.Auth.Settings.{Settings}
use backend_platform.Auth.Providers.{Providers}
use backend_platform.Auth.World.{World}
use backend_platform.Auth.World.Keeps.{Holds}
use backend_platform.Auth.TokenService.Kept.{TokenProperty}
use backend_platform.Auth.Requests.{Reaches, here, served, later}
use backend_platform.Auth.Requests.Kept.{serve-Keeps}

module _ {S : Type 0} (redis : Redis S) {p : Providers} {settings : Settings} {P : Db → Type 0}
    (k : TokenProperty S p settings P) {u : World S} where
  pub reached-Holds : (v : World S) → Reaches redis p settings u v → Holds P u → Holds P v
  reached-Holds v here h = h
  reached-Holds v (served {v = v'} ip ua request r) h =
      (serve-Keeps redis ip ua k request).at v' (reached-Holds v' r h)
  reached-Holds v (later {v = v'} seconds r) h =
      let held = reached-Holds v' r h in record { here = held.here; there = held.there }
