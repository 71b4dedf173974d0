-- ===== src/Auth/Privacy.antt =====
-- The texts under which a client is counted and recorded
-- (services/auth-service/app/core/privacy.py).
use backend_platform.Prelude.{Bool, false, not, Option, none, some, if◌then◌else◌, ◌++◌}
use backend_platform.Prelude.Text.{Text, codes, strip, is_empty}

unfoldable pub normalize_optional : Option Text → Text
normalize_optional none = codes "<none>"
normalize_optional (some value) =
    let normalized = strip value in if is_empty normalized then codes "<empty>" else normalized

-- `bool(value)`
abbrev pub truthy : Option Text → Bool
truthy none = false
truthy (some t) = not (is_empty t)

-- `ip_address or 'unknown'`
abbrev pub or_unknown : Option Text → Text
or_unknown none = codes "unknown"
or_unknown (some t) = if is_empty t then codes "unknown" else t

-- f"{name}:{ip_address or 'unknown'}"
abbrev pub client_identifier : Text → Option Text → Text
client_identifier name ip_address = name ++ (codes ":" ++ or_unknown ip_address)
