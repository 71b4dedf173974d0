-- ===== src/Middleware/Guarded.antt =====
-- The answers of handlers carry the headers of services/*/app/core/middleware.py.
use backend_platform.Prelude.{◌≤◌, ◌≡◌, false, Option, none, some, arith, length}
use backend_platform.Prelude.Text.{Text, codes, is_empty}
use backend_platform.Middleware.{Headers, request_id_from_header}

-- What a browser is told about an answer, and what the client can quote of it.
pub record IsGuarded {R : Type 0} (headers : Headers R) (policy request_id : Text) (r : R)
    : Type 0 where
  pub no_sniffing : headers.get (codes "X-Content-Type-Options") r ≡ some (codes "nosniff")
  pub no_frames : headers.get (codes "X-Frame-Options") r ≡ some (codes "DENY")
  pub referrer : headers.get (codes "Referrer-Policy") r ≡ some (codes "same-origin")
  pub content : headers.get (codes "Content-Security-Policy") r ≡ some policy
  pub traced : headers.get (codes "X-Request-ID") r ≡ some request_id

-- An id is one that was drawn, or it is not empty and has at most 128 characters.
pub request_id_bounds :
    (drawn : Text) (given : Option Text)
    → is_empty drawn ≡ false
    → length drawn ≤ 128
    → (is_empty (request_id_from_header drawn given) ≡ false)
      × (length (request_id_from_header drawn given) ≤ 128)
unfolding request_id_from_header
request_id_bounds drawn none full short = (full, short)
request_id_bounds drawn (some value) full short = ground (arith, full, short)
