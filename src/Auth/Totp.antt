-- ===== src/Auth/Totp.antt =====
-- Which period a one-time code belongs to
-- (services/auth-service/app/integrations/totp/verifier.py).
use backend_platform.Prelude.{
  ℕ, zero, suc, ◌+◌, ◌-◌, ◌*◌, ◌/◌, Bool, true, false, ltb, if◌then◌else◌,
}
use backend_platform.Prelude.Text.{Text, text_eq}
use backend_platform.Auth.Providers.{Providers}

module _ (p : Providers) (secret code : Text)
    (interval_seconds valid_window current_timecode : ℕ) where
  -- The offsets `k - valid_window` from the `k`-th on, as many as the first number says; a period
  -- before the first is passed over.
  unfoldable pub try_offsets : ℕ → ℕ → Bool × ℕ
  try_offsets zero k = (false, current_timecode)
  try_offsets (suc rounds) k =
      let rest = try_offsets rounds (k + 1) in
      let candidate_timecode = current_timecode + k - valid_window in
      if ltb (current_timecode + k) valid_window
      then rest
      else if text_eq code
          (p.totp_at secret interval_seconds (candidate_timecode * interval_seconds))
      then (true, candidate_timecode)
      else rest

unfoldable pub verify_totp_code : Providers → Text → Text → ℕ → ℕ → ℕ → Bool × ℕ
unfolding try_offsets
verify_totp_code p secret code interval_seconds valid_window now =
    try_offsets p secret code interval_seconds valid_window (now / interval_seconds)
      (2 * valid_window + 1) 0
