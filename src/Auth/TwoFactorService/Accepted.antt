-- ===== src/Auth/TwoFactorService/Accepted.antt =====
-- Codes that are accepted (services/auth-service/app/services/two_factor_service.py).
use backend_platform.Prelude.{
  ℕ, zero, suc, ◌+◌, ◌*◌, ◌/◌, ◌<◌, ◌≤◌, ◌≡◌, refl, ap, Bool, true, false, not, ◌&&◌, some, is_some,
  List, [], ◌∷◌, count, arith, ◌==◌, find, update, find-update, find_sound, Option-cases, inl, inr,
}
use backend_platform.Prelude.Text.{Text, text_eq}
use backend_platform.Auth.Db.{User, TwoFactorSecret, BackupCode}
use backend_platform.Auth.Errors.{ok}
use backend_platform.Auth.Settings.{Settings}
use backend_platform.Auth.Providers.{Providers}
use backend_platform.Auth.World.{World, ◌>>=◌}
use backend_platform.Auth.Totp.{try_offsets, verify_totp_code}
use backend_platform.Auth.Repositories.TwoFactor
use backend_platform.Auth.Repositories.TwoFactor.{secret_of}
use backend_platform.Auth.TwoFactorService.{use_code, is_replayed, verify_totp, verify_backup_code}

-- An unused code of a user.
abbrev pub unused_code : ℕ → BackupCode → Bool
unused_code user_id c = c.user_id == user_id && not (is_some c.used_at)

module _ (p : Providers) (backup_code : Text) (user_id now : ℕ) where
  use_code-count :
      (cs cs' : List BackupCode)
      → use_code p backup_code user_id now cs ≡ some cs'
      → count (unused_code user_id) cs ≡ suc (count (unused_code user_id) cs')
  unfolding use_code
  use_code-count [] cs' h = cc
  use_code-count (c ∷ cs) cs' h = elim (Option-cases (use_code p backup_code user_id now cs)) [
    | inl e ↦ ground (arith, e, h)
    | inr (ds, e) ↦ ground (arith, e, h, use_code-count cs ds e)
  ]

module _ {S : Type 0} (p : Providers) (settings : Settings) (user : User) where
  -- A backup code that is accepted costs the user exactly one unused code.
  pub accepted_once :
      (backup_code : Text) (w : World S)
      → (verify_backup_code p settings user backup_code w).0 ≡ ok tt
      → count (unused_code user.id) w.db.backup_codes
        ≡ suc (
            count
              (unused_code user.id)
              (verify_backup_code p settings user backup_code w).1.db.backup_codes)
  unfolding verify_backup_code ◌>>=◌
  accepted_once backup_code w h =
      elim (Option-cases (use_code p backup_code user.id w.now w.db.backup_codes)) [
        | inl e ↦ absurd (ground (arith, e, h))
        | inr (ds, e) ↦ rw e (use_code-count p backup_code user.id w.now w.db.backup_codes ds e)
      ]

module _ (p : Providers) (secret code : Text) (interval window current : ℕ) where
  -- A code that is found belongs to a period that was tried.
  try_offsets_sound :
      (rounds k t : ℕ)
      → try_offsets p secret code interval window current rounds k ≡ (true, t)
      → (text_eq code (p.totp_at secret interval (t * interval)) ≡ true)
        × (current + k ≤ t + window)
        × (t + window < current + k + rounds)
  unfolding try_offsets
  try_offsets_sound zero k t h = ground (arith, h)
  try_offsets_sound (suc rounds) k t h = ground (arith, h, try_offsets_sound rounds (k + 1) t)

-- A valid code is that of the period it is said to be of, one of the present and its two neighbours.
verify_totp_code_sound :
    (p : Providers) (secret code : Text) (interval now t : ℕ)
    → verify_totp_code p secret code interval 1 now ≡ (true, t)
    → (text_eq code (p.totp_at secret interval (t * interval)) ≡ true)
      × (now / interval ≤ t + 1)
      × (t ≤ now / interval + 1)
unfolding verify_totp_code
verify_totp_code_sound p secret code interval now t h =
    let (shown, early, late) =
      try_offsets_sound p secret code interval 1 (now / interval) 3 0 t h in
    (shown, omega (arith, early), omega (arith, late))

-- The row's code was shown in a period next to the present one, after every period that a code
-- was accepted for before, and the row now says so.
pub record IsAccepted {S : Type 0} (p : Providers) (settings : Settings) (user_id : ℕ) (code : Text)
    (w w' : World S) : Type 0 where
  pub secret : TwoFactorSecret
  pub found : TwoFactor.get_secret user_id w.db ≡ some secret
  pub confirmed : is_some secret.confirmed_at ≡ true
  pub timecode : ℕ
  pub shown :
      text_eq code (
        p.totp_at
          (p.decrypt secret.encrypted_secret)
          settings.totp_interval_seconds
          (timecode * settings.totp_interval_seconds))
      ≡ true
  pub early : w.now / settings.totp_interval_seconds ≤ timecode + 1
  pub late : timecode ≤ w.now / settings.totp_interval_seconds + 1
  pub fresh : is_replayed secret.last_used_timecode timecode ≡ false
  pub recorded :
      TwoFactor.get_secret user_id w'.db
      ≡ some (record secret { last_used_timecode = some timecode })

module _ {S : Type 0} (p : Providers) (settings : Settings) (user : User) (code : Text)
    (w : World S) where
  -- What is verified against a row.
  abbrev answer : TwoFactorSecret → Bool × ℕ
  answer secret =
      verify_totp_code p (p.decrypt secret.encrypted_secret) code settings.totp_interval_seconds 1
        w.now

  recorded_row :
      (secret : TwoFactorSecret) (timecode : ℕ) (rows : List TwoFactorSecret)
      → find (secret_of user.id) rows ≡ some secret
      → find
          (secret_of user.id)
          (update (secret_of user.id) (λ s. record s { last_used_timecode = some timecode }) rows)
        ≡ some (record secret { last_used_timecode = some timecode })
  recorded_row secret timecode rows h = rw (find_sound (secret_of user.id) rows secret h) at (
      find-update (secret_of user.id) (secret_of user.id)
        (λ s. record s { last_used_timecode = some timecode }) (λ s. refl) rows secret h)

  -- A one-time code that is accepted is that of the user's confirmed secret for the present period
  -- or one next to it, later than the last that was accepted, and the row then names that period.
  pub verify_totp-IsAccepted :
      (verify_totp p settings user code w).0 ≡ ok tt
      → IsAccepted p settings user.id code w (verify_totp p settings user code w).1
  unfolding verify_totp ◌>>=◌ TwoFactor.update_last_used_timecode TwoFactor.get_secret
  verify_totp-IsAccepted h = elim (Option-cases (TwoFactor.get_secret user.id w.db)) [
    | inl e ↦ absurd (ground (arith, e, h))
    | inr (secret, e) ↦
        let valid : (answer secret).0 ≡ true = ground (arith, e, h) in
        let fresh : is_replayed secret.last_used_timecode (answer secret).1 ≡ false =
          ground (arith, e, h) in
        let confirmed : is_some secret.confirmed_at ≡ true = ground (arith, e, h) in
        let (shown, early, late) =
          verify_totp_code_sound p (p.decrypt secret.encrypted_secret) code
            settings.totp_interval_seconds w.now (answer secret).1
            (ap (λ b. (b, (answer secret).1)) valid) in
        record {
          secret = secret;
          found = e;
          confirmed = confirmed;
          timecode = (answer secret).1;
          shown = shown;
          early = early;
          late = late;
          fresh = fresh;
          recorded = ground (
            arith,
            e,
            valid,
            fresh,
            confirmed,
            recorded_row secret (answer secret).1 w.db.secrets,
          );
        }
  ]

-- Two codes of a user that `verify_totp` accepts, the second where the user's row is as the first left
-- it, were shown in periods of which the second's is later: no code is accepted twice for one period.
pub periods_increase :
    {S : Type 0} (p : Providers) (settings : Settings) (user : User) (first second : Text)
    (w v : World S)
    → (verify_totp p settings user first w).0 ≡ ok tt
    → (verify_totp p settings user second v).0 ≡ ok tt
    → TwoFactor.get_secret user.id v.db
      ≡ TwoFactor.get_secret user.id (verify_totp p settings user first w).1.db
    → (a : IsAccepted p settings user.id first w (verify_totp p settings user first w).1)
      × (b : IsAccepted p settings user.id second v (verify_totp p settings user second v).1)
      × (a.timecode < b.timecode)
periods_increase p settings user first second w v h k same =
    let a = verify_totp-IsAccepted p settings user first w h in
    let b = verify_totp-IsAccepted p settings user second v k in
    (a, b, ground (arith, a.recorded, b.found, b.fresh, same))
