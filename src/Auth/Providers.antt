-- ===== src/Auth/Providers.antt =====
-- What the service takes from elsewhere: the standard library's keyed digest and UUID texts, PyJWT,
-- the password hasher, the authenticated cipher of the TOTP secrets and the one-time codes. They
-- are parameters, and what a theorem needs of them is a hypothesis of it.
use backend_platform.Prelude.{ℕ, Bool, Option}
use backend_platform.Prelude.Text.{Text}
use backend_platform.Auth.Settings.{Settings}

-- A claim of a decoded token: missing, a string, or another JSON value.
pub data Claim : Type 0 where
  missing other : Claim
  string : Text → Claim

-- The payload of a token, as the service writes it and as `jwt.decode` returns it.
pub record Payload : Type 0 where
  pub sub : Claim
  pub jti : Claim
  pub iss : Text
  pub aud : Text
  pub iat : ℕ
  pub nbf : ℕ
  pub exp : ℕ
  pub token_type : Claim
  pub sid : Claim
  pub family_id : Claim

-- What a login challenge says, with the fields that the stored text lacks left out.
pub record Challenge : Type 0 where
  pub user_id : Option Text
  pub ip_fingerprint : Option Text

pub record Providers : Type 0 where
  -- hmac.new(key, value, sha256).hexdigest()
  pub hmac : Text → Text → Text
  -- str(UUID), and UUID(text) where it is one
  pub uuid_text : ℕ → Text
  pub parse_uuid : Text → Option ℕ
  -- jwt.encode with the signing key; jwt.decode at a second, with the required claims, the
  -- audience and the issuer of the settings, where it does not raise
  pub jwt_encode : Settings → Payload → Text
  pub jwt_decode : Settings → ℕ → Text → Option Payload
  -- argon2: the hash of a text under a salt, and its verification against a hash
  pub argon2_hash : Text → Text → Text
  pub argon2_verify : Text → Text → Bool
  -- Fernet under a nonce, and back where the text is authentic
  pub encrypt : Text → Text → Text
  pub decrypt : Text → Text
  -- pyotp's code of a secret for a period of so many seconds, at a second
  pub totp_at : Text → ℕ → ℕ → Text
  -- json.dumps of a challenge's two fields, and json.loads of a text where it is such an object
  pub dump_challenge : Text → Text → Text
  pub load_challenge : Text → Option Challenge
