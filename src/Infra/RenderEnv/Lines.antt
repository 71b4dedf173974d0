-- ===== src/Infra/RenderEnv/Lines.antt =====
-- The lines that infra/scripts/render_prod_env_from_secrets.py writes for the gateway and the user
-- service are plain or quoted ones.
use backend_platform.Prelude.{
  ◌≡◌, ◌≤◌, refl, true, false, List, [], ◌∷◌, ◌++◌, All, any, length, Bool-cases, inl, inr,
  any-append,
}
use backend_platform.Prelude.Text.{Text, codes, member, member_iff}
use backend_platform.Prelude.Split.{contains, is_full}
use backend_platform.Auth.Config.Load.{ListInput, parse_list, is_nil, is_wildcard}
use backend_platform.Infra.RenderEnv.{Sources, compose_get}
use backend_platform.Infra.RenderEnv.Files.{Secrets, user_env, gateway_env, cookie_lines, cors_line}
use backend_platform.Infra.RenderEnv.Dotenv.{needs_care, is_escape, IsLine, plain, quoted}

-- The values that pydantic takes for the flag, and the empty one, which is not written.
abbrev pub flags : List Text
flags = [] ∷ codes "true" ∷ codes "false" ∷ []

-- What the command line, the compose file and the secrets have to be like.
pub record IsFit (from : Sources) (cors_origins : Text) (s : Secrets) : Type 0 where
  pub named : is_nil (parse_list (ListInput.line cors_origins)) ≡ false
  pub no_wildcard : any is_wildcard (parse_list (ListInput.line cors_origins)) ≡ false
  pub origins_plain : any needs_care (cors_line cors_origins) ≡ false
  pub pepper_long : 32 ≤ length s.privacy_pepper
  pub pepper_plain : any needs_care s.privacy_pepper ≡ false
  pub key_pem : contains (codes "BEGIN") s.pub_pem ≡ true
  pub key_plain : any is_escape s.pub_pem ≡ false
  pub cookie_flag : member (compose_get from.compose (codes "REFRESH_COOKIE_SECURE")) flags ≡ true

-- A flag needs no quotes.
flag-plain : (t : Text) → member t flags ≡ true → any needs_care t ≡ false
flag-plain t h = elim ((member_iff t flags).0 h) [
  | inl blank ↦ rw blank refl
  | inr (inl on) ↦ rw on refl
  | inr (inr (inl off)) ↦ rw off refl
  | inr (inr (inr never)) ↦ absurd never
]

-- A text of plain parts is plain.
pub parts-plain :
    (head value tail : Text)
    → any needs_care head ≡ false
    → any needs_care value ≡ false
    → any needs_care tail ≡ false
    → any needs_care (head ++ (value ++ tail)) ≡ false
parts-plain head value tail h v t =
    rw (any-append needs_care head (value ++ tail), any-append needs_care value tail, h, v, t) refl

between :
    (head value tail : Text)
    → any needs_care head ≡ false
    → any needs_care value ≡ false
    → any needs_care tail ≡ false
    → IsLine (head ++ (value ++ tail))
between head value tail h v t = plain _ (parts-plain head value tail h v t)

after :
    (head value : Text)
    → any needs_care head ≡ false
    → any needs_care value ≡ false
    → IsLine (head ++ value)
after head value h v = plain _ (rw (any-append needs_care head value, h, v) refl)

infixr 5 ◌⊕◌
◌⊕◌ : {A B : Type 0} → A → B → A × B
a ⊕ b = (a, b)

module _ (quote_plus : Text → Text) (bare : (t : Text) → any needs_care (quote_plus t) ≡ false)
    (from : Sources) (cors_origins : Text) (s : Secrets) (fit : IsFit from cors_origins s) where
  pub user_env-IsLine : All IsLine (user_env quote_plus from (cors_line cors_origins) s)
  unfolding user_env
  user_env-IsLine =
      plain _ refl
      ⊕ plain _ refl
      ⊕ plain _ refl
      ⊕ after (codes "CORS_ALLOWED_ORIGINS=") _ refl fit.origins_plain
      ⊕ plain _ refl
      ⊕ plain _ refl
      ⊕ between (codes "DATABASE_URL=postgresql+asyncpg://user_service:") (quote_plus s.user_db)
          (codes "@postgres-user:5432/user_service") refl (bare s.user_db) refl
      ⊕ between (codes "REDIS_URL=redis://:") (quote_plus s.redis_pw) (codes "@redis:6379/1") refl
          (bare s.redis_pw) refl
      ⊕ plain _ refl
      ⊕ plain _ refl
      ⊕ plain _ refl
      ⊕ plain _ refl
      ⊕ quoted (codes "JWT_PUBLIC_KEY") s.pub_pem refl fit.key_plain
      ⊕ after (codes "PRIVACY_KEY_PEPPER=") _ refl fit.pepper_plain
      ⊕ plain _ refl
      ⊕ plain _ refl
      ⊕ plain _ refl
      ⊕ plain _ refl
      ⊕ tt

  cookie_lines-IsLine : All IsLine (cookie_lines quote_plus from (cors_line cors_origins) s)
  cookie_lines-IsLine =
      elim (Bool-cases (is_full (compose_get from.compose (codes "REFRESH_COOKIE_SECURE")))) [
        | inl given ↦ rw given (
            after (codes "REFRESH_COOKIE_SECURE=") _ refl (
              flag-plain (compose_get from.compose (codes "REFRESH_COOKIE_SECURE")) fit.cookie_flag)
            ⊕ plain _ refl
            ⊕ tt)
        | inr left ↦ rw left tt
      ]

  pub gateway_env-IsLine : All IsLine (gateway_env quote_plus from (cors_line cors_origins) s)
  unfolding gateway_env
  gateway_env-IsLine =
      plain _ refl
      ⊕ plain _ refl
      ⊕ plain _ refl
      ⊕ after (codes "CORS_ALLOWED_ORIGINS=") _ refl fit.origins_plain
      ⊕ plain _ refl
      ⊕ between (codes "REDIS_URL=redis://:") (quote_plus s.redis_pw) (codes "@redis:6379/2") refl
          (bare s.redis_pw) refl
      ⊕ plain _ refl
      ⊕ plain _ refl
      ⊕ plain _ refl
      ⊕ plain _ refl
      ⊕ plain _ refl
      ⊕ plain _ refl
      ⊕ plain _ refl
      ⊕ quoted (codes "JWT_PUBLIC_KEY") s.pub_pem refl fit.key_plain
      ⊕ after (codes "PRIVACY_KEY_PEPPER=") _ refl fit.pepper_plain
      ⊕ plain _ refl
      ⊕ plain _ refl
      ⊕ plain _ refl
      ⊕ plain _ refl
      ⊕ plain _ refl
      ⊕ plain _ refl
      ⊕ cookie_lines-IsLine
