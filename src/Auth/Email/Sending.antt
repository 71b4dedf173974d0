-- ===== src/Auth/Email/Sending.antt =====
-- What `send` does to the wire (services/auth-service/app/integrations/email/provider.py).
use backend_platform.Prelude.{
  ◌≡◌, ◌≢◌, refl, Bool, true, false, ◌&&◌, Option, none, some, List, [], ◌∷◌, arith, if◌then◌else◌,
  Bool-cases, Option-cases, inl, inr, ◌⊎◌,
}
use backend_platform.Prelude.Text.{Text, strip}
use backend_platform.Prelude.Split.{is_empty-strip}
use backend_platform.Auth.Config.{
  Config, is_deployed, smtp_is_configured, smtp_from_email_value, smtp_password_value,
}
use backend_platform.Auth.Config.Load.{Outside, ListInput, load}
use backend_platform.Auth.Config.Deployed.{load-IsHardened}
use backend_platform.Auth.Config.Smtp.{configured_visible, is_visible}
use backend_platform.Auth.PasswordReset.{delivered, refused, raised}
use backend_platform.Auth.Email.{
  EmailProvider, EmailMessage, SmtpCall, connect, connect_ssl, ehlo, starttls, login, send_message,
  Server, trimmed, get_email_provider, email_provider, run_script, missing_for_delivery,
  send_script, send_with, send, sender_of,
}

-- Whether no password and no message is sent in the clear, from a channel that is encrypted or not.
abbrev pub is_guarded : Bool → List SmtpCall → Bool
is_guarded encrypted [] = true
is_guarded encrypted (connect _ _ ∷ calls) = is_guarded false calls
is_guarded encrypted (connect_ssl _ _ ∷ calls) = is_guarded true calls
is_guarded encrypted (starttls ∷ calls) = is_guarded true calls
is_guarded encrypted (ehlo ∷ calls) = is_guarded encrypted calls
is_guarded encrypted (login _ _ ∷ calls) = encrypted && is_guarded encrypted calls
is_guarded encrypted (send_message _ ∷ calls) = encrypted && is_guarded encrypted calls

-- A script that is cut short is as guarded as the whole.
run_script-guarded :
    (server : Server) (made script : List SmtpCall) (encrypted : Bool)
    → is_guarded encrypted script ≡ true
    → is_guarded encrypted (run_script server made script).1 ≡ true
unfolding run_script
run_script-guarded server made [] encrypted h = refl
run_script-guarded server made (connect host port ∷ script) encrypted h =
    ground (arith, run_script-guarded server (connect host port ∷ made) script false h)
run_script-guarded server made (connect_ssl host port ∷ script) encrypted h =
    ground (arith, run_script-guarded server (connect_ssl host port ∷ made) script true h)
run_script-guarded server made (starttls ∷ script) encrypted h =
    ground (arith, run_script-guarded server (starttls ∷ made) script true h)
run_script-guarded server made (ehlo ∷ script) encrypted h =
    ground (arith, run_script-guarded server (ehlo ∷ made) script encrypted h)
run_script-guarded server made (login user secret ∷ script) true h =
    ground (arith, run_script-guarded server (login user secret ∷ made) script true h)
run_script-guarded server made (login user secret ∷ script) false h = cc
run_script-guarded server made (send_message m ∷ script) true h =
    ground (arith, run_script-guarded server (send_message m ∷ made) script true h)
run_script-guarded server made (send_message m ∷ script) false h = cc

send_script-guarded :
    (provider : EmailProvider) (host password : Text) (m : EmailMessage)
    → provider.use_tls ≡ true
    → is_guarded false (send_script provider host password m) ≡ true
unfolding send_script
send_script-guarded provider host password m tls = ground arith

-- A script that runs to its end made all its calls, each of them with success.
abbrev pub AllSucceed : Server → List SmtpCall → List SmtpCall → Type 0
AllSucceed server made [] = Unit
AllSucceed server made (call ∷ script) =
    (server made call ≡ true) × AllSucceed server (call ∷ made) script

run_script-delivered :
    (server : Server) (made script : List SmtpCall)
    → (run_script server made script).0 ≡ delivered
    → ((run_script server made script).1 ≡ script) × AllSucceed server made script
unfolding run_script
run_script-delivered server made [] h = (refl, tt)
run_script-delivered server made (call ∷ script) h = elim (Bool-cases (server made call)) [
  | inl returns ↦
      let (same, all) =
        run_script-delivered server (call ∷ made) script (rw (returns, run_script) at h) in
      (rw (returns, same), (returns, all))
  | inr raises ↦ cc (rw (raises, run_script) at h)
]

run_script-refused :
    (server : Server) (made script : List SmtpCall) → (run_script server made script).0 ≢ refused
unfolding run_script
run_script-refused server made [] = λ e. cc
run_script-refused server made (call ∷ script) =
    ground (arith, run_script-refused server (call ∷ made) script)

module _ (server : Server) (provider : EmailProvider) (to_email subject body : Text) where
  -- The message that `send` composes.
  abbrev pub message_from : Text → EmailMessage
  message_from from_email = record {
    subject = subject;
    sender = sender_of provider from_email;
    to = to_email;
    body = body;
  }

  -- `send` makes the calls of its script, and the provider has all that they need.
  pub record IsAttempt (host from_email password : Text) : Type 0 where
    pub has_host : provider.host ≡ some host
    pub has_sender : provider.from_email ≡ some from_email
    pub has_password : provider.password ≡ some password
    pub runs :
        send server provider to_email subject body
        ≡ run_script server [] (send_script provider host password (message_from from_email))

  complete-IsAttempt :
      (host from_email password : Text)
      → provider.host ≡ some host
      → provider.from_email ≡ some from_email
      → provider.password ≡ some password
      → IsAttempt host from_email password
  unfolding send send_with missing_for_delivery
  complete-IsAttempt host from_email password h f q = record {
    has_host = h;
    has_sender = f;
    has_password = q;
    runs = ground (arith, h, f, q);
  }

  -- Without one of them no call is made and nothing is delivered.
  pub incomplete_sends_nothing :
      missing_for_delivery provider ≡ true
      → send server provider to_email subject body
        ≡ ((if provider.require_delivery then raised else refused), [])
  unfolding send missing_for_delivery send_with
  incomplete_sends_nothing missing = ground (arith, missing)

  incomplete_undelivered :
      missing_for_delivery provider ≡ true
      → (send server provider to_email subject body).0 ≢ delivered
  unfolding send missing_for_delivery send_with
  incomplete_undelivered missing = ground (arith, missing)

  -- Either way.
  IsAttempt-cases :
      ((host : Text) × (from_email : Text) × (password : Text) × IsAttempt host from_email password)
      ⊎ (missing_for_delivery provider ≡ true)
  unfolding missing_for_delivery
  IsAttempt-cases = elim (Option-cases provider.host) [
    | inl h ↦ inr (ground (arith, h))
    | inr (host, h) ↦ elim (Option-cases provider.from_email) [
      | inl f ↦ inr (ground (arith, h, f))
      | inr (from_email, f) ↦ elim (Option-cases provider.password) [
        | inl q ↦ inr (ground (arith, h, f, q))
        | inr (password, q) ↦
            inl (host, from_email, password, complete-IsAttempt host from_email password h f q)
      ]
    ]
  ]

  -- With TLS asked for, the password and the message go out only on a channel that was encrypted
  -- before, by the port or by STARTTLS, whichever of the server's answers fail.
  pub send-guarded :
      provider.use_tls ≡ true
      → is_guarded false (send server provider to_email subject body).1 ≡ true
  send-guarded tls = elim IsAttempt-cases [
    | inl (host, from_email, password, attempt) ↦ rw attempt.runs (
        run_script-guarded server [] _ false
          (send_script-guarded provider host password (message_from from_email) tls))
    | inr missing ↦ rw (incomplete_sends_nothing missing) refl
  ]

  -- `send` returns `True` only where the provider is complete and every call of the script, up to the
  -- message itself, was made and succeeded.
  pub send_delivers :
      (send server provider to_email subject body).0 ≡ delivered
      → (host : Text) × (from_email : Text) × (password : Text) × IsAttempt host from_email password
        × ((send server provider to_email subject body).1
            ≡ send_script provider host password (message_from from_email))
        × AllSucceed server [] (send_script provider host password (message_from from_email))
  send_delivers sent = elim IsAttempt-cases [
    | inl (host, from_email, password, attempt) ↦
        let (same, all) =
          run_script-delivered server []
            (send_script provider host password (message_from from_email))
            (rw attempt.runs at sent) in
        (host, from_email, password, attempt, rw attempt.runs same, all)
    | inr missing ↦ absurd (incomplete_undelivered missing sent)
  ]

-- The text that the provider keeps of one that shows.
trimmed_visible : (o : Option Text) → is_visible o ≡ true → (s : Text) × (trimmed o ≡ some s)
trimmed_visible none h = cc
trimmed_visible (some s) h = (strip s, ground (arith, is_empty-strip s))

-- A service for staging or production that was not given leave to go without mail never skips a mail:
-- each `send` of its provider makes the calls of its script.
pub deployed_mail_attempted :
    (outside : Outside) (origins proxies : ListInput) (given c : Config) (server : Server)
    (to_email subject body : Text)
    → load outside origins proxies given ≡ some c
    → is_deployed c.service_env ≡ true
    → c.auth_allow_missing_smtp ≡ false
    → ((host : Text) × (from_email : Text) × (password : Text) × IsAttempt server
          (get_email_provider c)
          to_email
          subject
          body
          host
          from_email
          password)
      × ((send server (get_email_provider c) to_email subject body).0 ≢ refused)
unfolding get_email_provider email_provider
deployed_mail_attempted outside origins proxies given c server to_email subject body loaded deployed
      strict =
    let hard = (load-IsHardened outside origins proxies given c loaded deployed).1 in
    let configured : smtp_is_configured c ≡ true = ground (arith, hard.mail, strict) in
    let (h, f, q) = configured_visible outside origins proxies given c loaded configured in
    let (host, at_host) = trimmed_visible c.smtp_host h in
    let (from_email, at_from) = trimmed_visible (smtp_from_email_value c) f in
    let (password, at_password) = trimmed_visible (smtp_password_value c) q in
    let attempt =
      complete-IsAttempt server (get_email_provider c) to_email subject body host from_email
        password at_host at_from at_password in
    ((host, from_email, password, attempt), rw attempt.runs (run_script-refused server [] _))
