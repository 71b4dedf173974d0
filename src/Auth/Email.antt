-- ===== src/Auth/Email.antt =====
-- Mail over SMTP (services/auth-service/app/integrations/email/provider.py), and the provider that
-- api/deps.py builds from the settings. The server and `smtplib` are a parameter: whether a call
-- succeeds after the calls before it. Log lines, the texts of errors and the closing of a connection
-- are left out.
pub mod Sending
use backend_platform.Prelude.{
  ℕ, Bool, true, false, not, ◌&&◌, ◌||◌, Option, none, some, List, [], ◌∷◌, ◌++◌, is_some, ◌==◌,
  if◌then◌else◌,
}
use backend_platform.Prelude.Text.{Text, is_empty, strip}
use backend_platform.Auth.Config.{
  Config, or_blank, or_else, smtp_from_email_value, smtp_password_value,
  smtp_require_delivery_value,
}
use backend_platform.Auth.PasswordReset.{Delivery, delivered, refused, raised}

pub record EmailProvider : Type 0 where
  pub host : Option Text
  pub port : ℕ
  pub from_email : Option Text
  pub username : Option Text
  pub password : Option Text
  pub use_tls : Bool
  pub from_name : Option Text
  pub require_delivery : Bool

-- `(value or "").strip() or None`
abbrev pub trimmed : Option Text → Option Text
trimmed value = let s = strip (or_blank value) in if is_empty s then none else some s

-- `EmailProvider.__init__`
unfoldable pub email_provider :
    Option Text
    → ℕ
    → Option Text
    → Option Text
    → Bool
    → Option Text
    → Option Text
    → Bool
    → EmailProvider
email_provider host port username password use_tls from_email from_name require_delivery = record {
  host = trimmed host;
  port = port;
  from_email = trimmed from_email;
  username = or_else (trimmed username) (trimmed from_email);
  password = trimmed password;
  use_tls = use_tls;
  from_name = trimmed from_name;
  require_delivery = require_delivery;
}

-- `get_email_provider` of api/deps.py
unfoldable pub get_email_provider : Config → EmailProvider
get_email_provider c =
    let smtp_user = or_else c.smtp_username (smtp_from_email_value c) in
    email_provider c.smtp_host c.smtp_port smtp_user (smtp_password_value c) c.smtp_use_tls
      (smtp_from_email_value c) c.smtp_from_name (smtp_require_delivery_value c)

-- The sender's header: an address, or `formataddr` of a name and an address.
pub data Sender : Type 0 where
  plain : Text → Sender
  named : Text → Text → Sender

pub record EmailMessage : Type 0 where
  pub subject : Text
  pub sender : Sender
  pub to : Text
  pub body : Text

-- The calls of `smtplib`.
pub data SmtpCall : Type 0 where
  connect connect_ssl : Text → ℕ → SmtpCall
  ehlo starttls : SmtpCall
  login : Option Text → Text → SmtpCall
  send_message : EmailMessage → SmtpCall

-- Whether a call returns after the calls before it, the last of them first; else it raises.
abbrev pub Server : Type 0
Server = List SmtpCall → SmtpCall → Bool

-- Makes the calls of a script one after the other, up to one that raises. What comes back holds the
-- calls that were made, the one that raised included.
unfoldable pub run_script : Server → List SmtpCall → List SmtpCall → Delivery × List SmtpCall
run_script server made [] = (delivered, [])
run_script server made (call ∷ script) =
    let rest = run_script server (call ∷ made) script in
    if server made call then (rest.0, call ∷ rest.1) else (raised, call ∷ [])

-- `_missing_for_delivery`
unfoldable pub missing_for_delivery : EmailProvider → Bool
missing_for_delivery provider =
    not (is_some provider.host)
    || not (is_some provider.from_email)
    || not (is_some provider.password)

-- The "From" header of `send`.
unfoldable pub sender_of : EmailProvider → Text → Sender
sender_of provider from_email = elim provider.from_name [
  | some name ↦ named name from_email
  | none ↦ plain from_email
]

-- The calls of `_send`.
unfoldable pub send_script : EmailProvider → Text → Text → EmailMessage → List SmtpCall
send_script provider host password message =
    if provider.use_tls && provider.port == 465
    then connect_ssl host provider.port
      ∷ login provider.username password
      ∷ send_message message
      ∷ []
    else connect host provider.port
      ∷ ehlo
      ∷ ((if provider.use_tls then starttls ∷ ehlo ∷ [] else [])
          ++ (login provider.username password ∷ send_message message ∷ []))

-- `send` once the server, the sender and the password are read.
unfoldable pub send_with :
    Server
    → EmailProvider
    → Text
    → Text
    → Text
    → Option Text
    → Option Text
    → Option Text
    → Delivery × List SmtpCall
send_with server provider to_email subject body (some host) (some from_email) (some password) =
    run_script server [] (
      send_script provider host password (record {
        subject = subject;
        sender = sender_of provider from_email;
        to = to_email;
        body = body;
      }))
send_with server provider to_email subject body _ _ _ = (refused, [])

-- `send`, with the calls that it makes: `delivered` is `True`, `refused` is `None`, and `raised` an
-- exception.
unfoldable pub send : Server → EmailProvider → Text → Text → Text → Delivery × List SmtpCall
send server provider to_email subject body =
    if provider.require_delivery && missing_for_delivery provider
    then (raised, [])
    else send_with server provider to_email subject body provider.host provider.from_email
        provider.password
