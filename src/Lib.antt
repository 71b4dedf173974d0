-- ===== src/Lib.antt =====
-- A verification library for the backend platform: the authentication service, the API gateway, the
-- user service, and the scripts that write their environment files.
--
-- The program. A browser or an API client talks to the gateway (services/api-gateway/app), which
-- counts its requests, checks its access token and passes the request on to a service. The
-- authentication service (services/auth-service/app) registers users, logs them in, with a second
-- factor where there is one, and hands out a pair of tokens: an access token that lasts minutes, and
-- a refresh token that serves once and gives way to a successor of its family. It resets passwords by
-- a mailed code, guards against guessing, and flags ended sessions in Redis, where the gateway and the
-- services look before they trust an access token. The user service (services/user-service/app) keeps
-- profiles and roles.
--
-- The files.
--   Prelude, Prelude/Tests, Prelude/Lists, Prelude/Text, Prelude/Split, Prelude/Parts: Boolean tests
--     over the native numbers, tables as lists, texts as lists of code points and their parts.
--   Redis: the server as an interface with the documented effects of its commands; Redis/Keys and
--     Redis/Entries: the names of entries (auth-service/app/integrations/redis/keys.py); Redis/Memory: a server that meets
--     the interface.
--   Audit, Audit/Sanitized: services/audit_service.py.
--   Auth/Db, Auth/Repositories: app/models and app/repositories. A row is a record, a table a list, a
--     statement a list function, and a uniqueness constraint a write that may be refused.
--   Auth/World: what a request can do, as a state and error monad. A raise keeps what was written in
--     the session; `in_session` drops what was not committed. Auth/World/Keeps: the rules for what an
--     action leaves true on every path.
--   Auth/Providers: the functions that come from elsewhere (keyed digest, UUIDs, PyJWT, argon2, Fernet,
--     pyotp, JSON), as parameters.
--   Auth/Jwt, Auth/RefreshClaims, Auth/TokenService and its children: services/jwt_service.py and
--     services/refresh_token_service.py (`issue_for_user`, `rotate`, `revoke`). Opened is the family that
--     a login opens.
--   Auth/AuthService: services/auth_service.py. Steps holds the private methods and `register`, Login
--     `login`, Session `verify_login_challenge`, Refresh `refresh_tokens` and `revoke_refresh_token`;
--     Outcomes and Reuse hold theorems.
--   Auth/TwoFactorService, Auth/Totp: services/two_factor_service.py, integrations/totp/verifier.py.
--   Auth/PasswordReset: services/password_reset_service.py. Alive follows a mailed code to its reset.
--   Auth/BruteForce: services/brute_force_protection_service.py.
--   Auth/Access, Auth/Endpoints: api/deps.py, core/security.py, api/v1/two_factor.py.
--   Auth/Config and its children: core/config.py. Load holds the validators in the order in which they
--     run over the settings that were given; the file system is a parameter. `settings_of` gives what
--     the other files read.
--   Auth/Email: integrations/email/provider.py, as the calls of smtplib that the provider makes.
--   Auth/Api: the handlers of api/v1/auth.py and tokens.py behind core/rate_limit.py, over the services.
--   Auth/Requests: the requests that the service answers and the states that they lead to. Tables,
--     Resets, Kept and Reached carry what each operation of Auth/TokenService keeps of the refresh tokens
--     (Auth/TokenService/Kept) over every request and every sequence of them. SignedIn follows a login
--     to the next refresh.
--   Gateway: api-gateway/app. Security and RateLimit are core/, Routing is services/routing_service.py,
--     Proxy and BrowserAuth are api/v1/.
--   Users: user-service/app. Store is the session, Service the services over the repositories,
--     Endpoints the handlers.
--   Users/Seed: the roles and permissions that the service stores as it starts.
--   ServiceConfig: core/config.py of the gateway and the user service, whose checks are the same;
--     ServiceConfig/Started has all settings of each, with the parsers of pydantic as parameters.
--   Middleware: app/core/middleware.py of the gateway, with the pages of its own, and of the other
--     services. A response is an interface to its headers; what CORSMiddleware and the framework answer
--     outside of these two is not modelled.
--   Migrations: the operations of alembic over a database that is an interface; Migrations/AuthSchema and
--     Migrations/UserSchema: services/*/migrations/versions.
--   Infra: infra/scripts. RenderEnv is the mail part of render_prod_env_from_secrets.py,
--     RenderEnv/Files the files that it writes, as lists of lines, RenderEnv/Dotenv the reader of such
--     files as a parameter with its documented rules, and RenderEnv/Lines, Rendered, Services and Started
--     how the services read them. DevEnv is generate_dev_env.py.
--   Tests: runs at concrete inputs.
--
-- Conventions. Identifiers are the numbers that UUIDs stand for, times are whole seconds and one
-- request sees one second. What is drawn at random is an argument, and so is what a mail server or a
-- service behind the gateway does. A mail server answers each call after the calls before it. No loop
-- needs fuel: the loops run over lists or count down, and all definitions are total.
--
-- Not modelled: row locks and requests that overlap, so that two requests are always one after the
-- other; the notification service, the shared helpers, health probes, settings of the auth service that
-- no modelled code reads, the checks that request models make of a body, the text of error messages and
-- of logs, the scripts' command lines, and how keys and passwords are drawn.
pub mod Prelude
pub mod Redis
pub mod ServiceConfig
pub mod Middleware
pub mod Migrations
pub mod Audit
pub mod Auth
pub mod Gateway
pub mod Users
pub mod Infra
mod Tests
