-- ===== src/Auth.antt =====
-- The authentication service (services/auth-service/app).
pub mod Errors
pub mod Settings
pub mod Config
pub mod Db
pub mod World
pub mod Providers
pub mod Jwt
pub mod Repositories
pub mod RefreshClaims
pub mod TokenService
pub mod Events
pub mod Passwords
pub mod Privacy
pub mod Totp
pub mod BruteForce
pub mod TwoFactorService
pub mod AuthService
pub mod PasswordReset
pub mod Email
pub mod Access
pub mod Endpoints
pub mod Requests
pub mod Api
