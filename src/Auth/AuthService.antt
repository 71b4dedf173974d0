-- ===== src/Auth/AuthService.antt =====
-- Registration, login, refresh and logout (services/auth-service/app/services/auth_service.py).
-- What `uuid4` and the password hasher draw are arguments.
pub mod Steps
pub mod Login
pub mod Refresh
pub mod Session
pub mod Reuse
pub mod Outcomes
