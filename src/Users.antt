-- ===== src/Users.antt =====
-- The user service (services/user-service/app).
pub mod Store
pub mod Service
pub mod Endpoints
pub mod Bootstrap
pub mod Seed
