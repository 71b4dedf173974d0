-- ===== src/Auth/Repositories.antt =====
-- The statements that the services send to the tables (services/auth-service/app/repositories): a
-- `select` filters the rows, an `update` changes those that its `where` clause selects, and an
-- object that a method changes is the row that it was read from.
pub mod RefreshTokens
pub mod Sessions
pub mod Users
pub mod TwoFactor
pub mod ResetTokens
