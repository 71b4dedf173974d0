-- ===== src/Tests.antt =====
-- Runs of the definitions at concrete inputs.
mod Doubles
mod Tokens
mod Families
mod Accounts
mod Guards
mod Edges
mod Deployment
mod Starting
mod Answers
mod Scripts
mod SignedIn
mod Rendered
mod Migrated
