-- ===== src/Infra.antt =====
-- The scripts that prepare a deployment (infra/scripts).
pub mod RenderEnv
pub mod DevEnv
