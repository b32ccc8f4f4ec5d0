-- ===== src/Tokens.antt =====
-- services/portal-backend/routers/tokens.py: issuing, revoking and re-limiting PATs.
pub mod Issue
pub mod Revoke
pub mod UpdateQuota
