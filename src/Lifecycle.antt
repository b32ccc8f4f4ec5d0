-- ===== src/Lifecycle.antt =====
-- The life of a PAT across the modules of services/portal-backend that change it: what holds after
-- any sequence of requests, jobs and losses of cached entries.
pub mod Coherence
pub mod Targets
pub mod Operations
pub mod Jobs
pub mod Limits
pub mod Steps
pub mod Closed
pub mod Final
pub mod Revocation
