-- ===== src/Batch.antt =====
-- services/portal-backend/batch.py: the jobs that change tokens, and the partitions of the audit log.
pub mod Jobs
pub mod Partitions
