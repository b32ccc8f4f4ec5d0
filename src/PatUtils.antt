-- ===== src/PatUtils.antt =====
-- services/portal-backend/pat_utils.py: the text of a personal access token (PAT).
-- The random bytes of `secrets`, and the digests of `hashlib` and `hmac`, are arguments.
pub mod Base62
pub mod Secret
pub mod Format
