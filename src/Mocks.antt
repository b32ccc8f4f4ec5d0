-- ===== src/Mocks.antt =====
-- The stand-ins of external systems: services/mock-keycloak and services/mock-internal-gw.
pub mod Keycloak
pub mod InternalGw
pub mod Accepted
