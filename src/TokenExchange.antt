-- ===== src/TokenExchange.antt =====
-- services/token-exchange-service.
pub mod CircuitBreaker
pub mod Shared
pub mod CallerAuth
pub mod Keycloak
pub mod Cache
pub mod Service
