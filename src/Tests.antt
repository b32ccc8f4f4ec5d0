-- ===== src/Tests.antt =====
-- Runs of the modelled code on small inputs, and concrete instances of the parameters.
pub mod Fixtures
pub mod Examples
pub mod Breaker
pub mod Life
pub mod Gateway
pub mod Txs
pub mod Consumer
pub mod Start
pub mod Signed
