-- ===== src/Apisix.antt =====
-- services/portal-backend/apisix_client.py: from an API of the catalog to the routes of the gateway.
pub mod Paths
pub mod Routes
pub mod Admin
pub mod Owned
pub mod Reconcile
pub mod Resync
