-- ===== src/Portal.antt =====
-- The state that the handlers of services/portal-backend share: the database and the Redis store.
-- One request runs at a time; a handler that fails with an error of the database or of Redis itself
-- (a lost connection) is not modelled.
use api_portal.Database.{Db}
use api_portal.Redis.{Redis}

pub record Portal (R : Redis) : Type 0 where
  pub db : Db
  pub redis : R.Store
