-- ===== src/Apisix/Reconcile/Published.antt =====
-- `create_api` of services/portal-backend/routers/catalog.py over the gateway client of
-- apisix_client.py.
use api_portal.Prelude.{◌≡◌}
use api_portal.Errors.{Reply, done, cdp_error, http}
use api_portal.Redis.{Redis}
use api_portal.Config.{Settings}
use api_portal.Database.{is_published}
use api_portal.Catalog.Publish.{ApiCreateRequest, Saved, Site, publish}
use api_portal.Apisix.Routes.{Tools}
use api_portal.Apisix.Admin.{Admin}
use api_portal.Apisix.Reconcile.{apisix_client}

module _ (R : Redis) (T : Tools) (S : Settings) (A : Admin) where
  open A use {Routes, get, probe}

  abbrev Here : Type 0
  Here = Site R (apisix_client T S A) T.urlparse

  -- A successful answer and the gateway behind it are those of `publish`.
  abbrev IsPublishing : ApiCreateRequest → Routes → Reply Saved × Here → Type 0
  IsPublishing req g (done saved, (st, g')) =
      let p =
        publish R (apisix_client T S A) T.urlparse req.api_code req.public_path req.endpoints g in
      (is_published saved.status ≡ p.0) × (g' ≡ p.1)
  IsPublishing req g (cdp_error c, site) = Unit {0}
  IsPublishing req g (http n, site) = Unit {0}
