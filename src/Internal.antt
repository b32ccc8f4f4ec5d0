-- ===== src/Internal.antt =====
-- services/portal-backend/routers/internal.py: the endpoints that the gateway and Keycloak call.
pub mod Meta
pub mod UserEvent
pub mod AuditBatch
use api_portal.Prelude.{Bool, Option, Text, compare_digest, if◌then◌else◌, is_empty, none, some}
use api_portal.Errors.{Reply, done, http}

abbrev by_digest : Option Bool → Reply Unit
by_digest none = http 500
by_digest (some same) = if same then done tt else http 403

-- `require_internal_key`; an empty key of the settings switches the check off.
unfoldable pub require_internal_key : Text → Option Text → Reply Unit
unfolding compare_digest
require_internal_key key none = if is_empty key then done tt else http 403
require_internal_key key (some given) =
    if is_empty key
    then done tt
    else if is_empty given
    then http 403
    else by_digest (compare_digest given key)
