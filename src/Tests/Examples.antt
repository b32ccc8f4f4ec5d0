-- ===== src/Tests/Examples.antt =====
-- Examples for the theorems on texts, checks and single operations.
use api_portal.Prelude.{
  List, Text, [], arith, codes, contains, false, has, length, none, ok, refl, rstrip, some,
  starts_with, text_eq, true, ℕ, ◌++◌, ◌+◌, ◌↔◌, ◌∷◌, ◌≡◌,
}
use api_portal.Catalog.Checks.{assert_valid_endpoints}
use api_portal.Catalog.Checks.Shape.{AreShaped, assert_valid_endpoints-AreShaped}
use api_portal.Errors.{done}
use api_portal.PatUtils.Base62.{generate_token_id}
use api_portal.PatUtils.Secret.{generate_secret}
use api_portal.PatUtils.Format.{build_pat, parse_pat}
use api_portal.PatUtils.Format.RoundTrip.{parse-build}
use api_portal.PatUtils.Format.Generated.{parse-build-generate}
use api_portal.PatUtils.Format.Mask.{mask_pat}
use api_portal.PatUtils.Format.Mask.Clean.{IsClean, mask_pat-IsClean}
use api_portal.Internal.AuditBatch.{
  AuditBatchItem, AllClean, receive_audit_batch, receive_audit_batch-AllClean,
}
use api_portal.Batch.Partitions.{Month, IsMonth, partition_for, partition_for_lem, index}
use api_portal.Catalog.Patterns.{
  assert_no_duplicate_endpoints, check_endpoint, endpoint_key, available, seen_key,
}
use api_portal.Catalog.Patterns.Conflicts.{rows_in, check_endpoint_lem}
use api_portal.Internal.UserEvent.{upper}
use api_portal.Catalog.Patterns.Duplicates.{keys, are_distinct, assert_no_duplicate_endpoints_iff}
use api_portal.Tests.Fixtures.{memory, one_server, small}

abbrev secret : Text
secret = codes "abcdefghijklmnopqrstuvwxyzabcdefghijklmnopq"

abbrev token : Text
token = codes "hdpat_abcdefghijkl_abcdefghijklmnopqrstuvwxyzabcdefghijklmnopq"

parse-build_example : parse_pat token ≡ ok (codes "abcdefghijkl", secret)
unfolding build_pat has
parse-build_example =
    (parse-build token (codes "abcdefghijkl") secret).1
      (refl, record { id_length = refl; id_plain = refl; secret_length = refl })

abbrev bytes : List ℕ
bytes =
    1 ∷ 2 ∷ 3 ∷ 4 ∷ 5 ∷ 6 ∷ 7 ∷ 8 ∷ 9 ∷ 10 ∷ 11 ∷ 12 ∷ 13 ∷ 14 ∷ 15 ∷ 16 ∷ 17 ∷ 18 ∷ 19 ∷ 20 ∷ 21
    ∷ 22 ∷ 23 ∷ 24 ∷ 25 ∷ 26 ∷ 27 ∷ 28 ∷ 29 ∷ 30 ∷ 31 ∷ 32 ∷ []

parse-build-generate_example :
    parse_pat (build_pat (generate_token_id (1 ∷ 2 ∷ [])) (generate_secret bytes))
    ≡ ok (generate_token_id (1 ∷ 2 ∷ []), generate_secret bytes)
parse-build-generate_example = parse-build-generate (1 ∷ 2 ∷ []) bytes refl refl

mask_pat-IsClean_example : IsClean (mask_pat (codes "/x?t=" ++ token))
mask_pat-IsClean_example = mask_pat-IsClean (codes "/x?t=" ++ token)

abbrev call : AuditBatchItem
call = record {
  token_id = some (codes "tok1");
  user_sub = none;
  request_path = some token;
  status_code = some 200;
  error_code = none;
  event_type = codes "API_CALL";
}

receive_audit_batch_example :
    AllClean (receive_audit_batch (λ i. true) 5 (call ∷ []) small.db).1.audit_log
receive_audit_batch_example = receive_audit_batch-AllClean (λ i. true) 5 (call ∷ []) small.db tt

abbrev indexed : memory.Store
indexed = record {
  has_entry = λ k. true;
  entry = λ k f. none;
  set_at = λ k. codes "cdp:jwt:tok1:00" ∷ [];
  list_at = λ k. [];
}

abbrev december : Month
december = record { year = 2025; month = 12 }

partition_for_example :
    (index (partition_for december 1).start ≡ index december + 1)
    × (index (partition_for december 1).stop ≡ index december + 1 + 1)
    × IsMonth (partition_for december 1).start
    × IsMonth (partition_for december 1).stop
partition_for_example = partition_for_lem december 1 (omega arith, omega arith)

assert_no_duplicate_endpoints_example :
    (assert_no_duplicate_endpoints small.db.endpoints ≡ none)
    ↔ (are_distinct (keys small.db.endpoints) ≡ true)
assert_no_duplicate_endpoints_example = assert_no_duplicate_endpoints_iff small.db.endpoints

abbrev base : Text
base = codes "/capi/v1/vendors"

assert_valid_endpoints-AreShaped_example :
    AreShaped one_server (rstrip b'/' base) small.db.endpoints
    × (length (keys small.db.endpoints) ≡ length small.db.endpoints)
unfolding assert_valid_endpoints starts_with has rstrip text_eq contains
assert_valid_endpoints-AreShaped_example =
    assert_valid_endpoints-AreShaped one_server base small.db.endpoints refl

check_endpoint_example :
    (check_endpoint (codes "api1") (codes "get") (codes "/{vendor}") small.db
      ≡ done (available (codes "/{param}")))
    ↔ (seen_key (keys (rows_in (codes "api1") small.db.endpoints)) (codes "GET", codes "/{param}")
        ≡ false)
unfolding text_eq upper endpoint_key starts_with
check_endpoint_example =
    check_endpoint_lem (codes "api1") (codes "get") (codes "/{vendor}")
      (codes "GET", codes "/{param}") small.db refl refl refl
