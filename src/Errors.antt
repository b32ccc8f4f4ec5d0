-- ===== src/Errors.antt =====
-- services/portal-backend/error_handlers.py, and what a handler answers: a value, a `cdp_error`
-- response, or an HTTPException. The texts of messages are not modelled.
use api_portal.Prelude.{ℕ}

-- The codes of `CDP_ERRORS`.
pub data Code : Type 0 where
  cdp_1001 cdp_1002 cdp_1003 cdp_1004 cdp_1005 cdp_1006 cdp_2001 cdp_2002 : Code
  cdp_4001 cdp_4002 cdp_4003 cdp_4009 cdp_4010 : Code

unfoldable pub cdp_status : Code → ℕ
cdp_status cdp_1001 = 401
cdp_status cdp_1002 = 401
cdp_status cdp_1003 = 403
cdp_status cdp_1004 = 429
cdp_status cdp_1005 = 403
cdp_status cdp_1006 = 403
cdp_status cdp_2001 = 503
cdp_status cdp_2002 = 502
cdp_status cdp_4001 = 400
cdp_status cdp_4002 = 400
cdp_status cdp_4003 = 403
cdp_status cdp_4009 = 409
cdp_status cdp_4010 = 409

-- `return value`, `return cdp_error(code, …)`, `raise HTTPException(status, …)`; an error of the
-- database that nobody catches is the status 500.
pub data Reply (A : Type 0) : Type 0 where
  done : A → Reply A
  cdp_error : Code → Reply A
  http : ℕ → Reply A
