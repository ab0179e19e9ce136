-- ===== src/Tenant.antt =====
-- The routing header of `python/seam_sdk/tenant.py`.
pub mod Header
mod Runs
use seam_sdk.Prelude.{
  Option, none, some, List, [], ◌∷◌, ◌++◌, codes, bytes_eq, ◌||◌, Bool, true, false, if◌then◌else◌,
  Result, ok, err, value_error,
}
use seam_sdk.Bytes.{Text}
use seam_sdk.Checks.{Value, str}
use seam_sdk.Details.{Datum}

abbrev pub tenant_header : Text
tenant_header = codes "x-seam-tenant"

-- `not isinstance(tenant, str) or not tenant`.
unfoldable pub require_tenant : Value → Result Text
require_tenant (str []) = err value_error
require_tenant (str t) = ok t
require_tenant _ = err value_error

-- The metadata of a call: pairs of a key and a `str` or `bytes`.
abbrev pub Pairs : Type 0
Pairs = List (Text × Datum)

-- `any(k == TENANT_HEADER for k, _ in pairs)`.
unfoldable pub names_tenant : Pairs → Bool
names_tenant [] = false
names_tenant ((k, v) ∷ pairs) = bytes_eq k tenant_header || names_tenant pairs

-- `list(metadata or ())`.
unfoldable pub pairs_of : Option Pairs → Pairs
pairs_of none = []
pairs_of (some pairs) = pairs

unfoldable pub with_tenant : Option Pairs → Text → Pairs
unfolding names_tenant pairs_of
with_tenant metadata tenant =
    let pairs = pairs_of metadata in
    if names_tenant pairs then pairs else pairs ++ ((tenant_header, Datum.str tenant) ∷ [])

-- The details of a call, where the interceptor replaces the metadata; `rest` stands for the five
-- attributes that it passes on.
pub record CallDetails (R : Type 0) : Type 0 where
  pub rest : R
  pub metadata : Option Pairs

-- `TenantInterceptor(tenant)`, as its tenant.
unfoldable pub tenant_interceptor : Value → Result Text
unfolding require_tenant
tenant_interceptor tenant = require_tenant tenant

unfoldable pub intercepted : {R : Type 0} → Text → CallDetails R → CallDetails R
unfolding with_tenant
intercepted tenant details = record {
  rest = details.rest;
  metadata = some (with_tenant details.metadata tenant);
}

-- A call of any of the four shapes goes on with the details replaced.
unfoldable pub intercept : {R Q S : Type 0} → Text → (CallDetails R → Q → S) → CallDetails R → Q → S
unfolding intercepted
intercept tenant continuation details request = continuation (intercepted tenant details) request
