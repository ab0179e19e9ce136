-- ===== src/Tenant/Runs.antt =====
-- Calls with and without a header of their own.
use seam_sdk.Prelude.{◌≡◌, refl, none, some, [], ◌∷◌, codes}
use seam_sdk.Details.{Datum}
use seam_sdk.Tenant.{tenant_header, Pairs, with_tenant}
use seam_sdk.Tenant.Header.{IsRouted, with_tenant-IsRouted}

abbrev ticket : Pairs
ticket = (codes "x-seam-ticket-bin", Datum.binary (7 ∷ [])) ∷ []

abbrev own : Pairs
own = (tenant_header, Datum.str (codes "other")) ∷ ticket

filled : with_tenant none (codes "acme") ≡ (tenant_header, Datum.str (codes "acme")) ∷ []
unfolding with_tenant
filled = refl

untouched : with_tenant (some own) (codes "acme") ≡ own
unfolding with_tenant
untouched = refl

with_tenant-IsRouted_example :
    IsRouted (some ticket) (codes "acme") (with_tenant (some ticket) (codes "acme"))
with_tenant-IsRouted_example = with_tenant-IsRouted (some ticket) (codes "acme")
