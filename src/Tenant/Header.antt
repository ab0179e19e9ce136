-- ===== src/Tenant/Header.antt =====
-- The header that a call goes out with.
use seam_sdk.Prelude.{
  ◌≡◌, refl, Option, List, [], ◌∷◌, ◌++◌, bytes_eq, true, false, if◌then◌else◌, Bool-cases, inl,
  inr, ◌||◌,
}
use mathlib.Core.List.{append-nil}
use seam_sdk.Bytes.{Text}
use seam_sdk.Details.{Datum}
use seam_sdk.Tenant.{tenant_header, Pairs, names_tenant, pairs_of, with_tenant}

-- The values under the header, in order.
abbrev pub headers : Pairs → List Datum
headers [] = []
headers ((k, v) ∷ pairs) =
    let rest = headers pairs in if bytes_eq k tenant_header then v ∷ rest else rest

-- The call's own values, or the tenant where it has none.
abbrev pub own_or : List Datum → Text → List Datum
own_or [] tenant = Datum.str tenant ∷ []
own_or (v ∷ vs) tenant = v ∷ vs

-- What a call goes out with: its pairs in front, as they were, and the header.
pub record IsRouted (metadata : Option Pairs) (tenant : Text) (sent : Pairs) : Type 0 where
  pub kept : (added : Pairs) × (sent ≡ pairs_of metadata ++ added)
  pub header : headers sent ≡ own_or (headers (pairs_of metadata)) tenant
  pub named : names_tenant sent ≡ true

headers-append : (p q : Pairs) → headers (p ++ q) ≡ headers p ++ headers q
headers-append [] q = refl
headers-append ((k, v) ∷ p) q = elim (Bool-cases (bytes_eq k tenant_header)) [
  | inl same ↦ rw (same, headers-append p q) refl
  | inr other ↦ rw (other, headers-append p q) refl
]

names_tenant-append : (p q : Pairs) → names_tenant (p ++ q) ≡ (names_tenant p || names_tenant q)
unfolding names_tenant
names_tenant-append [] q = refl
names_tenant-append ((k, v) ∷ p) q = elim (Bool-cases (bytes_eq k tenant_header)) [
  | inl same ↦ rw same refl
  | inr other ↦ rw other (names_tenant-append p q)
]

headers_unnamed : (p : Pairs) → names_tenant p ≡ false → headers p ≡ []
unfolding names_tenant
headers_unnamed [] h = refl
headers_unnamed ((k, v) ∷ p) h = elim (Bool-cases (bytes_eq k tenant_header)) [
  | inl same ↦ let h' = rw same at h in cc
  | inr other ↦ rw other (headers_unnamed p (rw other at h))
]

own_or_named :
    (p : Pairs) (tenant : Text) → names_tenant p ≡ true → headers p ≡ own_or (headers p) tenant
unfolding names_tenant
own_or_named [] tenant h = cc
own_or_named ((k, v) ∷ p) tenant h = elim (Bool-cases (bytes_eq k tenant_header)) [
  | inl same ↦ rw same refl
  | inr other ↦ rw other (own_or_named p tenant (rw other at h))
]

-- `_with_tenant` keeps a call's pairs in front, as they were; the values under the header are the
-- call's own, or else the tenant, once; and the header is there.
pub with_tenant-IsRouted :
    (metadata : Option Pairs) (tenant : Text)
    → IsRouted metadata tenant (with_tenant metadata tenant)
unfolding with_tenant
with_tenant-IsRouted metadata tenant = elim (Bool-cases (names_tenant (pairs_of metadata))) [
  | inl named ↦ rw named (record {
    kept = ([], rw append-nil refl);
    header = own_or_named (pairs_of metadata) tenant named;
    named = named;
  })
  | inr unnamed ↦ rw unnamed (record {
    kept = ((tenant_header, Datum.str tenant) ∷ [], refl);
    header = rw (headers-append, headers_unnamed (pairs_of metadata) unnamed) refl;
    named = rw (names_tenant-append, unnamed) (unfold names_tenant in refl);
  })
]
