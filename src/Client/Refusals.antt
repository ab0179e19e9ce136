-- ===== src/Client/Refusals.antt =====
-- Which errors burn a ticket, refuse one, or reject one.
use seam_sdk.Prelude.{◌≡◌, refl, ◌&&◌, ◌||◌, Bool, true, false}
use seam_sdk.Prelude.{Exn}
use seam_sdk.Bytes.{Text}
use seam_sdk.Errors.{
  ErrorClass, unauthenticated_error, Failure, rpc, local, is_refusal, is_unauthenticated,
  is_session_unavailable, is_tenant_moving, is_unavailable_class, is_failed_precondition_class,
}
use seam_sdk.Client.{is_one_of, is_burned}

and-right : (a b : Bool) → (a && b) ≡ true → b ≡ true
and-right true b h = h
and-right false b h = cc

pub is_burned-is_refusal :
    (name : Text) (e : Failure) → is_burned name e ≡ true → is_refusal e ≡ true
unfolding is_burned is_refusal is_session_unavailable is_tenant_moving
is_burned-is_refusal name (rpc e) h =
    go (is_unavailable_class e.error_class) (is_failed_precondition_class e.error_class) _ _
      (and-right _ _ h)
  where
    go : (a b c d : Bool) → ((a && c) || (b && d)) ≡ true → (a || b) ≡ true
    go true b c d k = refl
    go false true c d k = refl
    go false false c d k = cc
is_burned-is_refusal name (local x) h = absurd (no (and-right (is_one_of name _) false h))
  where
    no : false ≡ true → ⊥
    no k = cc

pub local_unburned : (name : Text) (x : Exn) → is_burned name (local x) ≡ true → ⊥
unfolding is_burned is_session_unavailable is_tenant_moving
local_unburned name x h = no (and-right (is_one_of name _) false h)
  where
    no : false ≡ true → ⊥
    no k = cc

pub is_unauthenticated-is_refusal :
    (e : Failure) → is_unauthenticated e ≡ true → is_refusal e ≡ true → ⊥
unfolding is_unauthenticated is_refusal is_unavailable_class is_failed_precondition_class
is_unauthenticated-is_refusal (rpc e) h k = go e.error_class h k
  where
    go :
        (c : ErrorClass)
        → (elim c as (λ c. Bool) [ unauthenticated_error ↦ true | _ ↦ false ]) ≡ true
        → (is_unavailable_class c || is_failed_precondition_class c) ≡ true
        → ⊥
    go unauthenticated_error h k = cc
    go _ h k = cc
is_unauthenticated-is_refusal (local x) h k = cc
