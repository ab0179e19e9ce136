-- ===== src/Calls/Inversion.antt =====
-- Where a value that an action returned came from.
use seam_sdk.Prelude.{◌≡◌, refl, ap, ◌⊎◌, inl, inr, Result, ok, err}
use seam_sdk.Errors.{Failure}
use seam_sdk.Calls.{
  Outcome, returned, raised, Event, Client, Act, lift, wire, ◌>>=◌, continue, handle, catch,
}

module _ {A : Type 0} where
  pub returned_injective : {a b : A} → returned a ≡ returned b → a ≡ b
  returned_injective e = cc

  pub not_returned : {e : Failure} {a : A} → raised e ≡ returned a → ⊥
  not_returned e = cc

module _ {W A : Type 0} where
  abbrev pub outcome : Outcome A × Client W → Outcome A
  outcome (o, s) = o

  pub lift-returned :
      (r : Result A) (s : Client W) (a : A) → outcome (lift r s) ≡ returned a → r ≡ ok a
  unfolding lift
  lift-returned (ok x) s a h = ap ok (returned_injective h)
  lift-returned (err e) s a h = absurd (not_returned h)

  pub wire-returned :
      (event : Event) (f : W → Outcome A × W) (s : Client W) (a : A)
      → outcome (wire event f s) ≡ returned a
      → (w : W) × (let (o, w') = f w in o ≡ returned a)
  unfolding wire
  wire-returned event f s a h = (s.outside, h)

  handle-returned :
      (h : Failure → Act W A) (p : Outcome A × Client W) (a : A)
      → outcome (handle h p) ≡ returned a
      → (outcome p ≡ returned a) ⊎ ((e : Failure) × (s : Client W) × (outcome (h e s) ≡ returned a))
  handle-returned h (returned x, s) a e = inl e
  handle-returned h (raised x, s) a e = inr (x, s, e)

  pub catch-returned :
      (m : Act W A) (h : Failure → Act W A) (s : Client W) (a : A)
      → outcome (catch m h s) ≡ returned a
      → (outcome (m s) ≡ returned a)
        ⊎ ((e : Failure) × (s : Client W) × (outcome (h e s) ≡ returned a))
  unfolding catch
  catch-returned m h s a e = handle-returned h (m s) a e

module _ {W A B : Type 0} where
  continue-returned :
      (f : A → Act W B) (p : Outcome A × Client W) (b : B)
      → outcome (continue f p) ≡ returned b
      → (a : A) × (s : Client W) × (outcome p ≡ returned a) × (outcome (f a s) ≡ returned b)
  continue-returned f (returned a, s) b e = (a, s, refl, e)
  continue-returned f (raised x, s) b e = absurd (not_returned e)

  pub bind-returned :
      (m : Act W A) (f : A → Act W B) (s : Client W) (b : B)
      → outcome ((m >>= f) s) ≡ returned b
      → (a : A) × (s' : Client W) × (outcome (m s) ≡ returned a) × (outcome (f a s') ≡ returned b)
  unfolding ◌>>=◌
  bind-returned m f s b e = continue-returned f (m s) b e
