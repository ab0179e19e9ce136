-- ===== src/Calls/Moves.antt =====
-- How far an action may move the client: which caches it writes, and how often it goes on the wire.
use seam_sdk.Prelude.{
  ℕ, suc, ◌+◌, ◌≤◌, ◌≡◌, ◌≢◌, refl, ◌∙◌, List, [], ◌∷◌, bytes_eq, bytes_eq→eq, Bool-cases, inl, inr,
  arith, Option, Result, ok, err,
}
use seam_sdk.Bytes.{Text}
use seam_sdk.Errors.{Failure}
use seam_sdk.Tickets.{TicketCache}
use seam_sdk.Calls.{
  Outcome, returned, raised, Credential, Event, admitting, sending, Client, Act, pure, raise, lift,
  outside_call, wire, ◌>>=◌, continue, handle, catch, cache_of, set_cache, with_cache,
}

-- The attempts to admit and the RPCs in a log.
unfoldable pub admits : List Event → ℕ
admits [] = 0
admits (admitting aid ∷ log) = suc (admits log)
admits (sending md ∷ log) = admits log

unfoldable pub sends : List Event → ℕ
sends [] = 0
sends (admitting aid ∷ log) = sends log
sends (sending md ∷ log) = suc (sends log)

module _ {W : Type 0} where
  -- From `s` to `s'`, only the cache of `aid` is written, with at most `a` attempts to admit and at
  -- most `b` RPCs.
  pub record Moves (aid : Text) (a b : ℕ) (s s' : Client W) : Type 0 where
    pub others : (other : Text) → other ≢ aid → s'.tickets other ≡ s.tickets other
    pub admitted : admits s'.log ≤ a + admits s.log
    pub sent : sends s'.log ≤ b + sends s.log

  pub stay : (aid : Text) (a b : ℕ) (s : Client W) → Moves aid a b s s
  stay aid a b s = record { others = λ other n. refl; admitted = omega arith; sent = omega arith }

  pub then-Moves :
      {aid : Text} {a b c d : ℕ} {s s' s'' : Client W}
      → Moves aid a b s s'
      → Moves aid c d s' s''
      → Moves aid (a + c) (b + d) s s''
  then-Moves m n = record {
    others = λ other ne. n.others other ne ∙ m.others other ne;
    admitted = omega (arith, m.admitted, n.admitted);
    sent = omega (arith, m.sent, n.sent);
  }

  pub at_most :
      {aid : Text} {a b c d : ℕ} {s s' : Client W}
      → a ≤ c
      → b ≤ d
      → Moves aid a b s s'
      → Moves aid c d s s'
  at_most ac bd m = record {
    others = m.others;
    admitted = omega (arith, m.admitted);
    sent = omega (arith, m.sent);
  }

module _ {W A : Type 0} where
  abbrev pub after : Outcome A × Client W → Client W
  after (o, s) = s

  -- From every state, the action moves the client at most that far.
  pub record Does (aid : Text) (a b : ℕ) (m : Act W A) : Type 0 where
    pub from : (s : Client W) → Moves aid a b s (after (m s))

  pub pure-Does : (aid : Text) (a : A) → Does aid 0 0 (pure a)
  unfolding pure
  pure-Does aid a = record { from = λ s. stay aid 0 0 s }

  pub raise-Does : (aid : Text) (e : Failure) → Does aid 0 0 (raise e)
  unfolding raise
  raise-Does aid e = record { from = λ s. stay aid 0 0 s }

  pub lift-Does : (aid : Text) (r : Result A) → Does aid 0 0 (lift r)
  unfolding lift
  lift-Does aid (ok a) = record { from = λ s. stay aid 0 0 s }
  lift-Does aid (err e) = record { from = λ s. stay aid 0 0 s }

  pub outside_call-Does : (aid : Text) (f : W → A × W) → Does aid 0 0 (outside_call f)
  unfolding outside_call
  outside_call-Does aid f = record {
    from = λ s. record { others = λ other n. refl; admitted = omega arith; sent = omega arith };
  }

  pub admitting-Does :
      (aid who : Text) (f : W → Outcome A × W) → Does aid 1 0 (wire (admitting who) f)
  unfolding wire admits sends
  admitting-Does aid who f = record {
    from = λ s. record { others = λ other n. refl; admitted = omega arith; sent = omega arith };
  }

  pub sending-Does :
      (aid : Text) (md : Option Credential) (f : W → Outcome A × W)
      → Does aid 0 1 (wire (sending md) f)
  unfolding wire admits sends
  sending-Does aid md f = record {
    from = λ s. record { others = λ other n. refl; admitted = omega arith; sent = omega arith };
  }

  pub weaken-Does :
      {aid : Text} {a b c d : ℕ} {m : Act W A} → a ≤ c → b ≤ d → Does aid a b m → Does aid c d m
  weaken-Does ac bd h = record { from = λ s. at_most ac bd (h.from s) }

  handle-Moves :
      {aid : Text} {a b c d : ℕ} (s : Client W) (h : Failure → Act W A) (p : Outcome A × Client W)
      → Moves aid a b s (after p)
      → ((e : Failure) → Does aid c d (h e))
      → Moves aid (a + c) (b + d) s (after (handle h p))
  handle-Moves {aid} {c = c} {d} s h (returned x, s') m k = then-Moves m (stay aid c d s')
  handle-Moves s h (raised e, s') m k = then-Moves m ((k e).from s')

  pub catch-Does :
      {aid : Text} {a b c d : ℕ} {m : Act W A} {h : Failure → Act W A}
      → Does aid a b m
      → ((e : Failure) → Does aid c d (h e))
      → Does aid (a + c) (b + d) (catch m h)
  unfolding catch
  catch-Does {m = m} {h} k l = record { from = λ s. handle-Moves s h (m s) (k.from s) l }

module _ {W A B : Type 0} where
  continue-Moves :
      {aid : Text} {a b c d : ℕ} (s : Client W) (f : A → Act W B) (p : Outcome A × Client W)
      → Moves aid a b s (after p)
      → ((x : A) → Does aid c d (f x))
      → Moves aid (a + c) (b + d) s (after (continue f p))
  continue-Moves s f (returned x, s') m k = then-Moves m ((k x).from s')
  continue-Moves {aid} {c = c} {d} s f (raised e, s') m k = then-Moves m (stay aid c d s')

  pub bind-Does :
      {aid : Text} {a b c d : ℕ} {m : Act W A} {f : A → Act W B}
      → Does aid a b m
      → ((x : A) → Does aid c d (f x))
      → Does aid (a + c) (b + d) (m >>= f)
  unfolding ◌>>=◌
  bind-Does {m = m} {f} k l = record { from = λ s. continue-Moves s f (m s) (k.from s) l }

pub with_cache-other :
    (aid : Text) (cache : TicketCache) (tickets : Text → TicketCache) (other : Text)
    → other ≢ aid
    → with_cache aid cache tickets other ≡ tickets other
unfolding with_cache
with_cache-other aid cache tickets other ne = elim (Bool-cases (bytes_eq other aid)) [
  | inl same ↦ absurd (ne (bytes_eq→eq other aid same))
  | inr apart ↦ rw apart
]

module _ {W : Type 0} where
  pub cache_of-Does : (aid who : Text) → Does {W = W} aid 0 0 (cache_of who)
  unfolding cache_of
  cache_of-Does aid who = record { from = λ s. stay aid 0 0 s }

  pub set_cache-Does :
      (aid : Text) (cache : TicketCache) → Does {W = W} aid 0 0 (set_cache aid cache)
  unfolding set_cache
  set_cache-Does aid cache = record {
    from = λ s. record {
      others = with_cache-other aid cache s.tickets;
      admitted = omega arith;
      sent = omega arith;
    };
  }

module _ {W A B : Type 0} where
  -- What is lifted and did not raise is passed on.
  pub lift-bind-Does :
      {aid : Text} {a b : ℕ} {r : Result A} {x : A} (f : A → Act W B)
      → r ≡ ok x
      → Does aid a b (f x)
      → Does aid a b (lift r >>= f)
  unfolding ◌>>=◌ lift
  lift-bind-Does f e h = rw e h
