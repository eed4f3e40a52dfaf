-- ===== src/Cache/Coalescing.antt =====
-- src/cache/memory-cache.service.ts: at most one factory runs for a key, and its result is shared.
use shield_api.Common.{
  ℕ, ◌≡◌, ◌≢◌, refl, sym, ◌∙◌, ap, subst, ◌⊎◌, inl, inr, String, Bool, Option, none, some,
}
use shield_api.Cache.{
  Outcome, Caller, waiting, rechecking, Promise, Service, join, Step, Reach, initial,
}
use shield_api.Cache.Updates.{some-some, at_number-here}
use shield_api.Cache.InFlight.{
  Invariant, Attached, begin, set_caller-Invariant, set_phase-Invariant, settle-Invariant,
  begin-Invariant,
}

waiting_same : {V : Type 0} {m n : ℕ} → ◌≡◌ {A = Caller V} (waiting m) (waiting n) → m ≡ n
waiting_same e = cc

module _ {V : Type 0} (is_nil : V → Bool) where
  with_cache-Invariant :
      (s : Service V) (m : String → Option V) → Invariant s → Invariant (record s { cache = m })
  with_cache-Invariant s m w = record {
    held = w.held;
    live = w.live;
    unused = w.unused;
    apart = w.apart;
    awaited = w.awaited;
  }

  not_waiting : (s : Service V) (x : Caller V) → ((n : ℕ) → x ≢ waiting n) → Attached x s
  not_waiting s x other n e = absurd (other n e)

  join-Invariant :
      (c : ℕ) (k : String) (o : Option ℕ) (s : Service V)
      → s.in_flight k ≡ o
      → Invariant s
      → Invariant (join is_nil c k o s)
  unfolding join
  join-Invariant c k (some n) s e w = set_caller-Invariant s w c (waiting n) λ m q.
      let (p, r) = w.live k n e in
      inl (record { key = k; phase = p }, ap s.running (waiting_same (sym q)) ∙ r)
  join-Invariant c k none s e w =
      set_caller-Invariant (begin s w k) (begin-Invariant s w k e) c (waiting s.next) λ m q. inl (
        record { key = k; phase = rechecking },
        at_number-here s.next m _ s.running (waiting_same (sym q)),
      )

  Step-Invariant : {s u : Service V} → Step is_nil s u → Invariant s → Invariant u
  Step-Invariant {s} (Step.call c k h e) w =
      subst Invariant (sym e) (set_caller-Invariant s w c _ (λ n q. cc))
  Step-Invariant {s} (Step.look c k h e) w =
      subst Invariant (sym e) (set_caller-Invariant s w c _ (λ n q. cc))
  Step-Invariant {s} (Step.look_throws c k h e) w =
      subst Invariant (sym e) (set_caller-Invariant s w c _ (λ n q. cc))
  Step-Invariant {s} (Step.hit c k o v h p e) w =
      subst Invariant (sym e) (set_caller-Invariant s w c _ (λ n q. cc))
  Step-Invariant {s} (Step.miss c k o h p e) w =
      subst Invariant (sym e) (join-Invariant c k _ s refl w)
  Step-Invariant {s} (Step.deliver c n outcome h p e) w =
      subst Invariant (sym e) (set_caller-Invariant s w c _ (λ m q. cc))
  Step-Invariant {s} (Step.recheck n k h e) w =
      subst Invariant (sym e) (set_phase-Invariant s w n k _ _ h)
  Step-Invariant {s} (Step.recheck_throws n k h e) w =
      subst Invariant (sym e) (settle-Invariant s w n k _ _ h)
  Step-Invariant {s} (Step.recheck_hit n k o v h p e) w =
      subst Invariant (sym e) (settle-Invariant s w n k _ _ h)
  Step-Invariant {s} (Step.recheck_miss n k o h p e) w =
      subst Invariant (sym e) (set_phase-Invariant s w n k _ _ h)
  Step-Invariant {s} (Step.factory_returns n k v h e) w =
      subst Invariant (sym e) (set_phase-Invariant s w n k _ _ h)
  Step-Invariant {s} (Step.factory_throws n k h e) w =
      subst Invariant (sym e) (settle-Invariant s w n k _ _ h)
  Step-Invariant {s} (Step.store n k v h e) w =
      subst Invariant (sym e) (set_phase-Invariant _ (with_cache-Invariant s _ w) n k _ _ h)
  Step-Invariant {s} (Step.store_throws n k v h e) w =
      subst Invariant (sym e) (settle-Invariant s w n k _ _ h)
  Step-Invariant {s} (Step.finish n k v h e) w =
      subst Invariant (sym e) (settle-Invariant s w n k _ _ h)
  Step-Invariant {s} (Step.set k v e) w = subst Invariant (sym e) (with_cache-Invariant s _ w)
  Step-Invariant {s} (Step.del k e) w = subst Invariant (sym e) (with_cache-Invariant s _ w)
  Step-Invariant {s} (Step.clear e) w = subst Invariant (sym e) (with_cache-Invariant s _ w)

  Reach-Invariant : {s u : Service V} → Invariant s → Reach is_nil s u → Invariant u
  Reach-Invariant w Reach.here = w
  Reach-Invariant w (Reach.next r step) = Step-Invariant step (Reach-Invariant w r)

still_runs :
    {V : Type 0} (s : Service V) (n : ℕ) (o : Outcome V)
    → Invariant s
    → (j : String) → s.in_flight j ≡ some n
    → s.settled n ≡ some o
    → ⊥
still_runs s n o w j e done =
    let (p, q) = w.live j n e in let unsettled = w.apart n (record { key = j; phase = p }) q in cc

initial-Invariant : {V : Type 0} → Invariant {V = V} initial
initial-Invariant = record {
  held = λ n t e. cc;
  live = λ k n e. absurd (cc);
  unused = λ n le. (refl, refl);
  apart = λ n t e. refl;
  awaited = λ c n e. absurd (cc);
}

-- In every state that the service reaches, two promises that run for the same key are the same: no
-- two factories for a key are called at the same time.
pub one_factory :
    {V : Type 0} (is_nil : V → Bool) (s : Service V) (m n : ℕ) (t u : Promise V)
    → Reach is_nil initial s
    → s.running m ≡ some t
    → s.running n ≡ some u
    → t.key ≡ u.key
    → m ≡ n
one_factory is_nil s m n t u r p q same =
    let w = Reach-Invariant is_nil initial-Invariant r in
    some-some (sym (w.held m t p) ∙ ap s.in_flight same ∙ w.held n u q)

-- In every state that the service reaches, a promise that a caller waits for or that is in flight for
-- a key either runs and is the one in flight for its own key, or has settled and is in flight for no
-- key; so a key that is in flight has a promise that runs.
pub no_orphan :
    {V : Type 0} (is_nil : V → Bool) (s : Service V) (c n : ℕ) (k : String)
    → Reach is_nil initial s
    → (s.callers c ≡ some (waiting n)) ⊎ (s.in_flight k ≡ some n)
    → ((t : Promise V) × (s.running n ≡ some t) × (s.in_flight t.key ≡ some n))
      ⊎ ((o : Outcome V) × (s.settled n ≡ some o) × ((j : String) → s.in_flight j ≢ some n))
no_orphan is_nil s c n k r (inl h) =
    let w = Reach-Invariant is_nil initial-Invariant r in
    elim (w.awaited c n h) [
      | inl (t, runs) ↦ inl (t, runs, w.held n t runs)
      | inr (o, done) ↦ inr (o, done, λ j e. still_runs s n o w j e done)
    ]
no_orphan is_nil s c n k r (inr h) =
    let w = Reach-Invariant is_nil initial-Invariant r in
    let (p, q) = w.live k n h in inl (record { key = k; phase = p }, q, h)
