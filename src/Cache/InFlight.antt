-- ===== src/Cache/InFlight.antt =====
-- src/cache/memory-cache.service.ts: what holds of the promises in flight.
use shield_api.Common.{
  ℕ, suc, ◌≤◌, ◌≡◌, sym, ◌∙◌, ap, subst, ◌⊎◌, inl, inr, String, none, some, eqb, arith, Bool-cases,
}
use shield_api.Cache.{
  Outcome, Caller, waiting, Phase, rechecking, Promise, Service, at_number, at_key, settle,
  set_phase, set_caller,
}
use shield_api.Cache.Updates.{
  ℕ-cases, some-some, at_number-here, at_number-there, at_number-cases, at_key-here, at_key-there,
  at_key-cases,
}

-- What holds between any two steps.
pub record Invariant {V : Type 0} (s : Service V) : Type 0 where
  -- A promise that runs is the one in flight for its key,
  pub held : (n : ℕ) (t : Promise V) → s.running n ≡ some t → s.in_flight t.key ≡ some n
  -- and what is in flight runs.
  pub live :
      (k : String) (n : ℕ)
      → s.in_flight k ≡ some n
      → (p : Phase V) × (s.running n ≡ some (record { key = k; phase = p }))
  pub unused : (n : ℕ) → s.next ≤ n → (s.running n ≡ none) × (s.settled n ≡ none)
  pub apart : (n : ℕ) (t : Promise V) → s.running n ≡ some t → s.settled n ≡ none
  -- A promise that a caller waits for runs or has settled.
  pub awaited :
      (c n : ℕ)
      → s.callers c ≡ some (waiting n)
      → ((t : Promise V) × (s.running n ≡ some t)) ⊎ ((o : Outcome V) × (s.settled n ≡ some o))

key-some : {V : Type 0} {t u : Promise V} → some t ≡ some u → t.key ≡ u.key
key-some {V} {t} {u} e = cc

-- The caller does not wait for a promise that is neither running nor settled.
abbrev pub Attached : {V : Type 0} → Caller V → Service V → Type 0
Attached {V} x s =
    (n : ℕ)
    → x ≡ waiting n
    → ((t : Promise V) × (s.running n ≡ some t)) ⊎ ((o : Outcome V) × (s.settled n ≡ some o))

module _ {V : Type 0} (s : Service V) (w : Invariant s) where
  running-not_none : (m : ℕ) {t : Promise V} → s.running m ≡ none → s.running m ≡ some t → ⊥
  running-not_none m p q = cc

  in_flight-not_none : (k : String) {n : ℕ} → s.in_flight k ≡ none → s.in_flight k ≡ some n → ⊥
  in_flight-not_none k p q = cc

  pub set_caller-Invariant : (c : ℕ) (x : Caller V) → Attached x s → Invariant (set_caller c x s)
  unfolding set_caller
  set_caller-Invariant c x a = record {
    held = w.held;
    live = w.live;
    unused = w.unused;
    apart = w.apart;
    awaited = λ d n e. elim (Bool-cases (eqb d c)) [
      | inl q ↦ a n (ground arith)
      | inr q ↦ w.awaited d n (ground arith)
    ];
  }

  pub set_phase-Invariant :
      (n : ℕ) (k : String) (p p' : Phase V)
      → s.running n ≡ some (record { key = k; phase = p })
      → Invariant (set_phase n k p' s)
  unfolding set_phase
  set_phase-Invariant n k p p' e = record {
    held = λ m t q. elim (at_number-cases n m _ s.running q) [
      | inl (same, is) ↦
          subst (λ j. s.in_flight j ≡ some m) (key-some is) (w.held n _ e ∙ ap some (sym same))
      | inr (other, was) ↦ w.held m t was
    ];
    live = λ j m q.
        let (x, r) = w.live j m q in
        elim (ℕ-cases m n) [
          | inl same ↦
              let is : j ≡ k = key-some (sym r ∙ ap s.running same ∙ e) in
              (
                p',
                at_number-here n m _ s.running same
                    ∙ ap (λ i. some (record { key = i; phase = p' })) (sym is),
              )
          | inr other ↦ (x, at_number-there n m _ s.running other ∙ r)
        ];
    unused = λ m le.
        let (free, open_end) = w.unused m le in
        (
          at_number-there n m _ s.running (λ same. running-not_none m free (ap s.running same ∙ e))
              ∙ free,
          open_end,
        );
    apart = λ m t q. elim (at_number-cases n m _ s.running q) [
      | inl (same, is) ↦ ap s.settled same ∙ w.apart n _ e
      | inr (other, was) ↦ w.apart m t was
    ];
    awaited = λ d m q. elim (ℕ-cases m n) [
      | inl same ↦ inl (record { key = k; phase = p' }, at_number-here n m _ s.running same)
      | inr other ↦ elim (w.awaited d m q) [
        | inl (t, r) ↦ inl (t, at_number-there n m _ s.running other ∙ r)
        | inr done ↦ inr done
      ]
    ];
  }

  pub settle-Invariant :
      (n : ℕ) (k : String) (p : Phase V) (outcome : Outcome V)
      → s.running n ≡ some (record { key = k; phase = p })
      → Invariant (settle n k outcome s)
  unfolding settle
  settle-Invariant n k p outcome e = record {
    held = λ m t q. elim (at_number-cases n m _ s.running q) [
      | inl (same, is) ↦ absurd (cc)
      | inr (other, was) ↦
          at_key-there k t.key _ s.in_flight
            (λ same. other (some-some (sym (w.held m t was) ∙ ap s.in_flight same ∙ w.held n _ e)))
          ∙ w.held m t was
    ];
    live = λ j m q. elim (at_key-cases k j _ s.in_flight q) [
      | inl (same, is) ↦ absurd (cc)
      | inr (other, was) ↦
          let (x, r) = w.live j m was in
          (
            x,
            at_number-there n m _ s.running
                  (λ same. other (key-some (sym r ∙ ap s.running same ∙ e)))
                ∙ r,
          )
    ];
    unused = λ m le.
        let (free, open_end) = w.unused m le in
        let other = λ (same : m ≡ n). running-not_none m free (ap s.running same ∙ e) in
        (
          at_number-there n m _ s.running other ∙ free,
          at_number-there n m _ s.settled other ∙ open_end,
        );
    apart = λ m t q. elim (at_number-cases n m _ s.running q) [
      | inl (same, is) ↦ absurd (cc)
      | inr (other, was) ↦ at_number-there n m _ s.settled other ∙ w.apart m t was
    ];
    awaited = λ d m q. elim (ℕ-cases m n) [
      | inl same ↦ inr (outcome, at_number-here n m _ s.settled same)
      | inr other ↦ elim (w.awaited d m q) [
        | inl (t, r) ↦ inl (t, at_number-there n m _ s.running other ∙ r)
        | inr (o, r) ↦ inr (o, at_number-there n m _ s.settled other ∙ r)
      ]
    ];
  }

  -- A new promise for a key that has none in flight.
  abbrev pub begin : String → Service V
  begin k = record s {
    in_flight = at_key k (some s.next) s.in_flight;
    running = at_number s.next (some (record { key = k; phase = rechecking })) s.running;
    next = suc s.next;
  }

  pub begin-Invariant : (k : String) → s.in_flight k ≡ none → Invariant (begin k)
  begin-Invariant k e = record {
    held = λ m t q. elim (at_number-cases s.next m _ s.running q) [
      | inl (same, is) ↦ at_key-here k t.key _ s.in_flight (sym (key-some is)) ∙ ap some (sym same)
      | inr (other, was) ↦
          at_key-there k t.key _ s.in_flight
            (λ same. in_flight-not_none t.key (ap s.in_flight same ∙ e) (w.held m t was))
          ∙ w.held m t was
    ];
    live = λ j m q. elim (at_key-cases k j _ s.in_flight q) [
      | inl (same, is) ↦ (
        rechecking,
        at_number-here s.next m _ s.running (sym (some-some is))
            ∙ ap (λ i. some (record { key = i; phase = rechecking })) (sym same),
      )
      | inr (other, was) ↦
          let (x, r) = w.live j m was in (x, at_number-there s.next m _ s.running (used m r) ∙ r)
    ];
    unused = λ m le.
        let (free, open_end) = w.unused m (omega arith) in
        (at_number-there s.next m _ s.running (λ same. omega arith) ∙ free, open_end);
    apart = λ m t q. elim (at_number-cases s.next m _ s.running q) [
      | inl (same, is) ↦ ap s.settled same ∙ (w.unused s.next (omega arith)).1
      | inr (other, was) ↦ w.apart m t was
    ];
    awaited = λ d m q. elim (w.awaited d m q) [
      | inl (t, r) ↦ inl (t, at_number-there s.next m _ s.running (used m r) ∙ r)
      | inr done ↦ inr done
    ];
  }
    where
      used : (m : ℕ) {t : Promise V} → s.running m ≡ some t → m ≡ s.next → ⊥
      used m r same =
          running-not_none s.next (w.unused s.next (omega arith)).0 (sym (ap s.running same) ∙ r)
