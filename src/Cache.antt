-- ===== src/Cache.antt =====
-- src/cache/memory-cache.service.ts: `getOrSet` with its requests in flight, one step for each
-- stretch of code between two awaits. Callers and promises have numbers; a `Map` is a function. What
-- the store behind it does by itself is an event too: an entry may expire at any time.
pub mod Updates
pub mod InFlight
pub mod Coalescing
mod Tests
use shield_api.Common.{
  ℕ, suc, ◌+◌, ◌≡◌, String, Bool, true, false, Option, none, some, eqb, if◌then◌else◌, ◌==◌,
}

-- What a promise settles with.
pub data Outcome (V : Type 0) : Type 0 where
  value : V → Outcome V
  failed : Outcome V

-- A call of `getOrSet`.
pub data Caller (V : Type 0) : Type 0 where
  looking : String → Caller V
  looked : String → Option V → Caller V
  waiting : ℕ → Caller V
  finished : Outcome V → Caller V

-- Where the promise in flight stands.
pub data Phase (V : Type 0) : Type 0 where
  rechecking : Phase V
  rechecked : Option V → Phase V
  calling : Phase V
  storing : V → Phase V
  stored : V → Phase V

pub record Promise (V : Type 0) : Type 0 where
  pub key : String
  pub phase : Phase V

pub record Service (V : Type 0) : Type 0 where
  pub cache : String → Option V
  pub in_flight : String → Option ℕ
  -- the promises that have not settled
  pub running : ℕ → Option (Promise V)
  pub settled : ℕ → Option (Outcome V)
  pub callers : ℕ → Option (Caller V)
  pub next : ℕ

abbrev pub at_number : {A : Type 0} → ℕ → A → (ℕ → A) → ℕ → A
at_number n x f m = if eqb m n then x else f m

abbrev pub at_key : {A : Type 0} → String → A → (String → A) → String → A
at_key k x f j = if j == k then x else f j

-- `this.inFlight.delete(key)`, as the promise settles.
unfoldable pub settle : {V : Type 0} → ℕ → String → Outcome V → Service V → Service V
settle n key outcome s = record s {
  in_flight = at_key key none s.in_flight;
  running = at_number n none s.running;
  settled = at_number n (some outcome) s.settled;
}

unfoldable pub set_phase : {V : Type 0} → ℕ → String → Phase V → Service V → Service V
set_phase n key phase s = record s {
  running = at_number n (some (record { key = key; phase = phase })) s.running;
}

unfoldable pub set_caller : {V : Type 0} → ℕ → Caller V → Service V → Service V
set_caller c caller s = record s { callers = at_number c (some caller) s.callers }

module _ {V : Type 0} (is_nil : V → Bool) where
  -- The value, unless it is null or undefined.
  abbrev pub present : Option V → Option V
  present none = none
  present (some v) = if is_nil v then none else some v

  -- `this.inFlight.get(key)`, and what follows.
  unfoldable pub join : ℕ → String → Option ℕ → Service V → Service V
  unfolding set_caller
  join c key (some n) s = set_caller c (waiting n) s
  join c key none s = set_caller c (waiting s.next) (record s {
    in_flight = at_key key (some s.next) s.in_flight;
    running = at_number s.next (some (record { key = key; phase = rechecking })) s.running;
    next = suc s.next;
  })

  -- One stretch of code, or one event of the store.
  pub data Step (s u : Service V) : Type 0 where
    call : (c : ℕ) (k : String) → s.callers c ≡ none → u ≡ set_caller c (looking k) s → Step s u
    look :
        (c : ℕ) (k : String)
        → s.callers c ≡ some (looking k)
        → u ≡ set_caller c (looked k (s.cache k)) s
        → Step s u
    look_throws :
        (c : ℕ) (k : String)
        → s.callers c ≡ some (looking k)
        → u ≡ set_caller c (finished failed) s
        → Step s u
    hit :
        (c : ℕ) (k : String) (o : Option V) (v : V)
        → s.callers c ≡ some (looked k o)
        → present o ≡ some v
        → u ≡ set_caller c (finished (value v)) s
        → Step s u
    miss :
        (c : ℕ) (k : String) (o : Option V)
        → s.callers c ≡ some (looked k o)
        → present o ≡ none
        → u ≡ join c k (s.in_flight k) s
        → Step s u
    deliver :
        (c n : ℕ) (outcome : Outcome V)
        → s.callers c ≡ some (waiting n)
        → s.settled n ≡ some outcome
        → u ≡ set_caller c (finished outcome) s
        → Step s u
    recheck :
        (n : ℕ) (k : String)
        → s.running n ≡ some (record { key = k; phase = rechecking })
        → u ≡ set_phase n k (rechecked (s.cache k)) s
        → Step s u
    recheck_throws :
        (n : ℕ) (k : String)
        → s.running n ≡ some (record { key = k; phase = rechecking })
        → u ≡ settle n k failed s
        → Step s u
    recheck_hit :
        (n : ℕ) (k : String) (o : Option V) (v : V)
        → s.running n ≡ some (record { key = k; phase = rechecked o })
        → present o ≡ some v
        → u ≡ settle n k (value v) s
        → Step s u
    recheck_miss :
        (n : ℕ) (k : String) (o : Option V)
        → s.running n ≡ some (record { key = k; phase = rechecked o })
        → present o ≡ none
        → u ≡ set_phase n k calling s
        → Step s u
    factory_returns :
        (n : ℕ) (k : String) (v : V)
        → s.running n ≡ some (record { key = k; phase = calling })
        → u ≡ set_phase n k (storing v) s
        → Step s u
    factory_throws :
        (n : ℕ) (k : String)
        → s.running n ≡ some (record { key = k; phase = calling })
        → u ≡ settle n k failed s
        → Step s u
    store :
        (n : ℕ) (k : String) (v : V)
        → s.running n ≡ some (record { key = k; phase = storing v })
        → u ≡ set_phase n k (stored v) (record s { cache = at_key k (some v) s.cache })
        → Step s u
    store_throws :
        (n : ℕ) (k : String) (v : V)
        → s.running n ≡ some (record { key = k; phase = storing v })
        → u ≡ settle n k failed s
        → Step s u
    finish :
        (n : ℕ) (k : String) (v : V)
        → s.running n ≡ some (record { key = k; phase = stored v })
        → u ≡ settle n k (value v) s
        → Step s u
    set : (k : String) (v : V) → u ≡ record s { cache = at_key k (some v) s.cache } → Step s u
    -- `del`, and an entry that expires; `mdel` is several.
    del : (k : String) → u ≡ record s { cache = at_key k none s.cache } → Step s u
    clear : u ≡ record s { cache = λ k. none } → Step s u

  pub data Reach (s : Service V) : Service V → Type 0 where
    here : Reach s s
    next : {t u : Service V} → Reach s t → Step t u → Reach s u

-- The service as it is constructed.
abbrev pub initial : {V : Type 0} → Service V
initial = record {
  cache = λ k. none;
  in_flight = λ k. none;
  running = λ n. none;
  settled = λ n. none;
  callers = λ c. none;
  next = 0;
}
