-- ===== src/Cache/Tests.antt =====
-- The theorems of src/cache at concrete runs.
use shield_api.Common.{String, ℕ, ◌≡◌, ◌≢◌, refl, ◌⊎◌, inl, Bool, false, none, some}
use shield_api.Cache.{
  Outcome, looking, looked, waiting, rechecked, calling, Promise, Service, settle, set_phase,
  set_caller, join, Step, Reach, initial,
}
use shield_api.Cache.Coalescing.{one_factory, no_orphan}

abbrev is_nil : ℕ → Bool
is_nil v = false

-- Two callers ask for one key before the factory returns.
abbrev both_ask : Service ℕ
both_ask = set_caller 1 (looked "k" none) (
    set_caller 0 (looked "k" none)
      (set_caller 1 (looking "k") (set_caller 0 (looking "k") initial)))

abbrev first_waits : Service ℕ
first_waits = join is_nil 0 "k" none both_ask

abbrev both_wait : Service ℕ
both_wait = join is_nil 1 "k" (some 0) first_waits

abbrev in_factory : Service ℕ
in_factory = set_phase 0 "k" calling (set_phase 0 "k" (rechecked none) both_wait)

abbrev done : Service ℕ
done = settle 0 "k" (Outcome.failed) in_factory

to_both_ask : Reach is_nil initial both_ask
unfolding set_caller
to_both_ask =
    Reach.next
      (Reach.next
        (Reach.next (Reach.next Reach.here (Step.call 0 "k" refl refl)) (Step.call 1 "k" refl refl))
        (Step.look 0 "k" refl refl))
      (Step.look 1 "k" refl refl)

to_both_wait : Reach is_nil initial both_wait
unfolding set_caller join
to_both_wait =
    Reach.next (Reach.next to_both_ask (Step.miss 0 "k" none refl refl refl))
      (Step.miss 1 "k" none refl refl refl)

to_in_factory : Reach is_nil initial in_factory
unfolding set_caller join set_phase
to_in_factory =
    Reach.next (Reach.next to_both_wait (Step.recheck 0 "k" refl refl))
      (Step.recheck_miss 0 "k" none refl refl refl)

to_done : Reach is_nil initial done
unfolding set_caller join set_phase settle
to_done = Reach.next to_in_factory (Step.factory_throws 0 "k" refl refl)

abbrev the_promise : Promise ℕ
the_promise = record { key = "k"; phase = calling }

in_factory_runs : in_factory.running 0 ≡ some the_promise
unfolding set_caller join set_phase
in_factory_runs = refl

one_factory_example : ◌≡◌ {A = ℕ} 0 0
one_factory_example =
    one_factory is_nil in_factory 0 0 the_promise the_promise to_in_factory in_factory_runs
      in_factory_runs refl

second_waits : in_factory.callers 1 ≡ some (waiting 0)
unfolding set_caller join set_phase
second_waits = refl

no_orphan_example :
    ((t : Promise ℕ) × (in_factory.running 0 ≡ some t) × (in_factory.in_flight t.key ≡ some 0))
    ⊎ ((o : Outcome ℕ) × (in_factory.settled 0 ≡ some o)
        × ((j : String) → in_factory.in_flight j ≢ some 0))
no_orphan_example = no_orphan is_nil in_factory 1 0 "k" to_in_factory (inl second_waits)
