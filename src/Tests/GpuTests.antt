-- ===== src/Tests/GpuTests.antt =====
-- The theorems on the GPU lease and the sessions at concrete inputs.
use ime_windows.Prelude.{
  ℕ, ◌+◌, ◌≤◌, ◌≡◌, refl, true, false, none, some, List, [], ◌∷◌, get_elem?, arith, Option, ◌⊎◌,
}
use ime_windows.Gpu.Lease.{
  Result, Wait, Lease, BoostOutcome, LeaseEvent, is_success, call, reset, arm, enabled_with,
  activate, fire, give_backend, after, new_lease,
}
use ime_windows.Gpu.Invariant.{IsValid, new_lease-IsValid}
use ime_windows.Gpu.Ending.{run, run-IsValid, HasTimers, AllTimers, run-ends}
use ime_windows.Gpu.Sessions.{SessionLru, acquire}
use ime_windows.Gpu.Serving as Serving

-- A backend that succeeds, and one that fails.
abbrev well : BoostOutcome
well = record { now = 100; result = some Result.success; reset_result = none; can_arm = true }

abbrev failing : BoostOutcome
failing = record well { now = 9000; result = none }

abbrev events : List LeaseEvent
events =
    LeaseEvent.given none true ∷ LeaseEvent.activated well ∷ LeaseEvent.fired failing false 0 ∷ []

run-IsValid_example : IsValid (run 2000 1000 events new_lease)
unfolding new_lease
run-IsValid_example = run-IsValid 2000 1000 events new_lease (omega arith) new_lease-IsValid

abbrev boosted : Lease
boosted = run 2000 1000 (LeaseEvent.given none true ∷ LeaseEvent.activated well ∷ []) new_lease

run-ends_example :
    (index : ℕ) × (w : Wait) × (get_elem? boosted.waits index ≡ some w)
    × ((o : BoostOutcome)
        → boosted.deadline ≤ o.now
        → is_success o.result ≡ true
        → (fire 2000 1000 o false index boosted).active ≡ false)
unfolding new_lease run after give_backend reset activate enabled_with call arm AllTimers HasTimers
run-ends_example =
    run-ends 2000 1000 (LeaseEvent.given none true ∷ LeaseEvent.activated well ∷ []) (omega arith)
      (tt, (refl, tt)) refl (omega arith)

-- A session of the client 5, numbered by the core.
abbrev serving : SessionLru ℕ ℕ
serving = record {
  core = some 1;
  gpu_activity = new_lease;
  gpu_boost_enabled = true;
  boost_backend_initialized = true;
  recency = 5 ∷ [];
  sessions = (5, 0) ∷ [];
  idle = [];
}

abbrev numbered : ℕ → Option ℕ × ℕ
numbered n = (some n, n + 1)

acquire-IsServed_example :
    ((s' : SessionLru ℕ ℕ) × (session : ℕ) × (acquire numbered well 6 serving
        ≡ some (s', some session))
      × Serving.IsServed numbered 6 serving s' session)
    ⊎ ((s' : SessionLru ℕ ℕ) × (acquire numbered well 6 serving ≡ some (s', none))
        × Serving.CannotServe numbered serving
        × Serving.AsBefore numbered serving s')
acquire-IsServed_example =
    Serving.acquire-IsServed numbered well 6 serving
      (record { same_clients = refl; one_session = omega arith })
