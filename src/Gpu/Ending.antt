-- ===== src/Gpu/Ending.antt =====
-- How a boost ends (service/src/service/gpu_activity_lease.hpp): the waits of an active lease and what
-- their handlers do.
use ime_windows.Prelude.{
  ℕ, suc, ◌+◌, ◌≤◌, ◌<◌, ◌≡◌, refl, Bool, true, false, Option, some, List, [], ◌∷◌, ◌==◌, get_elem?,
  erase_idx, length, arith, Bool-cases, Option-cases, inl, inr, u64_mod, next64-eq,
}
use ime_windows.Gpu.Lease.{
  Result, Wait, Lease, BoostOutcome, LeaseEvent, is_success, call, reset, arm, enabled_with,
  activate, release, expire, fire, give_backend, set_enabled, after, new_lease,
}
use ime_windows.Gpu.Timers.{current_waits, current_waits-erase_idx}
use ime_windows.Gpu.Invariant.{IsValid, new_lease-IsValid, after-IsValid}

unfoldable pub run : ℕ → ℕ → List LeaseEvent → Lease → Lease
run idle_timeout retry_delay [] l = l
run idle_timeout retry_delay (event ∷ events) l =
    run idle_timeout retry_delay events (after idle_timeout retry_delay event l)

reset-generation :
    (result : Option Result) (l : Lease)
    → l.generation + 1 < u64_mod
    → (reset result l).generation ≡ l.generation + 1
unfolding reset
reset-generation result l small = next64-eq l.generation small

after-generation :
    (idle_timeout retry_delay : ℕ) (event : LeaseEvent) (l : Lease)
    → l.generation + 1 < u64_mod
    → (after idle_timeout retry_delay event l).generation ≤ l.generation + 1
unfolding after activate fire expire release enabled_with call arm give_backend set_enabled reset
after-generation idle_timeout retry_delay (LeaseEvent.activated o) l small =
    ground (arith, next64-eq l.generation small)
after-generation idle_timeout retry_delay (LeaseEvent.fired o error index) l small =
    ground (arith, next64-eq l.generation small)
after-generation idle_timeout retry_delay (LeaseEvent.given result is_given) l small =
    ground (arith, next64-eq l.generation small)
after-generation idle_timeout retry_delay (LeaseEvent.switched enabled) l small = omega arith

-- Every run of events keeps, until the generation has used 64 bits: the lease is active exactly
-- while its backend owes the release of a boost; at most one wait of its generation is pending, and
-- none while it is idle or after four failed releases; and each backend that it gave up either owes
-- nothing or was asked to release last.
pub run-IsValid :
    (idle_timeout retry_delay : ℕ) (events : List LeaseEvent) (l : Lease)
    → l.generation + length events < u64_mod
    → IsValid l
    → IsValid (run idle_timeout retry_delay events l)
unfolding run
run-IsValid idle_timeout retry_delay [] l small v = v
run-IsValid idle_timeout retry_delay (event ∷ events) l small v =
    let l' = after idle_timeout retry_delay event l in
    let grows = after-generation idle_timeout retry_delay event l (omega arith) in
    run-IsValid idle_timeout retry_delay events l' (omega (arith, grows))
      (after-IsValid idle_timeout retry_delay event l (omega arith) v)

-- Timers can be allocated, and the handler of a wait runs with an error only after `reset` has
-- cancelled it.
unfoldable pub HasTimers : LeaseEvent → Lease → Type 0
HasTimers (LeaseEvent.activated o) l = o.can_arm ≡ true
HasTimers (LeaseEvent.fired o error index) l =
    (o.can_arm ≡ true)
    × ((w : Wait) → get_elem? l.waits index ≡ some w → w.expected ≡ l.generation → error ≡ false)
HasTimers event l = Unit

-- An active lease that is not suspended has a wait.
abbrev pub IsArmed : Lease → Type 0
IsArmed l = l.active ≡ true → l.release_failures < 4 → current_waits l.generation l.waits ≡ 1

activate-IsArmed :
    (idle_timeout retry_delay : ℕ) (o : BoostOutcome) (l : Lease)
    → o.can_arm ≡ true
    → IsValid l
    → IsArmed l
    → IsArmed (activate idle_timeout retry_delay o l)
unfolding activate enabled_with arm reset call current_waits
activate-IsArmed idle_timeout retry_delay o l can v a = ground (arith, v, can)

-- The handler arms its wait again, or releases the boost.
expire-IsArmed :
    (idle_timeout retry_delay : ℕ) (o : BoostOutcome) (error : Bool) (expected : ℕ) (l : Lease)
    → o.can_arm ≡ true
    → ((expected == l.generation) ≡ false → IsArmed l)
    → ((expected == l.generation) ≡ true
        → (error ≡ false) × (current_waits l.generation l.waits ≡ 0))
    → IsArmed (expire idle_timeout retry_delay o error expected l)
unfolding expire release call arm current_waits
expire-IsArmed idle_timeout retry_delay o error expected l can a quiet =
    ground (arith, can, a, quiet)

fire-IsArmed :
    (idle_timeout retry_delay : ℕ) (o : BoostOutcome) (error : Bool) (index : ℕ) (l : Lease)
    → HasTimers (LeaseEvent.fired o error index) l
    → IsValid l
    → IsArmed l
    → IsArmed (fire idle_timeout retry_delay o error index l)
unfolding fire HasTimers
fire-IsArmed idle_timeout retry_delay o error index l (can, only) v a =
    elim (Option-cases (get_elem? l.waits index)) [
      | inl e ↦ rw (e, fire) a
      | inr (w, e) ↦
          let taken : Lease = record l { waits = erase_idx l.waits index } in
          let left = current_waits-erase_idx l.generation l.waits index e in
          rw (e, fire)
            (expire-IsArmed idle_timeout retry_delay o error w.expected taken can
              (λ h k f. ground (arith, left, h, a k f))
              (λ h. (only w e (ground (arith, h)), ground (arith, left, h, v.one_timer))))
    ]

pub after-IsArmed :
    (idle_timeout retry_delay : ℕ) (event : LeaseEvent) (l : Lease)
    → HasTimers event l
    → IsValid l
    → IsArmed l
    → IsArmed (after idle_timeout retry_delay event l)
unfolding after give_backend set_enabled reset HasTimers
after-IsArmed idle_timeout retry_delay (LeaseEvent.activated o) l t v a =
    activate-IsArmed idle_timeout retry_delay o l t v a
after-IsArmed idle_timeout retry_delay (LeaseEvent.fired o error index) l t v a =
    fire-IsArmed idle_timeout retry_delay o error index l t v a
after-IsArmed idle_timeout retry_delay (LeaseEvent.given result is_given) l t v a = λ k f. cc
after-IsArmed idle_timeout retry_delay (LeaseEvent.switched enabled) l t v a = a

-- Timers work throughout a run.
unfoldable pub AllTimers : ℕ → ℕ → List LeaseEvent → Lease → Type 0
AllTimers idle_timeout retry_delay [] l = Unit
AllTimers idle_timeout retry_delay (event ∷ events) l =
    HasTimers event l
    × AllTimers idle_timeout retry_delay events (after idle_timeout retry_delay event l)

run-IsArmed :
    (idle_timeout retry_delay : ℕ) (events : List LeaseEvent) (l : Lease)
    → l.generation + length events < u64_mod
    → AllTimers idle_timeout retry_delay events l
    → IsValid l
    → IsArmed l
    → IsArmed (run idle_timeout retry_delay events l)
unfolding run AllTimers
run-IsArmed idle_timeout retry_delay [] l small t v a = a
run-IsArmed idle_timeout retry_delay (event ∷ events) l small t v a =
    let l' = after idle_timeout retry_delay event l in
    let grows = after-generation idle_timeout retry_delay event l (omega arith) in
    run-IsArmed idle_timeout retry_delay events l' (omega (arith, grows)) t.1
      (after-IsValid idle_timeout retry_delay event l (omega arith) v)
      (after-IsArmed idle_timeout retry_delay event l t.0 v a)

pending-wait :
    (generation : ℕ) (waits : List Wait)
    → 0 < current_waits generation waits
    → (index : ℕ) × (w : Wait) × (get_elem? waits index ≡ some w) × (w.expected ≡ generation)
unfolding current_waits
pending-wait generation [] h = absurd (omega arith)
pending-wait generation (w ∷ waits) h = elim (Bool-cases (w.expected == generation)) [
  | inl mine ↦ (0, w, refl, ground (arith, mine))
  | inr other ↦
      let (index, v, at, same) = pending-wait generation waits (ground (arith, other, h)) in
      (suc index, v, at, same)
]

fire-releases :
    (idle_timeout retry_delay : ℕ) (o : BoostOutcome) (index : ℕ) (l : Lease) {w : Wait}
    → get_elem? l.waits index ≡ some w
    → w.expected ≡ l.generation
    → l.deadline ≤ o.now
    → is_success o.result ≡ true
    → (fire idle_timeout retry_delay o false index l).active ≡ false
unfolding fire expire release call
fire-releases idle_timeout retry_delay o index l hit same late done =
    ground (arith, hit, same, late, done)

-- However a new lease is used in fewer than 2^64 events, as long as timers can be allocated and a
-- wait ends in an error only after it was cancelled: if the lease is active and its release has not
-- failed four times, a wait is pending whose handler, run at the deadline or later with a backend
-- that succeeds, ends the boost.
pub run-ends :
    (idle_timeout retry_delay : ℕ) (events : List LeaseEvent)
    → length events < u64_mod
    → AllTimers idle_timeout retry_delay events new_lease
    → (run idle_timeout retry_delay events new_lease).active ≡ true
    → (run idle_timeout retry_delay events new_lease).release_failures < 4
    → (index : ℕ) × (w : Wait) × (get_elem?
          (run idle_timeout retry_delay events new_lease).waits
          index
        ≡ some w)
      × ((o : BoostOutcome)
          → (run idle_timeout retry_delay events new_lease).deadline ≤ o.now
          → is_success o.result ≡ true
          → (fire idle_timeout retry_delay o false index
              (run idle_timeout retry_delay events new_lease)).active
            ≡ false)
unfolding new_lease
run-ends idle_timeout retry_delay events small t k f =
    let l : Lease = run idle_timeout retry_delay events new_lease in
    let armed =
      run-IsArmed idle_timeout retry_delay events new_lease (omega arith) t new_lease-IsValid
        (λ h. cc) k f in
    let (index, w, at, same) = pending-wait l.generation l.waits (omega (arith, armed)) in
    (
      index,
      w,
      at,
      λ o late done. fire-releases idle_timeout retry_delay o index l at same late done,
    )
