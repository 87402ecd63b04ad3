-- ===== src/Gpu/Invariant.antt =====
-- What holds of a GPU lease in every state (service/src/service/gpu_activity_lease.hpp).
use ime_windows.Prelude.{
  ℕ, ◌+◌, ◌≤◌, ◌<◌, ◌≡◌, ◌⊎◌, refl, sym, Bool, true, false, not, ◌||◌, Option, none, some, List,
  ◌==◌, if-elim, is_some, ltb, get_elem?, erase_idx, All, All-erase_idx, arith, Bool-cases,
  Option-cases, inl, inr, u64_mod, next64, next64-eq,
}
use ime_windows.Gpu.Lease.{
  Result, Driven, Lease, BoostOutcome, LeaseEvent, is_success, call, given_up, reset, arm,
  enabled_with, activate, release, expire, fire, give_backend, set_enabled, after, new_lease,
}
use ime_windows.Gpu.Timers.{
  current_waits, owes, IsSettled, IsOld, current_waits-erase_idx, current_waits-above, IsOld-later,
  clear-IsSettled, released-IsSettled,
}

-- The backend that the lease holds owes the release of a boost.
abbrev pub holds_boost : Option (List Driven) → Bool
holds_boost none = false
holds_boost (some calls) = owes calls

pub record IsValid (l : Lease) : Type 0 where
  pub active_owes : l.active ≡ holds_boost l.backend
  pub releasing_is_active : l.releasing ≡ true → l.active ≡ true
  pub failing_is_releasing : 0 < l.release_failures → l.releasing ≡ true
  pub few_failures : l.release_failures ≤ 4
  pub one_timer : current_waits l.generation l.waits ≤ 1
  pub idle_has_none : l.active ≡ false → current_waits l.generation l.waits ≡ 0
  pub suspended_has_none : l.release_failures ≡ 4 → current_waits l.generation l.waits ≡ 0
  pub old_waits : All (IsOld l.generation) l.waits
  pub settled : All IsSettled l.released

pub new_lease-IsValid : IsValid new_lease
unfolding new_lease current_waits
new_lease-IsValid = ground arith

given_up-IsSettled :
    (result : Option Result) (l : Lease)
    → l.active ≡ holds_boost l.backend
    → All IsSettled l.released
    → All IsSettled (given_up result l)
unfolding given_up
given_up-IsSettled result l v h = elim (Option-cases l.backend) [
  | inl e ↦ rw (e, given_up) h
  | inr (calls, e) ↦ elim (Bool-cases l.active) [
    | inl k ↦ rw (e, given_up, k) (released-IsSettled result calls, h)
    | inr k ↦
        let clear : owes calls ≡ false = ground (arith, e, v, k) in
        rw (e, given_up, k) (clear-IsSettled calls clear, h)
  ]
]

reset-IsValid :
    (result : Option Result) (l : Lease)
    → l.generation + 1 < u64_mod
    → l.active ≡ holds_boost l.backend
    → All (IsOld l.generation) l.waits
    → All IsSettled l.released
    → IsValid (reset result l)
unfolding reset
reset-IsValid result l small owing old settled =
    let later : next64 l.generation ≡ l.generation + 1 = next64-eq l.generation small in
    let none_left = current_waits-above l.generation l.waits old in
    let still_old = IsOld-later l.generation l.waits old in
    ground (arith, later, none_left, still_old, given_up-IsSettled result l owing settled)

-- The backend that is asked for a boost keeps what it owed, or owes it.
asked-owes :
    (o : BoostOutcome) (l : Lease)
    → l.active ≡ false
    → l.active ≡ holds_boost l.backend
    → is_some l.backend ≡ true
    → holds_boost (call true o.result l).backend ≡ is_success o.result
unfolding call owes
asked-owes o l k owing given = elim (Option-cases l.backend) [
  | inl e ↦ absurd (ground (arith, e, given))
  | inr (calls, e) ↦
      let clear : owes calls ≡ false = ground (arith, e, owing, k) in rw e (ground (arith, clear))
]

Result-cases :
    (r : Option Result)
    → (r ≡ none)
      ⊎ (r ≡ some Result.retry_later)
      ⊎ (r ≡ some Result.unavailable)
      ⊎ (r ≡ some Result.success)
Result-cases none = inl refl
Result-cases (some Result.retry_later) = inr (inl refl)
Result-cases (some Result.unavailable) = inr (inr (inl refl))
Result-cases (some Result.success) = inr (inr (inr refl))

enabled_with-IsValid :
    (idle_timeout retry_delay : ℕ) (o : BoostOutcome) (l : Lease)
    → l.generation + 1 < u64_mod
    → is_success o.result ≡ holds_boost l.backend
    → l.active ≡ false
    → l.releasing ≡ false
    → l.release_failures ≡ 0
    → current_waits l.generation l.waits ≡ 0
    → All (IsOld l.generation) l.waits
    → All IsSettled l.released
    → IsValid (enabled_with idle_timeout retry_delay o l)
unfolding arm current_waits enabled_with reset
enabled_with-IsValid idle_timeout retry_delay o l small owing k r f quiet old settled =
    elim (Result-cases o.result) [
      | inl thrown ↦
          rw (thrown, enabled_with)
            (reset-IsValid o.reset_result l small (ground (arith, thrown, owing, k)) old settled)
      | inr (inl later) ↦ rw (later, enabled_with) (ground (arith, later, owing))
      | inr (inr (inl missing)) ↦
          rw (missing, enabled_with)
            (reset-IsValid o.reset_result l small (ground (arith, missing, owing, k)) old settled)
      | inr (inr (inr done)) ↦
          rw (done, enabled_with)
            (if-elim IsValid o.can_arm (λ _. ground (arith, done, owing))
              (λ _.
                reset-IsValid o.reset_result (record l { active = true }) small
                  (ground (arith, done, owing)) old settled))
    ]

activate-IsValid :
    (idle_timeout retry_delay : ℕ) (o : BoostOutcome) (l : Lease)
    → l.generation + 1 < u64_mod
    → IsValid l
    → IsValid (activate idle_timeout retry_delay o l)
unfolding activate call
activate-IsValid idle_timeout retry_delay o l small v =
    let renewed : Lease = record l { deadline = o.now + idle_timeout } in
    if-elim IsValid (not l.enabled || (not (is_some l.backend) || l.releasing)) (λ _. v)
      (λ ready.
        if-elim IsValid (ltb o.now l.retry_after) (λ _. v)
          (λ _.
            if-elim IsValid l.active (λ _. ground (arith, v))
              (λ k.
                enabled_with-IsValid idle_timeout retry_delay o (call true o.result renewed) small
                  (sym (asked-owes o renewed k v.active_owes (ground (arith, ready)))) k
                  (ground (arith, ready)) (ground (arith, ready, v.failing_is_releasing))
                  (v.idle_has_none k) v.old_waits v.settled)))

release-IsValid :
    (idle_timeout retry_delay : ℕ) (o : BoostOutcome) (l : Lease)
    → IsValid l
    → l.active ≡ true
    → l.release_failures < 4
    → current_waits l.generation l.waits ≡ 0
    → IsValid (release idle_timeout retry_delay o l)
unfolding release call arm current_waits owes
release-IsValid idle_timeout retry_delay o l v k few quiet = elim (Option-cases l.backend) [
  | inl e ↦ absurd (ground (arith, e, v.active_owes))
  | inr (calls, e) ↦ rw e (ground (arith, e, v.active_owes))
]

-- The handler of a wait, once the wait is taken out of the list.
expire-IsValid :
    (idle_timeout retry_delay : ℕ) (o : BoostOutcome) (error : Bool) (expected : ℕ) (l : Lease)
    → IsValid l
    → ((expected == l.generation) ≡ true
        → (l.active ≡ true) × (l.release_failures < 4) × (current_waits l.generation l.waits ≡ 0))
    → IsValid (expire idle_timeout retry_delay o error expected l)
unfolding expire arm current_waits
expire-IsValid idle_timeout retry_delay o error expected l v mine =
    if-elim IsValid (error || not (expected == l.generation)) (λ _. v)
      (λ live.
        let (k, few, quiet) = mine (ground (arith, live)) in
        if-elim IsValid (ltb o.now l.deadline)
          (λ _.
            if-elim IsValid o.can_arm (λ _. ground (arith, v, k, few, quiet))
              (λ _. ground (arith, v, k)))
          (λ _. release-IsValid idle_timeout retry_delay o l v k few quiet))

fire-IsValid :
    (idle_timeout retry_delay : ℕ) (o : BoostOutcome) (error : Bool) (index : ℕ) (l : Lease)
    → IsValid l
    → IsValid (fire idle_timeout retry_delay o error index l)
unfolding fire
fire-IsValid idle_timeout retry_delay o error index l v =
    elim (Option-cases (get_elem? l.waits index)) [
      | inl e ↦ rw (e, fire) v
      | inr (w, e) ↦
          let taken : Lease = record l { waits = erase_idx l.waits index } in
          let left = current_waits-erase_idx l.generation l.waits index e in
          rw (e, fire)
            (expire-IsValid idle_timeout retry_delay o error w.expected taken
              (ground
                (arith, v, left, All-erase_idx (IsOld l.generation) l.waits index v.old_waits))
              (λ h. ground (arith, v, left, h)))
    ]

-- Every event keeps the invariant.
pub after-IsValid :
    (idle_timeout retry_delay : ℕ) (event : LeaseEvent) (l : Lease)
    → l.generation + 1 < u64_mod
    → IsValid l
    → IsValid (after idle_timeout retry_delay event l)
unfolding after give_backend set_enabled reset owes
after-IsValid idle_timeout retry_delay (LeaseEvent.activated o) l small v =
    activate-IsValid idle_timeout retry_delay o l small v
after-IsValid idle_timeout retry_delay (LeaseEvent.fired o error index) l small v =
    fire-IsValid idle_timeout retry_delay o error index l v
after-IsValid idle_timeout retry_delay (LeaseEvent.given result is_given) l small v =
    let v' = reset-IsValid result l small v.active_owes v.old_waits v.settled in ground (arith, v')
after-IsValid idle_timeout retry_delay (LeaseEvent.switched enabled) l small v = ground (arith, v)
