-- ===== src/Gpu/Lease.antt =====
-- class GpuActivityLease (service/src/service/gpu_activity_lease.hpp). The clock, the results of the
-- backend and whether a timer can be allocated are inputs. A wait that is cancelled stays in the list
-- until its handler runs, with an error or with an old generation.
use ime_windows.Prelude.{
  ℕ, suc, ◌+◌, Bool, true, false, not, ◌||◌, Option, none, some, List, [], ◌∷◌, leb, ltb, ◌==◌,
  if◌then◌else◌, is_some, get_elem?, erase_idx, next64,
}

pub data Result : Type 0 where
  success retry_later unavailable : Result

-- A call of the backend: what it is asked, and its result, `none` an exception.
pub record Driven : Type 0 where
  pub enable : Bool
  pub result : Option Result

-- A handler that waits for the timer, with the generation that it expects.
pub record Wait : Type 0 where
  pub expiry : ℕ
  pub expected : ℕ

-- `backend` holds the calls of the backend, the last first; `released` those of the backends that
-- were given up.
pub record Lease : Type 0 where
  pub deadline : ℕ
  pub retry_after : ℕ
  pub backend : Option (List Driven)
  pub generation : ℕ
  pub active : Bool
  pub enabled : Bool
  pub releasing : Bool
  pub release_failures : ℕ
  pub waits : List Wait
  pub released : List (List Driven)

-- What happens during an operation: the time, the result of the backend, that of a release by `reset`,
-- and whether `arm` throws.
pub record BoostOutcome : Type 0 where
  pub now : ℕ
  pub result : Option Result
  pub reset_result : Option Result
  pub can_arm : Bool

abbrev pub is_success : Option Result → Bool
is_success (some Result.success) = true
is_success _ = false

abbrev pub max_release_attempts : ℕ
max_release_attempts = 4

-- `backend(enable)`.
unfoldable pub call : Bool → Option Result → Lease → Lease
call enable result l = record l {
  backend = elim l.backend [
    | none ↦ none
    | some calls ↦ some (record { enable = enable; result = result } ∷ calls)
  ];
}

-- The backend that `reset` moves out, after the release of an active lease.
unfoldable pub given_up : Option Result → Lease → List (List Driven)
given_up result l = elim l.backend [
  | none ↦ l.released
  | some calls ↦
      (if l.active then record { enable = false; result = result } ∷ calls else calls) ∷ l.released
]

unfoldable pub reset : Option Result → Lease → Lease
reset result l = record l {
  generation = next64 l.generation;
  active = false;
  releasing = false;
  release_failures = 0;
  retry_after = 0;
  backend = none;
  released = given_up result l;
}

-- `arm`, when it does not throw.
unfoldable pub arm : Lease → Lease
arm l = record l { waits = record { expiry = l.deadline; expected = l.generation } ∷ l.waits }

module _ (idle_timeout retry_delay : ℕ) where
  -- After `backend(true)`.
  unfoldable pub enabled_with : BoostOutcome → Lease → Lease
  enabled_with o l = elim o.result [
    | none ↦ reset o.reset_result l
    | some Result.retry_later ↦ record l { retry_after = o.now + retry_delay }
    | some Result.unavailable ↦ reset o.reset_result l
    | some Result.success ↦
        let held : Lease = record l { active = true } in
        if o.can_arm then arm held else reset o.reset_result held
  ]

  unfoldable pub activate : BoostOutcome → Lease → Lease
  activate o l =
      let renewed : Lease = record l { deadline = o.now + idle_timeout } in
      if not l.enabled || (not (is_some l.backend) || l.releasing)
      then l
      else if ltb o.now l.retry_after
      then l
      else if l.active
      then renewed
      else enabled_with o (call true o.result renewed)

  unfoldable pub release : BoostOutcome → Lease → Lease
  release o l =
      let called : Lease = call false o.result (record l { releasing = true }) in
      let failed : Lease = record called { release_failures = suc l.release_failures } in
      let later : Lease = record failed { deadline = o.now + retry_delay } in
      if is_success o.result
      then record called { active = false; releasing = false; release_failures = 0 }
      else if leb max_release_attempts failed.release_failures
      then failed
      else if o.can_arm
      then arm later
      else later

  -- The handler of a wait.
  unfoldable pub expire : BoostOutcome → Bool → ℕ → Lease → Lease
  expire o error expected l =
      if error || not (expected == l.generation)
      then l
      else if ltb o.now l.deadline
      then (if o.can_arm then arm l else record l { releasing = true })
      else release o l

  -- The handler of the wait at `index` runs.
  unfoldable pub fire : BoostOutcome → Bool → ℕ → Lease → Lease
  fire o error index l = elim (get_elem? l.waits index) [
    | none ↦ l
    | some w ↦ expire o error w.expected (record l { waits = erase_idx l.waits index })
  ]

-- `true` for a backend that is set, `false` for `{}`.
unfoldable pub give_backend : Option Result → Bool → Lease → Lease
give_backend result is_given l = record (reset result l) {
  backend = if is_given then some [] else none;
}

unfoldable pub set_enabled : Bool → Lease → Lease
set_enabled enabled l = record l { enabled = enabled }

unfoldable pub new_lease : Lease
new_lease = record {
  deadline = 0;
  retry_after = 0;
  backend = none;
  generation = 0;
  active = false;
  enabled = true;
  releasing = false;
  release_failures = 0;
  waits = [];
  released = [];
}

-- What happens to a lease.
pub data LeaseEvent : Type 0 where
  activated : (o : BoostOutcome) → LeaseEvent
  fired : (o : BoostOutcome) (error : Bool) (index : ℕ) → LeaseEvent
  given : (result : Option Result) (is_given : Bool) → LeaseEvent
  switched : (enabled : Bool) → LeaseEvent

unfoldable pub after : ℕ → ℕ → LeaseEvent → Lease → Lease
after idle_timeout retry_delay (LeaseEvent.activated o) l = activate idle_timeout retry_delay o l
after idle_timeout retry_delay (LeaseEvent.fired o error index) l =
    fire idle_timeout retry_delay o error index l
after idle_timeout retry_delay (LeaseEvent.given result is_given) l = give_backend result is_given l
after idle_timeout retry_delay (LeaseEvent.switched enabled) l = set_enabled enabled l
