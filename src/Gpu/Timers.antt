-- ===== src/Gpu/Timers.antt =====
-- The waits of a lease (service/src/service/gpu_activity_lease.hpp): which of them are of its present
-- generation, and what its backend owes.
use ime_windows.Prelude.{
  ℕ, zero, suc, ◌+◌, ◌≤◌, ◌≡◌, refl, Bool, true, false, not, ◌&&◌, ◌||◌, Option, some, List, [],
  ◌∷◌, ◌==◌, if◌then◌else◌, get_elem?, erase_idx, All, arith,
}
use ime_windows.Gpu.Lease.{Result, Driven, Wait, is_success}

-- How many waits expect the generation.
unfoldable pub current_waits : ℕ → List Wait → ℕ
current_waits generation [] = 0
current_waits generation (w ∷ waits) =
    let rest = current_waits generation waits in if w.expected == generation then suc rest else rest

-- Whether a backend with these calls, the last first, still owes the release of a boost.
unfoldable pub owes : List Driven → Bool
owes [] = false
owes (c ∷ calls) =
    let before = owes calls in
    if c.enable then is_success c.result || before else not (is_success c.result) && before

-- A backend that is given up owes nothing, unless its last call was the release that it failed.
unfoldable pub IsSettled : List Driven → Type 0
IsSettled [] = Unit
IsSettled (c ∷ calls) = (c.enable ≡ true) → (owes (c ∷ calls) ≡ false)

abbrev pub IsOld : ℕ → Wait → Type 0
IsOld generation w = w.expected ≤ generation

pub current_waits-erase_idx :
    (generation : ℕ) (waits : List Wait) (index : ℕ) {w : Wait}
    → get_elem? waits index ≡ some w
    → current_waits generation waits
      ≡ current_waits generation (erase_idx waits index)
        + (if w.expected == generation then 1 else 0)
unfolding current_waits
current_waits-erase_idx generation [] index h = cc
current_waits-erase_idx generation (v ∷ waits) zero h = ground arith
current_waits-erase_idx generation (v ∷ waits) (suc index) h =
    ground (arith, current_waits-erase_idx generation waits index h)

pub current_waits-above :
    (generation : ℕ) (waits : List Wait)
    → All (IsOld generation) waits
    → current_waits (generation + 1) waits ≡ 0
unfolding current_waits
current_waits-above generation [] h = refl
current_waits-above generation (w ∷ waits) h =
    ground (arith, current_waits-above generation waits h.1)

pub IsOld-later :
    (generation : ℕ) (waits : List Wait)
    → All (IsOld generation) waits
    → All (IsOld (generation + 1)) waits
IsOld-later generation [] h = tt
IsOld-later generation (w ∷ waits) h = (omega (arith, h.0), IsOld-later generation waits h.1)

pub clear-IsSettled : (calls : List Driven) → owes calls ≡ false → IsSettled calls
unfolding IsSettled
clear-IsSettled [] h = tt
clear-IsSettled (c ∷ calls) h = λ _. h

pub released-IsSettled :
    (result : Option Result) (calls : List Driven)
    → IsSettled (record { enable = false; result = result } ∷ calls)
unfolding IsSettled
released-IsSettled result calls = λ h. absurd (ground (arith, h))
