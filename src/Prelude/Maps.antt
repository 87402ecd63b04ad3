-- ===== src/Prelude/Maps.antt =====
-- std::map with integer keys, as an association list.
use ime_windows.Prelude.Tests.{◌==◌, if◌then◌else◌}
use Prim.Native.Nat.{ℕ, ◌+◌, ◌≤◌}
use mathlib.Core.Path.{◌≡◌, refl}
use mathlib.Core.Logic.{◌≢◌}
use mathlib.Core.Bool.{Bool, true, false}
use mathlib.Core.Option.{Option, none, some}
use mathlib.Core.List.{List, [], ◌∷◌}
use native.Mathlib.Omega.{arith}

abbrev pub value_at {ℓ} : {A : Type ℓ} → ℕ → List (ℕ × A) → Option A
value_at k [] = none
value_at k ((j, a) ∷ rest) = if j == k then some a else value_at k rest

-- `contains`.
abbrev pub has_key {ℓ} : {A : Type ℓ} → ℕ → List (ℕ × A) → Bool
has_key k [] = false
has_key k ((j, a) ∷ rest) = if j == k then true else has_key k rest

-- `emplace`: a key that is present keeps its value.
abbrev pub emplace {ℓ} : {A : Type ℓ} → ℕ → A → List (ℕ × A) → List (ℕ × A)
emplace k a m = if has_key k m then m else (k, a) ∷ m

-- What is left after `extract`.
abbrev pub without {ℓ} : {A : Type ℓ} → ℕ → List (ℕ × A) → List (ℕ × A)
without k [] = []
without k ((j, a) ∷ rest) = let left = without k rest in if j == k then left else (j, a) ∷ left

abbrev pub KeysUpTo {ℓ} : {A : Type ℓ} → ℕ → List (ℕ × A) → Type ℓ
KeysUpTo n [] = Unit
KeysUpTo n ((j, a) ∷ rest) = (j ≤ n) × KeysUpTo n rest

pub without-KeysUpTo {ℓ} :
    {A : Type ℓ} (n k : ℕ) (m : List (ℕ × A)) → KeysUpTo n m → KeysUpTo n (without k m)
without-KeysUpTo n k [] h = h
without-KeysUpTo n k ((j, a) ∷ rest) h = ground (arith, without-KeysUpTo n k rest h.1)

pub KeysUpTo-mono {ℓ} :
    {A : Type ℓ} (n k : ℕ) (m : List (ℕ × A)) → n ≤ k → KeysUpTo n m → KeysUpTo k m
KeysUpTo-mono n k [] le h = h
KeysUpTo-mono n k ((j, a) ∷ rest) le h = ground (arith, KeysUpTo-mono n k rest le h.1)

pub has_key-above {ℓ} :
    {A : Type ℓ} (n : ℕ) (m : List (ℕ × A)) → KeysUpTo n m → has_key (n + 1) m ≡ false
has_key-above n [] h = refl
has_key-above n ((j, a) ∷ rest) h = ground (arith, has_key-above n rest h.1)

pub value_at-above {ℓ} :
    {A : Type ℓ} (n : ℕ) (m : List (ℕ × A)) → KeysUpTo n m → value_at (n + 1) m ≡ none
value_at-above n [] h = refl
value_at-above n ((j, a) ∷ rest) h = ground (arith, value_at-above n rest h.1)

pub value_at-without {ℓ} : {A : Type ℓ} (k : ℕ) (m : List (ℕ × A)) → value_at k (without k m) ≡ none
value_at-without k [] = refl
value_at-without k ((j, a) ∷ rest) = ground (arith, value_at-without k rest)

pub value_at-without_ne {ℓ} :
    {A : Type ℓ} (k i : ℕ) (m : List (ℕ × A)) → i ≢ k → value_at i (without k m) ≡ value_at i m
value_at-without_ne k i [] ne = refl
value_at-without_ne k i ((j, a) ∷ rest) ne = ground (arith, value_at-without_ne k i rest ne)
