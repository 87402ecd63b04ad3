-- ===== src/Conversions/Lock.antt =====
-- class CandidateLock (frontend/src/core/candidate_lock.hpp): while the candidate list of an entry is
-- open, the results for it wait.
use ime_windows.Prelude.{
  ℕ, ◌≤◌, ◌≡◌, refl, ◌⊎◌, inl, inr, Option, none, some, List, [], ◌∷◌, ltb, if◌then◌else◌, arith,
  All, Bool-cases, ap,
}
use ime_windows.Bopomofo.Entry.{BopomofoPos}

pub record Held : Type 0 where
  pub sequence : ℕ
  pub requested : BopomofoPos
  pub converted : BopomofoPos

pub record CandidateLock : Type 0 where
  pub entry : Option ℕ
  pub held : Option Held

unfoldable pub unlocked : CandidateLock
unlocked = record { entry = none; held = none }

unfoldable pub open_lock : ℕ → CandidateLock → CandidateLock
open_lock entry s = record s { entry = some entry }

unfoldable pub hold : Held → CandidateLock → CandidateLock
hold result s = elim s.held [
  | none ↦ record s { held = some result }
  | some before ↦ if ltb result.sequence before.sequence then s else record s { held = some result }
]

unfoldable pub close_lock : CandidateLock → CandidateLock × Option Held
close_lock s = (unlocked, s.held)

-- The result is one of the list.
abbrev pub IsAmong : Held → List Held → Type 0
IsAmong result [] = ⊥
IsAmong result (first ∷ rest) = (result ≡ first) ⊎ IsAmong result rest

-- The results that arrive while the list is open, the first first.
unfoldable pub hold_all : List Held → CandidateLock → CandidateLock
hold_all [] s = s
hold_all (result ∷ rest) s = hold_all rest (hold result s)

-- `newest` is one of the results, and none of them is newer.
abbrev pub IsNewest : List Held → Held → Type 0
IsNewest results newest = IsAmong newest results × All (λ r. r.sequence ≤ newest.sequence) results

hold_all-held :
    (results : List Held) (before : Held) (s : CandidateLock)
    → s.held ≡ some before
    → (newest : Held) × ((hold_all results s).held ≡ some newest)
      × IsNewest (before ∷ results) newest
unfolding hold_all hold
hold_all-held [] before s e = (before, e, ground arith)
hold_all-held (result ∷ rest) before s e = elim (Bool-cases (ltb result.sequence before.sequence)) [
  | inl older ↦
      let (newest, found, is_newest) = hold_all-held rest before (hold result s) (ground arith) in
      (newest, ground (arith, found), ground (arith, is_newest))
  | inr newer ↦
      let (newest, found, is_newest) = hold_all-held rest result (hold result s) (ground arith) in
      (newest, ground (arith, found), ground (arith, is_newest))
]

-- The results that arrive while the list is open are answered with one: closing the lock gives a
-- result that came and that none is newer than, and leaves nothing held and no entry locked.
pub close_lock-hold_all :
    (entry : ℕ) (first : Held) (rest : List Held)
    → (newest : Held) × (close_lock (hold_all (first ∷ rest) (open_lock entry unlocked))
        ≡ (unlocked, some newest))
      × IsNewest (first ∷ rest) newest
unfolding close_lock hold_all hold open_lock unlocked
close_lock-hold_all entry first rest =
    let (newest, found, is_newest) =
      hold_all-held rest first (hold first (open_lock entry unlocked)) refl in
    (newest, ap (λ r. (unlocked, r)) found, is_newest)
