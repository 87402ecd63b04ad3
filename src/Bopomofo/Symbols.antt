-- ===== src/Bopomofo/Symbols.antt =====
-- The symbols of a reading are single UTF-16 code units below the surrogates
-- (struct BopomofoPos, frontend/src/core/bopomofo.hpp).
use ime_windows.Prelude.{
  ℕ, ◌<◌, ◌≡◌, inl, inr, Bool, true, some, List, [], ◌∷◌, All, All-append, arith,
}
use ime_windows.Bopomofo.Layout.{is_initial, is_medial, is_final, is_tone}
use ime_windows.Bopomofo.Keyboard.{is_initial-lt, is_medial-lt, is_final-lt, is_tone-lt}
use ime_windows.Bopomofo.Entry.{
  BopomofoPos, to_toneless_bopomofo_string, to_bopomofo_string, multi_reading_literal, typed,
}
use ime_windows.Bopomofo.Validity.{IsValid, Slot}

abbrev pub IsUnit : ℕ → Type 0
IsUnit c = c < 0xd800

-- What the program relies on of utf8::append16: such a code point is written as itself.
abbrev pub EncodesUnits : (ℕ → List ℕ) → Type 0
EncodesUnits append16 = (c : ℕ) → IsUnit c → append16 c ≡ c ∷ []

typed-All :
    (is_class : ℕ → Bool) (c : ℕ)
    → ((x : ℕ) → is_class x ≡ true → IsUnit x)
    → Slot is_class c
    → All IsUnit (typed c)
typed-All is_class c below (inl empty) = ground arith
typed-All is_class c below (inr holds) = ground (arith, below c holds)

pub toneless-All : (e : BopomofoPos) → IsValid e → All IsUnit (to_toneless_bopomofo_string e)
unfolding to_toneless_bopomofo_string
toneless-All e v =
    All-append IsUnit (typed e.initial) _
      (typed-All is_initial e.initial is_initial-lt v.initial_class)
      (All-append IsUnit (typed e.medial) _
        (typed-All is_medial e.medial is_medial-lt v.medial_class)
        (typed-All is_final e.final is_final-lt v.final_class))

pub to_bopomofo_string-All : (e : BopomofoPos) → IsValid e → All IsUnit (to_bopomofo_string e)
unfolding to_bopomofo_string
to_bopomofo_string-All e v =
    All-append IsUnit (to_toneless_bopomofo_string e) _ (toneless-All e v)
      (typed-All is_tone e.tone is_tone-lt v.tone_class)

pub multi_reading_literal-All :
    (e : BopomofoPos) {reading : List ℕ}
    → IsValid e
    → multi_reading_literal e ≡ some reading
    → All IsUnit reading
unfolding multi_reading_literal
multi_reading_literal-All e v h =
    let plain = toneless-All e v in
    let toned = λ (b : IsUnit e.tone).
      All-append IsUnit (to_toneless_bopomofo_string e) (e.tone ∷ []) plain (b, tt) in
    ground (arith, plain, toned, is_tone-lt e.tone, v.tone_class)
