-- ===== src/Sealed/Units.antt =====
-- `drop_last_characters` (frontend/src/core/sealed_text.cpp), on UTF-16 code units.
use ime_windows.Prelude.{
  ℕ, zero, suc, Bool, false, ◌&&◌, Option, none, some, List, [], ◌∷◌, is_empty, leb, if◌then◌else◌,
}

-- `pop_back` of a text that is not empty.
abbrev pub pop_back : List ℕ → List ℕ
pop_back [] = []
pop_back (c ∷ []) = []
pop_back (c ∷ d ∷ text) = c ∷ pop_back (d ∷ text)

-- `back`, where there is one.
abbrev pub back? : List ℕ → Option ℕ
back? [] = none
back? (c ∷ []) = some c
back? (c ∷ d ∷ text) = back? (d ∷ text)

abbrev pub is_high_surrogate : ℕ → Bool
is_high_surrogate c = leb 0xd800 c && leb c 0xdbff

abbrev pub ends_high : List ℕ → Bool
ends_high text = elim (back? text) [ none ↦ false | some c ↦ is_high_surrogate c ]

-- The body of the loop, on a text that is not empty.
unfoldable pub drop_last_character : List ℕ → List ℕ
drop_last_character text =
    let shorter = pop_back text in if ends_high shorter then pop_back shorter else shorter

unfoldable pub drop_last_characters : ℕ → List ℕ → List ℕ
drop_last_characters zero text = text
drop_last_characters (suc count) text =
    let rest = drop_last_characters count (drop_last_character text) in
    if is_empty text then text else rest
