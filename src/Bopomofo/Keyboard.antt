-- ===== src/Bopomofo/Keyboard.antt =====
-- The keyboard map and the symbol classes agree (class Bopomofo, frontend/src/core/bopomofo.hpp).
use ime_windows.Prelude.{
  ℕ, ◌+◌, ◌<◌, ◌≡◌, refl, Bool, true, false, not, ◌&&◌, some, List, [], ◌∷◌, contains, ◌==◌, ltb,
  arith,
}
use ime_windows.Bopomofo.Layout.{
  vk_to_bopomofo, find_key, lookup, is_initial, is_medial, is_final, is_tone, initials, medials,
  finals, tones,
}

-- How many of the four classes hold a symbol.
one : Bool → ℕ
one true = 1
one false = 0

unfoldable pub classes : ℕ → ℕ
unfolding one is_initial is_medial is_final is_tone
classes c = one (is_initial c) + (one (is_medial c) + (one (is_final c) + one (is_tone c)))

-- Every symbol of a map has exactly one class, and occurs once.
distinct : List (ℕ × ℕ) → List ℕ → Bool
distinct [] seen = true
distinct ((k, c) ∷ rest) seen = not (contains seen c) && distinct rest (c ∷ seen)

classified : List (ℕ × ℕ) → Bool
classified [] = true
classified ((k, c) ∷ rest) = (classes c == 1) && classified rest

find_key-not-seen :
    (m : List (ℕ × ℕ)) (seen : List ℕ) (k c : ℕ)
    → distinct m seen ≡ true
    → find_key m k ≡ some c
    → contains seen c ≡ false
unfolding distinct find_key
find_key-not-seen [] seen k c d h = cc
find_key-not-seen ((j, x) ∷ rest) seen k c d h =
    ground (arith, find_key-not-seen rest (x ∷ seen) k c)

find_key-injective :
    (m : List (ℕ × ℕ)) (seen : List ℕ) (k j c : ℕ)
    → distinct m seen ≡ true
    → find_key m k ≡ some c
    → find_key m j ≡ some c
    → k ≡ j
unfolding distinct find_key
find_key-injective [] seen k j c d h g = cc
find_key-injective ((i, x) ∷ rest) seen k j c d h g = ground (
  arith,
  find_key-injective rest (x ∷ seen) k j c,
  find_key-not-seen rest (x ∷ seen) k c,
  find_key-not-seen rest (x ∷ seen) j c,
)

find_key-classes :
    (m : List (ℕ × ℕ)) (k c : ℕ) → classified m ≡ true → find_key m k ≡ some c → classes c ≡ 1
unfolding classified find_key
find_key-classes [] k c d h = cc
find_key-classes ((j, x) ∷ rest) k c d h = ground (arith, find_key-classes rest k c)

layout_distinct : distinct vk_to_bopomofo [] ≡ true
unfolding distinct vk_to_bopomofo
layout_distinct = refl

layout_classified : classified vk_to_bopomofo ≡ true
unfolding classified classes vk_to_bopomofo
layout_classified = refl

-- Two keys that type the same symbol are the same key, and a symbol that a key types belongs to
-- exactly one of the classes initial, medial, final and tone.
pub lookup_injective :
    (k j c : ℕ) → lookup k ≡ some c → lookup j ≡ some c → (k ≡ j) × (classes c ≡ 1)
unfolding lookup
lookup_injective k j c h g = (
  find_key-injective vk_to_bopomofo [] k j c layout_distinct h g,
  find_key-classes vk_to_bopomofo k c layout_classified h,
)

-- The symbols below the surrogates, which UTF-16 writes as one unit.
all_below : ℕ → List ℕ → Bool
all_below n [] = true
all_below n (c ∷ cs) = ltb c n && all_below n cs

all_below_sound :
    (n : ℕ) (cs : List ℕ) (c : ℕ) → all_below n cs ≡ true → contains cs c ≡ true → c < n
unfolding all_below
all_below_sound n [] c h m = cc
all_below_sound n (x ∷ cs) c h m = ground (arith, all_below_sound n cs c)

pub is_initial-lt : (c : ℕ) → is_initial c ≡ true → c < 0xd800
unfolding is_initial initials all_below
is_initial-lt c h = all_below_sound 0xd800 initials c refl h

pub is_medial-lt : (c : ℕ) → is_medial c ≡ true → c < 0xd800
unfolding is_medial medials all_below
is_medial-lt c h = all_below_sound 0xd800 medials c refl h

pub is_final-lt : (c : ℕ) → is_final c ≡ true → c < 0xd800
unfolding is_final finals all_below
is_final-lt c h = all_below_sound 0xd800 finals c refl h

pub is_tone-lt : (c : ℕ) → is_tone c ≡ true → c < 0xd800
unfolding is_tone tones all_below
is_tone-lt c h = all_below_sound 0xd800 tones c refl h
