-- ===== src/Tests/KeyTests.antt =====
-- The theorems on the key router at concrete inputs.
use ime_windows.Prelude.{ℕ, ◌≡◌, refl, ◌≢◌, ◌⊎◌, true, false, none, some}
use ime_windows.Bopomofo.Layout.{lookup}
use ime_windows.Keys.Presses.{
  InputMode, Modifiers, KeyPress, KeyContext, plain, vk_space, is_shift, is_modifier,
  ctrl_punctuation,
}
use ime_windows.Keys.Router.{
  route, route_punctuation, route_backtick, route_english, route_text, route_modified,
  route_composition, composing_key, eaten, as_int,
}
use ime_windows.Keys.State.{KeyState}
use ime_windows.Keys.Routing.{route-reading}

abbrev no_modifiers : Modifiers
no_modifiers = record { shift = false; ctrl = false; alt = false }

abbrev press_of : ℕ → Modifiers → KeyPress
press_of key modifiers = record { key = key; modifiers = modifiers; repeated = false; text = none }

-- Chinese mode, in an open composition.
abbrev composing : KeyContext
composing = record {
  mode = InputMode.chinese;
  composing = true;
  reading_complete = false;
  candidates_open = false;
  candidates_take_key = false;
  document_behind = false;
  full_width = false;
  width_toggle_enabled = true;
  backtick_prefix = false;
}

-- VK_S types ㄋ.
abbrev press_s : KeyPress
press_s = press_of 0x53 no_modifiers

route-reading_example :
    ((composing.mode ≡ InputMode.chinese) ⊎ ((press_s.text ≡ none) × (composing.composing ≡ true)))
    × (plain press_s.modifiers ≡ true)
    × (lookup (as_int press_s.key) ≡ some 0x310b)
    × ((composing.composing ≡ true) ⊎ (press_s.key ≢ vk_space))
unfolding route route_punctuation route_backtick route_english route_text route_modified
    route_composition composing_key eaten is_shift is_modifier ctrl_punctuation lookup
route-reading_example = route-reading press_s composing 0x310b refl

-- Alt+S.
abbrev press_alt_s : KeyPress
press_alt_s = press_of 0x53 (record { shift = false; ctrl = false; alt = true })

-- Shift+S, and then S.
abbrev press_shift_s : KeyPress
press_shift_s = press_of 0x53 (record { shift = true; ctrl = false; alt = false })

abbrev after_shift : KeyState
after_shift = record { shift_alone = true; backtick_prefix = false }
