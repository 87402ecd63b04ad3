-- ===== src/Keys/Routing.antt =====
-- What the key router promises (frontend/src/tsf/key_router.cpp).
use ime_windows.Prelude.{
  ℕ, ◌<◌, ◌≡◌, refl, ◌≢◌, ◌⊎◌, Bool, true, false, ◌&&◌, ◌||◌, Option, none, some, List, [], ◌∷◌,
  arith, length, All,
}
use ime_windows.Bopomofo.Layout.{lookup}
use ime_windows.Keys.Presses.{
  InputMode, KeyPress, KeyContext, KeyAction, is_shift, ctrl_punctuation, backtick_punctuation,
  vk_back, vk_return, vk_tab, vk_space, plain,
}
use ime_windows.Keys.Router.{
  composing_key, eaten, widen, to_full_width, route, route_punctuation, route_backtick,
  route_english, route_text, route_modified, route_composition, is_english, as_int,
}

widen_lem :
    (c : ℕ)
    → (widen (widen c) ≡ widen c)
      × ((widen c < 0x20) ⊎ (0x7e < widen c))
      × (c < 0x10000 → widen c < 0x10000)
unfolding widen
widen_lem c = ground arith

-- What holds of the code units of full-width text.
abbrev pub IsWide : ℕ → Type 0
IsWide c = ((c < 0x20) ⊎ (0x7e < c)) × (c < 0x10000)

-- Full-width text has as many code units as the text, none of them a space or printable ASCII and
-- all below 2^16; widening it again changes nothing.
pub to_full_width_lem :
    (text : List ℕ)
    → All (λ c. c < 0x10000) text
    → (to_full_width (to_full_width text) ≡ to_full_width text)
      × (length (to_full_width text) ≡ length text)
      × All IsWide (to_full_width text)
unfolding to_full_width
to_full_width_lem [] h = (refl, refl, tt)
to_full_width_lem (c ∷ text) h = ground (arith, widen_lem c, to_full_width_lem text h.1)

-- The actions that work on an open composition.
abbrev pub needs_composition : KeyAction → Bool
needs_composition (KeyAction.compose_english text) = true
needs_composition KeyAction.candidates = true
needs_composition KeyAction.open_candidates = true
needs_composition (KeyAction.move_caret forward to_edge) = true
needs_composition KeyAction.backspace = true
needs_composition KeyAction.enter = true
needs_composition KeyAction.escape = true
needs_composition KeyAction.ignore = true
needs_composition _ = false

-- Outside a composition no key is routed to one: Enter, Escape, Backspace, Tab, the arrows and the
-- candidate list stay with the application.
pub route-needs_composition :
    (press : KeyPress) (context : KeyContext)
    → needs_composition (route press context) ≡ true
    → context.composing ≡ true
unfolding route route_punctuation route_backtick route_english route_text route_modified
    route_composition
route-needs_composition press context h = ground arith

route_composition-reading :
    (press : KeyPress) (context : KeyContext) (symbol : Option ℕ) (c : ℕ)
    → route_composition press context symbol ≡ KeyAction.reading c
    → (symbol ≡ some c)
      × ((context.composing ≡ true) ⊎ (press.key ≢ vk_space))
      × ((context.composing && eaten (composing_key press.key context)) ≡ false)
unfolding route_composition composing_key eaten
route_composition-reading press context none c h = ground arith
route_composition-reading press context (some s) c h = ground arith

composing_key-edits :
    (key : ℕ) (context : KeyContext)
    → (key ≡ vk_back) ⊎ ((key ≡ vk_return) ⊎ (key ≡ vk_tab))
    → eaten (composing_key key context) ≡ true
unfolding composing_key eaten
composing_key-edits key context h = ground arith

route_modified-reading :
    (press : KeyPress) (context : KeyContext) (symbol : Option ℕ) (c : ℕ)
    → route_modified press context symbol ≡ KeyAction.reading c
    → (plain press.modifiers ≡ true)
      × (symbol ≡ some c)
      × ((context.composing ≡ true) ⊎ (press.key ≢ vk_space))
unfolding route_modified
route_modified-reading press context symbol c h =
    ground (
      arith,
      route_composition-reading press context symbol c,
      composing_key-edits press.key context,
    )

route_text-reading :
    (press : KeyPress) (context : KeyContext) (symbol : Option ℕ) (c : ℕ)
    → route_text press context symbol ≡ KeyAction.reading c
    → route_modified press context symbol ≡ KeyAction.reading c
unfolding route_text
route_text-reading press context symbol c h = ground arith

route_english-reading :
    (as_english : Bool) (press : KeyPress) (context : KeyContext) (c : ℕ)
    → route_english as_english press context ≡ KeyAction.reading c
    → ((as_english ≡ false) ⊎ ((press.text ≡ none) × (context.composing ≡ true)))
      × (route_text press context (lookup (as_int press.key)) ≡ KeyAction.reading c)
unfolding route_english
route_english-reading as_english press context c h = ground arith

route-english_reading :
    (press : KeyPress) (context : KeyContext) (c : ℕ)
    → route press context ≡ KeyAction.reading c
    → route_english (is_english context.mode || press.modifiers.shift) press context
      ≡ KeyAction.reading c
unfolding route route_punctuation route_backtick
route-english_reading press context c h = ground arith

-- A key is routed to a reading only without modifiers and for the symbol that it has on the keyboard;
-- then the mode is Chinese, or the key types no text and a composition is open, and the space bar is
-- a symbol only in a composition.
pub route-reading :
    (press : KeyPress) (context : KeyContext) (c : ℕ)
    → route press context ≡ KeyAction.reading c
    → ((context.mode ≡ InputMode.chinese) ⊎ ((press.text ≡ none) × (context.composing ≡ true)))
      × (plain press.modifiers ≡ true)
      × (lookup (as_int press.key) ≡ some c)
      × ((context.composing ≡ true) ⊎ (press.key ≢ vk_space))
route-reading press context c h =
    let as_english = is_english context.mode || press.modifiers.shift in
    let at_english =
      route_english-reading as_english press context c (route-english_reading press context c h) in
    ground (
      arith,
      at_english,
      route_modified-reading press context (lookup (as_int press.key)) c
          (route_text-reading press context (lookup (as_int press.key)) c at_english.1),
    )

-- Alt shortcuts stay with the application: with Alt held and no text typed, only Shift itself is seen.
pub route-alt :
    (press : KeyPress) (context : KeyContext)
    → press.modifiers.alt ≡ true
    → press.text ≡ none
    → is_shift press.key ≡ false
    → route press context ≡ KeyAction.pass_through
unfolding route route_punctuation route_backtick route_english route_text route_modified
    ctrl_punctuation backtick_punctuation
route-alt press context a t s = ground arith
