-- ===== src/Keys/Router.antt =====
-- The decision of the key router (frontend/src/tsf/key_router.hpp, key_router.cpp).
-- Keys are Windows virtual key codes, texts UTF-16 code units.
use ime_windows.Keys.Presses.{
  InputMode, KeyAction, KeyContext, KeyPress, Modifiers, backtick_punctuation, ctrl_punctuation,
  ideographic_space, is_modifier, is_shift, plain, vk_back, vk_oem_3, vk_return, vk_space, vk_tab,
}
use ime_windows.Prelude.{
  ℕ, ◌+◌, ◌%◌, u32_mod, Bool, true, false, not, ◌&&◌, ◌||◌, Option, none, some, List, [], ◌∷◌, map,
  contains, leb, ◌==◌, if◌then◌else◌, is_some,
}
use ime_windows.Bopomofo.Layout.{lookup}

-- VK_RETURN, VK_ESCAPE, VK_BACK, VK_DOWN, VK_LEFT, VK_RIGHT, VK_HOME, VK_END, VK_TAB and VK_SPACE.
unfoldable pub composing_key : ℕ → KeyContext → KeyAction
composing_key key context =
    if key == vk_return
    then KeyAction.enter
    else if key == 0x1b
    then KeyAction.escape
    else if key == vk_back
    then KeyAction.backspace
    else if key == 0x28
    then KeyAction.open_candidates
    else if key == 0x25
    then KeyAction.move_caret false false
    else if key == 0x27
    then KeyAction.move_caret true false
    else if key == 0x24
    then KeyAction.move_caret false true
    else if key == 0x23
    then KeyAction.move_caret true true
    else if key == vk_tab
    then KeyAction.ignore
    else if key == vk_space
    then (if context.reading_complete
        then KeyAction.compose (if context.full_width then ideographic_space else 0x20 ∷ [])
        else KeyAction.pass_through)
    else KeyAction.pass_through

-- The keys of the second part: VK_OEM_1, VK_OEM_PLUS, VK_OEM_COMMA, VK_OEM_MINUS, VK_OEM_PERIOD,
-- VK_OEM_2 to VK_OEM_8, VK_OEM_102 and the numeric pad's operators 0x6a to 0x6f.
unfoldable pub printable : ℕ → Modifiers → Bool
printable key modifiers =
    if is_modifier key || (modifiers.ctrl || modifiers.alt)
    then false
    else if (key == vk_space)
        || ((leb 0x30 key && leb key 0x39)
            || ((leb 0x41 key && leb key 0x5a) || (leb 0x60 key && leb key 0x69)))
    then true
    else contains
        (0xba ∷ 0xbb ∷ 0xbc ∷ 0xbd ∷ 0xbe ∷ 0xbf ∷ 0xc0 ∷ 0xdb ∷ 0xdc ∷ 0xdd ∷ 0xde ∷ 0xdf ∷ 0xe2
          ∷ 0x6a ∷ 0x6b ∷ 0x6c ∷ 0x6d ∷ 0x6e ∷ 0x6f ∷ [])
        key

-- One code unit of `to_full_width`; the sum stays below 2^16.
unfoldable pub widen : ℕ → ℕ
widen character =
    if character == 0x20
    then 0x3000
    else if leb 0x21 character && leb character 0x7e
    then character + 0xfee0
    else character

unfoldable pub to_full_width : List ℕ → List ℕ
to_full_width text = map widen text

unfoldable pub eaten : KeyAction → Bool
eaten KeyAction.pass_through = false
eaten _ = true

abbrev pub is_english : InputMode → Bool
is_english InputMode.english = true
is_english InputMode.chinese = false

unfoldable pub width : KeyContext → List ℕ → List ℕ
width context text = if context.full_width then to_full_width text else text

-- The last part of `route`: the modifiers have been dealt with.
unfoldable pub route_composition : KeyPress → KeyContext → Option ℕ → KeyAction
route_composition press context symbol =
    let key = press.key in
    let handled = composing_key key context in
    let taken : KeyAction = elim symbol [
      | none ↦ KeyAction.pass_through
      | some c ↦
          if not (key == vk_space) || context.composing
          then KeyAction.reading c
          else KeyAction.pass_through
    ] in
    if context.composing && context.candidates_open
    then (if context.candidates_take_key
        then KeyAction.candidates
        else if key == vk_back
        then KeyAction.backspace
        else KeyAction.pass_through)
    else if context.composing && eaten handled
    then handled
    else taken

-- From `if (context.full_width && !context.composing && key == VK_SPACE ...)` to the test of the
-- modifiers.
unfoldable pub route_modified : KeyPress → KeyContext → Option ℕ → KeyAction
route_modified press context symbol =
    let key = press.key in
    let modifiers = press.modifiers in
    let editing =
      ((key == vk_back) || (key == vk_return)) && (not modifiers.ctrl && not modifiers.alt) in
    let tab = (key == vk_tab) && not modifiers.alt in
    let modified = is_modifier key || (modifiers.ctrl || (modifiers.alt || modifiers.shift)) in
    if context.full_width && (not context.composing && ((key == vk_space) && plain modifiers))
    then KeyAction.insert ideographic_space
    else if modified && not (context.composing && (editing || tab))
    then KeyAction.pass_through
    else route_composition press context symbol

-- A text that is no symbol of the keyboard; `symbol` is `Bopomofo::lookup` of the key.
unfoldable pub route_text : KeyPress → KeyContext → Option ℕ → KeyAction
route_text press context symbol = elim press.text [
  | none ↦ route_modified press context symbol
  | some text ↦
      if is_some symbol
      then route_modified press context symbol
      else if context.composing
      then KeyAction.compose (width context text)
      else if context.full_width
      then KeyAction.insert (to_full_width text)
      else route_modified press context symbol
]

-- From `if (english && press.text)` on.
-- `static_cast<int>` of the key, a WPARAM: the numbers from 2^31 on stand for the negative ones.
abbrev pub as_int : ℕ → ℕ
as_int key = key % u32_mod

unfoldable pub route_english : Bool → KeyPress → KeyContext → KeyAction
route_english as_english press context =
    let rest =
      (if as_english && not context.composing
        then KeyAction.pass_through
        else route_text press context (lookup (as_int press.key))) in
    elim press.text [
      | none ↦ rest
      | some text ↦
          if not as_english
          then rest
          else if not context.composing
          then KeyAction.insert (width context text)
          else if is_english context.mode
          then KeyAction.compose (width context text)
          else KeyAction.compose_english (width context text)
    ]

-- `if (!english && context.backtick_prefix)`.
unfoldable pub route_backtick : Bool → KeyPress → KeyContext → KeyAction
route_backtick as_english press context =
    let rest = route_english as_english press context in
    if not as_english && context.backtick_prefix
    then elim (backtick_punctuation press.key press.modifiers) [
      | none ↦ rest
      | some text ↦ KeyAction.compose text
    ]
    else rest

unfoldable pub route_punctuation : Bool → KeyPress → KeyContext → KeyAction
route_punctuation as_english press context = elim (ctrl_punctuation press.key press.modifiers) [
  | none ↦ route_backtick as_english press context
  | some text ↦ KeyAction.compose text
]

unfoldable pub route : KeyPress → KeyContext → KeyAction
route press context =
    let key = press.key in
    let modifiers = press.modifiers in
    let as_english = is_english context.mode || modifiers.shift in
    if is_shift key
    then KeyAction.shift_down
    else if context.width_toggle_enabled
        && ((key == vk_space) && (modifiers.shift && (not modifiers.ctrl && not modifiers.alt)))
    then KeyAction.toggle_width
    else if not as_english && ((key == vk_oem_3) && plain modifiers)
    then (if context.backtick_prefix
        then KeyAction.compose (0x2035 ∷ [])
        else KeyAction.arm_backtick)
    else if (key == vk_back)
        && (not modifiers.ctrl
            && (not modifiers.alt && (not context.composing && context.document_behind)))
    then KeyAction.backspace_in_order
    else route_punctuation as_english press context
