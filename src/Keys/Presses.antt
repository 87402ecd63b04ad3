-- ===== src/Keys/Presses.antt =====
-- The keys and actions, and the punctuation tables, of the key router
-- (frontend/src/tsf/key_router.hpp, key_router.cpp). Keys are Windows virtual key codes, texts UTF-16
-- code units.
use ime_windows.Prelude.{
  ℕ, Bool, not, ◌&&◌, ◌||◌, Option, none, some, List, [], ◌∷◌, contains, if◌then◌else◌,
}
use ime_windows.Bopomofo.Layout.{find_key}

-- enum class InputMode (frontend/src/engine/engine_types.hpp).
pub data InputMode : Type 0 where
  chinese english : InputMode

pub record Modifiers : Type 0 where
  pub shift : Bool
  pub ctrl : Bool
  pub alt : Bool

pub record KeyPress : Type 0 where
  pub key : ℕ
  pub modifiers : Modifiers
  pub repeated : Bool
  pub text : Option (List ℕ)

pub record KeyContext : Type 0 where
  pub mode : InputMode
  pub composing : Bool
  pub reading_complete : Bool
  pub candidates_open : Bool
  pub candidates_take_key : Bool
  pub document_behind : Bool
  pub full_width : Bool
  pub width_toggle_enabled : Bool
  pub backtick_prefix : Bool

-- The variant KeyAction; `move_caret` has the fields `forward` and `to_edge`.
pub data KeyAction : Type 0 where
  pass_through shift_down toggle_width arm_backtick : KeyAction
  insert compose compose_english : List ℕ → KeyAction
  reading : ℕ → KeyAction
  candidates open_candidates : KeyAction
  move_caret : Bool → Bool → KeyAction
  backspace backspace_in_order enter escape ignore : KeyAction

-- The key codes of <windows.h> that the router names.
abbrev pub vk_back : ℕ
vk_back = 0x08

abbrev pub vk_tab : ℕ
vk_tab = 0x09

abbrev pub vk_return : ℕ
vk_return = 0x0d

abbrev pub vk_space : ℕ
vk_space = 0x20

abbrev pub vk_oem_3 : ℕ
vk_oem_3 = 0xc0

-- VK_SHIFT, VK_LSHIFT, VK_RSHIFT.
unfoldable pub is_shift : ℕ → Bool
is_shift key = contains (0x10 ∷ 0xa0 ∷ 0xa1 ∷ []) key

-- VK_CONTROL, VK_LCONTROL, VK_RCONTROL, VK_MENU, VK_LMENU, VK_RMENU.
unfoldable pub is_modifier : ℕ → Bool
is_modifier key = is_shift key || contains (0x11 ∷ 0xa2 ∷ 0xa3 ∷ 0x12 ∷ 0xa4 ∷ 0xa5 ∷ []) key

unfoldable pub ctrl_shift_table : List (ℕ × ℕ)
ctrl_shift_table =
    (0xbc, 0x300a)
    ∷  -- VK_OEM_COMMA 《
        (0xbe, 0x300b)
    ∷  -- VK_OEM_PERIOD 》
        (0xba, 0xff1a)
    ∷  -- VK_OEM_1 ：
        (0xde, 0xff02)
    ∷  -- VK_OEM_7 ＂
        (0xdb, 0x300e)
    ∷  -- VK_OEM_4 『
        (0xdd, 0x300f)
    ∷  -- VK_OEM_6 』
        (0x31, 0xff01)
    ∷  -- 1 ！
        (0x39, 0xff08)
    ∷  -- 9 （
        (0x30, 0xff09)
    ∷  -- 0 ）
        (0xbf, 0xff1f)
    ∷  -- VK_OEM_2 ？
        []

unfoldable pub ctrl_table : List (ℕ × ℕ)
ctrl_table =
    (0xbc, 0xff0c)
    ∷  -- VK_OEM_COMMA ，
        (0xbe, 0x3002)
    ∷  -- VK_OEM_PERIOD 。
        (0xba, 0xff1b)
    ∷  -- VK_OEM_1 ；
        (0xde, 0x3001)
    ∷  -- VK_OEM_7 、
        (0xbd, 0x2014)
    ∷  -- VK_OEM_MINUS —
        (0xdb, 0x300c)
    ∷  -- VK_OEM_4 「
        (0xdd, 0x300d)
    ∷  -- VK_OEM_6 」
        []

unfoldable pub backtick_table : List (ℕ × ℕ)
backtick_table =
    (0xbc, 0xff0c)
    ∷  -- VK_OEM_COMMA ，
        (0xbe, 0x3002)
    ∷  -- VK_OEM_PERIOD 。
        (0xba, 0xff1b)
    ∷  -- VK_OEM_1 ；
        (0xbf, 0xff1f)
    ∷  -- VK_OEM_2 ？
        (0xc0, 0x2035)
    ∷  -- VK_OEM_3 ‵
        (0xde, 0x3001)
    ∷  -- VK_OEM_7 、
        (0xbd, 0x2014)
    ∷  -- VK_OEM_MINUS —
        (0xdb, 0x300c)
    ∷  -- VK_OEM_4 「
        (0xdd, 0x300d)
    ∷  -- VK_OEM_6 」
        []

-- A switch that returns a text of one code unit.
unfoldable pub punctuation : List (ℕ × ℕ) → ℕ → Option (List ℕ)
punctuation table key = elim (find_key table key) [ none ↦ none | some c ↦ some (c ∷ []) ]

unfoldable pub ctrl_punctuation : ℕ → Modifiers → Option (List ℕ)
ctrl_punctuation key modifiers =
    if not modifiers.ctrl || (modifiers.alt || is_modifier key)
    then none
    else if modifiers.shift
    then punctuation ctrl_shift_table key
    else punctuation ctrl_table key

unfoldable pub backtick_punctuation : ℕ → Modifiers → Option (List ℕ)
backtick_punctuation key modifiers =
    if modifiers.alt || is_modifier key then none else punctuation backtick_table key

abbrev pub plain : Modifiers → Bool
plain modifiers = not modifiers.shift && (not modifiers.ctrl && not modifiers.alt)

-- U+3000, the full-width space.
abbrev pub ideographic_space : List ℕ
ideographic_space = 0x3000 ∷ []
