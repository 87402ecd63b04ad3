-- ===== src/Keys/State.antt =====
-- class KeyState (frontend/src/tsf/key_router.hpp, key_router.cpp): what lasts across keys.
use ime_windows.Prelude.{Bool, true, false, not, ◌&&◌, if◌then◌else◌}
use ime_windows.Keys.Presses.{InputMode, KeyPress, KeyAction, is_shift, is_modifier}
use ime_windows.Keys.Router.{is_english}

pub record KeyState : Type 0 where
  pub shift_alone : Bool
  pub backtick_prefix : Bool

unfoldable pub initial_state : KeyState
initial_state = record { shift_alone = false; backtick_prefix = false }

unfoldable pub observe : KeyPress → KeyState → KeyState
observe press s =
    if press.modifiers.shift && not (is_shift press.key)
    then record s { shift_alone = false }
    else s

abbrev pub is_shift_down : KeyAction → Bool
is_shift_down KeyAction.shift_down = true
is_shift_down _ = false

abbrev pub is_arm_backtick : KeyAction → Bool
is_arm_backtick KeyAction.arm_backtick = true
is_arm_backtick _ = false

unfoldable pub handled : KeyPress → KeyAction → KeyState → KeyState
handled press action s =
    let seen = observe press s in
    if is_shift_down action
    then (if not press.repeated then record seen { shift_alone = true } else seen)
    else if is_modifier press.key
    then seen
    else record seen { backtick_prefix = is_arm_backtick action }

unfoldable pub mode_changed : InputMode → KeyState → KeyState
mode_changed mode s = if is_english mode then record s { backtick_prefix = false } else s

-- The new state, and whether Shift was tapped.
unfoldable pub shift_released : KeyState → KeyState × Bool
shift_released s = (record s { shift_alone = false }, s.shift_alone)
