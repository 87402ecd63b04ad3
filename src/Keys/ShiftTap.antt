-- ===== src/Keys/ShiftTap.antt =====
-- What `KeyState` remembers (frontend/src/tsf/key_router.cpp, class KeyState).
use ime_windows.Prelude.{◌≡◌, true, false, List, [], ◌∷◌, arith}
use ime_windows.Keys.Presses.{KeyPress, KeyAction, is_shift}
use ime_windows.Keys.State.{KeyState, observe, handled, shift_released, is_shift_down}

-- The keys handled after the last time Shift went down, the oldest first.
unfoldable pub handle_all : List (KeyPress × KeyAction) → KeyState → KeyState
handle_all [] s = s
handle_all ((press, action) ∷ rest) s = handle_all rest (handled press action s)

-- A key that spends the Shift it is pressed with.
abbrev pub Spends : KeyPress → Type 0
Spends press = (press.modifiers.shift ≡ true) × (is_shift press.key ≡ false)

-- No action of the list is a new press of Shift.
unfoldable pub NoShiftDown : List (KeyPress × KeyAction) → Type 0
NoShiftDown [] = Unit
NoShiftDown ((press, action) ∷ rest) = (is_shift_down action ≡ false) × NoShiftDown rest

handle_all-spent :
    (rest : List (KeyPress × KeyAction)) (s : KeyState)
    → NoShiftDown rest
    → s.shift_alone ≡ false
    → (handle_all rest s).shift_alone ≡ false
unfolding handle_all NoShiftDown handled observe
handle_all-spent [] s h e = e
handle_all-spent ((press, action) ∷ rest) s h e =
    handle_all-spent rest (handled press action s) h.1 (ground arith)

-- A key pressed with Shift held makes the release of Shift no tap, whatever keys follow, as long as
-- Shift is not pressed again.
pub shift_released-spent :
    (press : KeyPress) (action : KeyAction) (rest : List (KeyPress × KeyAction)) (s : KeyState)
    → Spends press
    → NoShiftDown ((press, action) ∷ rest)
    → (shift_released (handle_all ((press, action) ∷ rest) s)).1 ≡ false
unfolding handle_all NoShiftDown handled observe shift_released
shift_released-spent press action rest s spends h =
    handle_all-spent rest (handled press action s) h.1 (ground arith)
