-- ===== src/Buffer/Edits.antt =====
-- The operations of class CompositionBuffer that the keys make (frontend/src/core/buffer.hpp).
use ime_windows.Prelude.{
  ℕ, suc, ◌+◌, ◌-◌, Bool, true, false, not, ◌||◌, Option, none, some, List, [], ◌∷◌, ◌++◌, length,
  is_empty, take, drop, ltb, leb, ◌==◌, if◌then◌else◌, next64,
}
use ime_windows.Bopomofo.Hanzi.{HanziMapEngine}
use ime_windows.Bopomofo.Entry.{
  BopomofoPos, fresh, accept, pop_last_bopomofo, is_null, set_chosen_candidate, set_choose_index,
  displayed, get_candidate_texts, multi_reading_literal, to_bopomofo_string,
}
use ime_windows.Buffer.State.{
  CompositionBuffer, entry_at_caret, edited, insert_after_caret, erase_at_caret, find,
  has_uncomposed_reading, current_invalid,
}

unfoldable pub pre : CompositionBuffer → CompositionBuffer × Bool
pre b = if b.caret == 0 then (b, false) else (record b { caret = b.caret - 1 }, true)

unfoldable pub next : CompositionBuffer → CompositionBuffer × Bool
next b =
    if leb (length b.buffer) b.caret then (b, false) else (record b { caret = b.caret + 1 }, true)

-- The two lines that end `remove_last`.
unfoldable pub clamp_caret : CompositionBuffer → CompositionBuffer
clamp_caret b =
    if is_empty b.buffer
    then record b { caret = 0 }
    else if ltb (length b.buffer) b.caret
    then record b { caret = length b.buffer }
    else b

-- The three branches of `remove_last` on the entry before the caret.
unfoldable pub remove_from : BopomofoPos → CompositionBuffer → CompositionBuffer
remove_from item b =
    let (popped, some_symbol) = pop_last_bopomofo item in
    if item.compositable
    then erase_at_caret b
    else if not some_symbol || is_null popped
    then erase_at_caret b
    else edited (b.caret - 1) popped b

unfoldable pub remove_last : CompositionBuffer → CompositionBuffer × Bool
remove_last b = elim (entry_at_caret b) [
  | none ↦ (b, false)
  | some item ↦ (clamp_caret (remove_from item b), true)
]

unfoldable pub discard_current_reading : CompositionBuffer → CompositionBuffer × Bool
discard_current_reading b = elim (entry_at_caret b) [
  | none ↦ (b, false)
  | some item ↦ if item.compositable then (b, false) else (erase_at_caret b, true)
]

unfoldable pub clear : CompositionBuffer → CompositionBuffer
clear b = record b { revision = next64 b.revision; buffer = []; caret = 0 }

unfoldable pub drop_invalid : CompositionBuffer → CompositionBuffer
drop_invalid b = if current_invalid b then erase_at_caret b else b

-- `insert_after_caret().accept(ch)`.
unfoldable pub insert_reading : HanziMapEngine → ℕ → CompositionBuffer → CompositionBuffer
insert_reading engine ch = insert_after_caret (λ item. (accept engine ch item).0)

unfoldable pub add_symbol : HanziMapEngine → ℕ → CompositionBuffer → CompositionBuffer
add_symbol engine ch b = elim (entry_at_caret b) [
  | none ↦ insert_reading engine ch b
  | some item ↦
      let (typed, accepted) = accept engine ch item in
      if accepted then edited (b.caret - 1) typed b else insert_reading engine ch b
]

unfoldable pub add : HanziMapEngine → ℕ → CompositionBuffer → CompositionBuffer
add engine ch b = add_symbol engine ch (drop_invalid b)

unfoldable pub add_chosen_candidate : ℕ → CompositionBuffer → CompositionBuffer
add_chosen_candidate ch b = insert_after_caret (set_chosen_candidate ch) (drop_invalid b)

-- A symbol as ordinary text; `manually_selected` when the user picked it from the list.
unfoldable pub literal_entry : Bool → ℕ → ℕ → BopomofoPos
literal_entry manual key ch = record (set_chosen_candidate ch (record fresh { id = key })) {
  manually_selected = manual;
}

-- The loop that makes one entry for each symbol, with `next_id_++` for each.
unfoldable pub literal_entries : Bool → ℕ → List ℕ → List BopomofoPos
literal_entries manual key [] = []
literal_entries manual key (ch ∷ rest) =
    literal_entry manual key ch ∷ literal_entries manual (next64 key) rest

unfoldable pub next_id_after : ℕ → List ℕ → ℕ
next_id_after key [] = key
next_id_after key (ch ∷ rest) = next_id_after (next64 key) rest

-- The entry at `position` is replaced by the symbols of its reading. `idx >= position - 1` is
-- caret >= position.
unfoldable pub replace_by_reading : ℕ → List ℕ → CompositionBuffer → CompositionBuffer
replace_by_reading position reading b = record b {
  buffer =
      take position b.buffer
      ++ (literal_entries true b.next_id reading ++ drop (suc position) b.buffer);
  caret = if leb position b.caret then b.caret + length reading - 1 else b.caret;
  revision = next64 b.revision;
  next_id = next_id_after b.next_id reading;
}

unfoldable pub choose_displayed :
    ℕ → BopomofoPos → ℕ → CompositionBuffer → Option (CompositionBuffer × Bool)
choose_displayed position item displayed_index b = elim (set_choose_index displayed_index item) [
  | none ↦ none
  | some item' ↦ some (edited position item' b, true)
]

unfoldable pub select_found :
    ℕ → BopomofoPos → ℕ → CompositionBuffer → Option (CompositionBuffer × Bool)
select_found position item displayed_index b = elim (multi_reading_literal item) [
  | none ↦ choose_displayed position item displayed_index b
  | some reading ↦
      if displayed_index == length (displayed item)
      then some (replace_by_reading position reading b, true)
      else choose_displayed position item displayed_index b
]

-- The outer `none` is an exception of `set_choose_index`.
unfoldable pub select_candidate :
    (ℕ → List ℕ) → ℕ → ℕ → CompositionBuffer → Option (CompositionBuffer × Bool)
select_candidate append16 key displayed_index b = elim (find key b.buffer) [
  | none ↦ some (b, false)
  | some (position, item) ↦ elim (get_candidate_texts append16 item) [
    | none ↦ some (b, false)
    | some texts ↦
        if leb (length texts) displayed_index
        then some (b, false)
        else select_found position item displayed_index b
  ]
]

-- The state of the loop of `freeze_readings`; `index` counts the entries that were read, and
-- `at_caret` is the new idx + 1.
pub record Frozen : Type 0 where
  pub index : ℕ
  pub frozen : List BopomofoPos
  pub at_caret : ℕ
  pub next_id : ℕ

-- The end of one round: `if (index == idx) caret = frozen.size() - 1`.
unfoldable pub advance : ℕ → List BopomofoPos → ℕ → Frozen → Frozen
advance caret frozen next_id s = record {
  index = suc s.index;
  frozen = frozen;
  at_caret = if suc s.index == caret then length frozen else s.at_caret;
  next_id = next_id;
}

unfoldable pub freeze_entry : ℕ → BopomofoPos → Frozen → Frozen
freeze_entry caret item s =
    let symbols = to_bopomofo_string item in
    if item.compositable
    then advance caret (s.frozen ++ item ∷ []) s.next_id s
    else advance caret (s.frozen ++ literal_entries false s.next_id symbols)
        (next_id_after s.next_id symbols) s

unfoldable pub freeze_loop : ℕ → List BopomofoPos → Frozen → Frozen
freeze_loop caret [] s = s
freeze_loop caret (item ∷ rest) s = freeze_loop caret rest (freeze_entry caret item s)

unfoldable pub freeze_readings : CompositionBuffer → CompositionBuffer × Bool
freeze_readings b =
    let start : Frozen = record { index = 0; frozen = []; at_caret = 0; next_id = b.next_id } in
    let done = freeze_loop b.caret b.buffer start in
    if has_uncomposed_reading b
    then (
      record b {
        buffer = done.frozen;
        caret = done.at_caret;
        next_id = done.next_id;
        revision = next64 b.revision;
      },
      true,
    )
    else (b, false)
