-- ===== src/Buffer/State.antt =====
-- The data of class CompositionBuffer and the queries that read no text (frontend/src/core/buffer.hpp).
-- The int `idx`, which is -1 before the first entry, is held as `caret` = idx + 1, the number of
-- entries before the caret; so `idx >= 0` reads 0 < caret, and `buffer[idx]` is entry caret - 1.
use ime_windows.Prelude.{
  ℕ, suc, ◌+◌, ◌-◌, Bool, false, not, ◌&&◌, ◌||◌, Option, none, some, List, [], ◌∷◌, length,
  is_empty, all, any, get_elem?, insert_at, erase_idx, set, ltb, leb, ◌==◌, if◌then◌else◌, next64,
  next32,
}
use ime_windows.Bopomofo.Entry.{BopomofoPos, fresh, is_predictable_by_engine}

pub record CompositionBuffer : Type 0 where
  pub buffer : List BopomofoPos
  pub caret : ℕ
  pub immediate_conversion_enabled : Bool
  pub revision : ℕ
  pub next_id : ℕ

-- `CompositionBuffer{}`.
unfoldable pub empty_buffer : CompositionBuffer
empty_buffer = record {
  buffer = [];
  caret = 0;
  immediate_conversion_enabled = false;
  revision = 0;
  next_id = 1;
}

pub record ConversionSnapshot : Type 0 where
  pub revision : ℕ
  pub entries : List BopomofoPos

unfoldable pub caret_on_entry : CompositionBuffer → Bool
caret_on_entry b = ltb 0 b.caret && leb b.caret (length b.buffer)

-- `buffer[idx]` behind the test `caret_on_entry()`.
unfoldable pub entry_at_caret : CompositionBuffer → Option BopomofoPos
entry_at_caret b = if caret_on_entry b then get_elem? b.buffer (b.caret - 1) else none

-- `edited(item)`, and the write of the item into its place.
unfoldable pub edited : ℕ → BopomofoPos → CompositionBuffer → CompositionBuffer
edited i item b = record b {
  buffer = set b.buffer i (record item { version = next32 item.version });
  revision = next64 b.revision;
}

-- The caller changes the new entry through the reference returned, here by `change`.
unfoldable pub insert_after_caret :
    (BopomofoPos → BopomofoPos) → CompositionBuffer → CompositionBuffer
insert_after_caret change b = record b {
  buffer = insert_at b.buffer b.caret (change (record fresh { id = b.next_id }));
  caret = b.caret + 1;
  revision = next64 b.revision;
  next_id = next64 b.next_id;
}

unfoldable pub erase_at_caret : CompositionBuffer → CompositionBuffer
erase_at_caret b = record b {
  buffer = erase_idx b.buffer (b.caret - 1);
  caret = b.caret - 1;
  revision = next64 b.revision;
}

-- `none` is the index -1.
unfoldable pub candidate_target_index : CompositionBuffer → Option ℕ
candidate_target_index b =
    if is_empty b.buffer
    then none
    else if ltb b.caret (length b.buffer)
    then some b.caret
    else if caret_on_entry b
    then some (b.caret - 1)
    else none

-- The pointer into the vector, as the index and the entry there.
unfoldable pub find_from : ℕ → ℕ → List BopomofoPos → Option (ℕ × BopomofoPos)
find_from position key [] = none
find_from position key (item ∷ rest) =
    if item.id == key then some (position, item) else find_from (suc position) key rest

unfoldable pub find : ℕ → List BopomofoPos → Option (ℕ × BopomofoPos)
find key buffer = find_from 0 key buffer

unfoldable pub set_immediate_conversion : Bool → CompositionBuffer → CompositionBuffer
set_immediate_conversion enabled b = record b { immediate_conversion_enabled = enabled }

unfoldable pub has_uncomposed_reading : CompositionBuffer → Bool
has_uncomposed_reading b = any (λ item. not item.compositable) b.buffer

unfoldable pub has_pending_conversion : CompositionBuffer → Bool
has_pending_conversion b = any (λ item. item.conversion_pending) b.buffer

unfoldable pub shows_unconverted : CompositionBuffer → Bool
shows_unconverted b = not b.immediate_conversion_enabled && has_pending_conversion b

unfoldable pub ready_to_commit : CompositionBuffer → Bool
ready_to_commit b =
    not (is_empty b.buffer) && (not (has_uncomposed_reading b) && not (has_pending_conversion b))

unfoldable pub output_is_trusted : CompositionBuffer → Bool
output_is_trusted b = all (λ item. item.chosen || item.model_converted) b.buffer

unfoldable pub current_invalid : CompositionBuffer → Bool
current_invalid b = elim (entry_at_caret b) [ none ↦ false | some item ↦ item.invalid ]

unfoldable pub current_compositable : CompositionBuffer → Bool
current_compositable b = elim (entry_at_caret b) [ none ↦ false | some item ↦ item.compositable ]

unfoldable pub conversion_snapshot : CompositionBuffer → Option ConversionSnapshot
conversion_snapshot b =
    if is_empty b.buffer
    then none
    else if not (all is_predictable_by_engine b.buffer)
    then none
    else if all (λ item. item.chosen) b.buffer
    then none
    else some (record { revision = b.revision; entries = b.buffer })

-- `none` is the exception "out of range".
unfoldable pub candidate_target : CompositionBuffer → Option BopomofoPos
candidate_target b = elim (candidate_target_index b) [
  | none ↦ none
  | some target ↦ get_elem? b.buffer target
]
