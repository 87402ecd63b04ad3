-- ===== src/Tests/BufferTests.antt =====
-- The theorems on buffers at concrete inputs.
use ime_windows.Prelude.{◌≡◌, refl, true, false, none, some, [], ◌∷◌, take, arith}
use ime_windows.Bopomofo.Entry.{
  current, get_candidate_texts, displayed, single_reading_literal, multi_reading_literal,
  to_toneless_bopomofo_string, to_bopomofo_string, reading_text, fix_selected, set_choose_index,
}
use ime_windows.Buffer.State.{
  CompositionBuffer, edited, find, find_from, has_uncomposed_reading, has_pending_conversion,
}
use ime_windows.Buffer.Text.{concat, final_text, to_string}
use ime_windows.Buffer.Edits.{
  add, freeze_readings, select_candidate, select_found, choose_displayed,
}
use ime_windows.Buffer.Merge.{merge_conversion, accept_local_candidates}
use ime_windows.Buffer.Validity.{IsValid, add-IsValid}
use ime_windows.Buffer.Selecting.{select_candidate-Replaced, Replaced}
use ime_windows.Buffer.SelectingValidity.{select_candidate-IsValid}
use ime_windows.Buffer.FreezingText.{freeze_readings-reads, freeze_readings-IsValid}
use ime_windows.Buffer.Merging.{merge_conversion-Merged, Pointwise, Merged}
use ime_windows.Buffer.MergingValidity.{merge_conversion-IsValid}
use ime_windows.Buffer.Showing.{accept_local_candidates-shows}
use ime_windows.Buffer.Revisions.{Edit, edit, Revises, edit-Revises}
use ime_windows.Tests.Samples.{
  ni, ni_converted, ni_engine, ni_engine-HasNoEmptyRow, utf16, utf16-EncodesUnits, typing,
  typing-IsValid, waiting, waiting-IsValid,
}

add-IsValid_example : IsValid (add ni_engine 0x02c7 typing)
add-IsValid_example =
    add-IsValid ni_engine 0x02c7 typing ni_engine-HasNoEmptyRow typing-IsValid (omega arith)

edit-Revises_example : Revises typing (edit ni_engine Edit.backspace typing)
edit-Revises_example = edit-Revises ni_engine Edit.backspace typing

merge_conversion-Merged_example :
    let b' = (merge_conversion 7 (ni ∷ []) (ni_converted ∷ []) none typing).0 in
    Pointwise (Merged 7 none (ni ∷ []) (ni_converted ∷ [])) typing.buffer b'.buffer
    × (b'.caret ≡ typing.caret)
    × (b'.revision ≡ typing.revision)
    × (b'.next_id ≡ typing.next_id)
merge_conversion-Merged_example =
    merge_conversion-Merged 7 none (ni ∷ []) (ni_converted ∷ []) typing

merge_conversion-IsValid_example :
    IsValid (merge_conversion 7 (ni ∷ []) (ni_converted ∷ []) none waiting).0
merge_conversion-IsValid_example =
    merge_conversion-IsValid 7 none (ni ∷ []) (ni_converted ∷ []) waiting waiting-IsValid
      ((λ _. omega arith), tt) ((λ _ _. refl), tt)

select_candidate-Replaced_example :
    (b' : CompositionBuffer) × (select_candidate utf16 1 1 typing ≡ some (b', true))
    × Replaced utf16 0 (0x59b3 ∷ []) typing b'
unfolding find find_from get_candidate_texts displayed single_reading_literal
    to_toneless_bopomofo_string reading_text multi_reading_literal
select_candidate-Replaced_example =
    select_candidate-Replaced utf16 1 1 typing 0 ni
      ((0x4f60 ∷ []) ∷ (0x59b3 ∷ []) ∷ (0x310b ∷ 0x3127 ∷ 0x02c7 ∷ []) ∷ []) (0x59b3 ∷ [])
      utf16-EncodesUnits typing-IsValid refl refl refl

select_candidate-IsValid_example : IsValid (edited 0 (fix_selected 0x59b3 ni) typing)
unfolding select_candidate find find_from get_candidate_texts displayed single_reading_literal
    to_toneless_bopomofo_string reading_text multi_reading_literal select_found choose_displayed
    set_choose_index
select_candidate-IsValid_example =
    select_candidate-IsValid utf16 1 1 typing (edited 0 (fix_selected 0x59b3 ni) typing) true
      typing-IsValid (omega arith) refl

freeze_readings-IsValid_example : IsValid (freeze_readings typing).0
freeze_readings-IsValid_example = freeze_readings-IsValid typing typing-IsValid (omega arith)

freeze_readings-reads_example :
    let b' = (freeze_readings typing).0 in
    (has_uncomposed_reading b' ≡ false)
    × (final_text utf16 b' ≡ some (0x4f60 ∷ 0x310b ∷ 0x3127 ∷ []))
    × (concat (current utf16) (take b'.caret b'.buffer) ≡ some (0x4f60 ∷ 0x310b ∷ 0x3127 ∷ []))
unfolding final_text concat current to_bopomofo_string to_toneless_bopomofo_string
freeze_readings-reads_example =
    freeze_readings-reads utf16 utf16-EncodesUnits typing typing-IsValid refl refl

accept_local_candidates-shows_example :
    let (b', changed) = accept_local_candidates typing in
    (has_pending_conversion b' ≡ false)
    × (final_text utf16 b' ≡ final_text utf16 typing)
    × (to_string utf16 b' ≡ final_text utf16 typing)
    × (changed ≡ has_pending_conversion typing)
    × (b'.revision ≡ typing.revision)
accept_local_candidates-shows_example = accept_local_candidates-shows utf16 typing
