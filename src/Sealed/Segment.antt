-- ===== src/Sealed/Segment.antt =====
-- class SealedSegment (frontend/src/core/sealed_text.hpp, sealed_text.cpp) and `training_sample`
-- (frontend/src/core/training.hpp). `none` of a text is the exception of `current`.
use ime_windows.Prelude.{
  ℕ, ◌-◌, Bool, true, false, not, Option, none, some, List, [], ◌++◌, length, min, ltb, leb, take,
  if◌then◌else◌, next64,
}
use ime_windows.Bopomofo.Entry.{BopomofoPos, current}
use ime_windows.Buffer.State.{CompositionBuffer, output_is_trusted}
use ime_windows.Buffer.Text.{CommitSample, concat, to_string, commit_sample}
use ime_windows.Buffer.Merge.{merge_conversion, accept_local_candidates}
use ime_windows.Sealed.Units.{drop_last_characters}

-- SealedSegment::Stage.
pub data Stage : Type 0 where
  waiting_for_context : Stage
  converting : ℕ → Stage
  finished : Stage

-- `in_document` is Placement::InDocument.
pub record SealedSegment : Type 0 where
  pub epoch : ℕ
  pub document : ℕ
  pub buffer : CompositionBuffer
  pub shown : List ℕ
  pub preceding : Option (List ℕ)
  pub erased : ℕ
  pub stage : Stage
  pub in_document : Bool

abbrev pub is_finished : SealedSegment → Bool
is_finished s = elim s.stage [
  | waiting_for_context ↦ false
  | converting awaited ↦ false
  | finished ↦ true
]

abbrev pub is_waiting_for_context : SealedSegment → Bool
is_waiting_for_context s = elim s.stage [
  | waiting_for_context ↦ true
  | converting awaited ↦ false
  | finished ↦ false
]

unfoldable pub placed_segment : SealedSegment → SealedSegment
placed_segment s = record s { in_document = true }

unfoldable pub await : ℕ → SealedSegment → SealedSegment
await sequence s = record s { stage = converting sequence }

unfoldable pub set_preceding : List ℕ → SealedSegment → SealedSegment
set_preceding preceding s = record s { preceding = some preceding }

unfoldable pub stage_after : ℕ → Stage → Stage
stage_after sequence waiting_for_context = waiting_for_context
stage_after sequence (converting awaited) =
    if leb awaited sequence then finished else converting awaited
stage_after sequence finished = finished

unfoldable pub merge : ℕ → List BopomofoPos → List BopomofoPos → SealedSegment → SealedSegment
merge sequence requested converted s = record s {
  buffer = (merge_conversion sequence requested converted none s.buffer).0;
  stage = stage_after sequence s.stage;
}

unfoldable pub finish_segment : SealedSegment → SealedSegment
finish_segment s = record s { buffer = (accept_local_candidates s.buffer).0; stage = finished }

unfoldable pub erase_last : SealedSegment → SealedSegment
erase_last s =
    let erased = next64 s.erased in
    record s {
      erased = erased;
      stage = if leb (length s.buffer.buffer) erased then finished else s.stage;
    }

abbrev pub value_or_empty : Option (List ℕ) → List ℕ
value_or_empty none = []
value_or_empty (some text) = text

unfoldable pub erases_before : SealedSegment → ℕ
erases_before s =
    let size = length s.buffer.buffer in if ltb size s.erased then s.erased - size else 0

module _ (append16 : ℕ → List ℕ) where
  -- The constructor.
  unfoldable pub sealed_segment : ℕ → ℕ → CompositionBuffer → Option (List ℕ) → Option SealedSegment
  sealed_segment epoch document buffer preceding = elim (to_string append16 buffer) [
    | none ↦ none
    | some shown ↦ some (record {
      epoch = epoch;
      document = document;
      buffer = buffer;
      shown = shown;
      preceding = preceding;
      erased = 0;
      stage = waiting_for_context;
      in_document = false;
    })
  ]

  unfoldable pub text : SealedSegment → Option (List ℕ)
  text s =
      let entries = s.buffer.buffer in
      concat (current append16) (take (length entries - min s.erased (length entries)) entries)

  unfoldable pub following_context : SealedSegment → Option (List ℕ)
  following_context s =
      let context = drop_last_characters (erases_before s) (value_or_empty s.preceding) in
      elim (text s) [ none ↦ none | some own ↦ some (context ++ own) ]

  -- The outer `none` is an exception, the inner one std::nullopt.
  unfoldable pub training_sample : CompositionBuffer → List ℕ → Option (Option CommitSample)
  training_sample buffer preceding =
      if not (output_is_trusted buffer)
      then some none
      else elim (commit_sample append16 preceding buffer) [
        | none ↦ none
        | some sample ↦ some (some sample)
      ]

  unfoldable pub segment_sample : SealedSegment → Option (Option CommitSample)
  segment_sample s =
      if ltb 0 s.erased then some none else training_sample s.buffer (value_or_empty s.preceding)
