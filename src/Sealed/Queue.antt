-- ===== src/Sealed/Queue.antt =====
-- class SealedQueue (frontend/src/core/sealed_text.hpp, sealed_text.cpp). The documents are a
-- parameter; a failing text (`none`) is the exception of `current`.
use ime_windows.Prelude.{
  ℕ, Bool, true, false, not, ◌&&◌, Option, none, some, List, [], ◌∷◌, ◌++◌, map, contains, ltb,
  list_eq, ◌==◌, if◌then◌else◌, any,
}
use ime_windows.Bopomofo.Entry.{BopomofoPos}
use ime_windows.Buffer.State.{CompositionBuffer, conversion_snapshot}
use ime_windows.Buffer.Text.{CommitSample}
use ime_windows.Conversions.Tracker.{ConversionTracker, send}
use ime_windows.Sealed.Segment.{
  SealedSegment, is_finished, is_waiting_for_context, placed_segment, await, set_preceding, merge,
  finish_segment, erase_last, value_or_empty, erases_before, sealed_segment, text,
  following_context, segment_sample,
}

-- DocumentEditor, SealedTextStore and TrainingSink of composition_host.hpp, on the state `H` of the
-- documents. `request_write` is `run_edit` with `write_finished` as the edit: it queues the edit.
pub record DocumentHost (H : Type 0) : Type 0 where
  pub request_write : ℕ → H → H × Bool
  pub sealed_text : ℕ → ℕ → H → Option (List ℕ)
  pub write_sealed : ℕ → ℕ → List ℕ → H → H
  pub erase_before_sealed : ℕ → ℕ → ℕ → H → H
  pub release_sealed : ℕ → ℕ → H → H
  pub caret_after_sealed : ℕ → ℕ → H → Bool
  pub record_commit : ℕ → ℕ → CommitSample → H → H

-- The queue, the tracker it shares, and the documents.
pub record QueueState (H : Type 0) : Type 0 where
  pub segments : List SealedSegment
  pub conversions : ConversionTracker
  pub documents : H

-- What `write_finished` does with a segment.
pub data Verdict : Type 0 where
  other_document write_now leave : Verdict

unfoldable pub verdict : ℕ → Bool → SealedSegment → Verdict
verdict document earlier_waiting s =
    if not (s.document == document)
    then other_document
    else if s.in_document && (is_finished s && not (earlier_waiting && ltb 0 (erases_before s)))
    then write_now
    else leave

-- The segment with the epoch, changed in place.
abbrev pub update_found :
    ℕ → (SealedSegment → SealedSegment) → List SealedSegment → List SealedSegment
update_found epoch change [] = []
update_found epoch change (s ∷ rest) =
    if s.epoch == epoch then change s ∷ rest else s ∷ update_found epoch change rest

unfoldable pub find_segment : ℕ → List SealedSegment → Option SealedSegment
find_segment epoch [] = none
find_segment epoch (s ∷ rest) = if s.epoch == epoch then some s else find_segment epoch rest

-- The last segment of the document that is in it.
unfoldable pub find_newest : ℕ → List SealedSegment → Option SealedSegment
find_newest document [] = none
find_newest document (s ∷ rest) = elim (find_newest document rest) [
  | some later ↦ some later
  | none ↦ if (s.document == document) && s.in_document then some s else none
]

-- The same segment, changed in place.
unfoldable pub update_newest :
    ℕ → (SealedSegment → SealedSegment) → List SealedSegment → List SealedSegment
update_newest document change [] = []
update_newest document change (s ∷ rest) = elim (find_newest document rest) [
  | some later ↦ s ∷ update_newest document change rest
  | none ↦ if (s.document == document) && s.in_document then change s ∷ rest else s ∷ rest
]

-- `erase_if`.
unfoldable pub forget_segments : ℕ → List SealedSegment → List SealedSegment
forget_segments document [] = []
forget_segments document (s ∷ rest) =
    let left = forget_segments document rest in if s.document == document then left else s ∷ left

unfoldable pub pending : ℕ → List SealedSegment → Bool
pending document segments = any (λ s. s.document == document) segments

-- `convert`: the segment after it, and the tracker.
unfoldable pub convert : SealedSegment → ConversionTracker → SealedSegment × ConversionTracker
convert s conversions = elim (conversion_snapshot s.buffer) [
  | none ↦ (finish_segment s, conversions)
  | some snapshot ↦
      let (conversions', sequence) =
        send
          (record {
            epoch = s.epoch;
            revision = snapshot.revision;
            document = s.document;
            snapshot = snapshot.entries;
          })
          (value_or_empty s.preceding) conversions in
      elim sequence [
        | none ↦ (finish_segment s, conversions')
        | some number ↦ (await number s, conversions')
      ]
]

-- The documents of the segments, each once, in the order of their first segments.
unfoldable pub documents_of : List ℕ → List SealedSegment → List ℕ
documents_of seen [] = seen
documents_of seen (s ∷ rest) =
    documents_of (if contains seen s.document then seen else seen ++ (s.document ∷ [])) rest

module _ {H : Type 0} (append16 : ℕ → List ℕ) (host : DocumentHost H) where
  -- `write`, the test of the shown text and the writes behind it.
  unfoldable pub write_changes : SealedSegment → H → Option H
  write_changes s h = elim (text append16 s) [
    | none ↦ none
    | some final ↦ elim (segment_sample append16 s) [
      | none ↦ none
      | some sample ↦
          let written = host.write_sealed s.document s.epoch final h in
          let count = erases_before s in
          let erased =
            (if ltb 0 count
              then host.erase_before_sealed s.document s.epoch count written
              else written) in
          elim sample [
            | none ↦ some erased
            | some taught ↦ some (host.record_commit s.document s.epoch taught erased)
          ]
    ]
  ]

  unfoldable pub is_unchanged : SealedSegment → H → Bool
  is_unchanged s h = elim (host.sealed_text s.document s.epoch h) [
    | none ↦ false
    | some held ↦ list_eq held s.shown
  ]

  unfoldable pub write : SealedSegment → H → Option H
  write s h = elim (if is_unchanged s h then write_changes s h else some h) [
    | none ↦ none
    | some h' ↦ some (host.release_sealed s.document s.epoch h')
  ]

  -- The loop: what is left of the segments, and the documents.
  unfoldable pub write_loop : ℕ → Bool → List SealedSegment → H → Option (List SealedSegment × H)
  write_loop document earlier_waiting [] h = some ([], h)
  write_loop document earlier_waiting (s ∷ rest) h = elim (verdict document earlier_waiting s) [
    | other_document ↦ elim (write_loop document earlier_waiting rest h) [
      | none ↦ none
      | some (left, h') ↦ some (s ∷ left, h')
    ]
    | write_now ↦ elim (write s h) [
      | none ↦ none
      | some h' ↦ write_loop document earlier_waiting rest h'
    ]
    | leave ↦ elim (write_loop document true rest h) [
      | none ↦ none
      | some (left, h') ↦ some (s ∷ left, h')
    ]
  ]

  unfoldable pub write_finished : ℕ → QueueState H → Option (QueueState H)
  write_finished document q = elim (write_loop document false q.segments q.documents) [
    | none ↦ none
    | some (left, h) ↦ some (record q { segments = left; documents = h })
  ]

  unfoldable pub write_when_possible : ℕ → QueueState H → QueueState H
  write_when_possible document q =
      let (h, exists) = host.request_write document q.documents in
      if exists
      then record q { documents = h }
      else record q { documents = h; segments = forget_segments document q.segments }

  -- `if (segment.finished()) write_when_possible(document)`.
  unfoldable pub write_if_finished : SealedSegment → QueueState H → QueueState H
  write_if_finished s q = if is_finished s then write_when_possible s.document q else q

  -- `add`, from the new segment on.
  unfoldable pub start_segment :
      Option ℕ → SealedSegment → ConversionTracker → SealedSegment × ConversionTracker
  start_segment (some sequence) s conversions = (await sequence s, conversions)
  start_segment none s conversions = elim s.preceding [
    | none ↦ (s, conversions)
    | some known ↦ convert s conversions
  ]

  unfoldable pub add_segment :
      ℕ → ℕ → CompositionBuffer → Option (List ℕ) → Option ℕ → QueueState H → Option (QueueState H)
  add_segment epoch document buffer preceding in_flight q =
      elim (sealed_segment append16 epoch document buffer preceding) [
        | none ↦ none
        | some s ↦
            let (started, conversions) = start_segment in_flight s q.conversions in
            some (
              write_if_finished started
                (record q { segments = q.segments ++ (started ∷ []); conversions = conversions }))
      ]

  unfoldable pub context_ready : ℕ → List ℕ → QueueState H → QueueState H
  context_ready epoch preceding q = elim (find_segment epoch q.segments) [
    | none ↦ q
    | some s ↦
        let known = set_preceding preceding s in
        let (converted, conversions) = convert known q.conversions in
        if not (is_waiting_for_context known)
        then record q { segments = update_found epoch (λ _. known) q.segments }
        else write_if_finished converted (record q {
          segments = update_found epoch (λ _. converted) q.segments;
          conversions = conversions;
        })
  ]

  unfoldable pub placed : ℕ → QueueState H → QueueState H
  placed epoch q = elim (find_segment epoch q.segments) [
    | none ↦ q
    | some s ↦
        write_if_finished (placed_segment s)
          (record q { segments = update_found epoch placed_segment q.segments })
  ]

  unfoldable pub on_conversion :
      ℕ → ℕ → List BopomofoPos → List BopomofoPos → QueueState H → QueueState H
  on_conversion epoch sequence requested converted q = elim (find_segment epoch q.segments) [
    | none ↦ q
    | some s ↦
        write_if_finished (merge sequence requested converted s) (record q {
          segments = update_found epoch (merge sequence requested converted) q.segments;
        })
  ]

  unfoldable pub newest_at_caret : ℕ → QueueState H → Option SealedSegment
  newest_at_caret document q = elim (find_newest document q.segments) [
    | none ↦ none
    | some s ↦ if host.caret_after_sealed document s.epoch q.documents then some s else none
  ]

  unfoldable pub erase_sealed : ℕ → QueueState H → QueueState H × Bool
  erase_sealed document q = elim (newest_at_caret document q) [
    | none ↦ (q, false)
    | some s ↦
        let changed = record q { segments = update_newest document erase_last q.segments } in
        (if is_finished (erase_last s) then write_when_possible document changed else changed, true)
  ]

  unfoldable pub context_at_caret : ℕ → QueueState H → Option (Option (List ℕ))
  context_at_caret document q = elim (newest_at_caret document q) [
    | none ↦ some none
    | some s ↦ elim (following_context append16 s) [ none ↦ none | some t ↦ some (some t) ]
  ]

  unfoldable pub write_all : List ℕ → QueueState H → QueueState H
  write_all [] q = q
  write_all (document ∷ rest) q = write_all rest (write_when_possible document q)

  unfoldable pub finish_locally : QueueState H → QueueState H
  finish_locally q =
      write_all (documents_of [] q.segments) (record q { segments = map finish_segment q.segments })

  unfoldable pub forget : ℕ → QueueState H → QueueState H
  forget document q = record q { segments = forget_segments document q.segments }
