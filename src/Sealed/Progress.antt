-- ===== src/Sealed/Progress.antt =====
-- How a sealed segment is converted and finished (frontend/src/core/sealed_text.cpp).
use ime_windows.Prelude.{
  ℕ, ◌+◌, ◌<◌, ◌≡◌, refl, ◌⊎◌, inl, inr, ◌++◌, Bool-cases, true, false, none, some, List, [], ◌∷◌,
  arith, leb, is_some, All, next64-eq, u64_mod, value_at, has_key-above,
}
use ime_windows.Bopomofo.Entry.{BopomofoPos, current}
use ime_windows.Bopomofo.Validity as Entry
use ime_windows.Bopomofo.Validity.{current-total}
use ime_windows.Buffer.State.{CompositionBuffer, conversion_snapshot}
use ime_windows.Buffer.Text.{final_text, input_entry, input_entries, commit_sample}
use ime_windows.Buffer.Concat.{concat-total}
use ime_windows.Conversions.Tracker.{ConversionTracker, BackendCall, Request, send}
use ime_windows.Conversions.Answers.{IsIssued}
use ime_windows.Sealed.Segment.{
  SealedSegment, Stage, is_finished, merge, stage_after, await, finish_segment, value_or_empty,
}
use ime_windows.Sealed.Queue.{DocumentHost, convert}
use ime_windows.Sealed.Erasing.{texts-total}

-- What a conversion request of the segment says.
abbrev pub request_of : SealedSegment → Request
request_of s = record {
  epoch = s.epoch;
  revision = s.buffer.revision;
  document = s.document;
  snapshot = s.buffer.buffer;
}

-- `s` was sent to the backend as the request `number`, which is pending and awaited.
abbrev pub IsAwaited : SealedSegment → SealedSegment → ConversionTracker → ℕ → Type 0
IsAwaited before s t number =
    (s.stage ≡ Stage.converting number)
    × (s.buffer ≡ before.buffer)
    × (value_at number t.pending ≡ some (request_of before))

conversion_snapshot-entries :
    (b : CompositionBuffer)
    → (conversion_snapshot b ≡ none)
      ⊎ (conversion_snapshot b ≡ some (record { revision = b.revision; entries = b.buffer }))
unfolding conversion_snapshot
conversion_snapshot-entries b = ground arith

-- With room in the counter: where there is a backend and something to convert, a conversion asks it for
-- the segment's entries, behind the text before it, and leaves the segment awaiting the next sequence,
-- under which the tracker holds its epoch, document, revision and entries. Only where there is no
-- backend or nothing to convert does it finish the segment, and ask nothing.
pub convert-IsAwaited :
    (s : SealedSegment) (t : ConversionTracker)
    → t.sequence + 1 < u64_mod
    → IsIssued t
    → (((t.backend ≡ false) ⊎ (conversion_snapshot s.buffer ≡ none))
        × (convert s t ≡ (finish_segment s, t)))
      ⊎ ((t.backend ≡ true)
          × (is_some (conversion_snapshot s.buffer) ≡ true)
          × IsAwaited s (convert s t).0 (convert s t).1 (t.sequence + 1)
          × ((convert s t).1.calls
              ≡ t.calls
                ++ (BackendCall.predict_call
                      (t.sequence + 1)
                      s.epoch
                      (value_or_empty s.preceding)
                      s.buffer.buffer
                    ∷ [])))
unfolding convert send await
convert-IsAwaited s t room issued = elim (conversion_snapshot-entries s.buffer) [
  | inl e ↦ inl (inr e, ground (arith, e))
  | inr e ↦ elim (Bool-cases t.backend) [
    | inl there ↦ inr (
        ground
          (arith, e, there, next64-eq t.sequence room, has_key-above t.sequence t.pending issued))
    | inr gone ↦ inl (inl gone, ground (arith, e, gone))
  ]
]

-- A segment that awaits a request is finished by the result of that request or of a newer one and by
-- no older one; one that was finished locally stays so, and what the document shows is not touched.
pub merge-is_finished :
    (sequence number : ℕ) (requested converted : List BopomofoPos) (s : SealedSegment)
    → s.stage ≡ Stage.converting number
    → (is_finished (merge sequence requested converted s) ≡ leb number sequence)
      × (is_finished (merge sequence requested converted (finish_segment s)) ≡ true)
      × ((merge sequence requested converted s).shown ≡ s.shown)
unfolding merge stage_after finish_segment
merge-is_finished sequence number requested converted s e = ground arith

module _ {H : Type 0} (append16 : ℕ → List ℕ) (host : DocumentHost H) where
  input_entries-total :
      (xs : List BopomofoPos) → All Entry.IsValid xs → is_some (input_entries append16 xs) ≡ true
  unfolding input_entries input_entry
  input_entries-total [] h = refl
  input_entries-total (x ∷ xs) h =
      let (t, e) = current-total append16 x h.0 in ground (arith, e, input_entries-total xs h.1)

  pub commit_sample-total :
      (context : List ℕ) (b : CompositionBuffer)
      → All Entry.IsValid b.buffer
      → is_some (commit_sample append16 context b) ≡ true
  unfolding commit_sample final_text
  commit_sample-total context b h =
      let (t, e) = concat-total (current append16) b.buffer (texts-total append16 b.buffer h) in
      ground (arith, e, input_entries-total b.buffer h)

  -- The entries of every segment are well formed.
  abbrev pub AreValid : List SealedSegment → Type 0
  AreValid segments = All (λ s. All Entry.IsValid s.buffer.buffer) segments
