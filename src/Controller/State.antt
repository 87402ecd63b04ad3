-- ===== src/Controller/State.antt =====
-- The state of class CompositionController (frontend/src/core/composition_controller.hpp), the edits
-- that it queues, and what a document offers (composition_host.hpp). The timing traces are left out.
use ime_windows.Prelude.{
  ℕ, Bool, true, false, not, ◌||◌, Option, none, some, List, [], ◌∷◌, ◌++◌, all, holds_nat, ◌==◌,
  if◌then◌else◌,
}
use ime_windows.Bopomofo.Entry.{BopomofoPos}
use ime_windows.Buffer.State.{
  CompositionBuffer, ready_to_commit, empty_buffer, set_immediate_conversion,
}
use ime_windows.Buffer.Text.{CommitSample, both, to_string, caret_offset, current_invalid_span}
use ime_windows.Conversions.Tracker.{Request}
use ime_windows.Conversions.Lock.{CandidateLock}
use ime_windows.Sealed.Queue.{DocumentHost, QueueState}

pub record Rendering : Type 0 where
  pub text : List ℕ
  pub caret : ℕ
  pub selection : Option (ℕ × ℕ)

pub record Sent : Type 0 where
  pub revision : ℕ
  pub sequence : ℕ

pub record Composition : Type 0 where
  pub epoch : ℕ
  pub document : ℕ
  pub preceding : Option (List ℕ)
  pub buffer : CompositionBuffer
  pub candidates : CandidateLock
  pub sent : Option Sent
  pub converted : Option ℕ

-- The callbacks of `run_edit`, with what they capture.
pub data DocumentEdit : Type 0 where
  read_context : ℕ → Bool → DocumentEdit
  show_edit : ℕ → Rendering → DocumentEdit
  erase_edit : DocumentEdit
  apply_edit : Request → ℕ → List BopomofoPos → DocumentEdit
  commit_edit : ℕ → Option CommitSample → DocumentEdit
  discard_edit : ℕ → DocumentEdit
  seal_edit : ℕ → DocumentEdit
  accept_edit : ℕ → DocumentEdit
  write_edit : DocumentEdit

-- class CompositionHost on a state `D` of the documents. `is_open` is the result of `run_edit`.
pub record CompositionHost (D : Type 0) : Type 0 where
  pub is_open : ℕ → D → Bool
  pub erase_before_caret : ℕ → D → D
  pub preceding_text : ℕ → ℕ → D → List ℕ
  pub render : ℕ → ℕ → Rendering → D → D
  pub commit : ℕ → ℕ → D → D
  pub discard : ℕ → ℕ → D → D
  pub seal : ℕ → ℕ → D → D
  pub sealed_text : ℕ → ℕ → D → Option (List ℕ)
  pub write_sealed : ℕ → ℕ → List ℕ → D → D
  pub erase_before_sealed : ℕ → ℕ → ℕ → D → D
  pub release_sealed : ℕ → ℕ → D → D
  pub caret_after_sealed : ℕ → ℕ → D → Bool
  pub record_commit : ℕ → ℕ → CommitSample → D → D

-- The documents, and the edits queued for them, the oldest first.
pub record Documents (D : Type 0) : Type 0 where
  pub edits : List (ℕ × DocumentEdit)
  pub state : D

-- `queue` holds the sealed segments, the tracker and the documents.
pub record ControllerState (D : Type 0) : Type 0 where
  pub composition : Option Composition
  pub next_epoch : ℕ
  pub immediate_conversion : Bool
  pub queue : QueueState (Documents D)

unfoldable pub settled : Composition → Bool
settled c =
    if not (ready_to_commit c.buffer)
    then false
    else all (λ item. item.chosen) c.buffer.buffer || holds_nat c.converted c.buffer.revision

unfoldable pub rendering : (ℕ → List ℕ) → Composition → Option Rendering
rendering append16 c =
    both
      (λ (shown : List ℕ) (position : ℕ × Option (ℕ × ℕ)). record {
        text = shown;
        caret = position.0;
        selection = position.1;
      })
      (to_string append16 c.buffer)
      (both (λ caret selection. (caret, selection)) (caret_offset append16 c.buffer)
        (current_invalid_span append16 c.buffer))

-- `Composition{.epoch = next_epoch_++, .document = document}` with the display setting.
unfoldable pub new_composition : ℕ → ℕ → Bool → Composition
new_composition epoch document immediate = record {
  epoch = epoch;
  document = document;
  preceding = none;
  buffer = set_immediate_conversion immediate empty_buffer;
  candidates = record { entry = none; held = none };
  sent = none;
  converted = none;
}

abbrev pub is_of : ℕ → Option Composition → Bool
is_of document none = false
is_of document (some c) = c.document == document

module _ {D : Type 0} where
  unfoldable pub owns : ℕ → ControllerState D → Bool
  owns document s = is_of document s.composition

  unfoldable pub live : ℕ → ControllerState D → Option Composition
  live document s = if owns document s then s.composition else none

  unfoldable pub live_epoch : ℕ → ControllerState D → Option Composition
  live_epoch epoch s = elim s.composition [
    | none ↦ none
    | some c ↦ if c.epoch == epoch then some c else none
  ]

  -- A change of the open composition in place.
  abbrev pub set_composition : Composition → ControllerState D → ControllerState D
  set_composition c s = record s { composition = some c }

  unfoldable pub set_immediate : Bool → ControllerState D → ControllerState D
  set_immediate enabled s = elim s.composition [
    | none ↦ record s { immediate_conversion = enabled }
    | some c ↦ record s {
      immediate_conversion = enabled;
      composition = some (record c { buffer = set_immediate_conversion enabled c.buffer });
    }
  ]

  -- `run_edit`: the edit is queued behind the edits before it. Where it runs right away, inside the
  -- operation, it runs between two of the operation's parts (Parts).
  unfoldable pub queue_edit :
      CompositionHost D → ℕ → DocumentEdit → Documents D → Documents D × Bool
  queue_edit host document edit d =
      if host.is_open document d.state
      then (record d { edits = d.edits ++ ((document, edit) ∷ []) }, true)
      else (d, false)

  unfoldable pub run_edit :
      CompositionHost D → ℕ → DocumentEdit → ControllerState D → ControllerState D
  run_edit host document edit s = record s {
    queue = record s.queue { documents = (queue_edit host document edit s.queue.documents).0 };
  }

  abbrev pub on_state : (D → D) → Documents D → Documents D
  on_state change d = record d { state = change d.state }

  -- What the sealed queue sees of the host.
  unfoldable pub sealed_host : CompositionHost D → DocumentHost (Documents D)
  sealed_host host = record {
    request_write = λ document d. queue_edit host document DocumentEdit.write_edit d;
    sealed_text = λ document epoch d. host.sealed_text document epoch d.state;
    write_sealed = λ document epoch text d. on_state (host.write_sealed document epoch text) d;
    erase_before_sealed =
        λ document epoch count d. on_state (host.erase_before_sealed document epoch count) d;
    release_sealed = λ document epoch d. on_state (host.release_sealed document epoch) d;
    caret_after_sealed = λ document epoch d. host.caret_after_sealed document epoch d.state;
    record_commit =
        λ document epoch sample d. on_state (host.record_commit document epoch sample) d;
  }
