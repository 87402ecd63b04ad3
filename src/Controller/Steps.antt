-- ===== src/Controller/Steps.antt =====
-- The queued edits of class CompositionController, as they run
-- (frontend/src/core/composition_controller.cpp). `none` is an exception.
use ime_windows.Prelude.{ℕ, Bool, Option, none, some, List, ◌==◌, if◌then◌else◌}
use ime_windows.Bopomofo.Entry.{BopomofoPos}
use ime_windows.Buffer.Text.{CommitSample}
use ime_windows.Buffer.Merge.{MergeOutcome, merge_conversion, accept_local_candidates}
use ime_windows.Conversions.Tracker.{Request, prefill}
use ime_windows.Conversions.Lock.{CandidateLock, hold}
use ime_windows.Sealed.Queue.{
  context_at_caret, context_ready, on_conversion, placed, erase_sealed, write_finished,
}
use ime_windows.Controller.State.{
  Composition, DocumentEdit, CompositionHost, ControllerState, rendering, live_epoch,
  set_composition, on_state, sealed_host,
}
use ime_windows.Controller.Actions.{request_for}

-- `candidates.hold` of the outcome's result for the locked entry.
unfoldable pub hold_outcome : ℕ → MergeOutcome → CandidateLock → CandidateLock
hold_outcome sequence outcome lock = elim outcome.held [
  | none ↦ lock
  | some (requested, converted) ↦
      hold (record { sequence = sequence; requested = requested; converted = converted }) lock
]

module _ {D : Type 0} (append16 : ℕ → List ℕ) (host : CompositionHost D) where
  abbrev pub on_documents : (D → D) → ControllerState D → ControllerState D
  on_documents change s = record s {
    queue = record s.queue { documents = on_state change s.queue.documents };
  }

  unfoldable pub render_now : Composition → ControllerState D → Option (ControllerState D)
  render_now c s = elim (rendering append16 c) [
    | none ↦ none
    | some shown ↦ some (on_documents (host.render c.document c.epoch shown) s)
  ]

  -- CompositionController::context_ready.
  unfoldable pub context_known : ℕ → List ℕ → ControllerState D → ControllerState D
  context_known epoch preceding s = elim (live_epoch epoch s) [
    | none ↦ record s { queue = context_ready append16 (sealed_host host) epoch preceding s.queue }
    | some c ↦ request_for append16 host (record c { preceding = some preceding }) s
  ]

  unfoldable pub read_context_now : ℕ → ℕ → Bool → ControllerState D → Option (ControllerState D)
  read_context_now document epoch with_prefill s =
      elim (context_at_caret append16 (sealed_host host) document s.queue) [
        | none ↦ none
        | some context ↦
            let preceding : List ℕ = elim context [
              | none ↦ host.preceding_text document epoch s.queue.documents.state
              | some sealed ↦ sealed
            ] in
            let warmed : ControllerState D = record s {
              queue = record s.queue { conversions = prefill preceding s.queue.conversions };
            } in
            some (context_known epoch preceding (if with_prefill then warmed else s))
      ]

  unfoldable pub apply :
      Composition → ℕ → Request → List BopomofoPos → ControllerState D → Option (ControllerState D)
  apply c sequence r converted s =
      let (b, outcome) =
        merge_conversion sequence r.snapshot converted c.candidates.entry c.buffer in
      let c' : Composition = record c {
        buffer = b;
        candidates = hold_outcome sequence outcome c.candidates;
        converted = if r.revision == b.revision then some r.revision else c.converted;
      } in
      if outcome.changed then render_now c' (set_composition c' s) else some (set_composition c' s)

  unfoldable pub accept_local : Composition → ControllerState D → Option (ControllerState D)
  accept_local c s =
      let (b, changed) = accept_local_candidates c.buffer in
      let c' : Composition = record c { buffer = b; converted = some c.buffer.revision } in
      if changed then render_now c' (set_composition c' s) else some (set_composition c' s)

  unfoldable pub erase_now : ℕ → ControllerState D → ControllerState D
  erase_now document s =
      let (q, erased) = erase_sealed append16 (sealed_host host) document s.queue in
      let s' : ControllerState D = record s { queue = q } in
      if erased then s' else on_documents (host.erase_before_caret document) s'

  unfoldable pub commit_now : ℕ → ℕ → Option CommitSample → ControllerState D → ControllerState D
  commit_now document epoch sample s =
      let committed = on_documents (host.commit document epoch) s in
      elim sample [
        | none ↦ committed
        | some taught ↦ on_documents (host.record_commit document epoch taught) committed
      ]

  unfoldable pub seal_now : ℕ → ℕ → ControllerState D → ControllerState D
  seal_now document epoch s =
      let left = on_documents (host.seal document epoch) s in
      record left { queue = placed append16 (sealed_host host) epoch left.queue }

  unfoldable pub show_now :
      ℕ → ℕ → Option Composition → ControllerState D → Option (ControllerState D)
  show_now document epoch composition s = elim composition [
    | none ↦ some s
    | some c ↦ elim (rendering append16 c) [
      | none ↦ none
      | some shown ↦ some (on_documents (host.render document epoch shown) s)
    ]
  ]

  unfoldable pub run_now : ℕ → DocumentEdit → ControllerState D → Option (ControllerState D)
  run_now document (DocumentEdit.read_context epoch with_prefill) s =
      read_context_now document epoch with_prefill s
  run_now document (DocumentEdit.show_edit epoch ended) s = elim (live_epoch epoch s) [
    | none ↦ some (on_documents (host.render document epoch ended) s)
    | some c ↦ show_now document epoch (some c) s
  ]
  run_now document DocumentEdit.erase_edit s = some (erase_now document s)
  run_now document (DocumentEdit.apply_edit r sequence converted) s = elim (live_epoch r.epoch s) [
    | none ↦ some (record s {
      queue =
          on_conversion append16 (sealed_host host) r.epoch sequence r.snapshot converted s.queue;
    })
    | some c ↦ apply c sequence r converted s
  ]
  run_now document (DocumentEdit.commit_edit epoch sample) s =
      some (commit_now document epoch sample s)
  run_now document (DocumentEdit.discard_edit epoch) s =
      some (on_documents (host.discard document epoch) s)
  run_now document (DocumentEdit.seal_edit epoch) s = some (seal_now document epoch s)
  run_now document (DocumentEdit.accept_edit epoch) s = elim (live_epoch epoch s) [
    | none ↦ some s
    | some c ↦ accept_local c s
  ]
  run_now document DocumentEdit.write_edit s =
      elim (write_finished append16 (sealed_host host) document s.queue) [
        | none ↦ none
        | some q ↦ some (record s { queue = q })
      ]
