-- ===== src/Controller/Results.antt =====
-- The results that reach class CompositionController, and its end
-- (frontend/src/core/composition_controller.cpp). `none` is an exception.
use ime_windows.Prelude.{ℕ, Bool, false, Option, none, some, List, if◌then◌else◌}
use ime_windows.Bopomofo.Entry.{BopomofoPos}
use ime_windows.Conversions.Tracker.{Request, take_request, clear_pending, set_backend}
use ime_windows.Sealed.Queue.{QueueState, on_conversion, finish_locally, forget}
use ime_windows.Controller.State.{
  DocumentEdit, CompositionHost, Documents, ControllerState, owns, live_epoch, set_composition,
  run_edit, sealed_host,
}
use ime_windows.Controller.Actions.{seal}

-- ConversionResult::Status.
pub data Status : Type 0 where
  status_converted superseded backend_lost_status : Status

module _ {D : Type 0} (append16 : ℕ → List ℕ) (host : CompositionHost D) where
  unfoldable pub backend_lost : ControllerState D → ControllerState D
  backend_lost s =
      let cleared : QueueState (Documents D) = record s.queue {
        conversions = clear_pending s.queue.conversions;
      } in
      let finished : ControllerState D = record s {
        queue = finish_locally append16 (sealed_host host) cleared;
      } in
      elim s.composition [
        | none ↦ finished
        | some c ↦
            run_edit host c.document (DocumentEdit.accept_edit c.epoch)
              (set_composition (record c { sent = none }) finished)
      ]

  -- `on_conversion`, behind the status.
  unfoldable pub converted_result :
      Request → ℕ → List BopomofoPos → ControllerState D → ControllerState D
  converted_result r sequence padding s = elim (live_epoch r.epoch s) [
    | none ↦ record s {
      queue = on_conversion append16 (sealed_host host) r.epoch sequence r.snapshot padding s.queue;
    }
    | some c ↦ run_edit host r.document (DocumentEdit.apply_edit r sequence padding) s
  ]

  unfoldable pub receive : ℕ → Status → List BopomofoPos → ControllerState D → ControllerState D
  receive sequence status padding s =
      let (t, found) = take_request sequence s.queue.conversions in
      let taken : ControllerState D = record s { queue = record s.queue { conversions = t } } in
      elim found [
        | none ↦ s
        | some r ↦ elim status [
          | status_converted ↦ converted_result r sequence padding taken
          | superseded ↦ taken
          | backend_lost_status ↦ backend_lost taken
        ]
      ]

  unfoldable pub document_closed : ℕ → ControllerState D → ControllerState D
  document_closed document s =
      let forgotten : ControllerState D = record s {
        queue = forget append16 (sealed_host host) document s.queue;
      } in
      if owns document s then record forgotten { composition = none } else forgotten

  -- `reset`: the composition is forgotten, and the documents keep what they show.
  unfoldable pub reset_composition : ControllerState D → ControllerState D
  reset_composition s = record s { composition = none }

  -- CompositionController::set_backend.
  unfoldable pub change_backend : Bool → ControllerState D → ControllerState D
  change_backend present s = record s {
    queue = record s.queue { conversions = set_backend present s.queue.conversions };
  }

  unfoldable pub shutdown : ControllerState D → Option (ControllerState D)
  shutdown s =
      let t = clear_pending (set_backend false s.queue.conversions) in
      elim (seal append16 host (record s { queue = record s.queue { conversions = t } })) [
        | none ↦ none
        | some sealed ↦
            some (record sealed { queue = finish_locally append16 (sealed_host host) sealed.queue })
      ]
