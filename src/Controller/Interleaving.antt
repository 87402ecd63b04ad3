-- ===== src/Controller/Interleaving.antt =====
-- All that reaches class CompositionController (frontend/src/core/composition_controller.cpp), in any
-- order: keys, results, the end of a document, and the queued edits, of which any may run next. An edit
-- that runs right away, inside an operation, runs between the parts of the operation.
use ime_windows.Prelude.{
  ℕ, ◌+◌, ◌<◌, ◌≡◌, inl, inr, Bool, Option, none, some, List, Option-cases, u64_mod, get_elem?,
  erase_idx,
}
use ime_windows.Bopomofo.Entry.{BopomofoPos}
use ime_windows.Bopomofo.Hanzi.{HanziMapEngine}
use ime_windows.Controller.State.{CompositionHost, Documents, ControllerState, set_immediate}
use ime_windows.Controller.Actions.{
  type_reading, type_text, discard_reading, backspace, move_caret, enter, escape, seal,
  backspace_in_order, candidates_opened, choose, candidate_finalized, candidates_closed,
}
use ime_windows.Controller.Results.{
  Status, backend_lost, receive, document_closed, reset_composition, change_backend, shutdown,
}
use ime_windows.Controller.Steps.{run_now}
use ime_windows.Controller.Parts.{Part, do_part}
use ime_windows.Controller.Ordered.{IsOrdered, Stays, StaysWith, IsIn-closed}
use ime_windows.Controller.OrderedParts.{do_part-Stays}
use ime_windows.Controller.OrderedKeys.{
  type_reading-Stays, type_text-Stays, discard_reading-StaysWith, backspace-StaysWith,
  move_caret-Stays, enter-Stays, seal-Stays, escape-IsOrdered, candidate_finalized-Stays,
}
use ime_windows.Controller.OrderedEdits.{
  set_immediate-IsOrdered, candidates_opened-IsOrdered, choose-Stays, candidates_closed-Stays,
  backspace_in_order-IsOrdered, backend_lost-IsOrdered, receive-IsOrdered,
  document_closed-IsOrdered, shutdown-Stays,
}
use ime_windows.Controller.OrderedSteps.{run_now-Stays}

-- What happens to the controller. `edit_run` is the edit at an index of those that are queued.
pub data Event : Type 0 where
  reading_typed : (engine : HanziMapEngine) (document symbol : ℕ) → Event
  text_typed : (document : ℕ) (text : List ℕ) → Event
  reading_discarded backspaced entered escaped erased_in_order finalized closed_list closed :
      (document : ℕ) → Event
  caret_moved : (document : ℕ) (forward to_edge : Bool) → Event
  list_opened : (entry : ℕ) → Event
  chosen : (entry index : ℕ) → Event
  sealed lost stopped : Event
  setting_changed : (enabled : Bool) → Event
  received : (sequence : ℕ) (status : Status) (padding : List BopomofoPos) → Event
  forgotten : Event
  backend_changed : (present : Bool) → Event
  edit_run : (index : ℕ) → Event
  part_done : (part : Part) → Event

module _ {D : Type 0} (append16 : ℕ → List ℕ) (host : CompositionHost D) where
  abbrev state_of : {B : Type 0} → Option (ControllerState D × B) → Option (ControllerState D)
  state_of none = none
  state_of (some (s, b)) = some s

  unfoldable pub run_edit_at : ℕ → ControllerState D → Option (ControllerState D)
  run_edit_at index s = elim (get_elem? s.queue.documents.edits index) [
    | none ↦ some s
    | some (document, edit) ↦
        let left : Documents D = record s.queue.documents {
          edits = erase_idx s.queue.documents.edits index;
        } in
        run_now append16 host document edit
          (record s { queue = record s.queue { documents = left } })
  ]

  unfoldable pub happen : Event → ControllerState D → Option (ControllerState D)
  happen (Event.reading_typed engine document symbol) s =
      type_reading append16 host engine document symbol s
  happen (Event.text_typed document text) s = type_text append16 host document text s
  happen (Event.reading_discarded document) s = state_of (discard_reading append16 host document s)
  happen (Event.backspaced document) s = state_of (backspace append16 host document s)
  happen (Event.entered document) s = enter append16 host document s
  happen (Event.escaped document) s = some (escape append16 host document s)
  happen (Event.erased_in_order document) s = some (backspace_in_order append16 host document s)
  happen (Event.finalized document) s = candidate_finalized append16 host document s
  happen (Event.closed_list document) s = candidates_closed append16 host document s
  happen (Event.closed document) s = some (document_closed append16 host document s)
  happen (Event.caret_moved document forward to_edge) s =
      move_caret append16 host document forward to_edge s
  happen (Event.list_opened entry) s = some (candidates_opened append16 host entry s)
  happen (Event.chosen entry index) s = choose append16 host entry index s
  happen Event.sealed s = seal append16 host s
  happen Event.lost s = some (backend_lost append16 host s)
  happen Event.stopped s = shutdown append16 host s
  happen (Event.setting_changed enabled) s = some (set_immediate enabled s)
  happen (Event.received sequence status padding) s =
      some (receive append16 host sequence status padding s)
  happen Event.forgotten s = some (reset_composition append16 host s)
  happen (Event.backend_changed present) s = some (change_backend append16 host present s)
  happen (Event.edit_run index) s = run_edit_at index s
  happen (Event.part_done part) s = do_part append16 host part s

  -- The states that a state reaches, as long as nothing throws and the epochs fit in 64 bits.
  pub data Reaches : ControllerState D → ControllerState D → Type 0 where
    here : {s : ControllerState D} → Reaches s s
    then_happens :
        {s t u : ControllerState D} (event : Event)
        → Reaches s t
        → t.next_epoch + 1 < u64_mod
        → happen event t ≡ some u
        → Reaches s u

  StaysWith-Stays :
      {B : Type 0} (o : Option (ControllerState D × B)) → StaysWith o → Stays (state_of o)
  StaysWith-Stays none h = tt
  StaysWith-Stays (some (s, b)) h = h

  run_edit_at-Stays :
      (index : ℕ) (s : ControllerState D) → IsOrdered s → Stays (run_edit_at index s)
  unfolding run_edit_at
  run_edit_at-Stays index s h = elim (Option-cases (get_elem? s.queue.documents.edits index)) [
    | inl e ↦ rw (e, run_edit_at) h
    | inr ((document, edit), e) ↦
        let left : Documents D = record s.queue.documents {
          edits = erase_idx s.queue.documents.edits index;
        } in
        rw (e, run_edit_at)
          (run_now-Stays append16 host document edit
            (record s { queue = record s.queue { documents = left } }) h)
  ]

  happen-Stays :
      (event : Event) (s : ControllerState D)
      → s.next_epoch + 1 < u64_mod
      → IsOrdered s
      → Stays (happen event s)
  unfolding happen reset_composition change_backend
  happen-Stays (Event.reading_typed engine document symbol) s small h =
      type_reading-Stays append16 host engine document symbol s small h
  happen-Stays (Event.text_typed document text) s small h =
      type_text-Stays append16 host document text s small h
  happen-Stays (Event.reading_discarded document) s small h =
      StaysWith-Stays (discard_reading append16 host document s)
        (discard_reading-StaysWith append16 host document s h)
  happen-Stays (Event.backspaced document) s small h =
      StaysWith-Stays (backspace append16 host document s)
        (backspace-StaysWith append16 host document s h)
  happen-Stays (Event.entered document) s small h = enter-Stays append16 host document s h
  happen-Stays (Event.escaped document) s small h = escape-IsOrdered append16 host document s h
  happen-Stays (Event.erased_in_order document) s small h =
      backspace_in_order-IsOrdered append16 host document s h
  happen-Stays (Event.finalized document) s small h =
      candidate_finalized-Stays append16 host document s h
  happen-Stays (Event.closed_list document) s small h =
      candidates_closed-Stays append16 host document s h
  happen-Stays (Event.closed document) s small h =
      document_closed-IsOrdered append16 host document s h
  happen-Stays (Event.caret_moved document forward to_edge) s small h =
      move_caret-Stays append16 host document forward to_edge s h
  happen-Stays (Event.list_opened entry) s small h =
      candidates_opened-IsOrdered append16 host entry s h
  happen-Stays (Event.chosen entry index) s small h = choose-Stays append16 host entry index s h
  happen-Stays Event.sealed s small h = seal-Stays append16 host s h
  happen-Stays Event.lost s small h = backend_lost-IsOrdered append16 host s h
  happen-Stays Event.stopped s small h = shutdown-Stays append16 host s h
  happen-Stays (Event.setting_changed enabled) s small h =
      set_immediate-IsOrdered append16 host enabled s h
  happen-Stays (Event.received sequence status padding) s small h =
      receive-IsOrdered append16 host sequence status padding s h
  happen-Stays Event.forgotten s small h = IsIn-closed s.composition s.queue.segments s.next_epoch h
  happen-Stays (Event.backend_changed present) s small h = h
  happen-Stays (Event.edit_run index) s small h = run_edit_at-Stays index s h
  happen-Stays (Event.part_done part) s small h = do_part-Stays append16 host part s small h

  -- Whatever happens, in whatever order, where queued edits run in any order, between the operations or
  -- right away between the parts of one, as long as nothing throws and the epochs fit in 64 bits: if it
  -- held at the start, the sealed segments stay in the order in which they were sealed, no two with one
  -- epoch, and the open composition is newer than all of them.
  pub Reaches-IsOrdered : (s t : ControllerState D) → IsOrdered s → Reaches s t → IsOrdered t
  Reaches-IsOrdered s t h here = h
  Reaches-IsOrdered s u h (then_happens {t} event before small step) =
      rw step at (happen-Stays event t small (Reaches-IsOrdered s t h before))
