-- ===== src/Controller/OrderedParts.antt =====
-- The epochs of class CompositionController (frontend/src/core/composition_controller.cpp): the parts
-- of its operations.
use ime_windows.Prelude.{
  ℕ, ◌+◌, ◌<◌, inl, inr, Bool, some, List, map, is_empty, if-elim, arith, u64_mod, Option-cases,
}
use ime_windows.Buffer.Edits.{freeze_readings}
use ime_windows.Sealed.Segment.{finish_segment}
use ime_windows.Sealed.Queue.{add_segment, write_when_possible}
use ime_windows.Sealed.Epochs.{Increasing-higher, map-Keeps, finish_segment-epoch}
use ime_windows.Sealed.QueueEpochs.{add_segment-Increasing, write_when_possible-Keeps}
use ime_windows.Controller.State.{
  Composition, CompositionHost, ControllerState, settled, set_composition, run_edit, sealed_host,
}
use ime_windows.Controller.Actions.{in_flight, request_for}
use ime_windows.Controller.Ordered.{
  IsIn, IsOrdered, Stays, IsIn-Keeps, request_for-IsOrdered, discard_composition-IsOrdered,
  show-Stays, on_live, open_composition-IsOrdered,
}
use ime_windows.Controller.OrderedKeys.{commit-Stays}
use ime_windows.Controller.Parts.{
  Part, begin_update, request_now, begin_seal_composition, begin_seal, accept_later, do_part,
}

module _ {D : Type 0} (append16 : ℕ → List ℕ) (host : CompositionHost D) where
  begin_update-Stays :
      (c : Composition) (s : ControllerState D)
      → IsIn (some c) s.queue.segments s.next_epoch
      → Stays (begin_update append16 host c s)
  unfolding begin_update
  begin_update-Stays c s h =
      if-elim Stays (is_empty c.buffer.buffer)
        (λ _. discard_composition-IsOrdered append16 host c s h)
        (λ _. show-Stays append16 host c (set_composition c s) h)

  begin_seal_composition-Stays :
      (frozen : Bool) (c : Composition) (s : ControllerState D)
      → IsIn (some c) s.queue.segments s.next_epoch
      → Stays (begin_seal_composition append16 host frozen c s)
  unfolding begin_seal_composition
  begin_seal_composition-Stays frozen c s h =
      let flight = in_flight append16 host frozen c s.queue.conversions in
      elim (Option-cases (
        add_segment append16 (sealed_host host) c.epoch c.document c.buffer c.preceding flight
          s.queue)) [
            | inl e ↦ rw (e, begin_seal_composition) tt
            | inr (q, e) ↦
                let grown =
                  add_segment-Increasing append16 (sealed_host host) c.epoch c.document c.buffer
                    c.preceding flight s.queue q 0 e h.0 in
                rw (e, begin_seal_composition)
                  (Increasing-higher 0 (c.epoch + 1) s.next_epoch q.segments (omega (arith, h.1))
                    grown)
          ]

  begin_seal-Stays : (s : ControllerState D) → IsOrdered s → Stays (begin_seal append16 host s)
  unfolding begin_seal
  begin_seal-Stays s h = elim (Option-cases s.composition) [
    | inl e ↦ rw (e, begin_seal) h
    | inr (c, e) ↦
        let i : IsIn (some c) s.queue.segments s.next_epoch = rw e at h in
        let (b, frozen) = freeze_readings c.buffer in
        let c' : Composition = record c { buffer = b } in
        rw (e, begin_seal)
          (if-elim Stays (settled c') (λ _. commit-Stays append16 host c' s i)
            (λ _. begin_seal_composition-Stays frozen c' s i))
  ]

  accept_later-IsOrdered :
      (s : ControllerState D) → IsOrdered s → IsOrdered (accept_later append16 host s)
  unfolding accept_later run_edit
  accept_later-IsOrdered s h = elim (Option-cases s.composition) [
    | inl e ↦ rw (e, accept_later) h
    | inr (c, e) ↦ rw (e, accept_later) (rw e at h)
  ]

  pub do_part-Stays :
      (part : Part) (s : ControllerState D)
      → s.next_epoch + 1 < u64_mod
      → IsOrdered s
      → Stays (do_part append16 host part s)
  unfolding do_part request_now run_edit
  do_part-Stays (Part.opens document prefill) s small h =
      (open_composition-IsOrdered append16 host document prefill s small h).0
  do_part-Stays (Part.changes document change) s small h =
      on_live append16 host Stays document s (some s) _ h h
        (λ c i. begin_update-Stays (record c { buffer = change c.buffer }) s i)
  do_part-Stays (Part.requests document) s small h =
      on_live append16 host Stays document s (some s) (λ c. some (request_for append16 host c s)) h
        h (λ c i. request_for-IsOrdered append16 host c s i)
  do_part-Stays Part.seals s small h = begin_seal-Stays s h
  do_part-Stays (Part.places document epoch) s small h = h
  do_part-Stays Part.clears s small h = h
  do_part-Stays Part.finishes s small h =
      IsIn-Keeps s.composition s.queue.segments (map finish_segment s.queue.segments) s.next_epoch
        (map-Keeps finish_segment s.queue.segments finish_segment-epoch) h
  do_part-Stays (Part.writes document) s small h =
      IsIn-Keeps s.composition s.queue.segments
        (write_when_possible append16 (sealed_host host) document s.queue).segments s.next_epoch
        (write_when_possible-Keeps append16 (sealed_host host) document s.queue) h
  do_part-Stays Part.accepts s small h = accept_later-IsOrdered s h
