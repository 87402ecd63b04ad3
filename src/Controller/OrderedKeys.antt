-- ===== src/Controller/OrderedKeys.antt =====
-- The epochs of class CompositionController (frontend/src/core/composition_controller.cpp): the keys.
use ime_windows.Prelude.{
  ℕ, ◌+◌, ◌<◌, inl, inr, Bool, true, false, not, some, List, if◌then◌else◌, if-elim, arith,
  Option-cases, u64_mod, is_empty, length,
}
use ime_windows.Bopomofo.Hanzi.{HanziMapEngine}
use ime_windows.Buffer.State.{has_uncomposed_reading}
use ime_windows.Buffer.Edits.{add, next, pre, discard_current_reading, remove_last, freeze_readings}
use ime_windows.Sealed.Segment.{training_sample, value_or_empty}
use ime_windows.Sealed.Queue.{add_segment}
use ime_windows.Sealed.Epochs.{Increasing-higher}
use ime_windows.Sealed.QueueEpochs.{add_segment-Increasing}
use ime_windows.Controller.State.{
  Composition, CompositionHost, ControllerState, settled, live, set_composition, run_edit,
  sealed_host,
}
use ime_windows.Controller.Actions.{
  request_for, open_composition, update_if, type_reading, type_text, add_text, discard_reading,
  backspace, steps_to_edge, move_caret, commit, in_flight, seal_composition, seal, enter, escape,
  candidate_finalized,
}
use ime_windows.Controller.Ordered.{
  IsIn, IsOrdered, Stays, StaysWith, IsIn-closed, request_for-IsOrdered,
  discard_composition-IsOrdered, show-Stays, update-Stays, live-IsIn, on_live,
  open_composition-IsOrdered, update_if-StaysWith,
}

module _ {D : Type 0} (append16 : ℕ → List ℕ) (host : CompositionHost D) where
  pub backspace-StaysWith :
      (document : ℕ) (s : ControllerState D)
      → IsOrdered s
      → StaysWith (backspace append16 host document s)
  unfolding backspace
  backspace-StaysWith document s h =
      on_live append16 host StaysWith document s (some (s, false))
        (λ c. update_if append16 host (remove_last c.buffer) c s) h h
        (λ c i. update_if-StaysWith append16 host (remove_last c.buffer) c s h i)

  pub discard_reading-StaysWith :
      (document : ℕ) (s : ControllerState D)
      → IsOrdered s
      → StaysWith (discard_reading append16 host document s)
  unfolding discard_reading
  discard_reading-StaysWith document s h =
      on_live append16 host StaysWith document s (some (s, false))
        (λ c. update_if append16 host (discard_current_reading c.buffer) c s) h h
        (λ c i. update_if-StaysWith append16 host (discard_current_reading c.buffer) c s h i)

  pub type_reading-Stays :
      (engine : HanziMapEngine) (document symbol : ℕ) (s : ControllerState D)
      → s.next_epoch + 1 < u64_mod
      → IsOrdered s
      → Stays (type_reading append16 host engine document symbol s)
  unfolding type_reading
  type_reading-Stays engine document symbol s small h =
      let (opened, within) = open_composition-IsOrdered append16 host document true s small h in
      let s' = (open_composition append16 host document true s).0 in
      elim (Option-cases (open_composition append16 host document true s).1) [
        | inl e ↦ rw (e, type_reading) opened
        | inr (c, e) ↦
            rw (e, type_reading)
              (update-Stays append16 host (record c { buffer = add engine symbol c.buffer }) s'
                (within c e))
      ]

  pub type_text-Stays :
      (document : ℕ) (text : List ℕ) (s : ControllerState D)
      → s.next_epoch + 1 < u64_mod
      → IsOrdered s
      → Stays (type_text append16 host document text s)
  unfolding type_text
  type_text-Stays document text s small h =
      let (opened, within) = open_composition-IsOrdered append16 host document false s small h in
      let s' = (open_composition append16 host document false s).0 in
      if-elim Stays (is_empty text) (λ _. h)
        (λ _. elim (Option-cases (open_composition append16 host document false s).1) [
          | inl e ↦ rw e opened
          | inr (c, e) ↦ rw e (
              update-Stays append16 host (record c { buffer = add_text text c.buffer }) s'
                (within c e))
        ])

  pub move_caret-Stays :
      (document : ℕ) (forward to_edge : Bool) (s : ControllerState D)
      → IsOrdered s
      → Stays (move_caret append16 host document forward to_edge s)
  unfolding move_caret
  move_caret-Stays document forward to_edge s h =
      on_live append16 host Stays document s (some s) _ h h (λ c i.
        let (b, moved) = (if forward then next c.buffer else pre c.buffer) in
        let c' : Composition = record c {
          buffer = if to_edge then steps_to_edge forward (length b.buffer) b else b;
        } in
        if-elim Stays (not moved) (λ _. h)
          (λ _. show-Stays append16 host c' (set_composition c' s) i))

  pub commit-Stays :
      (c : Composition) (s : ControllerState D)
      → IsIn (some c) s.queue.segments s.next_epoch
      → Stays (commit append16 host c s)
  unfolding commit run_edit
  commit-Stays c s h =
      elim (Option-cases (training_sample append16 c.buffer (value_or_empty c.preceding))) [
        | inl e ↦ rw (e, commit) tt
        | inr (sample, e) ↦ rw (e, commit) (IsIn-closed (some c) s.queue.segments s.next_epoch h)
      ]

  pub seal_composition-Stays :
      (frozen : Bool) (c : Composition) (s : ControllerState D)
      → IsIn (some c) s.queue.segments s.next_epoch
      → Stays (seal_composition append16 host frozen c s)
  unfolding seal_composition run_edit
  seal_composition-Stays frozen c s h =
      let flight = in_flight append16 host frozen c s.queue.conversions in
      elim (Option-cases (
        add_segment append16 (sealed_host host) c.epoch c.document c.buffer c.preceding flight
          s.queue)) [
            | inl e ↦ rw (e, seal_composition) tt
            | inr (q, e) ↦
                let grown =
                  add_segment-Increasing append16 (sealed_host host) c.epoch c.document c.buffer
                    c.preceding flight s.queue q 0 e h.0 in
                rw (e, seal_composition)
                  (Increasing-higher 0 (c.epoch + 1) s.next_epoch q.segments (omega (arith, h.1))
                    grown)
          ]

  pub seal-Stays : (s : ControllerState D) → IsOrdered s → Stays (seal append16 host s)
  unfolding seal
  seal-Stays s h = elim (Option-cases s.composition) [
    | inl e ↦ rw (e, seal) h
    | inr (c, e) ↦
        let i : IsIn (some c) s.queue.segments s.next_epoch = rw e at h in
        let (b, frozen) = freeze_readings c.buffer in
        let c' : Composition = record c { buffer = b } in
        rw (e, seal)
          (if-elim Stays (settled c') (λ _. commit-Stays c' s i)
            (λ _. seal_composition-Stays frozen c' s i))
  ]

  pub enter-Stays :
      (document : ℕ) (s : ControllerState D) → IsOrdered s → Stays (enter append16 host document s)
  unfolding enter
  enter-Stays document s h = on_live append16 host Stays document s (some s) _ h h (λ c i.
      if-elim Stays (has_uncomposed_reading c.buffer) (λ _. h)
        (λ _.
          if-elim Stays (settled c) (λ _. commit-Stays c s i)
            (λ _.
              seal-Stays (request_for append16 host c s)
                (request_for-IsOrdered append16 host c s i))))

  pub candidate_finalized-Stays :
      (document : ℕ) (s : ControllerState D)
      → IsOrdered s
      → Stays (candidate_finalized append16 host document s)
  unfolding candidate_finalized
  candidate_finalized-Stays document s h =
      on_live append16 host Stays document s (some s) _ h h
        (λ c i. update-Stays append16 host (record c { buffer = (next c.buffer).0 }) s i)

  pub escape-IsOrdered :
      (document : ℕ) (s : ControllerState D)
      → IsOrdered s
      → IsOrdered (escape append16 host document s)
  unfolding escape
  escape-IsOrdered document s h = elim (Option-cases (live document s)) [
    | inl e ↦ rw (e, escape) h
    | inr (c, e) ↦
        rw (e, escape)
          (discard_composition-IsOrdered append16 host c s
            (live-IsIn append16 host document s c e h))
  ]
