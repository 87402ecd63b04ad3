-- ===== src/Controller/OrderedSteps.antt =====
-- The epochs of class CompositionController (frontend/src/core/composition_controller.cpp): the edits that
-- run later.
use ime_windows.Prelude.{
  ℕ, inl, inr, Bool, none, some, List, ◌==◌, if◌then◌else◌, if-elim, Option-cases,
}
use ime_windows.Bopomofo.Entry.{BopomofoPos}
use ime_windows.Buffer.Merge.{merge_conversion, accept_local_candidates}
use ime_windows.Conversions.Tracker.{Request}
use ime_windows.Sealed.Queue.{
  on_conversion, context_at_caret, context_ready, placed, erase_sealed, write_finished,
}
use ime_windows.Sealed.QueueEpochs.{
  on_conversion-Keeps, context_ready-Keeps, placed-Keeps, erase_sealed-Keeps, write_finished-Keeps,
}
use ime_windows.Controller.State.{
  Composition, DocumentEdit, CompositionHost, ControllerState, rendering, live_epoch,
  set_composition, sealed_host,
}
use ime_windows.Controller.Steps.{
  hold_outcome, on_documents, render_now, context_known, read_context_now, apply, accept_local,
  erase_now, commit_now, seal_now, show_now, run_now,
}
use ime_windows.Controller.Ordered.{IsIn, IsOrdered, Stays, IsIn-Keeps, request_for-IsOrdered}
use ime_windows.Controller.OrderedEdits.{live_epoch-IsIn, on_epoch}

module _ {D : Type 0} (append16 : ℕ → List ℕ) (host : CompositionHost D) where
  render_now-Stays :
      (c : Composition) (s : ControllerState D) → IsOrdered s → Stays (render_now append16 host c s)
  unfolding render_now
  render_now-Stays c s h = elim (Option-cases (rendering append16 c)) [
    | inl e ↦ rw (e, render_now) tt
    | inr (shown, e) ↦ rw (e, render_now) h
  ]

  context_known-IsOrdered :
      (epoch : ℕ) (preceding : List ℕ) (s : ControllerState D)
      → IsOrdered s
      → IsOrdered (context_known append16 host epoch preceding s)
  unfolding context_known
  context_known-IsOrdered epoch preceding s h = elim (Option-cases (live_epoch epoch s)) [
    | inl e ↦
        rw (e, context_known)
          (IsIn-Keeps s.composition s.queue.segments
            (context_ready append16 (sealed_host host) epoch preceding s.queue).segments
            s.next_epoch (context_ready-Keeps append16 (sealed_host host) epoch preceding s.queue)
            h)
    | inr (c, e) ↦
        rw (e, context_known)
          (request_for-IsOrdered append16 host (record c { preceding = some preceding }) s
            (live_epoch-IsIn append16 host epoch s c e h))
  ]

  read_context_now-Stays :
      (document epoch : ℕ) (with_prefill : Bool) (s : ControllerState D)
      → IsOrdered s
      → Stays (read_context_now append16 host document epoch with_prefill s)
  unfolding read_context_now
  read_context_now-Stays document epoch with_prefill s h =
      elim (Option-cases (context_at_caret append16 (sealed_host host) document s.queue)) [
        | inl e ↦ rw (e, read_context_now) tt
        | inr (context, e) ↦
            rw (e, read_context_now)
              (context_known-IsOrdered epoch _ _ (if-elim IsOrdered with_prefill (λ _. h) (λ _. h)))
      ]

  apply-Stays :
      (c : Composition) (sequence : ℕ) (r : Request) (converted : List BopomofoPos)
      (s : ControllerState D)
      → IsIn (some c) s.queue.segments s.next_epoch
      → Stays (apply append16 host c sequence r converted s)
  unfolding apply
  apply-Stays c sequence r converted s h =
      let (b, outcome) =
        merge_conversion sequence r.snapshot converted c.candidates.entry c.buffer in
      let c' : Composition = record c {
        buffer = b;
        candidates = hold_outcome sequence outcome c.candidates;
        converted = if r.revision == b.revision then some r.revision else c.converted;
      } in
      if-elim Stays outcome.changed (λ _. render_now-Stays c' (set_composition c' s) h) (λ _. h)

  accept_local-Stays :
      (c : Composition) (s : ControllerState D)
      → IsIn (some c) s.queue.segments s.next_epoch
      → Stays (accept_local append16 host c s)
  unfolding accept_local
  accept_local-Stays c s h =
      let (b, changed) = accept_local_candidates c.buffer in
      let c' : Composition = record c { buffer = b; converted = some c.buffer.revision } in
      if-elim Stays changed (λ _. render_now-Stays c' (set_composition c' s) h) (λ _. h)

  erase_now-IsOrdered :
      (document : ℕ) (s : ControllerState D)
      → IsOrdered s
      → IsOrdered (erase_now append16 host document s)
  unfolding erase_now
  erase_now-IsOrdered document s h =
      let q = (erase_sealed append16 (sealed_host host) document s.queue).0 in
      let kept =
        IsIn-Keeps s.composition s.queue.segments q.segments s.next_epoch
          (erase_sealed-Keeps append16 (sealed_host host) document s.queue) h in
      if-elim IsOrdered (erase_sealed append16 (sealed_host host) document s.queue).1 (λ _. kept)
        (λ _. kept)

  show_now-Stays :
      (document epoch : ℕ) (c : Composition) (s : ControllerState D)
      → IsOrdered s
      → Stays (show_now append16 host document epoch (some c) s)
  unfolding show_now
  show_now-Stays document epoch c s h = elim (Option-cases (rendering append16 c)) [
    | inl e ↦ rw (e, show_now) tt
    | inr (shown, e) ↦ rw (e, show_now) h
  ]

  -- Every queued edit keeps the order of the epochs, whenever it runs.
  pub run_now-Stays :
      (document : ℕ) (edit : DocumentEdit) (s : ControllerState D)
      → IsOrdered s
      → Stays (run_now append16 host document edit s)
  unfolding run_now commit_now seal_now
  run_now-Stays document (DocumentEdit.read_context epoch with_prefill) s h =
      read_context_now-Stays document epoch with_prefill s h
  run_now-Stays document (DocumentEdit.show_edit epoch ended) s h =
      on_epoch append16 host Stays epoch s _ _ h h (λ c _. show_now-Stays document epoch c s h)
  run_now-Stays document DocumentEdit.erase_edit s h = erase_now-IsOrdered document s h
  run_now-Stays document (DocumentEdit.apply_edit r sequence converted) s h =
      on_epoch append16 host Stays r.epoch s _ _ h
        (IsIn-Keeps s.composition s.queue.segments
          (on_conversion append16 (sealed_host host) r.epoch sequence r.snapshot converted
            s.queue).segments
          s.next_epoch
          (on_conversion-Keeps append16 (sealed_host host) r.epoch sequence r.snapshot converted
            s.queue)
          h)
        (λ c i. apply-Stays c sequence r converted s i)
  run_now-Stays document (DocumentEdit.commit_edit epoch none) s h = h
  run_now-Stays document (DocumentEdit.commit_edit epoch (some sample)) s h = h
  run_now-Stays document (DocumentEdit.discard_edit epoch) s h = h
  run_now-Stays document (DocumentEdit.seal_edit epoch) s h =
      let left = on_documents append16 host (host.seal document epoch) s in
      IsIn-Keeps s.composition s.queue.segments
        (placed append16 (sealed_host host) epoch left.queue).segments s.next_epoch
        (placed-Keeps append16 (sealed_host host) epoch left.queue) h
  run_now-Stays document (DocumentEdit.accept_edit epoch) s h =
      on_epoch append16 host Stays epoch s _ _ h h (λ c i. accept_local-Stays c s i)
  run_now-Stays document DocumentEdit.write_edit s h =
      elim (Option-cases (write_finished append16 (sealed_host host) document s.queue)) [
        | inl e ↦ rw (e, run_now) tt
        | inr (q, e) ↦
            rw (e, run_now)
              (IsIn-Keeps s.composition s.queue.segments q.segments s.next_epoch
                (write_finished-Keeps append16 (sealed_host host) document s.queue q e) h)
      ]
