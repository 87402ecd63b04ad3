-- ===== src/Controller/OrderedEdits.antt =====
-- The epochs of class CompositionController (frontend/src/core/composition_controller.cpp): candidates,
-- results and the edits that run later.
use ime_windows.Prelude.{
  ℕ, ◌≡◌, inl, inr, Bool, false, Option, none, some, List, [], ◌∷◌, if-elim, arith, Option-cases,
}
use ime_windows.Bopomofo.Entry.{BopomofoPos}
use ime_windows.Buffer.Edits.{select_candidate}
use ime_windows.Buffer.Merge.{merge_conversion}
use ime_windows.Conversions.Tracker.{Request, take_request, clear_pending, set_backend}
use ime_windows.Conversions.Lock.{close_lock}
use ime_windows.Sealed.Queue.{QueueState, on_conversion, finish_locally, forget}
use ime_windows.Sealed.QueueEpochs.{on_conversion-Keeps, finish_locally-Keeps, forget-Keeps}
use ime_windows.Controller.State.{
  Composition, CompositionHost, Documents, ControllerState, owns, live_epoch, set_composition,
  set_immediate, run_edit, sealed_host,
}
use ime_windows.Controller.Actions.{
  candidates_opened, choose, candidates_closed, backspace_in_order, seal,
}
use ime_windows.Controller.Results.{
  Status, backend_lost, converted_result, receive, document_closed, shutdown,
}
use ime_windows.Controller.Ordered.{
  IsIn, IsOrdered, Stays, IsIn-Keeps, IsIn-closed, show-Stays, on_live,
}
use ime_windows.Controller.OrderedKeys.{seal-Stays}

module _ {D : Type 0} (append16 : ℕ → List ℕ) (host : CompositionHost D) where
  pub set_immediate-IsOrdered :
      (enabled : Bool) (s : ControllerState D) → IsOrdered s → IsOrdered (set_immediate enabled s)
  unfolding set_immediate
  set_immediate-IsOrdered enabled s h = elim (Option-cases s.composition) [
    | inl e ↦ rw (e, set_immediate) h
    | inr (c, e) ↦ rw (e, set_immediate) (rw e at h)
  ]

  pub candidates_opened-IsOrdered :
      (entry : ℕ) (s : ControllerState D)
      → IsOrdered s
      → IsOrdered (candidates_opened append16 host entry s)
  unfolding candidates_opened
  candidates_opened-IsOrdered entry s h = elim (Option-cases s.composition) [
    | inl e ↦ rw (e, candidates_opened) h
    | inr (c, e) ↦ rw (e, candidates_opened) (rw e at h)
  ]

  pub choose-Stays :
      (entry index : ℕ) (s : ControllerState D)
      → IsOrdered s
      → Stays (choose append16 host entry index s)
  unfolding choose
  choose-Stays entry index s h = elim (Option-cases s.composition) [
    | inl e ↦ rw (e, choose) h
    | inr (c, e) ↦ elim (Option-cases (select_candidate append16 entry index c.buffer)) [
      | inl f ↦ rw (e, choose, f) tt
      | inr (r, f) ↦ rw (e, choose, f) (rw e at h)
    ]
  ]

  pub candidates_closed-Stays :
      (document : ℕ) (s : ControllerState D)
      → IsOrdered s
      → Stays (candidates_closed append16 host document s)
  unfolding candidates_closed
  candidates_closed-Stays document s h =
      on_live append16 host Stays document s (some s) _ h h (λ c i.
        elim (Option-cases (close_lock c.candidates).1) [
          | inl e ↦ rw e i
          | inr (held, e) ↦
              let (b, outcome) =
                merge_conversion held.sequence (held.requested ∷ []) (held.converted ∷ []) none
                  c.buffer in
              let c' : Composition = record c {
                candidates = (close_lock c.candidates).0;
                buffer = b;
              } in
              rw e (
                if-elim Stays outcome.changed
                  (λ _. show-Stays append16 host c' (set_composition c' s) i) (λ _. i))
        ])

  pub backspace_in_order-IsOrdered :
      (document : ℕ) (s : ControllerState D)
      → IsOrdered s
      → IsOrdered (backspace_in_order append16 host document s)
  unfolding backspace_in_order run_edit
  backspace_in_order-IsOrdered document s h = if-elim IsOrdered (owns document s) (λ _. h) (λ _. h)

  pub backend_lost-IsOrdered :
      (s : ControllerState D) → IsOrdered s → IsOrdered (backend_lost append16 host s)
  unfolding backend_lost run_edit
  backend_lost-IsOrdered s h =
      let cleared : QueueState (Documents D) = record s.queue {
        conversions = clear_pending s.queue.conversions;
      } in
      let kept =
        IsIn-Keeps s.composition s.queue.segments
          (finish_locally append16 (sealed_host host) cleared).segments s.next_epoch
          (finish_locally-Keeps append16 (sealed_host host) cleared) h in
      elim (Option-cases s.composition) [
        | inl e ↦ rw (e, backend_lost) kept
        | inr (c, e) ↦ rw (e, backend_lost) (rw e at kept)
      ]

  pub live_epoch-IsIn :
      (epoch : ℕ) (s : ControllerState D) (c : Composition)
      → live_epoch epoch s ≡ some c
      → IsOrdered s
      → IsIn (some c) s.queue.segments s.next_epoch
  unfolding live_epoch
  live_epoch-IsIn epoch s c e h = elim (Option-cases s.composition) [
    | inl n ↦ absurd (ground (arith, n, e))
    | inr (d, f) ↦
        let same : d ≡ c = ground (arith, f, e) in
        let its : IsIn (some d) s.queue.segments s.next_epoch = rw f at h in rw same at its
  ]

  -- What an operation does to the open composition of an epoch.
  pub on_epoch :
      {A : Type 0} (P : Option A → Type 0) (epoch : ℕ) (s : ControllerState D)
      (none_case : Option A) (some_case : Composition → Option A)
      → IsOrdered s
      → P none_case
      → ((c : Composition) → IsIn (some c) s.queue.segments s.next_epoch → P (some_case c))
      → P (elim (live_epoch epoch s) [ none ↦ none_case | some c ↦ some_case c ])
  on_epoch P epoch s none_case some_case h quiet busy = elim (Option-cases (live_epoch epoch s)) [
    | inl e ↦ rw e quiet
    | inr (c, e) ↦ rw e (busy c (live_epoch-IsIn epoch s c e h))
  ]

  converted_result-IsOrdered :
      (r : Request) (sequence : ℕ) (padding : List BopomofoPos) (s : ControllerState D)
      → IsOrdered s
      → IsOrdered (converted_result append16 host r sequence padding s)
  unfolding converted_result run_edit
  converted_result-IsOrdered r sequence padding s h = elim (Option-cases (live_epoch r.epoch s)) [
    | inl e ↦
        rw (e, converted_result)
          (IsIn-Keeps s.composition s.queue.segments
            (on_conversion append16 (sealed_host host) r.epoch sequence r.snapshot padding
              s.queue).segments
            s.next_epoch
            (on_conversion-Keeps append16 (sealed_host host) r.epoch sequence r.snapshot padding
              s.queue)
            h)
    | inr (c, e) ↦ rw (e, converted_result) h
  ]

  abbrev taken : ℕ → ControllerState D → ControllerState D
  taken sequence s = record s {
    queue = record s.queue { conversions = (take_request sequence s.queue.conversions).0 };
  }

  pub receive-IsOrdered :
      (sequence : ℕ) (status : Status) (padding : List BopomofoPos) (s : ControllerState D)
      → IsOrdered s
      → IsOrdered (receive append16 host sequence status padding s)
  unfolding receive
  receive-IsOrdered sequence Status.status_converted padding s h =
      elim (Option-cases (take_request sequence s.queue.conversions).1) [
        | inl e ↦ rw (e, receive) h
        | inr (r, e) ↦
            rw (e, receive) (converted_result-IsOrdered r sequence padding (taken sequence s) h)
      ]
  receive-IsOrdered sequence Status.superseded padding s h =
      elim (Option-cases (take_request sequence s.queue.conversions).1) [
        | inl e ↦ rw (e, receive) h
        | inr (r, e) ↦ rw (e, receive) (h)
      ]
  receive-IsOrdered sequence Status.backend_lost_status padding s h =
      elim (Option-cases (take_request sequence s.queue.conversions).1) [
        | inl e ↦ rw (e, receive) h
        | inr (r, e) ↦ rw (e, receive) (backend_lost-IsOrdered (taken sequence s) h)
      ]

  pub document_closed-IsOrdered :
      (document : ℕ) (s : ControllerState D)
      → IsOrdered s
      → IsOrdered (document_closed append16 host document s)
  unfolding document_closed
  document_closed-IsOrdered document s h =
      let q = forget append16 (sealed_host host) document s.queue in
      let kept =
        IsIn-Keeps s.composition s.queue.segments q.segments s.next_epoch
          (forget-Keeps append16 (sealed_host host) document s.queue) h in
      if-elim IsOrdered (owns document s)
        (λ _. IsIn-closed s.composition q.segments s.next_epoch kept) (λ _. kept)

  pub shutdown-Stays : (s : ControllerState D) → IsOrdered s → Stays (shutdown append16 host s)
  unfolding shutdown
  shutdown-Stays s h =
      let quiet : ControllerState D = record s {
        queue = record s.queue {
          conversions = clear_pending (set_backend false s.queue.conversions);
        };
      } in
      let after = seal-Stays append16 host quiet h in
      elim (Option-cases (seal append16 host quiet)) [
        | inl e ↦ rw (e, shutdown) tt
        | inr (s', e) ↦
            let h' : IsOrdered s' = rw e at after in
            rw (e, shutdown)
              (IsIn-Keeps s'.composition s'.queue.segments
                (finish_locally append16 (sealed_host host) s'.queue).segments s'.next_epoch
                (finish_locally-Keeps append16 (sealed_host host) s'.queue) h')
      ]
