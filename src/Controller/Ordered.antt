-- ===== src/Controller/Ordered.antt =====
-- The epochs of class CompositionController (frontend/src/core/composition_controller.cpp), operation
-- by operation: the open composition is newer than every sealed segment.
use ime_windows.Prelude.{
  ℕ, ◌+◌, ◌<◌, ◌≡◌, inl, inr, Bool, not, Option, none, some, List, if-elim, arith, Bool-cases,
  Option-cases, next64-eq, u64_mod, is_empty,
}
use ime_windows.Buffer.State.{CompositionBuffer}
use ime_windows.Conversions.Tracker.{ConversionTracker}
use ime_windows.Sealed.Segment.{SealedSegment}
use ime_windows.Sealed.Epochs.{Increasing, Keeps, Increasing-higher}
use ime_windows.Controller.State.{
  Composition, DocumentEdit, CompositionHost, ControllerState, rendering, new_composition, owns,
  live, set_composition, run_edit,
}
use ime_windows.Controller.Actions.{
  request, request_for, open_new, open_composition, discard_composition, show, update, update_if,
}

-- The segments' epochs increase, below the epoch of the open composition, which is below the next one.
abbrev pub IsIn : Option Composition → List SealedSegment → ℕ → Type 0
IsIn none segments next_epoch = Increasing 0 segments next_epoch
IsIn (some c) segments next_epoch = Increasing 0 segments c.epoch × (c.epoch < next_epoch)

module _ {D : Type 0} where
  abbrev pub IsOrdered : ControllerState D → Type 0
  IsOrdered s = IsIn s.composition s.queue.segments s.next_epoch

  -- The state after, if there was no exception.
  abbrev pub Stays : Option (ControllerState D) → Type 0
  Stays none = Unit
  Stays (some s) = IsOrdered s

  -- The state after, with a result.
  abbrev pub StaysWith : {B : Type 0} → Option (ControllerState D × B) → Type 0
  StaysWith none = Unit
  StaysWith (some (s, b)) = IsOrdered s

pub IsIn-Keeps :
    (c : Option Composition) (segments left : List SealedSegment) (next_epoch : ℕ)
    → Keeps segments left
    → IsIn c segments next_epoch
    → IsIn c left next_epoch
IsIn-Keeps none segments left next_epoch k h = k 0 next_epoch h
IsIn-Keeps (some c) segments left next_epoch k h = (k 0 c.epoch h.0, h.1)

-- The composition ends.
pub IsIn-closed :
    (c : Option Composition) (segments : List SealedSegment) (next_epoch : ℕ)
    → IsIn c segments next_epoch
    → IsIn none segments next_epoch
IsIn-closed none segments next_epoch h = h
IsIn-closed (some c) segments next_epoch h =
    Increasing-higher 0 c.epoch next_epoch segments (omega (arith, h.1)) h.0

pub IsIn-same :
    (c d : Composition) (segments : List SealedSegment) (next_epoch : ℕ)
    → d.epoch ≡ c.epoch
    → IsIn (some c) segments next_epoch
    → IsIn (some d) segments next_epoch
IsIn-same c d segments next_epoch same h = rw same h

request-epoch : (c : Composition) (t : ConversionTracker) → (request c t).0.epoch ≡ c.epoch
unfolding request
request-epoch c t = ground arith

module _ {D : Type 0} (append16 : ℕ → List ℕ) (host : CompositionHost D) where
  pub request_for-IsOrdered :
      (c : Composition) (s : ControllerState D)
      → IsIn (some c) s.queue.segments s.next_epoch
      → IsOrdered (request_for append16 host c s)
  unfolding request_for
  request_for-IsOrdered c s h =
      IsIn-same c (request c s.queue.conversions).0 s.queue.segments s.next_epoch
        (request-epoch c s.queue.conversions) h

  pub discard_composition-IsOrdered :
      (c : Composition) (s : ControllerState D)
      → IsIn (some c) s.queue.segments s.next_epoch
      → IsOrdered (discard_composition append16 host c s)
  unfolding discard_composition run_edit
  discard_composition-IsOrdered c s h = IsIn-closed (some c) s.queue.segments s.next_epoch h

  pub show-Stays :
      (c : Composition) (s : ControllerState D) → IsOrdered s → Stays (show append16 host c s)
  unfolding show run_edit
  show-Stays c s h = elim (Option-cases (rendering append16 c)) [
    | inl e ↦ rw (e, show) tt
    | inr (shown, e) ↦ rw (e, show) h
  ]

  pub update-Stays :
      (c : Composition) (s : ControllerState D)
      → IsIn (some c) s.queue.segments s.next_epoch
      → Stays (update append16 host c s)
  unfolding update show run_edit
  update-Stays c s h =
      if-elim Stays (is_empty c.buffer.buffer) (λ _. discard_composition-IsOrdered c s h)
        (λ _. elim (Option-cases (rendering append16 c)) [
          | inl e ↦ rw (e, show) tt
          | inr (shown, e) ↦
              rw (e, show)
                (request_for-IsOrdered c
                  (run_edit host c.document (DocumentEdit.show_edit c.epoch shown)
                    (set_composition c s))
                  h)
        ])

  pub live-IsIn :
      (document : ℕ) (s : ControllerState D) (c : Composition)
      → live document s ≡ some c
      → IsOrdered s
      → IsIn (some c) s.queue.segments s.next_epoch
  unfolding live
  live-IsIn document s c e h = elim (Bool-cases (owns document s)) [
    | inl own ↦ let same : s.composition ≡ some c = ground (arith, own, e) in rw same at h
    | inr other ↦ absurd (ground (arith, other, e))
  ]

  -- What an operation does to the open composition of a document.
  pub on_live :
      {A : Type 0} (P : Option A → Type 0) (document : ℕ) (s : ControllerState D)
      (none_case : Option A) (some_case : Composition → Option A)
      → IsOrdered s
      → P none_case
      → ((c : Composition) → IsIn (some c) s.queue.segments s.next_epoch → P (some_case c))
      → P (elim (live document s) [ none ↦ none_case | some c ↦ some_case c ])
  on_live P document s none_case some_case h quiet busy = elim (Option-cases (live document s)) [
    | inl e ↦ rw e quiet
    | inr (c, e) ↦ rw e (busy c (live-IsIn document s c e h))
  ]

  pub open_composition-IsOrdered :
      (document : ℕ) (prefill : Bool) (s : ControllerState D)
      → s.next_epoch + 1 < u64_mod
      → IsOrdered s
      → IsOrdered (open_composition append16 host document prefill s).0
        × ((c : Composition)
            → (open_composition append16 host document prefill s).1 ≡ some c
            → IsIn
                (some c)
                (open_composition append16 host document prefill s).0.queue.segments
                (open_composition append16 host document prefill s).0.next_epoch)
  unfolding open_composition open_new run_edit new_composition
  open_composition-IsOrdered document prefill s small h = elim (Option-cases s.composition) [
    | inl e ↦
        let later = next64-eq s.next_epoch small in
        let below : Increasing 0 s.queue.segments s.next_epoch = rw e at h in
        rw (e, open_composition)
          (
            (below, omega (arith, later)),
            λ c f.
                let same : s.next_epoch ≡ c.epoch = ground (arith, f) in
                (rw same at below, omega (arith, same, later)),
          )
    | inr (c, e) ↦ rw (e, open_composition) (h, λ d f. live-IsIn document s d f h)
  ]

  pub update_if-StaysWith :
      (change : CompositionBuffer × Bool) (c : Composition) (s : ControllerState D)
      → IsOrdered s
      → IsIn (some c) s.queue.segments s.next_epoch
      → StaysWith (update_if append16 host change c s)
  unfolding update_if
  update_if-StaysWith (b, done) c s h i =
      if-elim StaysWith (not done) (λ _. h)
        (λ _.
          let kept = update-Stays (record c { buffer = b }) s i in
          elim (Option-cases (update append16 host (record c { buffer = b }) s)) [
            | inl e ↦ rw e tt
            | inr (s', e) ↦ rw e (rw e at kept)
          ])
