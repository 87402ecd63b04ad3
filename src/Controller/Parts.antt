-- ===== src/Controller/Parts.antt =====
-- The parts of the operations of class CompositionController
-- (frontend/src/core/composition_controller.cpp), cut where an edit that is queued may run right away,
-- inside the operation. An edit at the end of an operation runs right away where it runs as the next
-- step, so only operations that go on behind `run_edit` have parts: `open` in front of what is typed,
-- the show of `update` in front of its request, and the writes that the sealed segments ask for.
use ime_windows.Prelude.{
  true, ℕ, Bool, Option, none, some, List, map, is_empty, if◌then◌else◌, ◌≡◌, ◌∙◌, ap, inl, inr,
  Bool-cases, Option-cases, ◌>>=◌, arith,
}
use ime_windows.Buffer.State.{CompositionBuffer}
use ime_windows.Bopomofo.Hanzi.{HanziMapEngine}
use ime_windows.Buffer.Edits.{freeze_readings, add}
use ime_windows.Conversions.Tracker.{clear_pending}
use ime_windows.Sealed.Segment.{finish_segment}
use ime_windows.Sealed.Queue.{add_segment, write_when_possible}
use ime_windows.Controller.State.{
  Composition, DocumentEdit, CompositionHost, ControllerState, settled, rendering, live, owns,
  set_composition, run_edit, new_composition, sealed_host,
}
use ime_windows.Controller.Actions.{
  open_new, open_composition, discard_composition, show, request_for, update, commit, in_flight,
  seal_composition, type_reading,
}

pub data Part : Type 0 where
  opens : (document : ℕ) (prefill : Bool) → Part
  -- The composition's buffer is changed, and `update` discards it or shows it.
  changes : (document : ℕ) (change : CompositionBuffer → CompositionBuffer) → Part
  requests : (document : ℕ) → Part
  -- `seal` up to the write that the new segment asks for, and its edit.
  seals : Part
  places : (document epoch : ℕ) → Part
  -- The start of `shutdown`; `finish_locally` behind `backend_lost` and `shutdown` up to the writes, each
  -- write, and the edit of the composition.
  clears : Part
  finishes : Part
  writes : (document : ℕ) → Part
  accepts : Part

module _ {D : Type 0} (append16 : ℕ → List ℕ) (host : CompositionHost D) where
  unfoldable pub begin_update : Composition → ControllerState D → Option (ControllerState D)
  begin_update c s =
      if is_empty c.buffer.buffer
      then some (discard_composition append16 host c s)
      else show append16 host c (set_composition c s)

  unfoldable pub request_now : ℕ → ControllerState D → Option (ControllerState D)
  request_now document s = elim (live document s) [
    | none ↦ some s
    | some c ↦ some (request_for append16 host c s)
  ]

  unfoldable pub begin_seal_composition :
      Bool → Composition → ControllerState D → Option (ControllerState D)
  begin_seal_composition frozen c s =
      elim (add_segment append16 (sealed_host host) c.epoch c.document c.buffer c.preceding
        (in_flight append16 host frozen c s.queue.conversions) s.queue) [
          | none ↦ none
          | some q ↦ some (record s { composition = none; queue = q })
        ]

  unfoldable pub begin_seal : ControllerState D → Option (ControllerState D)
  begin_seal s = elim s.composition [
    | none ↦ some s
    | some c ↦
        let (b, frozen) = freeze_readings c.buffer in
        let c' : Composition = record c { buffer = b } in
        if settled c' then commit append16 host c' s else begin_seal_composition frozen c' s
  ]

  unfoldable pub accept_later : ControllerState D → ControllerState D
  accept_later s = elim s.composition [
    | none ↦ s
    | some c ↦
        run_edit host c.document (DocumentEdit.accept_edit c.epoch)
          (set_composition (record c { sent = none }) s)
  ]

  unfoldable pub do_part : Part → ControllerState D → Option (ControllerState D)
  do_part (Part.opens document prefill) s =
      some (open_composition append16 host document prefill s).0
  do_part (Part.changes document change) s = elim (live document s) [
    | none ↦ some s
    | some c ↦ begin_update (record c { buffer = change c.buffer }) s
  ]
  do_part (Part.requests document) s = request_now document s
  do_part Part.seals s = begin_seal s
  do_part (Part.places document epoch) s =
      some (run_edit host document (DocumentEdit.seal_edit epoch) s)
  do_part Part.clears s =
      some (record s { queue = record s.queue { conversions = clear_pending s.queue.conversions } })
  do_part Part.finishes s = some (record s {
    queue = record s.queue {
      conversions = clear_pending s.queue.conversions;
      segments = map finish_segment s.queue.segments;
    };
  })
  do_part (Part.writes document) s =
      some (record s { queue = write_when_possible append16 (sealed_host host) document s.queue })
  do_part Part.accepts s = some (accept_later s)

  -- `update` is its parts one behind the other, where no edit runs in between.
  pub update-parts :
      (c : Composition) (s : ControllerState D)
      → update append16 host c s ≡ (begin_update c s >>= request_now c.document)
  unfolding update begin_update request_now show live owns run_edit discard_composition
  update-parts c s = elim (Bool-cases (is_empty c.buffer.buffer)) [
    | inl e ↦ ground (arith, e)
    | inr e ↦ elim (Option-cases (rendering append16 c)) [
      | inl f ↦ ground (arith, e, f)
      | inr (shown, f) ↦ ground (arith, e, f)
    ]
  ]

  -- So are sealing, behind its commit, and typing a symbol.
  pub seal_composition-parts :
      (frozen : Bool) (c : Composition) (s : ControllerState D)
      → seal_composition append16 host frozen c s
        ≡ (begin_seal_composition frozen c s >>= do_part (Part.places c.document c.epoch))
  unfolding seal_composition begin_seal_composition do_part
  seal_composition-parts frozen c s =
      elim (Option-cases (
        add_segment append16 (sealed_host host) c.epoch c.document c.buffer c.preceding
          (in_flight append16 host frozen c s.queue.conversions) s.queue)) [
            | inl e ↦ ground (arith, e)
            | inr (q, e) ↦ ground (arith, e)
          ]

  open_composition-live :
      (document : ℕ) (prefill : Bool) (s : ControllerState D)
      → (open_composition append16 host document prefill s).1
        ≡ live document (open_composition append16 host document prefill s).0
  unfolding open_composition open_new live owns run_edit new_composition
  open_composition-live document prefill s = elim (Option-cases s.composition) [
    | inl e ↦ ground (arith, e)
    | inr (c, e) ↦ ground (arith, e)
  ]

  request_now-none :
      (document : ℕ) (s : ControllerState D)
      → live document s ≡ none
      → some s ≡ request_now document s
  unfolding request_now
  request_now-none document s e = ground (arith, e)

  live-document :
      (document : ℕ) (s : ControllerState D) (c : Composition)
      → live document s ≡ some c
      → c.document ≡ document
  unfolding live owns
  live-document document s c h = elim (Option-cases s.composition) [
    | inl e ↦ absurd (ground (arith, e, h))
    | inr (d, e) ↦ ground (arith, e, h)
  ]

  pub type_reading-parts :
      (engine : HanziMapEngine) (document symbol : ℕ) (s : ControllerState D)
      → type_reading append16 host engine document symbol s ≡ (
          do_part (Part.opens document true) s
          >>= do_part (Part.changes document (add engine symbol))
          >>= do_part (Part.requests document))
  unfolding type_reading do_part
  type_reading-parts engine document symbol s =
      let t = (open_composition append16 host document true s).0 in
      let same = open_composition-live document true s in
      elim (Option-cases (live document t)) [
        | inl e ↦ rw (same, type_reading, e, do_part) (request_now-none document t e)
        | inr (c, e) ↦
            let c' : Composition = record c { buffer = add engine symbol c.buffer } in
            let its : c.document ≡ document = live-document document t c e in
            rw (same, type_reading, e, do_part)
              (update-parts c' t ∙ ap (λ d. begin_update c' t >>= request_now d) its)
      ]
