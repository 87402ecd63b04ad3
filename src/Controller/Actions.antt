-- ===== src/Controller/Actions.antt =====
-- The operations of class CompositionController for keys and results
-- (frontend/src/core/composition_controller.cpp). `none` is an exception.
use ime_windows.Prelude.{
  ℕ, Bool, true, false, not, ◌&&◌, Option, none, some, List, [], ◌∷◌, is_empty, next64, ◌==◌,
  if◌then◌else◌, length, suc, zero,
}
use ime_windows.Bopomofo.Hanzi.{HanziMapEngine}
use ime_windows.Buffer.State.{CompositionBuffer, has_uncomposed_reading, conversion_snapshot}
use ime_windows.Buffer.Edits.{
  add, add_chosen_candidate, discard_current_reading, remove_last, pre, next, select_candidate,
  freeze_readings,
}
use ime_windows.Buffer.Merge.{merge_conversion}
use ime_windows.Conversions.Tracker.{ConversionTracker, send, is_pending}
use ime_windows.Conversions.Lock.{open_lock, close_lock}
use ime_windows.Sealed.Segment.{training_sample, value_or_empty}
use ime_windows.Sealed.Queue.{add_segment}
use ime_windows.Controller.State.{
  Composition, Sent, DocumentEdit, CompositionHost, ControllerState, settled, rendering,
  new_composition, owns, live, set_composition, run_edit, sealed_host,
}

abbrev pub is_sent_at : ℕ → Option Sent → Bool
is_sent_at revision none = false
is_sent_at revision (some sent) = sent.revision == revision

unfoldable pub request : Composition → ConversionTracker → Composition × ConversionTracker
request c t = elim c.preceding [
  | none ↦ (c, t)
  | some preceding ↦ elim (conversion_snapshot c.buffer) [
    | none ↦ (c, t)
    | some snapshot ↦
        let (t', sequence) =
          send
            (record {
              epoch = c.epoch;
              revision = snapshot.revision;
              document = c.document;
              snapshot = snapshot.entries;
            })
            preceding t in
        if is_sent_at snapshot.revision c.sent then (c, t) else elim sequence [
          | none ↦ (c, t')
          | some number ↦ (
            record c { sent = some (record { revision = snapshot.revision; sequence = number }) },
            t',
          )
        ]
  ]
]

-- The caret steps to the edge, on fuel: the number of entries is enough.
unfoldable pub steps_to_edge : Bool → ℕ → CompositionBuffer → CompositionBuffer
steps_to_edge forward zero b = b
steps_to_edge forward (suc fuel) b =
    steps_to_edge forward fuel (if forward then (next b).0 else (pre b).0)

unfoldable pub add_text : List ℕ → CompositionBuffer → CompositionBuffer
add_text [] b = b
add_text (ch ∷ text) b = add_text text (add_chosen_candidate ch b)

module _ {D : Type 0} (append16 : ℕ → List ℕ) (host : CompositionHost D) where
  -- The new composition, in the state.
  unfoldable pub open_new : ℕ → Bool → ControllerState D → ControllerState D × Option Composition
  open_new document prefill s =
      let c = new_composition s.next_epoch document s.immediate_conversion in
      let opened =
        run_edit host document (DocumentEdit.read_context s.next_epoch prefill)
          (record s { composition = some c; next_epoch = next64 s.next_epoch }) in
      (opened, some c)

  unfoldable pub open_composition :
      ℕ → Bool → ControllerState D → ControllerState D × Option Composition
  open_composition document prefill s = elim s.composition [
    | none ↦ open_new document prefill s
    | some c ↦ (s, live document s)
  ]

  unfoldable pub discard_composition : Composition → ControllerState D → ControllerState D
  discard_composition c s =
      run_edit host c.document (DocumentEdit.discard_edit c.epoch) (record s { composition = none })

  unfoldable pub show : Composition → ControllerState D → Option (ControllerState D)
  show c s = elim (rendering append16 c) [
    | none ↦ none
    | some ended ↦ some (run_edit host c.document (DocumentEdit.show_edit c.epoch ended) s)
  ]

  -- `request` on the open composition.
  unfoldable pub request_for : Composition → ControllerState D → ControllerState D
  request_for c s =
      let (c', t) = request c s.queue.conversions in
      record s { composition = some c'; queue = record s.queue { conversions = t } }

  unfoldable pub update : Composition → ControllerState D → Option (ControllerState D)
  update c s =
      if is_empty c.buffer.buffer
      then some (discard_composition c s)
      else elim (show c (set_composition c s)) [
        | none ↦ none
        | some shown ↦ some (request_for c shown)
      ]

  unfoldable pub type_reading :
      HanziMapEngine → ℕ → ℕ → ControllerState D → Option (ControllerState D)
  type_reading engine document symbol s =
      let (opened, composition) = open_composition document true s in
      elim composition [
        | none ↦ some opened
        | some c ↦ update (record c { buffer = add engine symbol c.buffer }) opened
      ]

  unfoldable pub type_text : ℕ → List ℕ → ControllerState D → Option (ControllerState D)
  type_text document text s =
      let (opened, composition) = open_composition document false s in
      if is_empty text then some s else elim composition [
        | none ↦ some opened
        | some c ↦ update (record c { buffer = add_text text c.buffer }) opened
      ]

  -- `update` where the buffer's operation did something.
  unfoldable pub update_if :
      CompositionBuffer × Bool → Composition → ControllerState D → Option (ControllerState D × Bool)
  update_if (b, done) c s =
      if not done
      then some (s, false)
      else elim (update (record c { buffer = b }) s) [ none ↦ none | some s' ↦ some (s', true) ]

  unfoldable pub discard_reading : ℕ → ControllerState D → Option (ControllerState D × Bool)
  discard_reading document s = elim (live document s) [
    | none ↦ some (s, false)
    | some c ↦ update_if (discard_current_reading c.buffer) c s
  ]

  unfoldable pub backspace : ℕ → ControllerState D → Option (ControllerState D × Bool)
  backspace document s = elim (live document s) [
    | none ↦ some (s, false)
    | some c ↦ update_if (remove_last c.buffer) c s
  ]

  unfoldable pub move_caret : ℕ → Bool → Bool → ControllerState D → Option (ControllerState D)
  move_caret document forward to_edge s = elim (live document s) [
    | none ↦ some s
    | some c ↦
        let (b, moved) = (if forward then next c.buffer else pre c.buffer) in
        let b' = (if to_edge then steps_to_edge forward (length b.buffer) b else b) in
        let c' : Composition = record c { buffer = b' } in
        if not moved then some s else show c' (set_composition c' s)
  ]

  unfoldable pub commit : Composition → ControllerState D → Option (ControllerState D)
  commit c s = elim (training_sample append16 c.buffer (value_or_empty c.preceding)) [
    | none ↦ none
    | some sample ↦ some (
        run_edit host c.document (DocumentEdit.commit_edit c.epoch sample)
          (record s { composition = none }))
  ]

  -- The conversion in flight for exactly this content.
  unfoldable pub in_flight : Bool → Composition → ConversionTracker → Option ℕ
  in_flight frozen c t = elim c.sent [
    | none ↦ none
    | some sent ↦
        if not frozen && ((sent.revision == c.buffer.revision) && is_pending sent.sequence t)
        then some sent.sequence
        else none
  ]

  -- `seal`, from the move out of the composition on.
  unfoldable pub seal_composition :
      Bool → Composition → ControllerState D → Option (ControllerState D)
  seal_composition frozen c s =
      elim (add_segment append16 (sealed_host host) c.epoch c.document c.buffer c.preceding
        (in_flight frozen c s.queue.conversions) s.queue) [
          | none ↦ none
          | some q ↦ some (
              run_edit host c.document (DocumentEdit.seal_edit c.epoch)
                (record s { composition = none; queue = q }))
        ]

  unfoldable pub seal : ControllerState D → Option (ControllerState D)
  seal s = elim s.composition [
    | none ↦ some s
    | some c ↦
        let (b, frozen) = freeze_readings c.buffer in
        let c' : Composition = record c { buffer = b } in
        if settled c' then commit c' s else seal_composition frozen c' s
  ]

  unfoldable pub enter : ℕ → ControllerState D → Option (ControllerState D)
  enter document s = elim (live document s) [
    | none ↦ some s
    | some c ↦
        if has_uncomposed_reading c.buffer
        then some s
        else if settled c
        then commit c s
        else seal (request_for c s)
  ]

  unfoldable pub escape : ℕ → ControllerState D → ControllerState D
  escape document s = elim (live document s) [ none ↦ s | some c ↦ discard_composition c s ]

  unfoldable pub backspace_in_order : ℕ → ControllerState D → ControllerState D
  backspace_in_order document s =
      if owns document s then s else run_edit host document DocumentEdit.erase_edit s

  unfoldable pub candidates_opened : ℕ → ControllerState D → ControllerState D
  candidates_opened entry s = elim s.composition [
    | none ↦ s
    | some c ↦ set_composition (record c { candidates = open_lock entry c.candidates }) s
  ]

  unfoldable pub choose : ℕ → ℕ → ControllerState D → Option (ControllerState D)
  choose entry index s = elim s.composition [
    | none ↦ some s
    | some c ↦ elim (select_candidate append16 entry index c.buffer) [
      | none ↦ none
      | some (b, done) ↦ some (set_composition (record c { buffer = b }) s)
    ]
  ]

  unfoldable pub candidate_finalized : ℕ → ControllerState D → Option (ControllerState D)
  candidate_finalized document s = elim (live document s) [
    | none ↦ some s
    | some c ↦ update (record c { buffer = (next c.buffer).0 }) s
  ]

  unfoldable pub candidates_closed : ℕ → ControllerState D → Option (ControllerState D)
  candidates_closed document s = elim (live document s) [
    | none ↦ some s
    | some c ↦
        let (lock, held) = close_lock c.candidates in
        elim held [
          | none ↦ some (set_composition (record c { candidates = lock }) s)
          | some result ↦
              let (b, outcome) =
                merge_conversion result.sequence (result.requested ∷ []) (result.converted ∷ [])
                  none c.buffer in
              let c' : Composition = record c { candidates = lock; buffer = b } in
              if outcome.changed
              then show c' (set_composition c' s)
              else some (set_composition c' s)
        ]
  ]
