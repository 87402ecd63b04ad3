-- ===== src/Sealed/QueueEpochs.antt =====
-- The epochs of the sealed segments (frontend/src/core/sealed_text.cpp), operation by operation of the
-- queue.
use ime_windows.Prelude.{
  ℕ, ◌+◌, ◌≡◌, ◌∙◌, refl, inl, inr, false, not, Option, none, some, List, [], ◌∷◌, ◌++◌, map,
  if-elim, arith, Option-cases,
}
use ime_windows.Bopomofo.Entry.{BopomofoPos}
use ime_windows.Buffer.State.{CompositionBuffer}
use ime_windows.Conversions.Tracker.{ConversionTracker}
use ime_windows.Sealed.Segment.{
  SealedSegment, is_finished, is_waiting_for_context, placed_segment, await, set_preceding, merge,
  finish_segment, erase_last, sealed_segment,
}
use ime_windows.Sealed.Writing.{write_finished-IsRest}
use ime_windows.Sealed.Queue.{
  DocumentHost, QueueState, update_found, find_segment, update_newest, convert, documents_of,
  write_finished, write_when_possible, write_if_finished, start_segment, add_segment, context_ready,
  placed, on_conversion, newest_at_caret, erase_sealed, write_all, finish_locally, forget,
}
use ime_windows.Sealed.Epochs.{
  Increasing, Keeps, Increasing-append, update_found-Keeps, update_newest-Keeps,
  forget_segments-Keeps, map-Keeps, merge-epoch, placed_segment-epoch, finish_segment-epoch,
  erase_last-epoch, convert-epoch, find_segment-epoch, IsRest-Keeps, sealed_segment-epoch,
}

abbrev Left : {H : Type 0} → ℕ → ℕ → QueueState H → Type 0
Left low high q = Increasing low q.segments high

module _ {H : Type 0} (append16 : ℕ → List ℕ) (host : DocumentHost H) where
  pub write_when_possible-Keeps :
      (document : ℕ) (q : QueueState H)
      → Keeps q.segments (write_when_possible append16 host document q).segments
  unfolding write_when_possible
  write_when_possible-Keeps document q low high i =
      if-elim (Left low high) (host.request_write document q.documents).1 (λ _. i)
        (λ _. forget_segments-Keeps document q.segments low high i)

  write_if_finished-Keeps :
      (s : SealedSegment) (q : QueueState H)
      → Keeps q.segments (write_if_finished append16 host s q).segments
  unfolding write_if_finished
  write_if_finished-Keeps s q low high i =
      if-elim (Left low high) (is_finished s)
        (λ _. write_when_possible-Keeps s.document q low high i) (λ _. i)

  pub placed-Keeps :
      (epoch : ℕ) (q : QueueState H) → Keeps q.segments (placed append16 host epoch q).segments
  unfolding placed
  placed-Keeps epoch q low high i = elim (Option-cases (find_segment epoch q.segments)) [
    | inl e ↦ rw (e, placed) i
    | inr (s, e) ↦
        rw (e, placed)
          (write_if_finished-Keeps (placed_segment s)
            (record q { segments = update_found epoch placed_segment q.segments }) low high
            (update_found-Keeps epoch placed_segment q.segments (λ t _. placed_segment-epoch t) low
              high i))
  ]

  pub on_conversion-Keeps :
      (epoch sequence : ℕ) (rs cs : List BopomofoPos) (q : QueueState H)
      → Keeps q.segments (on_conversion append16 host epoch sequence rs cs q).segments
  unfolding on_conversion
  on_conversion-Keeps epoch sequence rs cs q low high i =
      elim (Option-cases (find_segment epoch q.segments)) [
        | inl e ↦ rw (e, on_conversion) i
        | inr (s, e) ↦
            rw (e, on_conversion)
              (write_if_finished-Keeps (merge sequence rs cs s)
                (record q { segments = update_found epoch (merge sequence rs cs) q.segments }) low
                high
                (update_found-Keeps epoch (merge sequence rs cs) q.segments
                  (λ t _. merge-epoch sequence rs cs t) low high i))
      ]

  pub context_ready-Keeps :
      (epoch : ℕ) (preceding : List ℕ) (q : QueueState H)
      → Keeps q.segments (context_ready append16 host epoch preceding q).segments
  unfolding context_ready set_preceding
  context_ready-Keeps epoch preceding q low high i =
      elim (Option-cases (find_segment epoch q.segments)) [
        | inl e ↦ rw (e, context_ready) i
        | inr (s, e) ↦
            let known = set_preceding preceding s in
            let converted = (convert known q.conversions).0 in
            let at = find_segment-epoch epoch q.segments s e in
            let same = convert-epoch known q.conversions in
            rw (e, context_ready)
              (if-elim (Left low high) (not (is_waiting_for_context known))
                (λ _.
                  update_found-Keeps epoch (λ _. known) q.segments
                    (λ t mine. omega (arith, at, mine)) low high i)
                (λ _.
                  write_if_finished-Keeps converted
                    (record q {
                      segments = update_found epoch (λ _. converted) q.segments;
                      conversions = (convert known q.conversions).1;
                    })
                    low high
                    (update_found-Keeps epoch (λ _. converted) q.segments
                      (λ t mine. omega (arith, at, mine, same)) low high i)))
      ]

  pub erase_sealed-Keeps :
      (document : ℕ) (q : QueueState H)
      → Keeps q.segments (erase_sealed append16 host document q).0.segments
  unfolding erase_sealed
  erase_sealed-Keeps document q low high i =
      elim (Option-cases (newest_at_caret append16 host document q)) [
        | inl e ↦ rw (e, erase_sealed) i
        | inr (s, e) ↦
            let changed : QueueState H = record q {
              segments = update_newest document erase_last q.segments;
            } in
            let kept =
              update_newest-Keeps document erase_last q.segments erase_last-epoch low high i in
            rw (e, erase_sealed)
              (if-elim (Left low high) (is_finished (erase_last s))
                (λ _. write_when_possible-Keeps document changed low high kept) (λ _. kept))
      ]

  write_all-Keeps :
      (documents : List ℕ) (q : QueueState H)
      → Keeps q.segments (write_all append16 host documents q).segments
  unfolding write_all
  write_all-Keeps [] q low high i = i
  write_all-Keeps (d ∷ documents) q low high i =
      write_all-Keeps documents (write_when_possible append16 host d q) low high
        (write_when_possible-Keeps d q low high i)

  pub finish_locally-Keeps :
      (q : QueueState H) → Keeps q.segments (finish_locally append16 host q).segments
  unfolding finish_locally
  finish_locally-Keeps q low high i =
      write_all-Keeps (documents_of [] q.segments)
        (record q { segments = map finish_segment q.segments }) low high
        (map-Keeps finish_segment q.segments finish_segment-epoch low high i)

  pub forget-Keeps :
      (document : ℕ) (q : QueueState H)
      → Keeps q.segments (forget append16 host document q).segments
  unfolding forget
  forget-Keeps document q = forget_segments-Keeps document q.segments

  pub write_finished-Keeps :
      (document : ℕ) (q q' : QueueState H)
      → write_finished append16 host document q ≡ some q'
      → Keeps q.segments q'.segments
  write_finished-Keeps document q q' e =
      IsRest-Keeps document false q.segments q'.segments
        (write_finished-IsRest append16 host document q q' e)

  start_segment-epoch :
      (in_flight : Option ℕ) (s : SealedSegment) (t : ConversionTracker)
      → (start_segment append16 host in_flight s t).0.epoch ≡ s.epoch
  unfolding start_segment await
  start_segment-epoch (some n) s t = refl
  start_segment-epoch none s t = elim (Option-cases s.preceding) [
    | inl e ↦ rw (e, start_segment)
    | inr (p, e) ↦ rw (e, start_segment) (convert-epoch s t)
  ]

  -- Sealing adds one epoch, above the others.
  pub add_segment-Increasing :
      (epoch document : ℕ) (buffer : CompositionBuffer) (preceding : Option (List ℕ))
      (in_flight : Option ℕ) (q q' : QueueState H) (low : ℕ)
      → add_segment append16 host epoch document buffer preceding in_flight q ≡ some q'
      → Increasing low q.segments epoch
      → Increasing low q'.segments (epoch + 1)
  unfolding add_segment
  add_segment-Increasing epoch document buffer preceding in_flight q q' low e i =
      elim (Option-cases (sealed_segment append16 epoch document buffer preceding)) [
        | inl n ↦ absurd (ground (arith, n, e))
        | inr (s, hit) ↦
            let started = (start_segment append16 host in_flight s q.conversions).0 in
            let grown : QueueState H = record q {
              segments = q.segments ++ (started ∷ []);
              conversions = (start_segment append16 host in_flight s q.conversions).1;
            } in
            let same : write_if_finished append16 host started grown ≡ q' =
              ground (arith, hit, e) in
            let its : started.epoch ≡ epoch =
              start_segment-epoch in_flight s q.conversions
              ∙ sealed_segment-epoch append16 epoch document buffer preceding s hit in
            rw (← same) (
              write_if_finished-Keeps started grown low (epoch + 1)
                (Increasing-append low epoch q.segments started i its))
      ]
