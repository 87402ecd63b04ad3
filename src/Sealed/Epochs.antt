-- ===== src/Sealed/Epochs.antt =====
-- The epochs of the sealed segments (frontend/src/core/sealed_text.cpp): no operation of the queue but
-- `add` brings in an epoch, and the epochs stay in the order in which the segments were sealed.
use ime_windows.Prelude.{
  ℕ, ◌+◌, ◌≤◌, ◌≡◌, refl, inl, inr, Bool, true, ◌&&◌, Option, some, List, [], ◌∷◌, ◌++◌, map, ◌==◌,
  if◌then◌else◌, if-elim, arith, Bool-cases, Option-cases,
}
use ime_windows.Bopomofo.Entry.{BopomofoPos}
use ime_windows.Buffer.State.{CompositionBuffer}
use ime_windows.Buffer.Text.{to_string}
use ime_windows.Conversions.Tracker.{ConversionTracker}
use ime_windows.Sealed.Segment.{
  SealedSegment, placed_segment, await, merge, finish_segment, erase_last, sealed_segment,
}
use ime_windows.Sealed.Writing.{IsRest}
use ime_windows.Sealed.Queue.{
  update_found, find_segment, find_newest, update_newest, forget_segments, convert,
}

-- The epochs increase from `low` on, below `high`.
unfoldable pub Increasing : ℕ → List SealedSegment → ℕ → Type 0
Increasing low [] high = low ≤ high
Increasing low (s ∷ rest) high = (low ≤ s.epoch) × Increasing (s.epoch + 1) rest high

-- Segments that are left or changed, in the order that they had.
abbrev pub Keeps : List SealedSegment → List SealedSegment → Type 0
Keeps segments left = (low high : ℕ) → Increasing low segments high → Increasing low left high

pub Increasing-lower :
    (low low' high : ℕ) (segments : List SealedSegment)
    → low' ≤ low
    → Increasing low segments high
    → Increasing low' segments high
unfolding Increasing
Increasing-lower low low' high [] le h = omega arith
Increasing-lower low low' high (s ∷ rest) le h = (omega (arith, h.0), h.1)

pub Increasing-higher :
    (low high high' : ℕ) (segments : List SealedSegment)
    → high ≤ high'
    → Increasing low segments high
    → Increasing low segments high'
unfolding Increasing
Increasing-higher low high high' [] le h = omega (arith, h)
Increasing-higher low high high' (s ∷ rest) le h =
    (h.0, Increasing-higher (s.epoch + 1) high high' rest le h.1)

pub Increasing-append :
    (low high : ℕ) (segments : List SealedSegment) (s : SealedSegment)
    → Increasing low segments high
    → s.epoch ≡ high
    → Increasing low (segments ++ s ∷ []) (high + 1)
unfolding Increasing
Increasing-append low high [] s h same = (omega (arith, h, same), omega (arith, same))
Increasing-append low high (t ∷ segments) s h same =
    (h.0, Increasing-append (t.epoch + 1) high segments s h.1 same)

pub update_found-Keeps :
    (epoch : ℕ) (change : SealedSegment → SealedSegment) (segments : List SealedSegment)
    → ((s : SealedSegment) → s.epoch ≡ epoch → (change s).epoch ≡ s.epoch)
    → Keeps segments (update_found epoch change segments)
unfolding Increasing
update_found-Keeps epoch change [] same low high h = h
update_found-Keeps epoch change (s ∷ rest) same low high h = elim (Bool-cases (s.epoch == epoch)) [
  | inl mine ↦ let kept = same s (ground (arith, mine)) in rw (mine, kept) h
  | inr other ↦ rw other (h.0, update_found-Keeps epoch change rest same (s.epoch + 1) high h.1)
]

pub update_newest-Keeps :
    (document : ℕ) (change : SealedSegment → SealedSegment) (segments : List SealedSegment)
    → ((s : SealedSegment) → (change s).epoch ≡ s.epoch)
    → Keeps segments (update_newest document change segments)
unfolding Increasing update_newest
update_newest-Keeps document change [] same low high h = h
update_newest-Keeps document change (s ∷ rest) same low high h =
    elim (Option-cases (find_newest document rest)) [
      | inl e ↦ elim (Bool-cases ((s.document == document) && s.in_document)) [
        | inl mine ↦ rw (e, update_newest, mine, same s) h
        | inr other ↦ rw (e, update_newest, other) h
      ]
      | inr (t, e) ↦
          rw (e, update_newest)
            (h.0, update_newest-Keeps document change rest same (s.epoch + 1) high h.1)
    ]

pub forget_segments-Keeps :
    (document : ℕ) (segments : List SealedSegment)
    → Keeps segments (forget_segments document segments)
unfolding Increasing forget_segments
forget_segments-Keeps document [] low high h = h
forget_segments-Keeps document (s ∷ rest) low high h =
    let left = forget_segments-Keeps document rest (s.epoch + 1) high h.1 in
    if-elim (λ l. Increasing low l high) (s.document == document)
      (λ _.
        Increasing-lower (s.epoch + 1) low high (forget_segments document rest) (omega (arith, h.0))
          left)
      (λ _. (h.0, left))

pub map-Keeps :
    (change : SealedSegment → SealedSegment) (segments : List SealedSegment)
    → ((s : SealedSegment) → (change s).epoch ≡ s.epoch)
    → Keeps segments (map change segments)
unfolding Increasing
map-Keeps change [] same low high h = h
map-Keeps change (s ∷ rest) same low high h =
    rw (same s) (h.0, map-Keeps change rest same (s.epoch + 1) high h.1)

-- A change of a segment that leaves its epoch.
pub merge-epoch :
    (sequence : ℕ) (rs cs : List BopomofoPos) (s : SealedSegment)
    → (merge sequence rs cs s).epoch ≡ s.epoch
unfolding merge
merge-epoch sequence rs cs s = refl

pub placed_segment-epoch : (s : SealedSegment) → (placed_segment s).epoch ≡ s.epoch
unfolding placed_segment
placed_segment-epoch s = refl

pub finish_segment-epoch : (s : SealedSegment) → (finish_segment s).epoch ≡ s.epoch
unfolding finish_segment
finish_segment-epoch s = refl

pub erase_last-epoch : (s : SealedSegment) → (erase_last s).epoch ≡ s.epoch
unfolding erase_last
erase_last-epoch s = refl

pub convert-epoch : (s : SealedSegment) (t : ConversionTracker) → (convert s t).0.epoch ≡ s.epoch
unfolding convert await finish_segment
convert-epoch s t = ground arith

pub find_segment-epoch :
    (epoch : ℕ) (segments : List SealedSegment) (s : SealedSegment)
    → find_segment epoch segments ≡ some s
    → s.epoch ≡ epoch
unfolding find_segment
find_segment-epoch epoch [] s h = cc
find_segment-epoch epoch (t ∷ rest) s h = elim (Bool-cases (t.epoch == epoch)) [
  | inl mine ↦ ground (arith, h, mine)
  | inr other ↦ find_segment-epoch epoch rest s (ground (arith, h, other))
]

pub IsRest-Keeps :
    (document : ℕ) (earlier : Bool) (segments left : List SealedSegment)
    → IsRest document earlier segments left
    → Keeps segments left
unfolding IsRest Increasing
IsRest-Keeps document earlier [] left same low high i = rw same i
IsRest-Keeps document earlier (s ∷ rest) left (inl (goes, more)) low high i =
    Increasing-lower (s.epoch + 1) low high left (omega (arith, i.0))
      (IsRest-Keeps document earlier rest left more (s.epoch + 1) high i.1)
IsRest-Keeps document earlier (s ∷ rest) left (inr (stays, (left', same, more))) low high i =
    rw same (
      i.0,
      IsRest-Keeps document (if s.document == document then true else earlier) rest left' more
          (s.epoch + 1) high i.1,
    )

pub sealed_segment-epoch :
    (append16 : ℕ → List ℕ) (epoch document : ℕ) (buffer : CompositionBuffer)
    (preceding : Option (List ℕ)) (s : SealedSegment)
    → sealed_segment append16 epoch document buffer preceding ≡ some s
    → s.epoch ≡ epoch
unfolding sealed_segment
sealed_segment-epoch append16 epoch document buffer preceding s h =
    elim (Option-cases (to_string append16 buffer)) [
      | inl n ↦ absurd (ground (arith, n, h))
      | inr (shown, e) ↦ ground (arith, e, h)
    ]
