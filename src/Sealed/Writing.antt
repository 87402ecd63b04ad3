-- ===== src/Sealed/Writing.antt =====
-- Writing the finished segments back (frontend/src/core/sealed_text.cpp, class SealedQueue).
use ime_windows.Prelude.{
  ℕ, ◌<◌, ◌≡◌, refl, ◌≢◌, ◌⊎◌, inl, inr, Bool, true, false, some, List, [], ◌∷◌, ◌==◌,
  if◌then◌else◌, arith, Option-cases,
}
use ime_windows.Sealed.Segment.{SealedSegment, is_finished, erases_before}
use ime_windows.Sealed.Queue.{
  DocumentHost, QueueState, Verdict, verdict, write, write_loop, write_finished,
}

-- The cases of `write_finished` on a segment, as evidence.
pub data IsVerdict (document : ℕ) (waiting : Bool) (s : SealedSegment) : Type 0 where
  is_other : verdict document waiting s ≡ Verdict.other_document → IsVerdict document waiting s
  is_write : verdict document waiting s ≡ Verdict.write_now → IsVerdict document waiting s
  is_leave : verdict document waiting s ≡ Verdict.leave → IsVerdict document waiting s

IsVerdict-cases : (document : ℕ) (waiting : Bool) (s : SealedSegment) → IsVerdict document waiting s
IsVerdict-cases document waiting s = go (verdict document waiting s) refl
  where
    go : (v : Verdict) → verdict document waiting s ≡ v → IsVerdict document waiting s
    go Verdict.other_document e = is_other e
    go Verdict.write_now e = is_write e
    go Verdict.leave e = is_leave e

-- Why a segment stays: it is another document's, its text is not in the document yet, its conversion
-- is awaited, or it erases into the text before it and an earlier segment of the document stays.
unfoldable pub Stays : ℕ → Bool → SealedSegment → Type 0
Stays document earlier s =
    (s.document ≢ document)
    ⊎ ((s.in_document ≡ false)
        ⊎ ((is_finished s ≡ false) ⊎ ((earlier ≡ true) × (0 < erases_before s))))

-- A segment that is written: it is finished and in the document, and it erases nothing before it or no
-- earlier segment of the document stays.
unfoldable pub Goes : ℕ → Bool → SealedSegment → Type 0
Goes document earlier s =
    (s.document ≡ document)
    × (s.in_document ≡ true)
    × (is_finished s ≡ true)
    × ((earlier ≡ false) ⊎ (erases_before s ≡ 0))

-- `left` are the segments that stay, in their order; the others go.
unfoldable pub IsRest : ℕ → Bool → List SealedSegment → List SealedSegment → Type 0
IsRest document earlier [] left = left ≡ []
IsRest document earlier (s ∷ rest) left =
    (Goes document earlier s × IsRest document earlier rest left)
    ⊎ (Stays document earlier s
        × ((left' : List SealedSegment) × (left ≡ s ∷ left')
            × IsRest document (if s.document == document then true else earlier) rest left'))

verdict-Stays_other :
    (document : ℕ) (waiting : Bool) (s : SealedSegment)
    → verdict document waiting s ≡ Verdict.other_document
    → Stays document waiting s × ((s.document == document) ≡ false)
unfolding verdict Stays
verdict-Stays_other document waiting s v = ground arith

verdict-Stays_leave :
    (document : ℕ) (waiting : Bool) (s : SealedSegment)
    → verdict document waiting s ≡ Verdict.leave
    → Stays document waiting s × ((s.document == document) ≡ true)
unfolding verdict Stays
verdict-Stays_leave document waiting s v = ground arith

verdict-Goes :
    (document : ℕ) (waiting : Bool) (s : SealedSegment)
    → verdict document waiting s ≡ Verdict.write_now
    → Goes document waiting s
unfolding verdict Goes
verdict-Goes document waiting s v = ground arith

IsRest-Stays :
    (document : ℕ) (waiting next : Bool) (s : SealedSegment) (rest left left' : List SealedSegment)
    → Stays document waiting s
    → (if s.document == document then true else waiting) ≡ next
    → left ≡ s ∷ left'
    → IsRest document next rest left'
    → IsRest document waiting (s ∷ rest) left
unfolding IsRest
IsRest-Stays document waiting next s rest left left' why at same settled =
    inr (why, (left', same, rw (at) settled))

module _ {H : Type 0} (append16 : ℕ → List ℕ) (host : DocumentHost H) where
  -- Nothing is done twice: where a run of the loop ends, a second one finds nothing to write.
  write_loop_idem :
      (document : ℕ) (waiting : Bool) (segments left : List SealedSegment) (h h' h'' : H)
      → write_loop append16 host document waiting segments h ≡ some (left, h')
      → write_loop append16 host document waiting left h'' ≡ some (left, h'')
  unfolding write_loop
  write_loop_idem document waiting [] left h h' h'' e = ground arith
  write_loop_idem document waiting (s ∷ rest) left h h' h'' e =
      elim (IsVerdict-cases document waiting s) [
        | is_other v ↦ elim (Option-cases (write_loop append16 host document waiting rest h)) [
          | inl n ↦ ground (arith, v, n)
          | inr ((left', k), found) ↦
              ground (arith, v, found, write_loop_idem document waiting rest left' h k h'' found)
        ]
        | is_write v ↦ elim (Option-cases (write append16 host s h)) [
          | inl n ↦ ground (arith, v, n)
          | inr (k, found) ↦
              write_loop_idem document waiting rest left k h' h'' (ground (arith, v, found))
        ]
        | is_leave v ↦ elim (Option-cases (write_loop append16 host document true rest h)) [
          | inl n ↦ ground (arith, v, n)
          | inr ((left', k), found) ↦
              ground (arith, v, found, write_loop_idem document true rest left' h k h'' found)
        ]
      ]

  write_loop-IsRest :
      (document : ℕ) (waiting : Bool) (segments left : List SealedSegment) (h h' : H)
      → write_loop append16 host document waiting segments h ≡ some (left, h')
      → IsRest document waiting segments left
  unfolding write_loop IsRest
  write_loop-IsRest document waiting [] left h h' e = ground arith
  write_loop-IsRest document waiting (s ∷ rest) left h h' e =
      elim (IsVerdict-cases document waiting s) [
        | is_other v ↦ elim (Option-cases (write_loop append16 host document waiting rest h)) [
          | inl n ↦ ground (arith, v, n)
          | inr ((left', k), found) ↦
              let (why, other) = verdict-Stays_other document waiting s v in
              IsRest-Stays document waiting waiting s rest left left' why (ground (arith, other))
                (ground (arith, v, found)) (write_loop-IsRest document waiting rest left' h k found)
        ]
        | is_write v ↦ elim (Option-cases (write append16 host s h)) [
          | inl n ↦ ground (arith, v, n)
          | inr (k, found) ↦ inl (
            verdict-Goes document waiting s v,
            write_loop-IsRest document waiting rest left k h' (ground (arith, v, found)),
          )
        ]
        | is_leave v ↦ elim (Option-cases (write_loop append16 host document true rest h)) [
          | inl n ↦ ground (arith, v, n)
          | inr ((left', k), found) ↦
              let (why, own) = verdict-Stays_leave document waiting s v in
              IsRest-Stays document waiting true s rest left left' why (ground (arith, own))
                (ground (arith, v, found)) (write_loop-IsRest document true rest left' h k found)
        ]
      ]

  -- Where `write_finished` has run, running it again changes nothing, whatever has happened to the
  -- documents in between: a second queued edit finds nothing to do.
  pub write_finished_idem :
      (document : ℕ) (q q' : QueueState H) (h : H)
      → write_finished append16 host document q ≡ some q'
      → write_finished append16 host document (record q' { documents = h })
        ≡ some (record q' { documents = h })
  unfolding write_finished
  write_finished_idem document q q' h e =
      elim (Option-cases (write_loop append16 host document false q.segments q.documents)) [
        | inl n ↦ ground (arith, n)
        | inr ((left, k), found) ↦
            ground
              (arith, found, write_loop_idem document false q.segments left q.documents k h found)
      ]

  -- `write_finished` takes exactly the segments of the document that are finished, in the document,
  -- and either erase nothing before them or have no earlier segment of the document that stays; all
  -- other segments stay, in their order.
  pub write_finished-IsRest :
      (document : ℕ) (q q' : QueueState H)
      → write_finished append16 host document q ≡ some q'
      → IsRest document false q.segments q'.segments
  unfolding write_finished
  write_finished-IsRest document q q' e =
      elim (Option-cases (write_loop append16 host document false q.segments q.documents)) [
        | inl n ↦ ground (arith, n)
        | inr ((left, k), found) ↦
            let same : left ≡ q'.segments = ground (arith, found) in
            rw same at (write_loop-IsRest document false q.segments left q.documents k found)
      ]
