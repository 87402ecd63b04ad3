-- ===== src/Buffer/MergingValidity.antt =====
-- Backend results and the invariant of the buffer (`merge_conversion`, `accept_local_candidates`,
-- frontend/src/core/buffer.hpp).
use ime_windows.Prelude.{
  ℕ, ◌<◌, ◌≡◌, refl, ap, inl, inr, Bool-cases, Bool, true, false, any, ◌||◌, if◌then◌else◌, Option,
  List, [], ◌∷◌, length, map, All, arith, is_empty,
}
use ime_windows.Bopomofo.Entry.{BopomofoPos}
use ime_windows.Bopomofo.Validity as Entry
use ime_windows.Buffer.State.{CompositionBuffer, has_pending_conversion}
use ime_windows.Buffer.Merge.{
  is_usable, converted_entry, merge_conversion, accept_loop, accept_local_candidates,
  settle_locally,
}
use ime_windows.Buffer.Ids.{ids}
use ime_windows.Buffer.Validity.{IsValid}
use ime_windows.Buffer.Merging.{Answers, Merged, kept, merged, Pointwise, merge_conversion-Merged}

-- A fixed output names one of its candidates.
abbrev pub HasChoice : BopomofoPos → Type 0
HasChoice output = output.chosen ≡ true → output.choose_index < length output.candidates

-- The entry is settled, if it has the id and the version of one that was sent.
abbrev pub SentSettled : List BopomofoPos → List BopomofoPos → BopomofoPos → Type 0
SentSettled requested converted item =
    (output : BopomofoPos) → Answers requested converted item output → item.compositable ≡ true

Answers-HasChoice :
    (rs os : List BopomofoPos) (item output : BopomofoPos)
    → All HasChoice os
    → Answers rs os item output
    → HasChoice output
Answers-HasChoice [] os item output h a = absurd a
Answers-HasChoice (r ∷ rs) [] item output h a = absurd a
Answers-HasChoice (r ∷ rs) (o ∷ os) item output h (inl (_, _, same)) = rw (← same) h.0
Answers-HasChoice (r ∷ rs) (o ∷ os) item output h (inr a) =
    Answers-HasChoice rs os item output h.1 a

length-pos : (cs : List ℕ) → is_empty cs ≡ false → 0 < length cs
length-pos [] h = cc
length-pos (c ∷ cs) h = omega arith

converted_entry-IsValid :
    (sequence : ℕ) (output item : BopomofoPos)
    → Entry.IsValid item
    → item.compositable ≡ true
    → is_usable output ≡ true
    → HasChoice output
    → Entry.IsValid (converted_entry sequence output item)
unfolding converted_entry is_usable
converted_entry-IsValid sequence output item v k u h = ground (arith, length-pos output.candidates)

module _ (sequence : ℕ) (locked_id : Option ℕ) (requested converted : List BopomofoPos) where
  Merged-IsValid :
      (x y : BopomofoPos)
      → All HasChoice converted
      → SentSettled requested converted x
      → Entry.IsValid x
      → Merged sequence locked_id requested converted x y
      → Entry.IsValid y
  Merged-IsValid x y choices sent v (kept e) = rw e v
  Merged-IsValid x y choices sent v (merged o u a c n l e) = rw e (
      converted_entry-IsValid sequence o x v (sent o a) u
        (Answers-HasChoice requested converted x o choices a))

  Merged-id : (x y : BopomofoPos) → Merged sequence locked_id requested converted x y → y.id ≡ x.id
  unfolding converted_entry
  Merged-id x y (kept e) = ap (λ t. t.id) e
  Merged-id x y (merged o u a c n l e) = ap (λ t. t.id) e

  Pointwise-entries :
      (xs ys : List BopomofoPos)
      → All HasChoice converted
      → All (SentSettled requested converted) xs
      → All Entry.IsValid xs
      → Pointwise (Merged sequence locked_id requested converted) xs ys
      → All Entry.IsValid ys
  Pointwise-entries [] [] ch s v p = tt
  Pointwise-entries [] (y ∷ ys) ch s v p = absurd p
  Pointwise-entries (x ∷ xs) [] ch s v p = absurd p
  Pointwise-entries (x ∷ xs) (y ∷ ys) ch s v p =
      (Merged-IsValid x y ch s.0 v.0 p.0, Pointwise-entries xs ys ch s.1 v.1 p.1)

  Pointwise-ids :
      (xs ys : List BopomofoPos)
      → Pointwise (Merged sequence locked_id requested converted) xs ys
      → (ids ys ≡ ids xs) × (length ys ≡ length xs)
  Pointwise-ids [] [] p = (refl, refl)
  Pointwise-ids [] (y ∷ ys) p = absurd p
  Pointwise-ids (x ∷ xs) [] p = absurd p
  Pointwise-ids (x ∷ xs) (y ∷ ys) p =
      let (e, n) = Pointwise-ids xs ys p.1 in (cc (e, Merged-id x y p.0), omega arith)

  -- Merging keeps the invariant, if each fixed output names one of its candidates and every entry of the
  -- buffer that still has the id and the version of an entry sent is settled.
  pub merge_conversion-IsValid :
      (b : CompositionBuffer)
      → IsValid b
      → All HasChoice converted
      → All (SentSettled requested converted) b.buffer
      → IsValid (merge_conversion sequence requested converted locked_id b).0
  merge_conversion-IsValid b v choices sent =
      let b' = (merge_conversion sequence requested converted locked_id b).0 in
      let (step, at, _, next) = merge_conversion-Merged sequence locked_id requested converted b in
      let (same, size) = Pointwise-ids b.buffer b'.buffer step in
      record {
        within = omega (arith, v.within);
        entries = Pointwise-entries b.buffer b'.buffer choices sent v.entries step;
        distinct = rw same v.distinct;
        below = rw (same, next) v.below;
      }

settle_locally-IsValid :
    (xs : List BopomofoPos) → All Entry.IsValid xs → All Entry.IsValid (map settle_locally xs)
settle_locally-IsValid [] v = tt
settle_locally-IsValid (x ∷ xs) v = (ground (arith, v.0), settle_locally-IsValid xs v.1)

settle_locally-ids :
    (xs : List BopomofoPos)
    → (ids (map settle_locally xs) ≡ ids xs) × (length (map settle_locally xs) ≡ length xs)
settle_locally-ids [] = (refl, refl)
settle_locally-ids (x ∷ xs) = ground (arith, settle_locally-ids xs)

settled_item :
    (x : BopomofoPos) → (if x.conversion_pending then settle_locally x else x) ≡ settle_locally x
settled_item x = elim (Bool-cases x.conversion_pending) [
  | inl waits ↦ rw (waits) refl
  | inr settled ↦ rw (settled) refl
]

-- The loop settles every entry, and has changed something if one was waiting.
accept_loop-map :
    (xs : List BopomofoPos) (changed : Bool)
    → accept_loop xs changed
      ≡ (map settle_locally xs, any (λ item. item.conversion_pending) xs || changed)
unfolding accept_loop
accept_loop-map [] changed = refl
accept_loop-map (x ∷ xs) changed =
    rw (accept_loop-map xs (if x.conversion_pending then true else changed), settled_item x)
      (ground arith)

pub accept_local_candidates-eq :
    (b : CompositionBuffer)
    → accept_local_candidates b
      ≡ (record b { buffer = map settle_locally b.buffer }, has_pending_conversion b)
unfolding accept_local_candidates has_pending_conversion
accept_local_candidates-eq b = rw (accept_loop-map b.buffer false) (ground arith)

pub accept_local_candidates-IsValid :
    (b : CompositionBuffer) → IsValid b → IsValid (accept_local_candidates b).0
accept_local_candidates-IsValid b v =
    let (same, size) = settle_locally-ids b.buffer in
    rw (accept_local_candidates-eq b) record {
      within = omega (arith, v.within);
      entries = settle_locally-IsValid b.buffer v.entries;
      distinct = rw same v.distinct;
      below = rw same v.below;
    }
