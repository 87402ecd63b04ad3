-- ===== src/Buffer/FreezingText.antt =====
-- What `freeze_readings` promises: the text stays as shown, before the caret and behind it
-- (frontend/src/core/buffer.hpp).
use ime_windows.Prelude.{
  ℕ, zero, suc, ◌+◌, ◌*◌, ◌<◌, ◌≤◌, ◌≡◌, refl, ◌∙◌, Bool, false, some, List, [], ◌∷◌, ◌++◌, length,
  All, arith, append_assoc, append-nil, take, length-append, u64_mod, ◌==◌, take-append_left,
  take-length, if◌then◌else◌, if-elim,
}
use ime_windows.Bopomofo.Entry.{BopomofoPos, current}
use ime_windows.Bopomofo.Validity as Entry
use ime_windows.Bopomofo.Symbols.{EncodesUnits}
use ime_windows.Buffer.State.{CompositionBuffer, has_uncomposed_reading}
use ime_windows.Buffer.Text.{concat, final_text}
use ime_windows.Buffer.Edits.{Frozen, advance, freeze_entry, freeze_loop, freeze_readings}
use ime_windows.Buffer.Concat.{both-inv}
use ime_windows.Buffer.Validity.{IsValid}
use ime_windows.Buffer.Freezing.{
  IsFreezing, freeze_loop-IsFreezing, freeze_loop-AllSettled, settled-none_uncomposed,
  freeze_entry-concat, freeze_loop-concat, freeze_entry-frozen, pieces,
}

freeze_entry-at_caret :
    (caret : ℕ) (item : BopomofoPos) (s : Frozen)
    → (freeze_entry caret item s).at_caret
      ≡ (if suc s.index == caret then length (s.frozen ++ pieces item s) else s.at_caret)
unfolding freeze_entry advance
freeze_entry-at_caret caret item s = ground arith

freeze_entry-index :
    (caret : ℕ) (item : BopomofoPos) (s : Frozen) → (freeze_entry caret item s).index ≡ suc s.index
unfolding freeze_entry advance
freeze_entry-index caret item s = ground arith

-- The state in which the loop starts.
abbrev start : ℕ → Frozen
start n = record { index = 0; frozen = []; at_caret = 0; next_id = n }

-- Once the caret's entry has been read, what stands before the caret stays.
freeze_loop-passed :
    (caret : ℕ) (rest : List BopomofoPos) (s : Frozen)
    → caret ≤ s.index
    → s.at_caret ≤ length s.frozen
    → take (freeze_loop caret rest s).at_caret (freeze_loop caret rest s).frozen
      ≡ take s.at_caret s.frozen
unfolding freeze_loop
freeze_loop-passed caret [] s p h = refl
freeze_loop-passed caret (item ∷ rest) s p h =
    let s' = freeze_entry caret item s in
    let stays : s'.at_caret ≡ s.at_caret = ground (arith, freeze_entry-at_caret caret item s) in
    let grown : s'.frozen ≡ s.frozen ++ pieces item s = freeze_entry-frozen caret item s in
    let inside : s'.at_caret ≤ length s'.frozen =
      rw (stays, grown) (omega (arith, length-append s.frozen (pieces item s))) in
    freeze_loop-passed caret rest s' (omega (arith, freeze_entry-index caret item s)) inside
    ∙ rw (stays, grown) (take-append_left s.at_caret s.frozen (pieces item s) h)

module _ (append16 : ℕ → List ℕ) (enc : EncodesUnits append16) where
  freeze_loop-caret :
      (caret k : ℕ) (rest : List BopomofoPos) (s : Frozen) {p u : List ℕ}
      → All Entry.IsValid rest
      → s.index + suc k ≡ caret
      → suc k ≤ length rest
      → concat (current append16) s.frozen ≡ some p
      → concat (current append16) (take (suc k) rest) ≡ some u
      → concat
          (current append16)
          (take (freeze_loop caret rest s).at_caret (freeze_loop caret rest s).frozen)
        ≡ some (p ++ u)
  unfolding freeze_loop concat
  freeze_loop-caret caret k [] s v e h hp hu = absurd (omega arith)
  freeze_loop-caret caret zero (item ∷ rest) s {p} {u} v e h hp hu =
      let s' = freeze_entry caret item s in
      let (t, none_left, ht, hn, eq) = both-inv _ (current append16 item) (some []) hu in
      let whole : s'.at_caret ≡ length s'.frozen =
        rw (freeze_entry-frozen caret item s)
          (ground (arith, freeze_entry-at_caret caret item s)) in
      let kept =
        freeze_loop-passed caret rest s' (omega (arith, freeze_entry-index caret item s))
          (omega (arith, whole)) in
      let plain : u ≡ t = ground (arith, append-nil t) in
      rw (kept, whole, take-length s'.frozen, plain)
        (freeze_entry-concat append16 enc caret item s v.0 hp ht)
  freeze_loop-caret caret (suc k) (item ∷ rest) s {p} {u} v e h hp hu =
      let s' = freeze_entry caret item s in
      let (t, w, ht, hw, eq) =
        both-inv _ (current append16 item) (concat (current append16) (take (suc k) rest)) hu in
      rw (eq, ← append_assoc p t w)
        (freeze_loop-caret caret k rest s' v.1 (omega (arith, freeze_entry-index caret item s))
          (omega arith) (freeze_entry-concat append16 enc caret item s v.0 hp ht) hw)

  start_caret :
      (caret n : ℕ) (xs : List BopomofoPos) {before : List ℕ}
      → All Entry.IsValid xs
      → caret ≤ length xs
      → concat (current append16) (take caret xs) ≡ some before
      → let done = freeze_loop caret xs (start n) in
        concat (current append16) (take done.at_caret done.frozen) ≡ some before
  unfolding concat
  start_caret zero n xs v h hb =
      rw (freeze_loop-passed zero xs (start n) (omega arith) (omega arith)) hb
  start_caret (suc k) n xs v h hb =
      freeze_loop-caret (suc k) k xs (start n) v (omega arith) h refl hb

  -- Freezing leaves no unfinished reading, and the buffer reads as before, in whole and up to the caret.
  pub freeze_readings-reads :
      (b : CompositionBuffer) {whole before : List ℕ}
      → IsValid b
      → final_text append16 b ≡ some whole
      → concat (current append16) (take b.caret b.buffer) ≡ some before
      → let b' = (freeze_readings b).0 in
        (has_uncomposed_reading b' ≡ false)
        × (final_text append16 b' ≡ some whole)
        × (concat (current append16) (take b'.caret b'.buffer) ≡ some before)
  unfolding freeze_readings final_text has_uncomposed_reading concat
  freeze_readings-reads b {whole} {before} v hw hb =
      if-elim {A = CompositionBuffer × Bool}
        (λ r.
          (has_uncomposed_reading r.0 ≡ false)
          × (final_text append16 r.0 ≡ some whole)
          × (concat (current append16) (take r.0.caret r.0.buffer) ≡ some before))
        (has_uncomposed_reading b)
        (λ _. (
          settled-none_uncomposed _ (freeze_loop-AllSettled b.caret b.buffer (start b.next_id) tt),
          freeze_loop-concat append16 enc b.caret b.buffer (start b.next_id) v.entries refl hw,
          start_caret b.caret b.next_id b.buffer v.entries v.within hb,
        ))
        (λ composed. (composed, hw, hb))

-- Freezing keeps the invariant, if there are ids left for four symbols of each entry.
pub freeze_readings-IsValid :
    (b : CompositionBuffer)
    → IsValid b
    → b.next_id + 4 * length b.buffer < u64_mod
    → IsValid (freeze_readings b).0
unfolding freeze_readings
freeze_readings-IsValid b v room =
    let begun : IsFreezing b.buffer (start b.next_id) = record {
      entries = tt;
      waiting = v.entries;
      distinct = v.distinct;
      below = v.below;
      within = omega arith;
      room = room;
    } in
    let done = freeze_loop b.caret b.buffer (start b.next_id) in
    let ended = freeze_loop-IsFreezing b.caret b.buffer (start b.next_id) begun in
    if-elim {A = CompositionBuffer × Bool} (λ r. IsValid r.0) (has_uncomposed_reading b)
      (λ _. record {
        within = ended.within;
        entries = ended.entries;
        distinct = rw append-nil at ended.distinct;
        below = rw append-nil at ended.below;
      })
      (λ _. v)
