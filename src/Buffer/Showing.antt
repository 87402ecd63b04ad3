-- ===== src/Buffer/Showing.antt =====
-- What is shown and what is committed (class CompositionBuffer, frontend/src/core/buffer.hpp).
use ime_windows.Prelude.{
  ℕ, ◌≡◌, refl, ◌∙◌, Bool, true, false, not, ◌&&◌, Option, some, List, [], ◌∷◌, ◌++◌, length, map,
  All, arith, take, drop, if-elim, any, take-append-drop, All-take, All-drop,
}
use ime_windows.Bopomofo.Entry.{
  BopomofoPos, current, to_toneless_bopomofo_string, to_bopomofo_string,
}
use ime_windows.Bopomofo.Validity as Entry
use ime_windows.Bopomofo.Validity.{current-total}
use ime_windows.Buffer.State.{CompositionBuffer, has_pending_conversion, ready_to_commit}
use ime_windows.Buffer.Text.{display, concat, to_string, final_text, caret_offset}
use ime_windows.Buffer.Concat.{concat-append, sum_sizes-concat, concat-total}
use ime_windows.Buffer.Validity.{IsValid}
use ime_windows.Buffer.Merge.{accept_local_candidates, settle_locally}
use ime_windows.Buffer.MergingValidity.{accept_local_candidates-eq}

display-settled :
    (append16 : ℕ → List ℕ) (immediate : Bool) (item : BopomofoPos)
    → item.conversion_pending ≡ false
    → display append16 immediate item ≡ current append16 item
unfolding display
display-settled append16 immediate item h = ground arith

concat-display :
    (append16 : ℕ → List ℕ) (immediate : Bool) (xs : List BopomofoPos)
    → any (λ item. item.conversion_pending) xs ≡ false
    → concat (display append16 immediate) xs ≡ concat (current append16) xs
unfolding concat
concat-display append16 immediate [] h = refl
concat-display append16 immediate (x ∷ xs) h =
    ground (arith, display-settled append16 immediate x, concat-display append16 immediate xs)

-- A composition that is ready to commit shows exactly the text that is committed.
pub ready_to_commit-shows :
    (append16 : ℕ → List ℕ) (b : CompositionBuffer)
    → ready_to_commit b ≡ true
    → to_string append16 b ≡ final_text append16 b
unfolding ready_to_commit to_string final_text has_pending_conversion
ready_to_commit-shows append16 b h =
    concat-display append16 b.immediate_conversion_enabled b.buffer (ground arith)

settled-none_pending :
    (xs : List BopomofoPos) → any (λ item. item.conversion_pending) (map settle_locally xs) ≡ false
settled-none_pending [] = refl
settled-none_pending (x ∷ xs) = settled-none_pending xs

settled-current :
    (append16 : ℕ → List ℕ) (x : BopomofoPos)
    → current append16 (settle_locally x) ≡ current append16 x
unfolding current to_bopomofo_string to_toneless_bopomofo_string
settled-current append16 x = refl

settled-concat :
    (append16 : ℕ → List ℕ) (xs : List BopomofoPos)
    → concat (current append16) (map settle_locally xs) ≡ concat (current append16) xs
unfolding concat
settled-concat append16 [] = refl
settled-concat append16 (x ∷ xs) = rw (settled-current append16 x, settled-concat append16 xs)

-- Accepting the local candidates settles every syllable, does not change what the composition becomes,
-- and from then on shows it; it reports a change exactly when a syllable was waiting.
pub accept_local_candidates-shows :
    (append16 : ℕ → List ℕ) (b : CompositionBuffer)
    → let (b', changed) = accept_local_candidates b in
      (has_pending_conversion b' ≡ false)
      × (final_text append16 b' ≡ final_text append16 b)
      × (to_string append16 b' ≡ final_text append16 b)
      × (changed ≡ has_pending_conversion b)
      × (b'.revision ≡ b.revision)
unfolding has_pending_conversion final_text to_string
accept_local_candidates-shows append16 b = rw (accept_local_candidates-eq b) (
    let none_left = settled-none_pending b.buffer in
    let same = settled-concat append16 b.buffer in
    (
      none_left,
      same,
      concat-display append16 b.immediate_conversion_enabled (map settle_locally b.buffer) none_left
          ∙ same,
      refl,
      refl,
    ))

-- Every entry of a well-formed buffer has a text to show.
display-total :
    (append16 : ℕ → List ℕ) (immediate : Bool) (item : BopomofoPos)
    → Entry.IsValid item
    → (a : List ℕ) × (display append16 immediate item ≡ some a)
unfolding display
display-total append16 immediate item v =
    if-elim {A = Option (List ℕ)} (λ t. (a : List ℕ) × (t ≡ some a))
      (not immediate && (item.conversion_pending && not item.chosen))
      (λ _. (to_toneless_bopomofo_string item, refl)) (λ _. current-total append16 item v)

displays-total :
    (append16 : ℕ → List ℕ) (immediate : Bool) (xs : List BopomofoPos)
    → All Entry.IsValid xs
    → All (λ x. (a : List ℕ) × (display append16 immediate x ≡ some a)) xs
displays-total append16 immediate [] v = tt
displays-total append16 immediate (x ∷ xs) v =
    (display-total append16 immediate x v.0, displays-total append16 immediate xs v.1)

pub caret_offset-splits :
    (append16 : ℕ → List ℕ) (b : CompositionBuffer)
    → IsValid b
    → (before after : List ℕ) × (concat
          (display append16 b.immediate_conversion_enabled)
          (take b.caret b.buffer)
        ≡ some before)
      × (to_string append16 b ≡ some (before ++ after))
      × (caret_offset append16 b ≡ some (length before))
unfolding to_string caret_offset
caret_offset-splits append16 b v =
    let text = display append16 b.immediate_conversion_enabled in
    let shown = displays-total append16 b.immediate_conversion_enabled in
    let (before, hb) =
      concat-total text (take b.caret b.buffer)
        (shown _ (All-take Entry.IsValid b.caret b.buffer v.entries)) in
    let (after, ha) =
      concat-total text (drop b.caret b.buffer)
        (shown _ (All-drop Entry.IsValid b.caret b.buffer v.entries)) in
    let whole = concat-append text (take b.caret b.buffer) (drop b.caret b.buffer) hb ha in
    (before, after, hb, rw take-append-drop at whole, sum_sizes-concat text _ hb)
