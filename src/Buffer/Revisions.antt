-- ===== src/Buffer/Revisions.antt =====
-- The revision counts user edits of the content (class CompositionBuffer, frontend/src/core/buffer.hpp).
use ime_windows.Prelude.{
  ℕ, ◌≡◌, refl, sym, ap, ◌∙◌, ◌≢◌, ◌⊎◌, inl, inr, Bool, true, false, arith, next64, next64-ne,
  next64-next64-ne, Option-cases, Bool-cases, if-elim,
}
use ime_windows.Bopomofo.Hanzi.{HanziMapEngine}
use ime_windows.Bopomofo.Entry.{BopomofoPos}
use ime_windows.Buffer.State.{
  CompositionBuffer, entry_at_caret, edited, insert_after_caret, erase_at_caret, current_invalid,
  has_uncomposed_reading,
}
use ime_windows.Buffer.Edits.{
  remove_last, remove_from, clamp_caret, discard_current_reading, clear, add, add_symbol,
  drop_invalid, insert_reading, add_chosen_candidate, freeze_readings,
}

-- The edits of the content, with whether something happened.
pub data Edit : Type 0 where
  symbol literal : ℕ → Edit
  backspace discard freeze empty : Edit

pub edit : HanziMapEngine → Edit → CompositionBuffer → CompositionBuffer × Bool
edit engine (symbol c) b = (add engine c b, true)
edit engine (literal c) b = (add_chosen_candidate c b, true)
edit engine backspace b = remove_last b
edit engine discard b = discard_current_reading b
edit engine freeze b = freeze_readings b
edit engine empty b = (clear b, true)

-- What an edit promises of the revision.
abbrev pub Revises : CompositionBuffer → CompositionBuffer × Bool → Type 0
Revises b r = ((r.1 ≡ true) × (r.0.revision ≢ b.revision)) ⊎ ((r.1 ≡ false) × (r.0 ≡ b))

drop_invalid-revision :
    (b : CompositionBuffer)
    → ((drop_invalid b).revision ≡ b.revision) ⊎ ((drop_invalid b).revision ≡ next64 b.revision)
unfolding drop_invalid erase_at_caret
drop_invalid-revision b = elim (Bool-cases (current_invalid b)) [
  | inl bad ↦ inr (ground (arith, bad))
  | inr good ↦ inl (ground (arith, good))
]

add_symbol-revision :
    (engine : HanziMapEngine) (c : ℕ) (b : CompositionBuffer)
    → (add_symbol engine c b).revision ≡ next64 b.revision
unfolding add_symbol insert_reading insert_after_caret edited
add_symbol-revision engine c b = ground arith

-- One or two counts lead to another revision.
counted-ne : (b : CompositionBuffer) (r : ℕ) → r ≡ next64 (drop_invalid b).revision → r ≢ b.revision
counted-ne b r h = elim (drop_invalid-revision b) [
  | inl once ↦ λ e. next64-ne b.revision (sym (ap next64 once) ∙ (sym h ∙ e))
  | inr twice ↦ λ e. next64-next64-ne b.revision (sym (ap next64 twice) ∙ (sym h ∙ e))
]

remove_from-revision :
    (item : BopomofoPos) (b : CompositionBuffer)
    → (clamp_caret (remove_from item b)).revision ≡ next64 b.revision
unfolding remove_from clamp_caret erase_at_caret edited
remove_from-revision item b = ground arith

add-revision :
    (engine : HanziMapEngine) (c : ℕ) (b : CompositionBuffer)
    → (add engine c b).revision ≡ next64 (drop_invalid b).revision
unfolding add
add-revision engine c b = add_symbol-revision engine c (drop_invalid b)

literal-revision :
    (c : ℕ) (b : CompositionBuffer)
    → (add_chosen_candidate c b).revision ≡ next64 (drop_invalid b).revision
unfolding add_chosen_candidate insert_after_caret
literal-revision c b = refl

clear-revision : (b : CompositionBuffer) → (clear b).revision ≢ b.revision
unfolding clear
clear-revision b = next64-ne b.revision

backspace-Revises : (b : CompositionBuffer) → Revises b (remove_last b)
unfolding remove_last
backspace-Revises b = elim (Option-cases (entry_at_caret b)) [
  | inl away ↦ rw (away, remove_last) (inr (refl, refl))
  | inr (item, here) ↦
      rw (here, remove_last)
        (inl (refl, λ e. next64-ne b.revision (sym (remove_from-revision item b) ∙ e)))
]

discard-Revises : (b : CompositionBuffer) → Revises b (discard_current_reading b)
unfolding discard_current_reading erase_at_caret
discard-Revises b = elim (Option-cases (entry_at_caret b)) [
  | inl away ↦ rw (away, discard_current_reading) (inr (refl, refl))
  | inr (item, here) ↦
      rw (here, discard_current_reading)
        (if-elim (Revises b) item.compositable (λ _. inr (refl, refl))
          (λ _. inl (refl, next64-ne b.revision)))
]

freeze-Revises : (b : CompositionBuffer) → Revises b (freeze_readings b)
unfolding freeze_readings
freeze-Revises b =
    if-elim (Revises b) (has_uncomposed_reading b) (λ _. inl (refl, next64-ne b.revision))
      (λ _. inr (refl, refl))

-- An edit that did something gives the content another revision, and one that reports that it did
-- nothing leaves the buffer as it was.
pub edit-Revises :
    (engine : HanziMapEngine) (e : Edit) (b : CompositionBuffer) → Revises b (edit engine e b)
unfolding edit
edit-Revises engine (symbol c) b =
    inl (refl, counted-ne b (add engine c b).revision (add-revision engine c b))
edit-Revises engine (literal c) b =
    inl (refl, counted-ne b (add_chosen_candidate c b).revision (literal-revision c b))
edit-Revises engine backspace b = backspace-Revises b
edit-Revises engine discard b = discard-Revises b
edit-Revises engine freeze b = freeze-Revises b
edit-Revises engine empty b = inl (refl, clear-revision b)
