-- ===== src/Bopomofo/Choosing.antt =====
-- The candidate list of an entry and the choice from it (struct BopomofoPos,
-- frontend/src/core/bopomofo.hpp).
use ime_windows.Prelude.{
  ℕ, min, ◌+◌, ◌<◌, ◌≡◌, refl, ◌∙◌, inl, inr, true, false, none, some, length, get_elem?, arith,
  Bool-cases, Option-cases, index_of?, get_elem?-index_of?, length-insert_at, holds_nat, erase_all,
  erase_all-insert_at, erase_all_idem, get_elem?-insert_at_self, get_elem?-some,
}
use ime_windows.Bopomofo.Entry.{
  BopomofoPos, set_chosen_candidate, choose_candidate, fix_selected, set_choose_index, displayed,
  current32, single_reading_literal, multi_reading_literal, to_toneless_bopomofo_string,
}

-- `e` is the character `ch`, fixed by the user.
pub record IsPicked (ch : ℕ) (e : BopomofoPos) : Type 0 where
  pub shown : current32 e ≡ some ch
  pub fixed : e.chosen ≡ true
  pub by_hand : e.manually_selected ≡ true
  pub settled : e.conversion_pending ≡ false

choose_candidate-current32 :
    (ch : ℕ) (e : BopomofoPos) → e.compositable ≡ true → current32 (choose_candidate ch e) ≡ some ch
unfolding choose_candidate current32
choose_candidate-current32 ch e k = elim (Option-cases (index_of? e.candidates ch)) [
  | inl absent ↦ rw (absent, choose_candidate, k)
  | inr (i, hit) ↦ rw (hit, choose_candidate, k) (get_elem?-index_of? e.candidates ch i hit)
]

fixed-IsPicked :
    (ch : ℕ) (e : BopomofoPos)
    → current32 (choose_candidate ch e) ≡ some ch
    → IsPicked ch (record (choose_candidate ch e) { manually_selected = true })
unfolding choose_candidate current32
fixed-IsPicked ch e found = record { shown = found; fixed = refl; by_hand = refl; settled = refl }

pub fix_selected-IsPicked :
    (ch : ℕ) (e : BopomofoPos) → e.compositable ≡ true → IsPicked ch (fix_selected ch e)
unfolding fix_selected set_chosen_candidate current32
fix_selected-IsPicked ch e k = elim (Bool-cases (holds_nat (single_reading_literal e) ch)) [
  | inl lit ↦ rw (lit, fix_selected) (ground arith)
  | inr not_lit ↦
      let found = choose_candidate-current32 ch e k in
      rw (not_lit, fix_selected) (fixed-IsPicked ch e found)
]

pub set_choose_index-hit :
    (idx : ℕ) (e : BopomofoPos) {ch : ℕ}
    → e.compositable ≡ true
    → get_elem? (displayed e) idx ≡ some ch
    → set_choose_index idx e ≡ some (fix_selected ch e)
unfolding set_choose_index
set_choose_index-hit idx e k hit = ground arith

-- Choosing any displayed position of a settled entry succeeds, and fixes the entry to exactly the
-- character displayed there.
pub set_choose_index-IsPicked :
    (idx : ℕ) (e : BopomofoPos)
    → e.compositable ≡ true
    → idx < length (displayed e)
    → (ch : ℕ) × (e' : BopomofoPos) × (get_elem? (displayed e) idx ≡ some ch)
      × (set_choose_index idx e ≡ some e')
      × IsPicked ch e'
set_choose_index-IsPicked idx e k h =
    let (ch, hit) = get_elem?-some (displayed e) idx h in
    (ch, fix_selected ch e, hit, set_choose_index-hit idx e k hit, fix_selected-IsPicked ch e k)

-- A reading is offered as one symbol or as a text of several, never as both.
single-not-multi :
    (e : BopomofoPos) (literal : ℕ)
    → single_reading_literal e ≡ some literal
    → multi_reading_literal e ≡ none
unfolding single_reading_literal multi_reading_literal to_toneless_bopomofo_string
single-not-multi e literal s = ground arith

-- A reading of one symbol is offered as a character of its own: at position 8, or last in a shorter
-- list, and nowhere else; the other candidates keep their order. Such an entry offers no text of
-- several symbols.
pub displayed-literal :
    (e : BopomofoPos) (literal : ℕ)
    → single_reading_literal e ≡ some literal
    → (get_elem? (displayed e) (min 8 (length (erase_all literal e.candidates))) ≡ some literal)
      × (erase_all literal (displayed e) ≡ erase_all literal e.candidates)
      × (length (displayed e) ≡ length (erase_all literal e.candidates) + 1)
      × (multi_reading_literal e ≡ none)
unfolding displayed
displayed-literal e literal s =
    let rest = erase_all literal e.candidates in
    rw (s, displayed)
      (
        get_elem?-insert_at_self rest (min 8 (length rest)) literal (omega arith),
        erase_all-insert_at literal (min 8 (length rest)) rest
            ∙ erase_all_idem literal e.candidates,
        length-insert_at rest (min 8 (length rest)) literal,
        single-not-multi e literal s,
      )
