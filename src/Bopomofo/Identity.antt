-- ===== src/Bopomofo/Identity.antt =====
-- No operation on an entry changes its id: a conversion result finds its entry by it
-- (struct BopomofoPos, frontend/src/core/bopomofo.hpp).
use ime_windows.Prelude.{
  ℕ, ◌≡◌, refl, inl, inr, Option, none, some, List, arith, Option-cases, index_of?,
}
use ime_windows.Bopomofo.Hanzi.{HanziMapEngine, lookup_all}
use ime_windows.Bopomofo.Entry.{
  BopomofoPos, accept, accept_tone, use_table, set_chosen_candidate, choose_candidate, fix_selected,
  set_choose_index, pop_last_bopomofo, to_bopomofo_string,
}
use ime_windows.Bopomofo.Validity.{accept_tone_cases, set_choose_index_inv}

pub set_chosen_candidate-id : (ch : ℕ) (e : BopomofoPos) → (set_chosen_candidate ch e).id ≡ e.id
unfolding set_chosen_candidate
set_chosen_candidate-id ch e = refl

use_table-id : (candi : Option (List ℕ)) (e : BopomofoPos) → (use_table candi e).id ≡ e.id
use_table-id none e = refl
use_table-id (some cs) e = refl

accept_tone-id : (candi : Option (List ℕ)) (e : BopomofoPos) → (accept_tone candi e).id ≡ e.id
accept_tone-id candi e =
    accept_tone_cases (λ x. x.id ≡ e.id) candi e (λ literal. set_chosen_candidate-id literal e)
      (use_table-id candi e)

pub accept-id :
    (engine : HanziMapEngine) (c : ℕ) (e : BopomofoPos) → (accept engine c e).0.id ≡ e.id
unfolding accept
accept-id engine c e = ground (
  arith,
  accept_tone-id (lookup_all engine (to_bopomofo_string (record e { tone = c })))
      (record e { tone = c }),
)

choose_candidate-id : (ch : ℕ) (e : BopomofoPos) → (choose_candidate ch e).id ≡ e.id
unfolding choose_candidate
choose_candidate-id ch e = elim (Option-cases (index_of? e.candidates ch)) [
  | inl absent ↦ rw (absent, choose_candidate)
  | inr (i, hit) ↦ rw (hit, choose_candidate)
]

fix_selected-id : (ch : ℕ) (e : BopomofoPos) → (fix_selected ch e).id ≡ e.id
unfolding fix_selected
fix_selected-id ch e = ground (arith, set_chosen_candidate-id ch e, choose_candidate-id ch e)

pub set_choose_index-id :
    (idx : ℕ) (e : BopomofoPos) {e' : BopomofoPos} → set_choose_index idx e ≡ some e' → e'.id ≡ e.id
set_choose_index-id idx e h =
    let (selected, _, _, eq) = set_choose_index_inv idx e h in rw eq (fix_selected-id selected e)

pub pop_last_bopomofo-id : (e : BopomofoPos) → (pop_last_bopomofo e).0.id ≡ e.id
unfolding pop_last_bopomofo
pop_last_bopomofo-id e = ground arith
