-- ===== src/Bopomofo/Typing.antt =====
-- Typing a symbol and deleting it again (struct BopomofoPos, frontend/src/core/bopomofo.hpp).
use ime_windows.Prelude.{ℕ, ◌≡◌, ◌≢◌, true, false, ◌||◌, Option, none, some, List, arith}
use ime_windows.Bopomofo.Layout.{is_initial, is_medial, is_final, is_tone}
use ime_windows.Bopomofo.Hanzi.{HanziMapEngine, lookup_all}
use ime_windows.Bopomofo.Entry.{
  BopomofoPos, accept, accept_tone, use_table, set_chosen_candidate, pop_last_bopomofo,
  to_bopomofo_string,
}
use ime_windows.Bopomofo.Validity.{accept_tone_cases}

-- The slots that the reading is made of.
abbrev pub slots : BopomofoPos → ℕ × ℕ × ℕ × ℕ
slots e = (e.initial, e.medial, e.final, e.tone)

-- `c` is a symbol, and nothing has been typed in its slot or behind it.
pub record IsNext (c : ℕ) (e : BopomofoPos) : Type 0 where
  pub after_initial : is_initial c ≡ true → (e.initial ≡ 0) × (e.medial ≡ 0) × (e.final ≡ 0)
  pub after_medial : is_medial c ≡ true → (e.medial ≡ 0) × (e.final ≡ 0)
  pub after_final : is_final c ≡ true → e.final ≡ 0
  pub untoned : e.tone ≡ 0
  pub symbol : c ≢ 0
  pub classified : (is_initial c || (is_medial c || (is_final c || is_tone c))) ≡ true

pop-use_table :
    (candi : Option (List ℕ)) (c : ℕ) (e : BopomofoPos)
    → c ≢ 0
    → e.tone ≡ 0
    → slots (pop_last_bopomofo (use_table candi (record e { tone = c }))).0 ≡ slots e
unfolding pop_last_bopomofo
pop-use_table none c e s t = ground arith
pop-use_table (some cs) c e s t = ground arith

pop-accept_tone :
    (candi : Option (List ℕ)) (c : ℕ) (e : BopomofoPos)
    → c ≢ 0
    → e.tone ≡ 0
    → (accept_tone candi (record e { tone = c })).chosen ≡ false
    → slots (pop_last_bopomofo (accept_tone candi (record e { tone = c }))).0 ≡ slots e
unfolding set_chosen_candidate
pop-accept_tone candi c e s t =
    accept_tone_cases (λ x. x.chosen ≡ false → slots (pop_last_bopomofo x).0 ≡ slots e) candi
      (record e { tone = c }) (λ literal free. cc) (λ free. pop-use_table candi c e s t)

-- Backspace undoes a symbol: an unfinished reading accepts the next symbol of the syllable, and,
-- unless the symbol turned the reading into fixed text, deleting the last symbol gives back the
-- reading as it was.
pub pop-accept :
    (engine : HanziMapEngine) (c : ℕ) (e : BopomofoPos)
    → e.compositable ≡ false
    → e.invalid ≡ false
    → IsNext c e
    → (accept engine c e).0.chosen ≡ false
    → ((accept engine c e).1 ≡ true) × (slots (pop_last_bopomofo (accept engine c e).0).0 ≡ slots e)
unfolding accept pop_last_bopomofo
pop-accept engine c e k i n free = ground (
  arith,
  pop-accept_tone (lookup_all engine (to_bopomofo_string (record e { tone = c }))) c e n.symbol
      n.untoned,
)
