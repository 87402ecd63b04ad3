-- ===== src/Bopomofo/Validity.antt =====
-- What holds of every entry, and that every operation on an entry keeps it
-- (struct BopomofoPos, frontend/src/core/bopomofo.hpp).
use ime_windows.Prelude.{
  ℕ, ◌<◌, ◌≡◌, refl, ◌⊎◌, inl, inr, Bool, true, false, Option, none, some, List, length, get_elem?,
  arith, Bool-cases, Option-cases, index_of?, get_elem?-index_of?, lt-length_of_get_elem?,
  get_elem?-some,
}
use ime_windows.Bopomofo.Layout.{is_initial, is_medial, is_final, is_tone}
use ime_windows.Bopomofo.Hanzi.{HanziMapEngine, lookup_all}
use ime_windows.Bopomofo.Entry.{
  BopomofoPos, fresh, accept, use_table, only_literal, accept_tone, single_reading_literal,
  set_chosen_candidate, set_choose_index, fix_selected, choose_candidate, pop_last_bopomofo,
  current, displayed, to_bopomofo_string,
}

-- The table has no empty row, which `lookup_first` reports as "table error".
abbrev pub HasNoEmptyRow : HanziMapEngine → Type 0
HasNoEmptyRow engine = (key cs : List ℕ) → lookup_all engine key ≡ some cs → 0 < length cs

-- A slot of the reading is empty or holds a symbol of its class.
abbrev pub Slot : (ℕ → Bool) → ℕ → Type 0
Slot is_class c = (c ≡ 0) ⊎ (is_class c ≡ true)

pub record IsValid (e : BopomofoPos) : Type 0 where
  pub initial_class : Slot is_initial e.initial
  pub medial_class : Slot is_medial e.medial
  pub final_class : Slot is_final e.final
  pub tone_class : Slot is_tone e.tone
  pub index_in_range : e.compositable ≡ true → e.choose_index < length e.candidates
  pub toned_is_settled : e.compositable ≡ false → e.invalid ≡ false → e.tone ≡ 0
  pub chosen_is_compositable : e.chosen ≡ true → e.compositable ≡ true
  pub pending_is_compositable : e.conversion_pending ≡ true → e.compositable ≡ true
  pub unset_index : e.compositable ≡ false → e.choose_index ≡ 0
  pub chosen_is_settled : e.chosen ≡ true → e.conversion_pending ≡ false
  pub invalid_is_reading : e.invalid ≡ true → e.compositable ≡ false

pub fresh-IsValid : IsValid fresh
unfolding fresh
fresh-IsValid = ground arith

pub set_chosen_candidate-IsValid : (ch : ℕ) (e : BopomofoPos) → IsValid (set_chosen_candidate ch e)
unfolding set_chosen_candidate
set_chosen_candidate-IsValid ch e = ground arith

-- A tone fixes the reading as a literal, or takes what the table says.
pub accept_tone_cases {ℓ} :
    (P : BopomofoPos → Type ℓ) (candi : Option (List ℕ)) (e : BopomofoPos)
    → ((literal : ℕ) → P (set_chosen_candidate literal e))
    → P (use_table candi e)
    → P (accept_tone candi e)
unfolding accept_tone
accept_tone_cases P candi e fixed settled = elim (Option-cases (single_reading_literal e)) [
  | inl miss ↦ rw (miss, accept_tone) settled
  | inr (literal, hit) ↦ elim (Bool-cases (only_literal literal candi)) [
    | inl lone ↦ rw (hit, accept_tone, lone) (fixed literal)
    | inr more ↦ rw (hit, accept_tone, more) settled
  ]
]

use_table-IsValid :
    (candi : Option (List ℕ)) (e : BopomofoPos) (c : ℕ)
    → IsValid e
    → e.compositable ≡ false
    → e.invalid ≡ false
    → is_tone c ≡ true
    → ((cs : List ℕ) → candi ≡ some cs → 0 < length cs)
    → IsValid (use_table candi (record e { tone = c }))
use_table-IsValid none e c v k i t rows = ground arith
use_table-IsValid (some cs) e c v k i t rows = ground (arith, rows cs refl)

accept_tone-IsValid :
    (candi : Option (List ℕ)) (e : BopomofoPos) (c : ℕ)
    → IsValid e
    → e.compositable ≡ false
    → e.invalid ≡ false
    → is_tone c ≡ true
    → ((cs : List ℕ) → candi ≡ some cs → 0 < length cs)
    → IsValid (accept_tone candi (record e { tone = c }))
accept_tone-IsValid candi e c v k i t rows =
    accept_tone_cases IsValid candi (record e { tone = c })
      (λ literal. set_chosen_candidate-IsValid literal (record e { tone = c }))
      (use_table-IsValid candi e c v k i t rows)

-- Typing a symbol keeps an entry well-formed, given a table without empty rows.
pub accept-IsValid :
    (engine : HanziMapEngine) (c : ℕ) (e : BopomofoPos)
    → HasNoEmptyRow engine
    → IsValid e
    → IsValid (accept engine c e).0
unfolding accept
accept-IsValid engine c e rows v = ground (
  arith,
  λ (k : e.compositable ≡ false) (i : e.invalid ≡ false) (t : is_tone c ≡ true).
      accept_tone-IsValid (lookup_all engine (to_bopomofo_string (record e { tone = c }))) e c v k i
        t (rows (to_bopomofo_string (record e { tone = c }))),
)

choose_candidate-IsValid :
    (ch : ℕ) (e : BopomofoPos) → IsValid e → e.compositable ≡ true → IsValid (choose_candidate ch e)
unfolding choose_candidate
choose_candidate-IsValid ch e v k = elim (Option-cases (index_of? e.candidates ch)) [
  | inl absent ↦ rw (absent, choose_candidate) (ground arith)
  | inr (i, hit) ↦
      let fits =
        lt-length_of_get_elem? e.candidates i (get_elem?-index_of? e.candidates ch i hit) in
      rw (hit, choose_candidate) (ground (arith, fits))
]

fix_selected-IsValid :
    (ch : ℕ) (e : BopomofoPos) → IsValid e → e.compositable ≡ true → IsValid (fix_selected ch e)
unfolding fix_selected
fix_selected-IsValid ch e v k =
    ground (arith, set_chosen_candidate-IsValid ch e, choose_candidate-IsValid ch e v k)

-- A choice that does not throw is one of the displayed characters of a settled entry.
pub set_choose_index_inv :
    (idx : ℕ) (e : BopomofoPos) {e' : BopomofoPos}
    → set_choose_index idx e ≡ some e'
    → (selected : ℕ) × (e.compositable ≡ true)
      × (get_elem? (displayed e) idx ≡ some selected)
      × (e' ≡ fix_selected selected e)
unfolding set_choose_index
set_choose_index_inv idx e h = elim (Option-cases (get_elem? (displayed e) idx)) [
  | inl past ↦ absurd (ground (arith, past))
  | inr (selected, hit) ↦ (selected, ground (arith, hit), hit, ground (arith, hit))
]

pub set_choose_index-IsValid :
    (idx : ℕ) (e : BopomofoPos) {e' : BopomofoPos}
    → IsValid e
    → set_choose_index idx e ≡ some e'
    → IsValid e'
set_choose_index-IsValid idx e v h =
    let (selected, k, _, eq) = set_choose_index_inv idx e h in
    rw eq (fix_selected-IsValid selected e v k)

pub pop_last_bopomofo-IsValid :
    (e : BopomofoPos) → IsValid e → e.compositable ≡ false → IsValid (pop_last_bopomofo e).0
unfolding pop_last_bopomofo
pop_last_bopomofo-IsValid e v k = ground arith

pub current-converted :
    (append16 : ℕ → List ℕ) (e : BopomofoPos) (c : ℕ)
    → e.compositable ≡ true
    → get_elem? e.candidates e.choose_index ≡ some c
    → current append16 e ≡ some (append16 c)
unfolding current
current-converted append16 e c k hit = rw (k, current, hit)

pub current-reading :
    (append16 : ℕ → List ℕ) (e : BopomofoPos)
    → e.compositable ≡ false
    → current append16 e ≡ some (to_bopomofo_string e)
unfolding current
current-reading append16 e k = rw (k, current)

-- The text of a well-formed entry never throws.
pub current-total :
    (append16 : ℕ → List ℕ) (e : BopomofoPos)
    → IsValid e
    → (text : List ℕ) × (current append16 e ≡ some text)
current-total append16 e v = elim (Bool-cases e.compositable) [
  | inl k ↦
      let (c, hit) = get_elem?-some e.candidates e.choose_index (v.index_in_range k) in
      (append16 c, current-converted append16 e c k hit)
  | inr k ↦ (to_bopomofo_string e, current-reading append16 e k)
]
