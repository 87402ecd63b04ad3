-- ===== src/Bopomofo/Entry.antt =====
-- struct BopomofoPos (frontend/src/core/bopomofo.hpp): one entry of a composition, a syllable being
-- typed or a fixed character. `none` as a result is the exception that the source throws. The
-- encoder utf8::append16 is a parameter, `append16`, the code units that it appends.
use ime_windows.Prelude.{
  ℕ, min, Bool, true, false, not, ◌&&◌, ◌||◌, Option, none, some, List, [], ◌∷◌, ◌++◌, map, length,
  is_empty, all, get_elem?, insert_at, erase_all, index_of?, holds_nat, ◌==◌, if◌then◌else◌,
}
use ime_windows.Bopomofo.Layout.{is_initial, is_medial, is_final, is_tone, space}
use ime_windows.Bopomofo.Hanzi.{HanziMapEngine, lookup_all}

-- `choose_index` is an int that is only ever set to an index of a vector.
pub record BopomofoPos : Type 0 where
  pub initial : ℕ
  pub medial : ℕ
  pub final : ℕ
  pub tone : ℕ
  pub choose_index : ℕ
  pub chosen : Bool
  pub predicted : Bool
  pub conversion_pending : Bool
  pub manually_selected : Bool
  pub compositable : Bool
  pub invalid : Bool
  pub model_converted : Bool
  pub id : ℕ
  pub version : ℕ
  pub converted_by : ℕ
  pub candidates : List ℕ
  pub predicted_candidate : Option (List ℕ)

-- `BopomofoPos{}`.
unfoldable pub fresh : BopomofoPos
fresh = record {
  initial = 0;
  medial = 0;
  final = 0;
  tone = 0;
  choose_index = 0;
  chosen = false;
  predicted = false;
  conversion_pending = false;
  manually_selected = false;
  compositable = false;
  invalid = false;
  model_converted = false;
  id = 0;
  version = 0;
  converted_by = 0;
  candidates = [];
  predicted_candidate = none;
}

-- `if (c) res.push_back(c)`.
abbrev pub typed : ℕ → List ℕ
typed c = if c == 0 then [] else c ∷ []

unfoldable pub to_toneless_bopomofo_string : BopomofoPos → List ℕ
to_toneless_bopomofo_string e = typed e.initial ++ (typed e.medial ++ typed e.final)

unfoldable pub to_bopomofo_string : BopomofoPos → List ℕ
to_bopomofo_string e = to_toneless_bopomofo_string e ++ typed e.tone

unfoldable pub is_null : BopomofoPos → Bool
is_null e = (e.initial == 0) && ((e.medial == 0) && ((e.final == 0) && (e.tone == 0)))

abbrev pub is_compositable : BopomofoPos → Bool
is_compositable e = e.compositable

abbrev pub is_predictable_by_engine : BopomofoPos → Bool
is_predictable_by_engine e = e.chosen || e.compositable

abbrev pub is_invalid : BopomofoPos → Bool
is_invalid e = e.invalid

abbrev pub was_manually_selected : BopomofoPos → Bool
was_manually_selected e = e.manually_selected

-- `reading.size() == 1`, and then `reading.front()`.
abbrev pub sole : List ℕ → Option ℕ
sole (c ∷ []) = some c
sole cs = none

unfoldable pub single_reading_literal : BopomofoPos → Option ℕ
single_reading_literal e =
    let reading = to_toneless_bopomofo_string e in
    if is_empty reading && (not (e.tone == 0) && not (e.tone == space))
    then some e.tone
    else if not (e.tone == space)
    then none
    else sole reading

-- `reading.size() < 2`.
abbrev pub shorter_than_two : List ℕ → Bool
shorter_than_two (a ∷ b ∷ rest) = false
shorter_than_two cs = true

unfoldable pub multi_reading_literal : BopomofoPos → Option (List ℕ)
multi_reading_literal e =
    let reading = to_toneless_bopomofo_string e in
    if (e.tone == 0) || shorter_than_two reading
    then none
    else if not (e.tone == space)
    then some (reading ++ e.tone ∷ [])
    else some reading

unfoldable pub set_chosen_candidate : ℕ → BopomofoPos → BopomofoPos
set_chosen_candidate ch e = record e {
  initial = 0;
  medial = 0;
  final = 0;
  tone = 0;
  choose_index = 0;
  chosen = true;
  predicted = true;
  conversion_pending = false;
  manually_selected = false;
  compositable = true;
  invalid = false;
  model_converted = false;
  predicted_candidate = none;
  candidates = ch ∷ [];
}

-- `candi == nullptr` or no candidate other than the literal.
abbrev pub only_literal : ℕ → Option (List ℕ) → Bool
only_literal literal none = true
only_literal literal (some candi) = all (λ candidate. candidate == literal) candi

abbrev pub use_table : Option (List ℕ) → BopomofoPos → BopomofoPos
use_table none e = record e { invalid = true }
use_table (some candi) e = record e {
  compositable = true;
  candidates = candi;
  conversion_pending = true;
}

-- The tone branch of `accept`, after `tone = c`.
unfoldable pub accept_tone : Option (List ℕ) → BopomofoPos → BopomofoPos
accept_tone candi e = elim (single_reading_literal e) [
  | none ↦ use_table candi e
  | some literal ↦
      if only_literal literal candi then set_chosen_candidate literal e else use_table candi e
]

unfoldable pub accept : HanziMapEngine → ℕ → BopomofoPos → BopomofoPos × Bool
accept engine c e =
    if e.compositable || e.invalid
    then (e, false)
    else if is_initial c
    then (record e { initial = c }, true)
    else if is_medial c
    then (record e { medial = c }, true)
    else if is_final c
    then (record e { final = c }, true)
    else if is_tone c
    then (let toned = record e { tone = c } in
        (accept_tone (lookup_all engine (to_bopomofo_string toned)) toned, true))
    else (e, true)

-- `current32`: both the logic_error and the range error of `at` are `none`.
unfoldable pub current32 : BopomofoPos → Option ℕ
current32 e = if e.compositable then get_elem? e.candidates e.choose_index else none

-- The candidates as the list shows them, without the test of `get_candidates`.
unfoldable pub displayed : BopomofoPos → List ℕ
displayed e = elim (single_reading_literal e) [
  | none ↦ e.candidates
  | some literal ↦
      let rest = erase_all literal e.candidates in insert_at rest (min 8 (length rest)) literal
]

unfoldable pub get_candidates : BopomofoPos → Option (List ℕ)
get_candidates e = if e.compositable then some (displayed e) else none

unfoldable pub choose_candidate : ℕ → BopomofoPos → BopomofoPos
choose_candidate ch e =
    let at_front : BopomofoPos = record e { candidates = ch ∷ e.candidates; choose_index = 0 } in
    let picked : BopomofoPos = elim (index_of? e.candidates ch) [
      | none ↦ at_front
      | some i ↦ record e { choose_index = i }
    ] in
    record picked { chosen = true; predicted = true; conversion_pending = false }

-- The choice of one displayed character, after `get_candidates().at(idx)`.
unfoldable pub fix_selected : ℕ → BopomofoPos → BopomofoPos
fix_selected selected e =
    let fixed =
      (if holds_nat (single_reading_literal e) selected
        then set_chosen_candidate selected e
        else choose_candidate selected e) in
    record fixed { manually_selected = true }

unfoldable pub set_choose_index : ℕ → BopomofoPos → Option BopomofoPos
set_choose_index idx e =
    if e.compositable
    then elim (get_elem? (displayed e) idx) [
      | none ↦ none
      | some selected ↦ some (fix_selected selected e)
    ]
    else none

unfoldable pub set_candidates : List ℕ → BopomofoPos → BopomofoPos
set_candidates nc e = record e { candidates = nc }

-- The reset that `pop_last_bopomofo` begins with.
unfoldable pub unsettle : BopomofoPos → BopomofoPos
unsettle e = record e {
  compositable = false;
  invalid = false;
  chosen = false;
  predicted = false;
  conversion_pending = false;
  manually_selected = false;
  model_converted = false;
  converted_by = 0;
  predicted_candidate = none;
  candidates = [];
}

unfoldable pub pop_last_bopomofo : BopomofoPos → BopomofoPos × Bool
unfolding unsettle
pop_last_bopomofo e =
    let r = unsettle e in
    if not (r.tone == 0)
    then (record r { tone = 0 }, true)
    else if not (r.final == 0)
    then (record r { final = 0 }, true)
    else if not (r.medial == 0)
    then (record r { medial = 0 }, true)
    else if not (r.initial == 0)
    then (record r { initial = 0 }, true)
    else (r, false)

module _ (append16 : ℕ → List ℕ) where
  -- `candidates.at(choose_index)` throws out of range.
  unfoldable pub current : BopomofoPos → Option (List ℕ)
  current e =
      if e.compositable
      then elim (get_elem? e.candidates e.choose_index) [ none ↦ none | some c ↦ some (append16 c) ]
      else some (to_bopomofo_string e)

  -- `if (auto reading = multi_reading_literal()) displayed.push_back(reading)`.
  unfoldable pub reading_text : BopomofoPos → List (List ℕ)
  reading_text e = elim (multi_reading_literal e) [ none ↦ [] | some reading ↦ reading ∷ [] ]

  unfoldable pub get_candidate_texts : BopomofoPos → Option (List (List ℕ))
  get_candidate_texts e =
      if e.compositable then some (map append16 (displayed e) ++ reading_text e) else none
