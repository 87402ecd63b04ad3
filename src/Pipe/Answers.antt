-- ===== src/Pipe/Answers.antt =====
-- What the service of service/src/service/prediction_pipe_server.hpp answers to a prediction, as the
-- engine of frontend/src/engine/impl/pipeEngine.hpp takes it, and what any bytes at all do to the entries.
use ime_windows.Prelude.{
  ℕ, zero, suc, ◌≤◌, ◌<◌, ◌≡◌, refl, ap, inl, inr, true, some, List, [], ◌∷◌, ◌++◌, length, leb,
  All, arith, append_assoc, Bool-cases, Option-cases,
}
use ime_windows.Bopomofo.Entry.{BopomofoPos}
use ime_windows.Pipe.Bytes.{
  value, values, read_val, all_values, read_val-value, read_values-all_values,
}
use ime_windows.Pipe.Client.{read_candidates, answered, take_answers, receive_prediction}
use ime_windows.Pipe.Server.{write_candidates, write_predictions, write_response}

-- The candidates of one result that the engine takes.
abbrev pub IsResult : List ℕ → Type 0
IsResult candidates = (length candidates ≤ 4096) × All (λ c. c < values 4) candidates

-- Each result answers the entry at its place; the entries after the last result stay as they were.
unfoldable pub all_answered : List BopomofoPos → List (List ℕ) → List BopomofoPos
all_answered [] results = []
all_answered (e ∷ es) [] = e ∷ es
all_answered (e ∷ es) (candidates ∷ results) = answered candidates e ∷ all_answered es results

write_candidates-all_values : (cs : List ℕ) → write_candidates cs ≡ all_values 4 cs
unfolding write_candidates all_values
write_candidates-all_values [] = refl
write_candidates-all_values (c ∷ cs) = rw (write_candidates-all_values cs)

candidates-read :
    (cs rest : List ℕ)
    → IsResult cs
    → read_candidates ((value 4 (length cs) ++ write_candidates cs) ++ rest) ≡ some (cs, rest)
unfolding read_candidates
candidates-read cs rest (few, small) =
    let fits : leb (length cs) 4096 ≡ true = ground arith in
    rw
      (
        append_assoc (value 4 (length cs)) (write_candidates cs) rest,
        read_val-value 4 (length cs) (write_candidates cs ++ rest) (omega arith),
        fits,
        write_candidates-all_values cs,
      )
      (read_values-all_values 4 cs rest small)

take_answers-read :
    (n : ℕ) (e : BopomofoPos) (es : List BopomofoPos) (bytes cs rest : List ℕ)
    → read_candidates bytes ≡ some (cs, rest)
    → take_answers (suc n) (e ∷ es) bytes
      ≡ (answered cs e ∷ (take_answers n es rest).0, (take_answers n es rest).1)
unfolding take_answers
take_answers-read n e es bytes cs rest h = rw (h, take_answers)

take_answers-write_predictions :
    (padding : List BopomofoPos) (results : List (List ℕ)) (rest : List ℕ)
    → length results ≤ length padding
    → All IsResult results
    → take_answers (length results) padding (write_predictions results ++ rest)
      ≡ (all_answered padding results, some rest)
unfolding take_answers write_predictions all_answered
take_answers-write_predictions [] [] rest le h = refl
take_answers-write_predictions (e ∷ es) [] rest le h = refl
take_answers-write_predictions [] (cs ∷ results) rest le h = absurd (omega arith)
take_answers-write_predictions (e ∷ es) (cs ∷ results) rest le h = rw (
  append_assoc (value 4 (length cs) ++ write_candidates cs) (write_predictions results) rest,
  take_answers-read (length results) e es
      ((value 4 (length cs) ++ write_candidates cs) ++ (write_predictions results ++ rest)) cs
      (write_predictions results ++ rest)
      (candidates-read cs (write_predictions results ++ rest) h.0),
  take_answers-write_predictions es results rest (omega arith) h.1,
)

-- From an answer with no more results than there are entries, each with at most 4096 candidates,
-- the engine reads exactly the results: the candidates of each go to the entry at the same place,
-- and what the service writes next is left.
pub receive_prediction-write_response :
    (padding : List BopomofoPos) (results : List (List ℕ)) (rest : List ℕ)
    → length results ≤ length padding
    → length padding < values 4
    → All IsResult results
    → receive_prediction padding (write_response results ++ rest)
      ≡ (all_answered padding results, some rest)
unfolding receive_prediction write_response
receive_prediction-write_response padding results rest le few h =
    let fits : leb (length results) (length padding) ≡ true = ground arith in
    rw
      (
        append_assoc (value 4 (length results)) (write_predictions results) rest,
        read_val-value 4 (length results) (write_predictions results ++ rest) (omega arith),
        receive_prediction,
        fits,
      )
      (take_answers-write_predictions padding results rest le h)

module _ (P Q : BopomofoPos → Type 0) (untouched : (e : BopomofoPos) → P e → Q e)
    (takes : (cs : List ℕ) (e : BopomofoPos) → P e → Q (answered cs e)) where
  All-map : (padding : List BopomofoPos) → All P padding → All Q padding
  All-map [] h = tt
  All-map (e ∷ es) h = (untouched e h.0, All-map es h.1)

  take_answers-All :
      (n : ℕ) (padding : List BopomofoPos) (bytes : List ℕ)
      → All P padding
      → All Q (take_answers n padding bytes).0
        × (length (take_answers n padding bytes).0 ≡ length padding)
  unfolding take_answers
  take_answers-All zero padding bytes h = (All-map padding h, refl)
  take_answers-All (suc n) [] bytes h = (tt, refl)
  take_answers-All (suc n) (e ∷ es) bytes h = elim (Option-cases (read_candidates bytes)) [
    | inl miss ↦ rw (miss, take_answers) ((untouched e h.0, All-map es h.1), refl)
    | inr ((cs, rest), hit) ↦
        let (all_q, same) = take_answers-All n es rest h.1 in
        rw (take_answers-read n e es bytes cs rest hit) ((takes cs e h.0, all_q), ap suc same)
  ]

  pub receive_prediction-All :
      (padding : List BopomofoPos) (bytes : List ℕ)
      → All P padding
      → All Q (receive_prediction padding bytes).0
        × (length (receive_prediction padding bytes).0 ≡ length padding)
  unfolding receive_prediction
  receive_prediction-All padding bytes h = elim (Option-cases (read_val 4 bytes)) [
    | inl miss ↦ rw (miss, receive_prediction) (All-map padding h, refl)
    | inr ((count, rest), hit) ↦ elim (Bool-cases (leb count (length padding))) [
      | inl fits ↦ rw (hit, receive_prediction, fits) (take_answers-All count padding rest h)
      | inr more ↦ rw (hit, receive_prediction, more) (All-map padding h, refl)
    ]
  ]
