-- ===== src/Pipe/Untrusted.antt =====
-- What any bytes from the pipe may do to a composition: what `predict` of
-- frontend/src/engine/impl/pipeEngine.hpp makes of an answer, and `merge_conversion` of
-- frontend/src/core/buffer.hpp of that.
use ime_windows.Prelude.{
  ℕ, ◌≡◌, inl, inr, false, Option, List, [], ◌∷◌, length, index_of?, get_elem?-index_of?,
  lt-length_of_get_elem?, All, arith, Option-cases, if-elim,
}
use ime_windows.Bopomofo.Entry.{BopomofoPos, choose_candidate, set_candidates}
use ime_windows.Bopomofo.Validity as Entry
use ime_windows.Buffer.State.{CompositionBuffer}
use ime_windows.Buffer.Merge.{merge_conversion}
use ime_windows.Buffer.Validity.{IsValid}
use ime_windows.Buffer.MergingValidity.{HasChoice, SentSettled, merge_conversion-IsValid}
use ime_windows.Pipe.Client.{answered, take_candidates, receive_prediction}
use ime_windows.Pipe.Answers.{receive_prediction-All}

IsValid-HasChoice : (e : BopomofoPos) → Entry.IsValid e → HasChoice e
IsValid-HasChoice e v chosen = v.index_in_range (v.chosen_is_compositable chosen)

choose_candidate-HasChoice : (c : ℕ) (e : BopomofoPos) → HasChoice (choose_candidate c e)
unfolding choose_candidate
choose_candidate-HasChoice c e chosen = elim (Option-cases (index_of? e.candidates c)) [
  | inl absent ↦ rw (absent, choose_candidate) (omega arith)
  | inr (i, hit) ↦
      rw (hit, choose_candidate)
        (lt-length_of_get_elem? e.candidates i (get_elem?-index_of? e.candidates c i hit))
]

take_candidates-HasChoice :
    (cs : List ℕ) (e : BopomofoPos) → e.chosen ≡ false → HasChoice (take_candidates cs e)
unfolding take_candidates set_candidates
take_candidates-HasChoice [] e h chosen = cc
take_candidates-HasChoice (c ∷ []) e h chosen = choose_candidate-HasChoice c e chosen
take_candidates-HasChoice (c ∷ d ∷ cs) e h chosen = cc

answered-HasChoice : (cs : List ℕ) (e : BopomofoPos) → Entry.IsValid e → HasChoice (answered cs e)
unfolding answered
answered-HasChoice cs e v =
    if-elim HasChoice e.chosen (λ _. IsValid-HasChoice e v) (take_candidates-HasChoice cs e)

-- Whatever bytes the backend sends, each entry that the engine hands back as fixed names one of its candidates.
pub receive_prediction-HasChoice :
    (padding : List BopomofoPos) (bytes : List ℕ)
    → All Entry.IsValid padding
    → All HasChoice (receive_prediction padding bytes).0
      × (length (receive_prediction padding bytes).0 ≡ length padding)
receive_prediction-HasChoice =
    receive_prediction-All Entry.IsValid HasChoice IsValid-HasChoice answered-HasChoice

-- Whatever bytes the backend sends in answer to a prediction of well-formed entries, merging what the
-- engine makes of them keeps the invariant of the buffer, if every entry of the buffer that still has
-- the id and the version of an entry sent is settled.
pub merge_received-IsValid :
    (sequence : ℕ) (locked_id : Option ℕ) (requested : List BopomofoPos) (bytes : List ℕ)
    (b : CompositionBuffer)
    → All Entry.IsValid requested
    → IsValid b
    → All (SentSettled requested (receive_prediction requested bytes).0) b.buffer
    → IsValid
        (merge_conversion sequence requested (receive_prediction requested bytes).0 locked_id b).0
merge_received-IsValid sequence locked_id requested bytes b sent v settled =
    merge_conversion-IsValid sequence locked_id requested (receive_prediction requested bytes).0 b v
      (receive_prediction-HasChoice requested bytes sent).0 settled
