-- ===== src/Buffer/Text.antt =====
-- The text of a composition buffer: what is shown, what it becomes, and the positions in the shown
-- text, in UTF-16 code units (frontend/src/core/buffer.hpp). `none` is the exception of `current`.
use ime_windows.Prelude.{
  ℕ, ◌+◌, ◌-◌, Bool, false, not, ◌&&◌, Option, none, some, List, [], ◌∷◌, ◌++◌, length, get_elem?,
  take, ltb, if◌then◌else◌,
}
use ime_windows.Bopomofo.Entry.{
  BopomofoPos, current, to_toneless_bopomofo_string, to_bopomofo_string, get_candidate_texts,
}
use ime_windows.Buffer.State.{
  CompositionBuffer, current_invalid, candidate_target_index, candidate_target,
}

-- Two results that may throw, the first before the second.
abbrev pub both {ℓ} : {A B C : Type ℓ} → (A → B → C) → Option A → Option B → Option C
both f none y = none
both f (some a) none = none
both f (some a) (some b) = some (f a b)

-- `res += text(item)` over the entries.
unfoldable pub concat : (BopomofoPos → Option (List ℕ)) → List BopomofoPos → Option (List ℕ)
concat text [] = some []
concat text (item ∷ rest) = both (λ a b. a ++ b) (text item) (concat text rest)

-- `offset += text(item).size()` over the entries.
unfoldable pub sum_sizes : (BopomofoPos → Option (List ℕ)) → List BopomofoPos → Option ℕ
sum_sizes text [] = some 0
sum_sizes text (item ∷ rest) = both (λ a b. length a + b) (text item) (sum_sizes text rest)

pub record CommitInputEntry : Type 0 where
  pub reading : List ℕ
  pub output : List ℕ
  pub manually_selected : Bool

pub record CommitSample : Type 0 where
  pub context : List ℕ
  pub answer : List ℕ
  pub input : List CommitInputEntry

module _ (append16 : ℕ → List ℕ) where
  unfoldable pub display : Bool → BopomofoPos → Option (List ℕ)
  display immediate item =
      if not immediate && (item.conversion_pending && not item.chosen)
      then some (to_toneless_bopomofo_string item)
      else current append16 item

  unfoldable pub to_string : CompositionBuffer → Option (List ℕ)
  to_string b = concat (display b.immediate_conversion_enabled) b.buffer

  unfoldable pub final_text : CompositionBuffer → Option (List ℕ)
  final_text b = concat (current append16) b.buffer

  unfoldable pub caret_offset : CompositionBuffer → Option ℕ
  caret_offset b = sum_sizes (display b.immediate_conversion_enabled) (take b.caret b.buffer)

  -- Where the entry at `index` starts, and its length.
  unfoldable pub span_at : CompositionBuffer → ℕ → Option (ℕ × ℕ)
  span_at b index = elim (get_elem? b.buffer index) [
    | none ↦ none
    | some item ↦
        both (λ start text. (start, length text))
          (sum_sizes (display b.immediate_conversion_enabled) (take index b.buffer))
          (display b.immediate_conversion_enabled item)
  ]

  -- The outer `none` is an exception, the inner one std::nullopt.
  unfoldable pub current_invalid_span : CompositionBuffer → Option (Option (ℕ × ℕ))
  current_invalid_span b =
      if current_invalid b
      then elim (span_at b (b.caret - 1)) [ none ↦ none | some span ↦ some (some span) ]
      else some none

  unfoldable pub candidate_target_span : CompositionBuffer → Option (ℕ × ℕ)
  candidate_target_span b = elim (candidate_target_index b) [
    | none ↦ none
    | some target ↦ span_at b target
  ]

  -- The exception of `get_candidate_texts` cannot occur behind `is_compositable`.
  unfoldable pub current_has_candidate_list : CompositionBuffer → Bool
  current_has_candidate_list b = elim (candidate_target b) [
    | none ↦ false
    | some item ↦
        if not b.immediate_conversion_enabled && (item.conversion_pending && not item.chosen)
        then false
        else elim (get_candidate_texts append16 item) [
          | none ↦ false
          | some texts ↦ ltb 1 (length texts)
        ]
  ]

  unfoldable pub input_entry : BopomofoPos → Option CommitInputEntry
  input_entry item = elim (current append16 item) [
    | none ↦ none
    | some output ↦ some (record {
      reading = to_bopomofo_string item;
      output = output;
      manually_selected = item.manually_selected;
    })
  ]

  unfoldable pub input_entries : List BopomofoPos → Option (List CommitInputEntry)
  input_entries [] = some []
  input_entries (item ∷ rest) = both (λ a b. a ∷ b) (input_entry item) (input_entries rest)

  unfoldable pub commit_sample : List ℕ → CompositionBuffer → Option CommitSample
  commit_sample context b =
      both (λ answer input. record { context = context; answer = answer; input = input })
        (final_text b) (input_entries b.buffer)
