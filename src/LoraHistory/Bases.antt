-- ===== src/LoraHistory/Bases.antt =====
-- service/src/settings/lora_history_base.hpp: the base models that the history window lists, and the one
-- that it selects. Of a run only the two fields that are read are kept.
use ime_windows.Prelude.{
  ℕ, zero, suc, Bool, true, false, ◌||◌, Option, none, some, List, [], ◌∷◌, ◌++◌, length, any,
  is_empty, list_eq, ◌==◌, if◌then◌else◌,
}

-- std::int64_t: `negsuc n` is -(n + 1).
pub data ℤ : Type 0 where
  pos : ℕ → ℤ
  negsuc : ℕ → ℤ

pub record LoraHistoryRunView : Type 0 where
  pub base_model_fingerprint : List ℕ
  pub base_model_revision : List ℕ

pub record LoraHistoryBaseView : Type 0 where
  pub id : ℤ
  pub fingerprint : List ℕ
  pub revision : List ℕ
  pub output_model_path : List ℕ
  pub current : Bool

abbrev pub same_id : ℤ → ℤ → Bool
same_id (pos m) (pos n) = m == n
same_id (negsuc m) (negsuc n) = m == n
same_id _ _ = false

-- The index of the first element that passes, as `std::ranges::find` finds it.
abbrev pub find_index {ℓ} : {A : Type ℓ} → (A → Bool) → List A → Option ℕ
find_index p [] = none
find_index p (x ∷ xs) =
    let later = find_index p xs in
    if p x then some 0 else elim later [ none ↦ none | some i ↦ some (suc i) ]

abbrev pub or_first : Option ℕ → ℕ
or_first none = 0
or_first (some i) = i

-- `run_id > 0`.
abbrev pub is_run : ℤ → Bool
is_run (pos zero) = false
is_run (pos (suc n)) = true
is_run (negsuc n) = false

unfoldable pub find_lora_base_selection : List ℤ → List (List ℕ) → ℤ → List ℕ → ℕ
find_lora_base_selection ids fingerprints run_id root_fingerprint =
    if is_run run_id
    then or_first (find_index (λ id. same_id id run_id) ids)
    else if is_empty root_fingerprint
    then 0
    else or_first (find_index (λ f. list_eq f root_fingerprint) fingerprints)

-- Whether one of the bases has the fingerprint.
unfoldable pub is_listed : List ℕ → List LoraHistoryBaseView → Bool
is_listed fingerprint bases = any (λ base. list_eq base.fingerprint fingerprint) bases

-- `-2 - size`.
abbrev pub base_id : ℕ → ℤ
base_id size = negsuc (suc size)

unfoldable pub first_bases : Option LoraHistoryBaseView → List LoraHistoryBaseView
first_bases none = []
first_bases (some base) =
    if is_empty base.fingerprint then [] else record base { id = base_id 0; current = true } ∷ []

unfoldable pub is_current : Option LoraHistoryBaseView → List ℕ → Bool
is_current none fingerprint = false
is_current (some base) fingerprint = list_eq fingerprint base.fingerprint

unfoldable pub add_catalog :
    Option LoraHistoryBaseView
    → List LoraHistoryBaseView
    → List LoraHistoryBaseView
    → List LoraHistoryBaseView
add_catalog current_base [] bases = bases
add_catalog current_base (known ∷ catalog) bases =
    let base : LoraHistoryBaseView = record known {
      id = base_id (length bases);
      current = is_current current_base known.fingerprint;
    } in
    add_catalog current_base catalog (
      if is_empty known.fingerprint || is_listed known.fingerprint bases
      then bases
      else bases ++ (base ∷ []))

unfoldable pub add_run : LoraHistoryRunView → List LoraHistoryBaseView → List LoraHistoryBaseView
add_run run bases =
    let base : LoraHistoryBaseView = record {
      id = base_id (length bases);
      fingerprint = run.base_model_fingerprint;
      revision = run.base_model_revision;
      output_model_path = [];
      current = false;
    } in
    if is_listed run.base_model_fingerprint bases then bases else bases ++ (base ∷ [])

unfoldable pub add_runs :
    List LoraHistoryRunView → List LoraHistoryBaseView → List LoraHistoryBaseView
add_runs [] bases = bases
add_runs (run ∷ runs) bases = add_runs runs (add_run run bases)

unfoldable pub lora_history_bases :
    List LoraHistoryRunView
    → Option LoraHistoryBaseView
    → List LoraHistoryBaseView
    → List LoraHistoryBaseView
lora_history_bases runs current_base catalog =
    add_runs runs (add_catalog current_base catalog (first_bases current_base))
