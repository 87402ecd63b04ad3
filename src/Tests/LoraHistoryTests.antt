-- ===== src/Tests/LoraHistoryTests.antt =====
-- The theorem on the base models at a concrete input.
use ime_windows.Prelude.{◌≡◌, refl, true, false, some, List, [], ◌∷◌, All}
use ime_windows.LoraHistory.Bases.{
  pos, negsuc, LoraHistoryRunView, LoraHistoryBaseView, is_listed, lora_history_bases, first_bases,
  is_current, add_catalog, add_run, add_runs, find_lora_base_selection,
}
use ime_windows.LoraHistory.Listing.{IsListing, lora_history_bases-IsListing}

abbrev known : LoraHistoryBaseView
known = record {
  id = negsuc 0;
  fingerprint = 97 ∷ [];
  revision = 49 ∷ [];
  output_model_path = [];
  current = false;
}

-- Two runs of a model that is not listed, and one of a model that is.
abbrev runs : List LoraHistoryRunView
runs =
    record { base_model_fingerprint = 98 ∷ []; base_model_revision = 50 ∷ [] }
    ∷ record { base_model_fingerprint = 97 ∷ []; base_model_revision = 49 ∷ [] }
    ∷ record { base_model_fingerprint = 98 ∷ []; base_model_revision = 51 ∷ [] }
    ∷ []

-- The model in use is also in the catalog, and is listed once.
lora_history_bases_listed :
    lora_history_bases runs (some known) (known ∷ [])
    ≡ record known { id = negsuc 1; current = true }
      ∷ record {
        id = negsuc 2;
        fingerprint = 98 ∷ [];
        revision = 50 ∷ [];
        output_model_path = [];
        current = false;
      }
      ∷ []
unfolding lora_history_bases first_bases is_current add_catalog add_run add_runs is_listed
lora_history_bases_listed = refl

-- A run is selected by its id, a base by its fingerprint, and the first row where neither is there.
find_lora_base_selection_run :
    find_lora_base_selection (pos 4 ∷ pos 7 ∷ []) ([] ∷ (97 ∷ []) ∷ []) (pos 7) [] ≡ 1
unfolding find_lora_base_selection
find_lora_base_selection_run = refl

find_lora_base_selection_base :
    find_lora_base_selection (pos 4 ∷ pos 7 ∷ []) ([] ∷ (97 ∷ []) ∷ []) (negsuc 0) (97 ∷ []) ≡ 1
unfolding find_lora_base_selection
find_lora_base_selection_base = refl

find_lora_base_selection_missing : find_lora_base_selection (pos 4 ∷ pos 7 ∷ []) [] (pos 9) [] ≡ 0
unfolding find_lora_base_selection
find_lora_base_selection_missing = refl

lora_history_bases-IsListing_example :
    IsListing (lora_history_bases runs (some known) (known ∷ []))
    × All
        (λ run.
          is_listed run.base_model_fingerprint (lora_history_bases runs (some known) (known ∷ []))
          ≡ true)
        runs
lora_history_bases-IsListing_example = lora_history_bases-IsListing runs (some known) (known ∷ [])
