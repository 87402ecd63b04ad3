-- ===== src/LoraHistory/Listing.antt =====
-- What the list of base models holds (service/src/settings/lora_history_base.hpp).
use ime_windows.Prelude.{
  ℕ, ◌+◌, ◌≡◌, ◌∙◌, refl, true, false, ◌||◌, Option, none, some, List, [], ◌∷◌, ◌++◌, length,
  is_empty, list_eq, list_eq_refl, if-elim, All, arith,
}
use ime_windows.LoraHistory.Bases.{
  LoraHistoryRunView, LoraHistoryBaseView, is_listed, base_id, first_bases, is_current, add_catalog,
  add_run, add_runs, lora_history_bases,
}

-- The ids count down from the place `n`.
unfoldable pub Numbered : ℕ → List LoraHistoryBaseView → Type 0
Numbered n [] = Unit
Numbered n (base ∷ bases) = (base.id ≡ base_id n) × Numbered (n + 1) bases

-- No fingerprint is listed twice.
unfoldable pub Once : List LoraHistoryBaseView → Type 0
Once [] = Unit
Once (base ∷ bases) = (is_listed base.fingerprint bases ≡ false) × Once bases

list_eq_comm : (xs ys : List ℕ) → list_eq xs ys ≡ list_eq ys xs
list_eq_comm [] [] = refl
list_eq_comm [] (y ∷ ys) = refl
list_eq_comm (x ∷ xs) [] = refl
list_eq_comm (x ∷ xs) (y ∷ ys) = ground (arith, list_eq_comm xs ys)

is_listed-append :
    (f : List ℕ) (bases : List LoraHistoryBaseView) (base : LoraHistoryBaseView)
    → is_listed f (bases ++ base ∷ []) ≡ (is_listed f bases || list_eq base.fingerprint f)
unfolding is_listed
is_listed-append f [] base = ground arith
is_listed-append f (b ∷ bases) base = ground (arith, is_listed-append f bases base)

Numbered-append :
    (n : ℕ) (bases : List LoraHistoryBaseView) (base : LoraHistoryBaseView)
    → Numbered n bases
    → base.id ≡ base_id (n + length bases)
    → Numbered n (bases ++ base ∷ [])
unfolding Numbered
Numbered-append n [] base h i = ground (arith, i)
Numbered-append n (b ∷ bases) base h i =
    (h.0, Numbered-append (n + 1) bases base h.1 (ground (arith, i)))

Once-append :
    (bases : List LoraHistoryBaseView) (base : LoraHistoryBaseView)
    → Once bases
    → is_listed base.fingerprint bases ≡ false
    → Once (bases ++ base ∷ [])
unfolding Once is_listed
Once-append [] base h new = (refl, tt)
Once-append (b ∷ bases) base h new = (
  is_listed-append b.fingerprint bases base
      ∙ ground (arith, h.0, list_eq_comm b.fingerprint base.fingerprint),
  Once-append bases base h.1 (ground (arith, new)),
)

pub record IsListing (bases : List LoraHistoryBaseView) : Type 0 where
  pub numbered : Numbered 0 bases
  pub once : Once bases

add-IsListing :
    (bases : List LoraHistoryBaseView) (base : LoraHistoryBaseView)
    → IsListing bases
    → base.id ≡ base_id (length bases)
    → is_listed base.fingerprint bases ≡ false
    → IsListing (bases ++ base ∷ [])
add-IsListing bases base v i new = record {
  numbered = Numbered-append 0 bases base v.numbered (ground (arith, i));
  once = Once-append bases base v.once new;
}

first_bases-IsListing :
    (current_base : Option LoraHistoryBaseView) → IsListing (first_bases current_base)
unfolding first_bases Numbered Once is_listed
first_bases-IsListing none = record { numbered = tt; once = tt }
first_bases-IsListing (some base) =
    if-elim IsListing (is_empty base.fingerprint) (λ _. record { numbered = tt; once = tt })
      (λ _. record { numbered = (refl, tt); once = (refl, tt) })

add_catalog-IsListing :
    (current_base : Option LoraHistoryBaseView) (catalog bases : List LoraHistoryBaseView)
    → IsListing bases
    → IsListing (add_catalog current_base catalog bases)
unfolding add_catalog
add_catalog-IsListing current_base [] bases v = v
add_catalog-IsListing current_base (known ∷ catalog) bases v =
    let base : LoraHistoryBaseView = record known {
      id = base_id (length bases);
      current = is_current current_base known.fingerprint;
    } in
    add_catalog-IsListing current_base catalog _ (
      if-elim IsListing (is_empty known.fingerprint || is_listed known.fingerprint bases) (λ _. v)
        (λ new. add-IsListing bases base v refl (ground (arith, new))))

-- The bases after a run: still a listing, with what was listed before, and the base of the run.
RunIsAdded : LoraHistoryRunView → List LoraHistoryBaseView → List LoraHistoryBaseView → Type 0
RunIsAdded run bases grown =
    IsListing grown
    × ((f : List ℕ) → is_listed f bases ≡ true → is_listed f grown ≡ true)
    × is_listed run.base_model_fingerprint grown ≡ true

add_run-RunIsAdded :
    (run : LoraHistoryRunView) (bases : List LoraHistoryBaseView)
    → IsListing bases
    → RunIsAdded run bases (add_run run bases)
unfolding add_run RunIsAdded
add_run-RunIsAdded run bases v =
    let base : LoraHistoryBaseView = record {
      id = base_id (length bases);
      fingerprint = run.base_model_fingerprint;
      revision = run.base_model_revision;
      output_model_path = [];
      current = false;
    } in
    let f = run.base_model_fingerprint in
    if-elim (RunIsAdded run bases) (is_listed f bases) (λ old. (v, (λ g h. h), old))
      (λ new. (
        add-IsListing bases base v refl new,
        (λ g h. is_listed-append g bases base ∙ ground (arith, h)),
        is_listed-append f bases base ∙ ground (arith, new, list_eq_refl f),
      ))

-- The bases after the runs: still a listing, with what was listed before, and the bases of the runs.
add_runs-IsListing :
    (runs : List LoraHistoryRunView) (bases : List LoraHistoryBaseView)
    → IsListing bases
    → IsListing (add_runs runs bases)
      × ((f : List ℕ) → is_listed f bases ≡ true → is_listed f (add_runs runs bases) ≡ true)
      × All (λ run. is_listed run.base_model_fingerprint (add_runs runs bases) ≡ true) runs
unfolding add_runs RunIsAdded
add_runs-IsListing [] bases v = (v, (λ f h. h), tt)
add_runs-IsListing (run ∷ runs) bases v =
    let (listing, keeps, found) = add_run-RunIsAdded run bases v in
    let (later, kept, all) = add_runs-IsListing runs (add_run run bases) listing in
    (later, (λ f h. kept f (keeps f h)), (kept run.base_model_fingerprint found, all))

-- The list of base models names each fingerprint once and numbers its bases -2, -3 and so on in their
-- order, and the base of every run is in it.
pub lora_history_bases-IsListing :
    (runs : List LoraHistoryRunView) (current_base : Option LoraHistoryBaseView)
    (catalog : List LoraHistoryBaseView)
    → IsListing (lora_history_bases runs current_base catalog)
      × All
          (λ run.
            is_listed run.base_model_fingerprint (lora_history_bases runs current_base catalog)
            ≡ true)
          runs
unfolding lora_history_bases
lora_history_bases-IsListing runs current_base catalog =
    let start = add_catalog current_base catalog (first_bases current_base) in
    let (listing, _, found) = add_runs-IsListing runs start (
      add_catalog-IsListing current_base catalog (first_bases current_base)
        (first_bases-IsListing current_base)) in
    (listing, found)
