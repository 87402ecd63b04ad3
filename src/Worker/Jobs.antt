-- ===== src/Worker/Jobs.antt =====
-- The queue of jobs and the state that the UI thread keeps (frontend/src/engine/engine_worker.cpp).
-- What a job runs on the transport is a value of the type `R`.
use ime_windows.Prelude.{
  ℕ, Bool, true, false, not, ◌&&◌, ◌||◌, Option, none, some, List, [], ◌∷◌, ◌++◌, ◌==◌,
  if◌then◌else◌, next64,
}
use ime_windows.Keys.Presses.{InputMode}
use ime_windows.Keys.Router.{is_english}

-- EngineWorker::Impl::Kind.
pub data Kind : Type 0 where
  other ready query prefilling predicting : Kind

abbrev pub same_kind : Kind → Kind → Bool
same_kind other other = true
same_kind ready ready = true
same_kind query query = true
same_kind prefilling prefilling = true
same_kind predicting predicting = true
same_kind _ _ = false

abbrev pub is_other : Kind → Bool
is_other k = same_kind k other

abbrev pub is_predicting : Kind → Bool
is_predicting k = same_kind k predicting

pub record Job (R : Type 0) : Type 0 where
  pub kind : Kind
  pub sequence : ℕ
  pub group : ℕ
  pub run : R

pub record Worker (R : Type 0) : Type 0 where
  pub jobs : List (Job R)
  pub stopping : Bool

module _ {R : Type 0} where
  -- The predicate of `erase_if`: the queued job is replaced by the new one.
  unfoldable pub is_replaced : Kind → ℕ → Job R → Bool
  is_replaced kind group queued = same_kind queued.kind kind && (queued.group == group)

  unfoldable pub kept_jobs : Kind → ℕ → List (Job R) → List (Job R)
  kept_jobs kind group [] = []
  kept_jobs kind group (queued ∷ rest) =
      let kept = kept_jobs kind group rest in
      if is_replaced kind group queued then kept else queued ∷ kept

  -- The predictions among the jobs erased.
  unfoldable pub superseded_by : Kind → ℕ → List (Job R) → List ℕ
  superseded_by kind group [] = []
  superseded_by kind group (queued ∷ rest) =
      let later = superseded_by kind group rest in
      if is_replaced kind group queued && is_predicting kind then queued.sequence ∷ later else later

  -- The worker after `submit`, and the sequences that are published as superseded.
  unfoldable pub submit : Job R → Worker R → Worker R × List ℕ
  submit job w =
      if w.stopping
      then (w, [])
      else if is_other job.kind
      then (record w { jobs = w.jobs ++ (job ∷ []) }, [])
      else (
        record w { jobs = kept_jobs job.kind job.group w.jobs ++ (job ∷ []) },
        superseded_by job.kind job.group w.jobs,
      )

  -- One round of `pump`: the job at the front is taken to be run.
  unfoldable pub next_job : Worker R → Worker R × Option (Job R)
  next_job w =
      if w.stopping
      then (w, none)
      else elim w.jobs [ [] ↦ (w, none) | front ∷ rest ↦ (record w { jobs = rest }, some front) ]

  -- What the destructor and the end of `run` do to the queue.
  unfoldable pub stop : Worker R → Worker R
  stop w = record { jobs = []; stopping = true }

-- EngineWorker::UiState; `is_connected` is BackendState::Connected.
pub record UiState : Type 0 where
  pub mode : InputMode
  pub mode_revision : ℕ
  pub is_connected : Bool

-- The new state, and whether the callback is called.
unfoldable pub publish_mode : InputMode → ℕ → UiState → UiState × Bool
publish_mode mode revision ui =
    let same_mode =
      (is_english ui.mode && is_english mode)
      || (not (is_english ui.mode) && not (is_english mode)) in
    if not (revision == ui.mode_revision) || same_mode
    then (ui, false)
    else (record ui { mode = mode }, true)

unfoldable pub publish_backend : Bool → UiState → UiState × Bool
publish_backend is_connected ui =
    if (ui.is_connected && is_connected) || (not ui.is_connected && not is_connected)
    then (ui, false)
    else (record ui { is_connected = is_connected }, true)

-- `publish_prediction` before the callback: a lost backend switches to English.
unfoldable pub publish_prediction : Bool → UiState → UiState × Bool
publish_prediction is_lost ui =
    if is_lost && not (is_english ui.mode)
    then (record ui { mode = InputMode.english; mode_revision = next64 ui.mode_revision }, true)
    else (ui, false)

-- The part of `toggle_input_mode` on the UI thread.
unfoldable pub toggle_input_mode : UiState → UiState
toggle_input_mode ui = record ui {
  mode = if is_english ui.mode then InputMode.chinese else InputMode.english;
  mode_revision = next64 ui.mode_revision;
}
