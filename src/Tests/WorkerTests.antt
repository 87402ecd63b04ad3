-- ===== src/Tests/WorkerTests.antt =====
-- The theorems on the engine worker at concrete inputs.
use ime_windows.Prelude.{ℕ, ◌+◌, ◌<◌, ◌≡◌, refl, true, false, [], ◌∷◌, ◌++◌}
use ime_windows.Keys.Presses.{InputMode}
use ime_windows.Worker.Jobs.{Kind, Job, Worker, submit, UiState}
use ime_windows.Worker.Accounting.{Waits, times, queued, queued-submit}

abbrev prediction : ℕ → Job ℕ
prediction sequence = record { kind = Kind.predicting; sequence = sequence; group = 1; run = 0 }

abbrev busy : Worker ℕ
busy = record { jobs = prediction 4 ∷ []; stopping = false }

queued-submit_example :
    (queued 4 (busy.jobs ++ (prediction 5 ∷ []))
      ≡ queued 4 (submit (prediction 5) busy).0.jobs + times 4 (submit (prediction 5) busy).1)
    × (0 < times 4 (submit (prediction 5) busy).1
        → ((prediction 5).kind ≡ Kind.predicting) × Waits 1 4 busy.jobs)
queued-submit_example = queued-submit 4 (prediction 5) busy refl

abbrev in_chinese : UiState
in_chinese = record { mode = InputMode.chinese; mode_revision = 3; is_connected = true }
