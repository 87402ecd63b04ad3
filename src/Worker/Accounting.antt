-- ===== src/Worker/Accounting.antt =====
-- What becomes of queued predictions, and of late answers about the mode
-- (frontend/src/engine/engine_worker.cpp).
use ime_windows.Prelude.{
  ℕ, ◌+◌, ◌<◌, ◌≡◌, refl, ◌⊎◌, inl, inr, ◌∙◌, Bool-cases, true, false, ◌&&◌, List, [], ◌∷◌, ◌++◌,
  ◌==◌, if◌then◌else◌, arith, next64-ne,
}
use ime_windows.Keys.Presses.{InputMode}
use ime_windows.Worker.Jobs.{
  Kind, same_kind, is_predicting, Job, Worker, is_replaced, kept_jobs, superseded_by, submit,
  UiState, publish_mode, publish_prediction, toggle_input_mode,
}

-- How often a sequence is in a list.
unfoldable pub times : ℕ → List ℕ → ℕ
times n [] = 0
times n (m ∷ rest) = if m == n then 1 + times n rest else times n rest

same_kind-predicting : (a b : Kind) → same_kind a b ≡ true → is_predicting a ≡ is_predicting b
same_kind-predicting Kind.other b h = ground arith
same_kind-predicting Kind.ready b h = ground arith
same_kind-predicting Kind.query b h = ground arith
same_kind-predicting Kind.prefilling b h = ground arith
same_kind-predicting Kind.predicting b h = ground arith

is_predicting-eq : (k : Kind) → is_predicting k ≡ true → k ≡ Kind.predicting
is_predicting-eq Kind.other h = cc
is_predicting-eq Kind.ready h = cc
is_predicting-eq Kind.query h = cc
is_predicting-eq Kind.prefilling h = cc
is_predicting-eq Kind.predicting h = refl

module _ {R : Type 0} where
  -- How many queued predictions have the sequence.
  unfoldable pub queued : ℕ → List (Job R) → ℕ
  queued n [] = 0
  queued n (job ∷ rest) =
      let later = queued n rest in
      if is_predicting job.kind && (job.sequence == n) then 1 + later else later

  queued-append : (n : ℕ) (xs ys : List (Job R)) → queued n (xs ++ ys) ≡ queued n xs + queued n ys
  unfolding queued
  queued-append n [] ys = ground arith
  queued-append n (job ∷ xs) ys = ground (arith, queued-append n xs ys)

  queued-kept_jobs :
      (n : ℕ) (kind : Kind) (group : ℕ) (jobs : List (Job R))
      → queued n jobs
        ≡ queued n (kept_jobs kind group jobs) + times n (superseded_by kind group jobs)
  unfolding queued kept_jobs superseded_by times is_replaced
  queued-kept_jobs n kind group [] = refl
  queued-kept_jobs n kind group (job ∷ rest) =
      ground (arith, queued-kept_jobs n kind group rest, same_kind-predicting job.kind kind)

  -- A prediction of the group waits under the sequence.
  unfoldable pub Waits : ℕ → ℕ → List (Job R) → Type 0
  Waits group n [] = ⊥
  Waits group n (job ∷ rest) =
      ((job.kind ≡ Kind.predicting) × (job.group ≡ group) × (job.sequence ≡ n)) ⊎ Waits group n rest

  -- What is superseded is of the group of the new prediction.
  superseded_by-Waits :
      (n : ℕ) (kind : Kind) (group : ℕ) (jobs : List (Job R))
      → 0 < times n (superseded_by kind group jobs)
      → (kind ≡ Kind.predicting) × Waits group n jobs
  unfolding superseded_by times Waits is_replaced
  superseded_by-Waits n kind group [] h = absurd (omega arith)
  superseded_by-Waits n kind group (job ∷ rest) h =
      elim (Bool-cases (is_replaced kind group job && is_predicting kind)) [
        | inl gone ↦ elim (Bool-cases (job.sequence == n)) [
          | inl own ↦ (
            is_predicting-eq kind (ground (arith, gone)),
            inl (
              is_predicting-eq job.kind (
                  same_kind-predicting job.kind kind (ground (arith, gone)) ∙ ground (arith, gone)),
              ground (arith, gone),
              ground (arith, own),
            ),
          )
          | inr another ↦
              let (new, waits) =
                superseded_by-Waits n kind group rest (ground (arith, h, gone, another)) in
              (new, inr waits)
        ]
        | inr stays ↦
            let (new, waits) = superseded_by-Waits n kind group rest (ground (arith, h, stays)) in
            (new, inr waits)
      ]

  superseded-submit :
      (n : ℕ) (job : Job R) (w : Worker R)
      → 0 < times n (submit job w).1
      → 0 < times n (superseded_by job.kind job.group w.jobs)
  unfolding submit times
  superseded-submit n job w h = ground (arith, h)

  -- While the worker runs, each sequence is among the queued predictions and the submitted one as often
  -- as it is queued afterwards or published as superseded; and a sequence is published as superseded
  -- only by a new prediction, where a prediction of the same composition waits under it.
  pub queued-submit :
      (n : ℕ) (job : Job R) (w : Worker R)
      → w.stopping ≡ false
      → (queued n (w.jobs ++ (job ∷ []))
          ≡ queued n (submit job w).0.jobs + times n (submit job w).1)
        × (0 < times n (submit job w).1 → (job.kind ≡ Kind.predicting) × Waits job.group n w.jobs)
  unfolding submit times
  queued-submit n job w running = (
    ground (
      arith,
      queued-append n w.jobs (job ∷ []),
      queued-append n (kept_jobs job.kind job.group w.jobs) (job ∷ []),
      queued-kept_jobs n job.kind job.group w.jobs,
    ),
    λ h. superseded_by-Waits n job.kind job.group w.jobs (superseded-submit n job w h),
  )

-- An answer to a question asked before a toggle, or before the backend was lost in Chinese mode,
-- changes no mode any more.
pub publish_mode-stale :
    (mode : InputMode) (ui : UiState)
    → (publish_mode mode ui.mode_revision (toggle_input_mode ui) ≡ (toggle_input_mode ui, false))
      × ((ui.mode ≡ InputMode.english)
          ⊎ (publish_mode mode ui.mode_revision (publish_prediction true ui).0
              ≡ ((publish_prediction true ui).0, false)))
unfolding publish_mode toggle_input_mode publish_prediction
publish_mode-stale mode ui = ground (arith, next64-ne ui.mode_revision)
