-- ===== src/Conversions/Tracker.antt =====
-- class ConversionTracker (frontend/src/core/conversion.hpp). The backend is the list of the calls made
-- on it; the timing trace of a request is left out.
use ime_windows.Prelude.{
  ℕ, Bool, Option, none, some, List, [], ◌∷◌, ◌++◌, if◌then◌else◌, next64, value_at, has_key,
  emplace, without, length,
}
use ime_windows.Bopomofo.Entry.{BopomofoPos}

-- ConversionTracker::Request.
pub record Request : Type 0 where
  pub epoch : ℕ
  pub revision : ℕ
  pub document : ℕ
  pub snapshot : List BopomofoPos

-- class ConversionBackend: the calls, `predict` with its sequence, group, context and entries.
pub data BackendCall : Type 0 where
  prefill_call : List ℕ → BackendCall
  predict_call : ℕ → ℕ → List ℕ → List BopomofoPos → BackendCall

-- `backend` says whether there is one, and `calls` what it was asked, the oldest first.
pub record ConversionTracker : Type 0 where
  pub backend : Bool
  pub sequence : ℕ
  pub pending : List (ℕ × Request)
  pub calls : List BackendCall

unfoldable pub set_backend : Bool → ConversionTracker → ConversionTracker
set_backend present t = record t { backend = present }

unfoldable pub prefill : List ℕ → ConversionTracker → ConversionTracker
prefill context t =
    if t.backend then record t { calls = t.calls ++ (prefill_call context ∷ []) } else t

unfoldable pub send : Request → List ℕ → ConversionTracker → ConversionTracker × Option ℕ
send request context t =
    let number = next64 t.sequence in
    if t.backend
    then (
      record t {
        sequence = number;
        pending = emplace number request t.pending;
        calls = t.calls ++ (predict_call number request.epoch context request.snapshot ∷ []);
      },
      some number,
    )
    else (t, none)

unfoldable pub take_request : ℕ → ConversionTracker → ConversionTracker × Option Request
take_request number t = (record t { pending = without number t.pending }, value_at number t.pending)

unfoldable pub is_pending : ℕ → ConversionTracker → Bool
is_pending number t = has_key number t.pending

unfoldable pub size : ConversionTracker → ℕ
size t = length t.pending

unfoldable pub clear_pending : ConversionTracker → ConversionTracker
clear_pending t = record t { pending = [] }
