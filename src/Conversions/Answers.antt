-- ===== src/Conversions/Answers.antt =====
-- The requests of the tracker and their answers (frontend/src/core/conversion.hpp).
use ime_windows.Prelude.{
  ℕ, ◌+◌, ◌<◌, ◌≡◌, ◌≢◌, Bool, true, none, some, List, arith, next64-eq, u64_mod, KeysUpTo,
  without-KeysUpTo, KeysUpTo-mono, has_key-above, value_at-without, value_at-without_ne,
}
use ime_windows.Conversions.Tracker.{
  Request, ConversionTracker, send, take_request, prefill, clear_pending, set_backend,
}

-- Every pending request has a sequence that was given out.
abbrev pub IsIssued : ConversionTracker → Type 0
IsIssued t = KeysUpTo t.sequence t.pending

-- The steps of the program on the tracker.
pub data Step : Type 0 where
  connecting : Bool → Step
  prefilling : List ℕ → Step
  sending : Request → List ℕ → Step
  taking : ℕ → Step
  clearing : Step

unfoldable pub step : Step → ConversionTracker → ConversionTracker
step (connecting present) t = set_backend present t
step (prefilling context) t = prefill context t
step (sending request context) t = (send request context t).0
step (taking number) t = (take_request number t).0
step clearing t = clear_pending t

-- Every step of the tracker keeps its pending requests among those sent, while the counter has room.
pub step-IsIssued :
    (s : Step) (t : ConversionTracker) → t.sequence + 1 < u64_mod → IsIssued t → IsIssued (step s t)
unfolding step send take_request prefill clear_pending set_backend
step-IsIssued (connecting present) t room h = h
step-IsIssued (prefilling context) t room h = ground arith
step-IsIssued (sending request context) t room h = ground (
  arith,
  next64-eq t.sequence room,
  has_key-above t.sequence t.pending h,
  KeysUpTo-mono t.sequence (t.sequence + 1) t.pending _ h,
)
step-IsIssued (taking number) t room h = without-KeysUpTo t.sequence number t.pending h
step-IsIssued clearing t room h = tt

-- With a backend and room in the counter, a sent request gets the next sequence; its answer finds
-- that request the first time and nothing the second time, and every other request stays as it was.
pub take_request-send :
    (request : Request) (context : List ℕ) (t : ConversionTracker) (other : ℕ)
    → t.backend ≡ true
    → t.sequence + 1 < u64_mod
    → IsIssued t
    → other ≢ t.sequence + 1
    → ((send request context t).1 ≡ some (t.sequence + 1))
      × ((take_request (t.sequence + 1) (send request context t).0).1 ≡ some request)
      × ((take_request
            (t.sequence + 1)
            (take_request (t.sequence + 1) (send request context t).0).0).1
          ≡ none)
      × ((take_request other (take_request (t.sequence + 1) (send request context t).0).0).1
          ≡ (take_request other t).1)
unfolding send take_request
take_request-send request context t other connected room h ne = ground (
  arith,
  next64-eq t.sequence room,
  has_key-above t.sequence t.pending h,
  value_at-without (t.sequence + 1) t.pending,
  value_at-without_ne (t.sequence + 1) other t.pending ne,
)
