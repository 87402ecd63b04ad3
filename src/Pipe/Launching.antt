-- ===== src/Pipe/Launching.antt =====
-- How often class PipeEngine (frontend/src/engine/impl/pipeEngine.hpp) launches the service, and the
-- commit tokens that it sends.
use ime_windows.Prelude.{
  ℕ, ◌+◌, ◌≤◌, ◌<◌, ◌≡◌, ◌⊎◌, inl, inr, Bool, false, Option, none, some, List, [], ◌∷◌, ◌++◌, refl,
  length, if◌then◌else◌, if-elim, All, arith, u64_mod, next64-eq,
}
use ime_windows.Buffer.Text.{CommitSample}
use ime_windows.Pipe.Requests.{IsSample}
use ime_windows.Pipe.Client.{commit_request}
use ime_windows.Pipe.Server.{ClientRequest, Services, ClientState, handle_client}
use ime_windows.Pipe.Conversation.{
  Call, call_request, call_requests, IsAcceptable, AllAcceptable, newest, AllMean, handle_requests,
  handle_client-call_requests,
}
use ime_windows.Pipe.Connection.{
  PipeEngine, System, Exchange, is_too_soon, request_backend_launch, ensure_pipe, disconnect,
  record_commit,
}

-- An attempt to reach the service, after which the pipe may break.
pub record Attempt : Type 0 where
  pub system : System
  pub is_lost : Bool

unfoldable pub attempt : Attempt → PipeEngine → PipeEngine
attempt a e =
    let reached = (ensure_pipe a.system e).0 in if a.is_lost then disconnect reached else reached

-- When the service is launched in a run of attempts.
unfoldable pub launch_times : List Attempt → PipeEngine → List ℕ
launch_times [] e = []
launch_times (a ∷ attempts) e =
    let later = launch_times attempts (attempt a e) in
    if (ensure_pipe a.system e).2 then a.system.now ∷ later else later

-- Each time is at least five seconds after the one before, the first after `last`.
unfoldable pub IsSpaced : Option ℕ → List ℕ → Type 0
IsSpaced last [] = Unit
IsSpaced none (t ∷ times) = IsSpaced (some t) times
IsSpaced (some last) (t ∷ times) = (last + 5000 ≤ t) × IsSpaced (some t) times

IsSpaced-later :
    (last : Option ℕ) (now : ℕ) (times : List ℕ)
    → is_too_soon now last ≡ false
    → IsSpaced (some now) times
    → IsSpaced last times
unfolding IsSpaced is_too_soon
IsSpaced-later last now [] h s = tt
IsSpaced-later none now (t ∷ times) h s = s.1
IsSpaced-later (some last) now (t ∷ times) h s = (ground (arith, s.0), s.1)

IsSpaced-launch :
    (last : Option ℕ) (now : ℕ) (times : List ℕ)
    → is_too_soon now last ≡ false
    → IsSpaced (some now) times
    → IsSpaced last (now ∷ times)
unfolding IsSpaced is_too_soon
IsSpaced-launch none now times h s = s
IsSpaced-launch (some last) now times h s = (ground arith, s)

IsSpaced-same :
    {last other : Option ℕ} (times : List ℕ)
    → last ≡ other
    → IsSpaced last times
    → IsSpaced other times
IsSpaced-same times same s = rw (← same) s

-- An attempt leaves the time of the last request alone, launching nothing, or it is late enough and becomes the time.
attempt_cases :
    (a : Attempt) (e : PipeEngine)
    → (((ensure_pipe a.system e).2 ≡ false)
        × ((attempt a e).last_launch_request ≡ e.last_launch_request))
      ⊎ ((is_too_soon a.system.now e.last_launch_request ≡ false)
          × ((attempt a e).last_launch_request ≡ some a.system.now))
unfolding attempt ensure_pipe request_backend_launch
attempt_cases a e = ground arith

-- However often the engine looks for the service and whatever breaks, it launches it at most once in
-- five seconds, and never within five seconds of a request it has already made.
pub launch_times-IsSpaced :
    (attempts : List Attempt) (e : PipeEngine)
    → IsSpaced e.last_launch_request (launch_times attempts e)
unfolding launch_times IsSpaced
launch_times-IsSpaced [] e = tt
launch_times-IsSpaced (a ∷ attempts) e =
    let rest = launch_times-IsSpaced attempts (attempt a e) in
    elim (attempt_cases a e) [
      | inl (quiet, same) ↦
          rw (quiet, launch_times) (IsSpaced-same (launch_times attempts (attempt a e)) same rest)
      | inr (late, set) ↦
          if-elim (IsSpaced e.last_launch_request) (ensure_pipe a.system e).2
            (λ _.
              IsSpaced-launch e.last_launch_request a.system.now
                (launch_times attempts (attempt a e)) late
                (IsSpaced-same (launch_times attempts (attempt a e)) set rest))
            (λ _.
              IsSpaced-later e.last_launch_request a.system.now
                (launch_times attempts (attempt a e)) late
                (IsSpaced-same (launch_times attempts (attempt a e)) set rest))
    ]

-- One commit, as the engine is asked to record it.
pub record Recording : Type 0 where
  pub exchange : Exchange
  pub sample : CommitSample

-- The commits that the service receives, of those that the engine is asked to record.
unfoldable pub sent_commits : List Recording → PipeEngine → List Call
sent_commits [] e = []
sent_commits (r ∷ recordings) e =
    let (e', token, written) = record_commit r.exchange r.sample e in
    let rest = sent_commits recordings e' in
    elim written [ none ↦ rest | some bytes ↦ Call.record_commit token r.sample ∷ rest ]

record_commit_cases :
    (r : Recording) (e : PipeEngine)
    → e.next_commit_token + 1 < u64_mod
    → (((record_commit r.exchange r.sample e).2 ≡ none)
        × (e.next_commit_token ≤ (record_commit r.exchange r.sample e).0.next_commit_token)
        × ((record_commit r.exchange r.sample e).0.next_commit_token ≤ e.next_commit_token + 1))
      ⊎ (((record_commit r.exchange r.sample e).2
            ≡ some (commit_request e.next_commit_token r.sample))
          × ((record_commit r.exchange r.sample e).1 ≡ e.next_commit_token)
          × ((record_commit r.exchange r.sample e).0.next_commit_token ≡ e.next_commit_token + 1))
unfolding record_commit ensure_pipe request_backend_launch
record_commit_cases r e small = ground (arith, next64-eq e.next_commit_token small)

-- Of commits within the limits of the service, those that an engine sends have tokens that only increase.
sent_commits-AllAcceptable :
    (recordings : List Recording) (e : PipeEngine) (latest : ℕ)
    → latest < e.next_commit_token
    → e.next_commit_token + length recordings < u64_mod
    → All (λ r. IsSample r.sample) recordings
    → AllAcceptable latest (sent_commits recordings e)
unfolding sent_commits AllAcceptable IsAcceptable newest
sent_commits-AllAcceptable [] e latest newer small h = tt
sent_commits-AllAcceptable (r ∷ recordings) e latest newer small h =
    let e' = (record_commit r.exchange r.sample e).0 in
    elim (record_commit_cases r e (omega arith)) [
      | inl (unsent, low, high) ↦
          rw (unsent, sent_commits)
            (sent_commits-AllAcceptable recordings e' latest (omega arith) (omega arith) h.1)
      | inr (sent, taken, next) ↦
          rw (sent, sent_commits, taken)
            (
              (newer, omega arith, h.0),
              sent_commits-AllAcceptable recordings e' e.next_commit_token (omega arith)
                  (omega arith) h.1,
            )
    ]

-- The bytes that the pipe takes, of all that is written.
unfoldable pub sent_bytes : List Recording → PipeEngine → List ℕ
sent_bytes [] e = []
sent_bytes (r ∷ recordings) e =
    let (e', token, written) = record_commit r.exchange r.sample e in
    let rest = sent_bytes recordings e' in elim written [ none ↦ rest | some bytes ↦ bytes ++ rest ]

call_requests-sent_commits :
    (recordings : List Recording) (e : PipeEngine)
    → e.next_commit_token + length recordings < u64_mod
    → call_requests (sent_commits recordings e) ≡ some (sent_bytes recordings e)
unfolding sent_commits sent_bytes call_requests call_request
call_requests-sent_commits [] e small = refl
call_requests-sent_commits (r ∷ recordings) e small =
    let e' = (record_commit r.exchange r.sample e).0 in
    elim (record_commit_cases r e (omega arith)) [
      | inl (unsent, low, high) ↦
          rw (unsent, sent_commits, sent_bytes)
            (call_requests-sent_commits recordings e' (omega arith))
      | inr (sent, taken, next) ↦
          rw
            (
              sent,
              sent_commits,
              sent_bytes,
              taken,
              call_requests-sent_commits recordings e' (omega arith),
            )
            refl
    ]

-- The commits within the limits of the service that an engine sends, over failed transfers, reconnects
-- and launches, and until its counter has used 64 bits: a service that reads their bytes in one stream,
-- and has taken only older tokens, handles exactly these commits, each with its token and sample, in
-- their order, and then goes on with the bytes after them.
pub handle_client-sent_bytes :
    {S : Type 0} (services : Services S) (session : List ℕ) (recordings : List Recording)
    (e : PipeEngine) (c : ClientState S)
    → c.latest_commit_token < e.next_commit_token
    → e.next_commit_token + length recordings < u64_mod
    → All (λ r. IsSample r.sample) recordings
    → (rs : List ClientRequest) × AllMean (sent_commits recordings e) rs
      × ((fuel : ℕ) (rest : List ℕ)
          → handle_client services session
              (length (sent_commits recordings e) + fuel)
              (sent_bytes recordings e ++ rest)
              c
            ≡ handle_client services session fuel rest (handle_requests services session rs c))
handle_client-sent_bytes services session recordings e c newer small h =
    let (bytes, rs, sent, mean, served) =
      handle_client-call_requests services session (sent_commits recordings e) c
        (sent_commits-AllAcceptable recordings e c.latest_commit_token newer small h) in
    let same : bytes ≡ sent_bytes recordings e =
      ground (arith, sent, call_requests-sent_commits recordings e small) in
    (rs, mean, rw same at served)
