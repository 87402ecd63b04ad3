-- ===== src/Pipe/Connection.antt =====
-- class PipeEngine (frontend/src/engine/impl/pipeEngine.hpp): its connection to the service, and its
-- operations with all their exits. What Windows answers, whether a transfer succeeds and the bytes
-- that come back are inputs.
use ime_windows.Prelude.{
  ℕ, ◌+◌, Bool, true, false, not, ◌&&◌, ◌||◌, Option, none, some, List, ltb, ◌==◌, if◌then◌else◌,
  all, is_empty, next64,
}
use ime_windows.Keys.Presses.{InputMode}
use ime_windows.Bopomofo.Entry.{BopomofoPos, is_predictable_by_engine}
use ime_windows.Buffer.Text.{CommitSample}
use ime_windows.Pipe.Bytes.{read_val}
use ime_windows.Pipe.Client.{
  predict_request, commit_request, discard_request, prefill_request, receive_prediction, mode_of,
}

-- `next_commit_token` is static: the engines of a process share it. Times are in milliseconds.
pub record PipeEngine : Type 0 where
  pub is_connected : Bool
  pub is_aborted : Bool
  pub last_launch_request : Option ℕ
  pub next_commit_token : ℕ

-- What the system answers while an engine looks for the service.
pub record System : Type 0 where
  pub connects : Bool
  pub has_mutex : Bool
  pub acquires : Bool
  pub connects_again : Bool
  pub now : ℕ

abbrev pub launch_retry_interval : ℕ
launch_retry_interval = 5000

-- `last_launch_request_ && now - *last_launch_request_ < launch_retry_interval`.
unfoldable pub is_too_soon : ℕ → Option ℕ → Bool
is_too_soon now none = false
is_too_soon now (some last) = ltb now (last + launch_retry_interval)

-- The engine, and whether `launch_service_backend` was called.
unfoldable pub request_backend_launch : System → PipeEngine → PipeEngine × Bool
request_backend_launch system e =
    let asked : PipeEngine = record e { last_launch_request = some system.now } in
    if is_too_soon system.now e.last_launch_request
    then (e, false)
    else if not (system.has_mutex && system.acquires)
    then (asked, false)
    else if system.connects_again
    then (record asked { is_connected = true }, false)
    else (asked, true)

-- The engine, the result, and whether the service was launched.
unfoldable pub ensure_pipe : System → PipeEngine → PipeEngine × Bool × Bool
ensure_pipe system e =
    let (asked, launched) = request_backend_launch system e in
    if e.is_aborted
    then (e, false, false)
    else if e.is_connected
    then (e, true, false)
    else if system.connects
    then (record e { is_connected = true }, true, false)
    else (asked, asked.is_connected, launched)

abbrev pub disconnect : PipeEngine → PipeEngine
disconnect e = record e { is_connected = false }

unfoldable pub abort : PipeEngine → PipeEngine
abort e = record e { is_aborted = true }

-- What happens to one request: how the system answers, whether the bytes are sent, and the bytes that
-- come back before the pipe breaks.
pub record Exchange : Type 0 where
  pub system : System
  pub is_sent : Bool
  pub answer : List ℕ

-- A request without an answer, and the bytes that were written.
unfoldable pub send_only : Exchange → List ℕ → PipeEngine → PipeEngine × Option (List ℕ)
send_only x bytes e =
    let (e', ok, launched) = ensure_pipe x.system e in
    if not ok then (e', none) else if x.is_sent then (e', some bytes) else (disconnect e', none)

unfoldable pub prefill_context : Exchange → List ℕ → PipeEngine → PipeEngine × Option (List ℕ)
prefill_context x context e = send_only x (prefill_request context) e

unfoldable pub discard_commit : Exchange → ℕ → PipeEngine → PipeEngine × Option (List ℕ)
discard_commit x token e = if token == 0 then (e, none) else send_only x (discard_request token) e

-- `co_await send(...) && co_await receive(byte)`, after `ensure_pipe`.
unfoldable pub query_byte : Exchange → PipeEngine → PipeEngine × Option ℕ
query_byte x e =
    let (e', ok, launched) = ensure_pipe x.system e in
    if not ok
    then (e', none)
    else if not x.is_sent
    then (disconnect e', none)
    else elim (read_val 1 x.answer) [
      | none ↦ (disconnect e', none)
      | some (byte, rest) ↦ (e', some byte)
    ]

unfoldable pub ready : Exchange → PipeEngine → PipeEngine
ready x e = (query_byte x e).0

unfoldable pub query_input_mode : Exchange → PipeEngine → PipeEngine × InputMode
query_input_mode x e =
    let (e', raw_mode) = query_byte x e in
    elim raw_mode [ none ↦ (e', InputMode.english) | some raw ↦ (e', mode_of raw) ]

-- The token, 0 when nothing was sent, and the bytes that were written.
unfoldable pub record_commit :
    Exchange → CommitSample → PipeEngine → PipeEngine × ℕ × Option (List ℕ)
record_commit x sample e =
    let (e', ok, launched) = ensure_pipe x.system e in
    let token = e'.next_commit_token in
    let taken : PipeEngine = record e' { next_commit_token = next64 token } in
    if is_empty sample.answer || is_empty sample.input
    then (e, 0, none)
    else if not ok
    then (e', 0, none)
    else if x.is_sent
    then (taken, token, some (commit_request token sample))
    else (disconnect taken, 0, none)

-- The entries after it, and the result; `none` is the exception of `current32`.
unfoldable pub predict :
    Exchange → List ℕ → List BopomofoPos → PipeEngine → PipeEngine × List BopomofoPos × Option Bool
predict x context padding e =
    let (e', ok, launched) = ensure_pipe x.system e in
    let (received, left) = receive_prediction padding x.answer in
    if not (all is_predictable_by_engine padding)
    then (e, padding, some false)
    else if not ok
    then (e', padding, some false)
    else elim (predict_request context padding) [
      | none ↦ (e', padding, none)
      | some bytes ↦ if not x.is_sent then (disconnect e', padding, some false) else elim left [
        | none ↦ (disconnect e', received, some false)
        | some rest ↦ (e', received, some true)
      ]
    ]
