-- ===== src/Pipe/Conversation.antt =====
-- A client's calls on class PipeEngine (frontend/src/engine/impl/pipeEngine.hpp), one after the other,
-- and the loop of handle_client (service/src/service/prediction_pipe_server.hpp) that serves them.
use ime_windows.Prelude.{
  ℕ, suc, ◌+◌, ◌≤◌, ◌<◌, ◌≡◌, refl, ap, Option, some, List, [], ◌∷◌, ◌++◌, length, All, arith,
  append_assoc, u64_mod, ◌>>=◌,
}
use ime_windows.Bopomofo.Entry.{BopomofoPos}
use ime_windows.Buffer.Text.{CommitSample}
use ime_windows.Pipe.Bytes.{IsShort}
use ime_windows.Pipe.Client.{
  PipeCommand, command_request, raw_command, predict_request, commit_request, discard_request,
  prefill_request,
}
use ime_windows.Pipe.Server.{
  ClientRequest, read_request, read_body, Services, ClientState, handle, do_commit, do_predict,
  handle_client,
}
use ime_windows.Pipe.RoundTrip.{IsSendable, AllCarry}
use ime_windows.Pipe.Requests.{
  IsSample, command-read, read_request-predict_request, read_request-commit_request,
  read_request-prefill_request, read_request-discard_request,
}

-- A call that sends a request.
pub data Call : Type 0 where
  toggle_mode get_mode get_ready : Call
  prefill : (context : List ℕ) → Call
  record_commit : (token : ℕ) (sample : CommitSample) → Call
  discard_commit : (token : ℕ) → Call
  predict : (context : List ℕ) (padding : List BopomofoPos) → Call

unfoldable pub call_request : Call → Option (List ℕ)
call_request Call.toggle_mode = some (command_request PipeCommand.toggle_input_mode)
call_request Call.get_mode = some (command_request PipeCommand.get_input_mode)
call_request Call.get_ready = some (command_request PipeCommand.ready)
call_request (Call.prefill context) = some (prefill_request context)
call_request (Call.record_commit token sample) = some (commit_request token sample)
call_request (Call.discard_commit token) = some (discard_request token)
call_request (Call.predict context padding) = predict_request context padding

unfoldable pub call_requests : List Call → Option (List ℕ)
call_requests [] = some []
call_requests (call ∷ calls) = do
  first ← call_request call
  rest ← call_requests calls
  some (first ++ rest)

-- The last commit token that the service has taken, after a call.
unfoldable pub newest : ℕ → Call → ℕ
newest latest (Call.record_commit token sample) = token
newest latest call = latest

-- A call within the limits of the service.
unfoldable pub IsAcceptable : ℕ → Call → Type 0
IsAcceptable latest (Call.prefill context) = IsShort 4096 context
IsAcceptable latest (Call.record_commit token sample) =
    (latest < token) × (token < u64_mod) × IsSample sample
IsAcceptable latest (Call.discard_commit token) = token < u64_mod
IsAcceptable latest (Call.predict context padding) =
    IsShort 4096 context × (length padding ≤ 1024) × (0 < length padding) × All IsSendable padding
IsAcceptable latest call = Unit

unfoldable pub AllAcceptable : ℕ → List Call → Type 0
AllAcceptable latest [] = Unit
AllAcceptable latest (call ∷ calls) =
    IsAcceptable latest call × AllAcceptable (newest latest call) calls

-- The request that a call is about.
unfoldable pub Means : Call → ClientRequest → Type 0
Means Call.toggle_mode r = r ≡ ClientRequest.toggle_mode
Means Call.get_mode r = r ≡ ClientRequest.get_mode
Means Call.get_ready r = r ≡ ClientRequest.get_ready
Means (Call.prefill context) r = r ≡ ClientRequest.prefill context
Means (Call.record_commit token sample) r =
    r ≡ ClientRequest.record_commit token sample.context sample.answer sample.input
Means (Call.discard_commit token) r = r ≡ ClientRequest.discard_commit token
Means (Call.predict context padding) r =
    (ps : _) × AllCarry padding ps × (r ≡ ClientRequest.predict context ps)

unfoldable pub AllMean : List Call → List ClientRequest → Type 0
AllMean [] [] = Unit
AllMean [] (r ∷ rs) = ⊥
AllMean (call ∷ calls) [] = ⊥
AllMean (call ∷ calls) (r ∷ rs) = Means call r × AllMean calls rs

call-read :
    (latest : ℕ) (call : Call)
    → IsAcceptable latest call
    → (bytes : List ℕ) × (r : ClientRequest) × (call_request call ≡ some bytes)
      × Means call r
      × ((rest : List ℕ) → read_request latest (bytes ++ rest) ≡ some (r, rest))
unfolding call_request Means IsAcceptable read_body raw_command
call-read latest Call.toggle_mode h = (
  command_request PipeCommand.toggle_input_mode,
  ClientRequest.toggle_mode,
  refl,
  refl,
  λ rest. command-read latest PipeCommand.toggle_input_mode rest,
)
call-read latest Call.get_mode h = (
  command_request PipeCommand.get_input_mode,
  ClientRequest.get_mode,
  refl,
  refl,
  λ rest. command-read latest PipeCommand.get_input_mode rest,
)
call-read latest Call.get_ready h = (
  command_request PipeCommand.ready,
  ClientRequest.get_ready,
  refl,
  refl,
  λ rest. command-read latest PipeCommand.ready rest,
)
call-read latest (Call.prefill context) h = (
  prefill_request context,
  ClientRequest.prefill context,
  refl,
  refl,
  λ rest. read_request-prefill_request latest context rest h,
)
call-read latest (Call.record_commit token sample) (newer, wide, ok) = (
  commit_request token sample,
  ClientRequest.record_commit token sample.context sample.answer sample.input,
  refl,
  refl,
  λ rest. read_request-commit_request latest token sample rest newer wide ok,
)
call-read latest (Call.discard_commit token) h = (
  discard_request token,
  ClientRequest.discard_commit token,
  refl,
  refl,
  λ rest. read_request-discard_request latest token rest h,
)
call-read latest (Call.predict context padding) (short, few, some_entry, sendable) =
    let (bytes, ps, sent, carries, read) =
      read_request-predict_request latest context padding short few some_entry sendable in
    (bytes, ClientRequest.predict context ps, sent, (ps, carries, refl), read)

suc-add : (m n : ℕ) → suc m + n ≡ suc (m + n)
suc-add m n = omega arith

module _ {S : Type 0} (services : Services S) (session : List ℕ) where
  unfoldable pub handle_requests : List ClientRequest → ClientState S → ClientState S
  handle_requests [] c = c
  handle_requests (r ∷ rs) c = handle_requests rs (handle services session r c)

  handle-newest :
      (call : Call) (r : ClientRequest) (c : ClientState S)
      → Means call r
      → (handle services session r c).latest_commit_token ≡ newest c.latest_commit_token call
  unfolding Means newest handle do_commit do_predict
  handle-newest Call.toggle_mode r c h = rw h
  handle-newest Call.get_mode r c h = rw h
  handle-newest Call.get_ready r c h = rw h
  handle-newest (Call.prefill context) r c h = rw h
  handle-newest (Call.record_commit token sample) r c h = rw h
  handle-newest (Call.discard_commit token) r c h = rw h (ground arith)
  handle-newest (Call.predict context padding) r c (ps, _, h) = rw h

  handle_client-read :
      (fuel : ℕ) (bytes rest : List ℕ) (r : ClientRequest) (c : ClientState S)
      → read_request c.latest_commit_token bytes ≡ some (r, rest)
      → handle_client services session (suc fuel) bytes c
        ≡ handle_client services session fuel rest (handle services session r c)
  unfolding handle_client
  handle_client-read fuel bytes rest r c h = rw (h, handle_client)

  -- Calls within the limits of the service, with commit tokens that increase, are all sent, and the
  -- service handles exactly the requests that they are about, in their order, whatever its parts
  -- do, and then goes on with the bytes after them.
  pub handle_client-call_requests :
      (calls : List Call) (c : ClientState S)
      → AllAcceptable c.latest_commit_token calls
      → (bytes : List ℕ) × (rs : List ClientRequest) × (call_requests calls ≡ some bytes)
        × AllMean calls rs
        × ((fuel : ℕ) (rest : List ℕ)
            → handle_client services session (length calls + fuel) (bytes ++ rest) c
              ≡ handle_client services session fuel rest (handle_requests rs c))
  unfolding call_requests AllMean AllAcceptable handle_requests handle_client
  handle_client-call_requests [] c h = (
    [],
    [],
    refl,
    tt,
    λ fuel rest. ap (λ n. handle_client services session n rest c) (omega arith),
  )
  handle_client-call_requests (call ∷ calls) c h =
      let (first, r, sent, means, read) = call-read c.latest_commit_token call h.0 in
      let later : AllAcceptable (handle services session r c).latest_commit_token calls =
        rw (handle-newest call r c means) h.1 in
      let (more, rs, all_sent, all_mean, served) =
        handle_client-call_requests calls (handle services session r c) later in
      (
        first ++ more,
        r ∷ rs,
        rw (sent, all_sent),
        (means, all_mean),
        λ fuel rest.
            rw
              (
                suc-add (length calls) fuel,
                append_assoc first more rest,
                handle_client-read (length calls + fuel) (first ++ (more ++ rest)) (more ++ rest) r
                    c (read (more ++ rest)),
              )
              (served fuel rest),
      )
