-- ===== src/Pipe/Requests.antt =====
-- Each request of frontend/src/engine/impl/pipeEngine.hpp, as handle_client of
-- service/src/service/prediction_pipe_server.hpp reads it.
use ime_windows.Prelude.{
  ℕ, ◌≤◌, ◌<◌, ◌≡◌, refl, true, false, some, List, [], ◌∷◌, ◌++◌, length, leb, is_empty, u64_mod,
  All, arith, append_assoc, ◌==◌, sym, ◌∙◌,
}
use ime_windows.Bopomofo.Entry.{BopomofoPos}
use ime_windows.Buffer.Text.{CommitSample}
use ime_windows.Pipe.Bytes.{
  value, values, string, IsShort, read_val-value, read_utf16_string-string,
}
use ime_windows.Pipe.Client.{
  PipeCommand, raw_command, command_request, predict_request, input_requests, commit_request,
  discard_request, prefill_request,
}
use ime_windows.Pipe.Server.{
  PaddingEntry, ClientRequest, read_padding_entries, read_padding, read_commit, read_prefill,
  read_discard, read_predict, read_request, read_body,
}
use ime_windows.Pipe.RoundTrip.{
  IsSendable, IsInput, not-is_empty, read_input-input_requests, AllCarry, entries-read,
}

raw-small : (command : PipeCommand) → raw_command command < values 1
unfolding raw_command
raw-small command = ground arith

-- The command is read first.
pub command-read :
    (latest : ℕ) (command : PipeCommand) (rest : List ℕ)
    → read_request latest (command_request command ++ rest)
      ≡ read_body latest (raw_command command) rest
unfolding read_request command_request
command-read latest command rest =
    rw (read_val-value 1 (raw_command command) rest (raw-small command))

AllCarry-empty :
    (es : List BopomofoPos) (ps : List PaddingEntry) → AllCarry es ps → is_empty es ≡ is_empty ps
unfolding AllCarry
AllCarry-empty [] [] h = refl
AllCarry-empty [] (p ∷ ps) h = absurd h
AllCarry-empty (e ∷ es) [] h = absurd h
AllCarry-empty (e ∷ es) (p ∷ ps) h = refl

padding-read :
    (es : List BopomofoPos) (ps : List PaddingEntry) (bytes rest : List ℕ)
    → length es ≤ 1024
    → read_padding_entries (length es) (bytes ++ rest) ≡ some (ps, rest)
    → read_padding ((value 4 (length es) ++ bytes) ++ rest) ≡ some (ps, rest)
unfolding read_padding
padding-read es ps bytes rest few taken =
    let fits : leb (length es) 1024 ≡ true = ground arith in
    rw
      (
        append_assoc (value 4 (length es)) bytes rest,
        read_val-value 4 (length es) (bytes ++ rest) (omega arith),
        fits,
      )
      taken

-- A prediction for entries that the service accepts is always sent, and the service reads from it
-- exactly the context, and of each entry the character that is fixed or else the reading.
pub read_request-predict_request :
    (latest : ℕ) (context : List ℕ) (padding : List BopomofoPos)
    → IsShort 4096 context
    → length padding ≤ 1024
    → 0 < length padding
    → All IsSendable padding
    → (bytes : List ℕ) × (ps : List PaddingEntry) × (predict_request context padding ≡ some bytes)
      × AllCarry padding ps
      × ((rest : List ℕ)
          → read_request latest (bytes ++ rest) ≡ some (ClientRequest.predict context ps, rest))
unfolding predict_request read_predict read_body raw_command
read_request-predict_request latest context padding short few some_entry sendable =
    let (entries, ps, sent, carries, taken) = entries-read padding sendable in
    let body : List ℕ = value 4 (length padding) ++ entries in
    let full : is_empty ps ≡ false =
      sym (AllCarry-empty padding ps carries) ∙ not-is_empty padding some_entry in
    let bytes : List ℕ = command_request PipeCommand.predict ++ (string context ++ body) in
    (
      bytes,
      ps,
      rw sent,
      carries,
      λ rest. rw (
        append_assoc (command_request PipeCommand.predict) (string context ++ body) rest,
        append_assoc (string context) body rest,
        command-read latest PipeCommand.predict (string context ++ (body ++ rest)),
        read_utf16_string-string 4096 context (body ++ rest) (omega arith) short,
        padding-read padding ps entries rest few (taken rest),
        full,
      ),
    )

-- What the service takes of a commit.
pub record IsSample (sample : CommitSample) : Type 0 where
  pub short_context : IsShort 4096 sample.context
  pub short_answer : IsShort 1024 sample.answer
  pub some_input : 0 < length sample.input
  pub few_entries : length sample.input ≤ 1024
  pub entries : All IsInput sample.input

-- A commit that is newer than the last is read as it was recorded.
pub read_request-commit_request :
    (latest token : ℕ) (sample : CommitSample) (rest : List ℕ)
    → latest < token
    → token < u64_mod
    → IsSample sample
    → read_request latest (commit_request token sample ++ rest)
      ≡ some (ClientRequest.record_commit token sample.context sample.answer sample.input, rest)
unfolding commit_request read_commit read_body raw_command
read_request-commit_request latest token sample rest newer wide ok =
    let input : List ℕ = value 4 (length sample.input) ++ input_requests sample.input in
    let answer : List ℕ = string sample.answer ++ input in
    let context : List ℕ = string sample.context ++ answer in
    let nonzero : (token == 0) ≡ false = ground arith in
    let fresh_token : leb token latest ≡ false = ground arith in
    let some_input : (length sample.input == 0) ≡ false = ground (arith, ok.some_input) in
    let few : leb (length sample.input) 1024 ≡ true = ground (arith, ok.few_entries) in
    rw (
      append_assoc (command_request PipeCommand.record_commit) (value 8 token ++ context) rest,
      append_assoc (value 8 token) context rest,
      append_assoc (string sample.context) answer rest,
      append_assoc (string sample.answer) input rest,
      append_assoc (value 4 (length sample.input)) (input_requests sample.input) rest,
      command-read latest PipeCommand.record_commit (
          value 8 token
          ++ (string sample.context
              ++ (string sample.answer
                  ++ (value 4 (length sample.input) ++ (input_requests sample.input ++ rest))))),
      read_val-value 8 token
          (string sample.context
            ++ (string sample.answer
                ++ (value 4 (length sample.input) ++ (input_requests sample.input ++ rest))))
          (omega arith),
      nonzero,
      fresh_token,
      read_utf16_string-string 4096 sample.context
          (string sample.answer
            ++ (value 4 (length sample.input) ++ (input_requests sample.input ++ rest)))
          (omega arith) ok.short_context,
      read_utf16_string-string 1024 sample.answer
          (value 4 (length sample.input) ++ (input_requests sample.input ++ rest)) (omega arith)
          ok.short_answer,
      read_val-value 4 (length sample.input) (input_requests sample.input ++ rest)
          (omega (arith, ok.few_entries)),
      some_input,
      few,
      read_input-input_requests sample.input rest ok.entries,
    )

-- A prefill is read as the context that it was sent with.
pub read_request-prefill_request :
    (latest : ℕ) (context rest : List ℕ)
    → IsShort 4096 context
    → read_request latest (prefill_request context ++ rest)
      ≡ some (ClientRequest.prefill context, rest)
unfolding prefill_request read_prefill read_body raw_command
read_request-prefill_request latest context rest short = rw (
  append_assoc (command_request PipeCommand.prefill) (string context) rest,
  command-read latest PipeCommand.prefill (string context ++ rest),
  read_utf16_string-string 4096 context rest (omega arith) short,
)

pub read_request-discard_request :
    (latest token : ℕ) (rest : List ℕ)
    → token < u64_mod
    → read_request latest (discard_request token ++ rest)
      ≡ some (ClientRequest.discard_commit token, rest)
unfolding discard_request read_discard read_body raw_command
read_request-discard_request latest token rest wide = rw (
  append_assoc (command_request PipeCommand.discard_last_commit) (value 8 token) rest,
  command-read latest PipeCommand.discard_last_commit (value 8 token ++ rest),
  read_val-value 8 token rest (omega arith),
)
