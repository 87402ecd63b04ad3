-- ===== src/Pipe/Client.antt =====
-- class PipeEngine (frontend/src/engine/impl/pipeEngine.hpp): the bytes of its requests, what it does
-- with the bytes of an answer, and its connection. The bytes that the backend still sends are a list;
-- `none` for the bytes left is a transfer that failed, after which the engine disconnects.
use ime_windows.Prelude.{
  ℕ, zero, suc, Bool, true, false, Option, none, some, List, [], ◌∷◌, ◌++◌, length, leb, ◌==◌,
  if◌then◌else◌, ◌>>=◌, ◌>>◌, guard,
}
use ime_windows.Keys.Presses.{InputMode}
use ime_windows.Bopomofo.Entry.{
  BopomofoPos, current32, to_bopomofo_string, choose_candidate, set_candidates,
}
use ime_windows.Buffer.Text.{CommitInputEntry, CommitSample}
use ime_windows.Pipe.Bytes.{value, string, read_val, read_values}

pub data PipeCommand : Type 0 where
  predict toggle_input_mode get_input_mode ready record_commit discard_last_commit prefill :
      PipeCommand

unfoldable pub raw_command : PipeCommand → ℕ
raw_command PipeCommand.predict = 1
raw_command PipeCommand.toggle_input_mode = 2
raw_command PipeCommand.get_input_mode = 3
raw_command PipeCommand.ready = 4
raw_command PipeCommand.record_commit = 5
raw_command PipeCommand.discard_last_commit = 6
raw_command PipeCommand.prefill = 7

-- `Request(command)`.
unfoldable pub command_request : PipeCommand → List ℕ
command_request command = value 1 (raw_command command)

abbrev pub flag : Bool → ℕ
flag true = 1
flag false = 0

-- One entry of a prediction; `none` is the exception of `current32`.
unfoldable pub entry_request : BopomofoPos → Option (List ℕ)
entry_request e =
    if e.chosen
    then elim (current32 e) [ none ↦ none | some c ↦ some (value 1 (flag true) ++ value 4 c) ]
    else some (value 1 (flag false) ++ string (to_bopomofo_string e))

unfoldable pub entry_requests : List BopomofoPos → Option (List ℕ)
entry_requests [] = some []
entry_requests (e ∷ es) = do first ← entry_request e; rest ← entry_requests es; some (first ++ rest)

unfoldable pub predict_request : List ℕ → List BopomofoPos → Option (List ℕ)
predict_request context padding = do
  entries ← entry_requests padding
  some (
      command_request PipeCommand.predict
      ++ (string context ++ (value 4 (length padding) ++ entries)))

unfoldable pub input_request : CommitInputEntry → List ℕ
input_request e = string e.reading ++ string e.output ++ value 1 (flag e.manually_selected)

unfoldable pub input_requests : List CommitInputEntry → List ℕ
input_requests [] = []
input_requests (e ∷ es) = input_request e ++ input_requests es

unfoldable pub commit_request : ℕ → CommitSample → List ℕ
commit_request token sample =
    command_request PipeCommand.record_commit
    ++ (value 8 token
        ++ (string sample.context
            ++ (string sample.answer
                ++ (value 4 (length sample.input) ++ input_requests sample.input))))

unfoldable pub discard_request : ℕ → List ℕ
discard_request token = command_request PipeCommand.discard_last_commit ++ value 8 token

unfoldable pub prefill_request : List ℕ → List ℕ
prefill_request context = command_request PipeCommand.prefill ++ string context

abbrev pub maximum_candidate_count : ℕ
maximum_candidate_count = 4096

-- The candidates of one entry.
unfoldable pub read_candidates : List ℕ → Option (List ℕ × List ℕ)
read_candidates bytes = do
  (candidate_count, after) ← read_val 4 bytes
  guard (leb candidate_count maximum_candidate_count)
  read_values 4 candidate_count after

-- `candidates.size() == 1`.
unfoldable pub take_candidates : List ℕ → BopomofoPos → BopomofoPos
take_candidates (c ∷ []) e = choose_candidate c e
take_candidates candidates e = set_candidates candidates e

unfoldable pub answered : List ℕ → BopomofoPos → BopomofoPos
answered candidates e = record (if e.chosen then e else take_candidates candidates e) {
  predicted = true;
}

-- The loop over `count` answers, which keeps what it has written when the pipe breaks.
unfoldable pub take_answers : ℕ → List BopomofoPos → List ℕ → List BopomofoPos × Option (List ℕ)
take_answers zero padding bytes = (padding, some bytes)
take_answers (suc n) [] bytes = ([], none)
take_answers (suc n) (e ∷ es) bytes = elim (read_candidates bytes) [
  | none ↦ (e ∷ es, none)
  | some (candidates, rest) ↦
      let (done, left) = take_answers n es rest in (answered candidates e ∷ done, left)
]

unfoldable pub receive_prediction : List BopomofoPos → List ℕ → List BopomofoPos × Option (List ℕ)
receive_prediction padding bytes = elim (read_val 4 bytes) [
  | none ↦ (padding, none)
  | some (count, rest) ↦
      if leb count (length padding) then take_answers count padding rest else (padding, none)
]

-- A mode that is not the byte of English is Chinese.
unfoldable pub mode_of : ℕ → InputMode
mode_of raw_mode = if raw_mode == 1 then InputMode.english else InputMode.chinese
