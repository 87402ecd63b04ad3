-- ===== src/Pipe/Server.antt =====
-- handle_client of service/src/service/prediction_pipe_server.hpp: how the service reads one request
-- from the bytes of a client, and what it does with it. `none` from a reader is the `break` that ends
-- the client. The inference session, the custom names, the writer of training data and the clock are
-- parameters.
use ime_windows.Prelude.{
  ℕ, zero, suc, Bool, not, ◌&&◌, Option, none, some, List, [], ◌∷◌, ◌++◌, length, leb, ◌==◌,
  if◌then◌else◌, is_empty, ◌>>=◌, ◌>>◌, guard,
}
use ime_windows.Keys.Presses.{InputMode}
use ime_windows.Buffer.Text.{CommitInputEntry}
use ime_windows.Pipe.Bytes.{value, read_val, read_utf16_string}

abbrev pub maximum_context_length : ℕ
maximum_context_length = 4096

abbrev pub maximum_entry_count : ℕ
maximum_entry_count = 1024

abbrev pub maximum_entry_length : ℕ
maximum_entry_length = 1024

abbrev pub maximum_answer_length : ℕ
maximum_answer_length = 1024

-- An entry is a reading, or a character that is chosen.
pub data PaddingEntry : Type 0 where
  reading : (bopomofo : List ℕ) → PaddingEntry
  chosen : (chosen_char : ℕ) → PaddingEntry

-- What one turn of the loop reads.
pub data ClientRequest : Type 0 where
  toggle_mode get_mode get_ready : ClientRequest
  prefill : (context : List ℕ) → ClientRequest
  record_commit :
      (commit_token : ℕ) (context answer : List ℕ) (input : List CommitInputEntry) → ClientRequest
  discard_commit : (commit_token : ℕ) → ClientRequest
  predict : (context : List ℕ) (padding : List PaddingEntry) → ClientRequest

unfoldable pub read_padding_entry : List ℕ → Option (PaddingEntry × List ℕ)
read_padding_entry bytes = do
  (type, after) ← read_val 1 bytes
  guard (leb type 1)
  if type == 0
      then (do
        (bopomofo, rest) ← read_utf16_string maximum_entry_length after
        some (PaddingEntry.reading bopomofo, rest))
      else (do
        (chosen_char, rest) ← read_val 4 after
        guard (leb chosen_char 0x10FFFF)
        some (PaddingEntry.chosen chosen_char, rest))

unfoldable pub read_padding_entries : ℕ → List ℕ → Option (List PaddingEntry × List ℕ)
read_padding_entries zero bytes = some ([], bytes)
read_padding_entries (suc n) bytes = do
  (e, after) ← read_padding_entry bytes
  (entries, rest) ← read_padding_entries n after
  some (e ∷ entries, rest)

unfoldable pub read_padding : List ℕ → Option (List PaddingEntry × List ℕ)
read_padding bytes = do
  (count, after) ← read_val 4 bytes
  guard (leb count maximum_entry_count)
  read_padding_entries count after

unfoldable pub read_input_entry : List ℕ → Option (CommitInputEntry × List ℕ)
read_input_entry bytes = do
  (read, after_reading) ← read_utf16_string maximum_entry_length bytes
  (shown, after_output) ← read_utf16_string maximum_entry_length after_reading
  guard (not (is_empty shown))
  (manually_selected, rest) ← read_val 1 after_output
  guard (leb manually_selected 1)
  some (
    record { reading = read; output = shown; manually_selected = not (manually_selected == 0) },
    rest,
  )

unfoldable pub read_input : ℕ → List ℕ → Option (List CommitInputEntry × List ℕ)
read_input zero bytes = some ([], bytes)
read_input (suc n) bytes = do
  (e, after) ← read_input_entry bytes
  (entries, rest) ← read_input n after
  some (e ∷ entries, rest)

unfoldable pub read_commit : ℕ → List ℕ → Option (ClientRequest × List ℕ)
read_commit latest_commit_token bytes = do
  (commit_token, after_token) ← read_val 8 bytes
  guard (not (commit_token == 0))
  guard (not (leb commit_token latest_commit_token))
  (context, after_context) ← read_utf16_string maximum_context_length after_token
  (answer, after_answer) ← read_utf16_string maximum_answer_length after_context
  (count, after_count) ← read_val 4 after_answer
  guard (not (count == 0))
  guard (leb count maximum_entry_count)
  (input, rest) ← read_input count after_count
  some (ClientRequest.record_commit commit_token context answer input, rest)

unfoldable pub read_prefill : List ℕ → Option (ClientRequest × List ℕ)
read_prefill bytes = do
  (context, rest) ← read_utf16_string maximum_context_length bytes
  some (ClientRequest.prefill context, rest)

unfoldable pub read_discard : List ℕ → Option (ClientRequest × List ℕ)
read_discard bytes = do
  (commit_token, rest) ← read_val 8 bytes
  some (ClientRequest.discard_commit commit_token, rest)

unfoldable pub read_predict : List ℕ → Option (ClientRequest × List ℕ)
read_predict bytes = do
  (context, after) ← read_utf16_string maximum_context_length bytes
  (padding, rest) ← read_padding after
  guard (not (is_empty padding && is_empty context))
  some (ClientRequest.predict context padding, rest)

-- The tests of the command, in the order of the loop; a command that none of them knows ends the client.
unfoldable pub read_body : ℕ → ℕ → List ℕ → Option (ClientRequest × List ℕ)
read_body latest_commit_token raw_command rest =
    if raw_command == 2
    then some (ClientRequest.toggle_mode, rest)
    else if raw_command == 3
    then some (ClientRequest.get_mode, rest)
    else if raw_command == 4
    then some (ClientRequest.get_ready, rest)
    else if raw_command == 7
    then read_prefill rest
    else if raw_command == 5
    then read_commit latest_commit_token rest
    else if raw_command == 6
    then read_discard rest
    else if raw_command == 1
    then read_predict rest
    else none

unfoldable pub read_request : ℕ → List ℕ → Option (ClientRequest × List ℕ)
read_request latest_commit_token bytes = do
  (raw_command, rest) ← read_val 1 bytes
  read_body latest_commit_token raw_command rest

unfoldable pub write_candidates : List ℕ → List ℕ
write_candidates [] = []
write_candidates (c ∷ candidates) = value 4 c ++ write_candidates candidates

unfoldable pub write_predictions : List (List ℕ) → List ℕ
write_predictions [] = []
write_predictions (candidates ∷ results) =
    value 4 (length candidates) ++ write_candidates candidates ++ write_predictions results

-- `write_response`, a result being the characters of its candidates.
unfoldable pub write_response : List (List ℕ) → List ℕ
write_response results = value 4 (length results) ++ write_predictions results

unfoldable pub raw_mode : InputMode → ℕ
raw_mode InputMode.chinese = 0
raw_mode InputMode.english = 1

-- `write_input_mode`.
unfoldable pub write_input_mode : InputMode → List ℕ
write_input_mode mode = value 1 (raw_mode mode)

unfoldable pub toggled : InputMode → InputMode
toggled InputMode.chinese = InputMode.english
toggled InputMode.english = InputMode.chinese

-- The characters of the custom names take the place of what the model answered.
unfoldable pub replace_names : List (List ℕ) → List (Option ℕ) → List (List ℕ)
replace_names [] replacements = []
replace_names (result ∷ results) [] = result ∷ results
replace_names (result ∷ results) (none ∷ replacements) = result ∷ replace_names results replacements
replace_names (result ∷ results) (some ch ∷ replacements) =
    (ch ∷ []) ∷ replace_names results replacements

pub record RawCommitEvent : Type 0 where
  pub session_id : List ℕ
  pub sequence : ℕ
  pub committed_at_utc : List ℕ
  pub context : List ℕ
  pub answer : List ℕ
  pub input : List CommitInputEntry

-- What the loop calls: the inference session of the client (`none` is an exception), the custom names,
-- which mark entries as chosen, the writer of training data, and the clock, read for each commit.
pub record Services (S : Type 0) : Type 0 where
  pub ready : S → Bool × S
  pub prefill : List ℕ → S → S
  pub predict : List ℕ → List PaddingEntry → S → Option (List (List ℕ)) × S
  pub apply : List PaddingEntry → S → List PaddingEntry × List (Option ℕ)
  pub enqueue : RawCommitEvent → S → S
  pub discard_staged : List ℕ → ℕ → S → S
  pub utc_timestamp : S → List ℕ

pub record ClientState (S : Type 0) : Type 0 where
  pub mode : InputMode
  pub latest_commit_token : ℕ
  pub written : List ℕ
  pub services : S

module _ {S : Type 0} (with_services : Services S) (collection_session_id : List ℕ) where
  abbrev pub respond : List ℕ → ClientState S → ClientState S
  respond bytes c = record c { written = c.written ++ bytes }

  unfoldable pub do_predict : List ℕ → List PaddingEntry → ClientState S → ClientState S
  do_predict context padding c =
      let (marked, replacements) = with_services.apply padding c.services in
      let (results, after) = with_services.predict context marked c.services in
      let answer : List ℕ = elim results [
        | none ↦ value 4 0
        | some found ↦ write_response (replace_names found replacements)
      ] in
      respond answer (record c { services = after })

  unfoldable pub do_commit :
      ℕ → List ℕ → List ℕ → List CommitInputEntry → ClientState S → ClientState S
  do_commit commit_token context answer input c =
      let event : RawCommitEvent = record {
        session_id = collection_session_id;
        sequence = commit_token;
        committed_at_utc = with_services.utc_timestamp c.services;
        context = context;
        answer = answer;
        input = input;
      } in
      record c {
        services = with_services.enqueue event c.services;
        latest_commit_token = commit_token;
      }

  unfoldable pub handle : ClientRequest → ClientState S → ClientState S
  handle ClientRequest.toggle_mode c =
      respond (write_input_mode (toggled c.mode)) (record c { mode = toggled c.mode })
  handle ClientRequest.get_mode c = respond (write_input_mode c.mode) c
  handle ClientRequest.get_ready c =
      let (ok, after) = with_services.ready c.services in
      respond (value 1 (if ok then 1 else 0)) (record c { services = after })
  handle (ClientRequest.prefill context) c = record c {
    services = with_services.prefill context c.services;
  }
  handle (ClientRequest.record_commit token context answer input) c =
      do_commit token context answer input c
  handle (ClientRequest.discard_commit token) c =
      if token == c.latest_commit_token
      then record c {
        services = with_services.discard_staged collection_session_id token c.services;
      }
      else c
  handle (ClientRequest.predict context padding) c = do_predict context padding c

  -- The loop, on fuel: a turn reads at least the byte of its command. `none` is a loop that has not
  -- ended when the fuel is used up.
  unfoldable pub handle_client : ℕ → List ℕ → ClientState S → Option (ClientState S)
  handle_client zero bytes c = none
  handle_client (suc fuel) bytes c = elim (read_request c.latest_commit_token bytes) [
    | none ↦ some c
    | some (request, rest) ↦ handle_client fuel rest (handle request c)
  ]
