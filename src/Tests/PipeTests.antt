-- ===== src/Tests/PipeTests.antt =====
-- The theorems on the prediction pipe at concrete inputs.
use ime_windows.Prelude.{
  ℕ, ◌+◌, ◌≡◌, refl, true, false, none, some, List, [], ◌∷◌, ◌++◌, length, arith,
}
use ime_windows.Keys.Presses.{InputMode}
use ime_windows.Bopomofo.Entry.{current32, to_bopomofo_string, to_toneless_bopomofo_string}
use ime_windows.Buffer.Text.{CommitSample}
use ime_windows.Buffer.Merge.{merge_conversion}
use ime_windows.Buffer.Validity.{IsValid}
use ime_windows.Pipe.Requests.{IsSample}
use ime_windows.Pipe.Client.{receive_prediction}
use ime_windows.Pipe.Server.{ClientRequest, Services, ClientState, write_response, handle_client}
use ime_windows.Pipe.RoundTrip.{IsSendable}
use ime_windows.Pipe.Conversation.{
  Call, IsAcceptable, AllAcceptable, newest, AllMean, call_requests, handle_requests,
  handle_client-call_requests,
}
use ime_windows.Pipe.Ending.{Serves, handle_client-Serves}
use ime_windows.Pipe.Answers.{all_answered, receive_prediction-write_response}
use ime_windows.Pipe.Untrusted.{merge_received-IsValid}
use ime_windows.Pipe.Connection.{PipeEngine, System}
use ime_windows.Pipe.Launching.{
  Recording, IsSpaced, launch_times, launch_times-IsSpaced, sent_commits, sent_bytes,
  handle_client-sent_bytes,
}
use ime_windows.Tests.Samples.{ni, ni-IsValid, waiting, waiting-IsValid}

-- A service that counts what it is asked.
abbrev counting : Services ℕ
counting = record {
  ready = λ n. (true, n + 1);
  prefill = λ context n. n + 1;
  predict = λ context padding n. (some ((0x4f60 ∷ []) ∷ []), n + 1);
  apply = λ padding n. (padding, none ∷ []);
  enqueue = λ event n. n + 1;
  discard_staged = λ session token n. n;
  utc_timestamp = λ n. [];
}

abbrev fresh_client : ClientState ℕ
fresh_client = record {
  mode = InputMode.chinese;
  latest_commit_token = 0;
  written = [];
  services = 0;
}

-- 你, with its reading.
abbrev sample : CommitSample
sample = record {
  context = [];
  answer = 0x4f60 ∷ [];
  input = record { reading = 0x310b ∷ []; output = 0x4f60 ∷ []; manually_selected = true } ∷ [];
}

sample-IsSample : IsSample sample
sample-IsSample = record {
  short_context = (omega arith, tt);
  short_answer = (omega arith, (omega arith, tt));
  some_input = omega arith;
  few_entries = omega arith;
  entries = (((omega arith, (omega arith, tt)), (omega arith, (omega arith, tt)), omega arith), tt);
}

ni-IsSendable : IsSendable ni
unfolding current32 to_bopomofo_string to_toneless_bopomofo_string
ni-IsSendable = record {
  is_character = λ c h. ground (arith, h);
  has_character = λ h. cc;
  has_units = (omega arith, (omega arith, (omega arith, tt)));
}

abbrev calls : List Call
calls = Call.predict (0x4f60 ∷ []) (ni ∷ []) ∷ Call.record_commit 3 sample ∷ Call.get_mode ∷ []

handle_client-call_requests_example :
    (bytes : List ℕ) × (rs : List ClientRequest) × (call_requests calls ≡ some bytes)
    × AllMean calls rs
    × ((fuel : ℕ) (rest : List ℕ)
        → handle_client counting [] (length calls + fuel) (bytes ++ rest) fresh_client
          ≡ handle_client counting [] fuel rest (handle_requests counting [] rs fresh_client))
unfolding AllAcceptable IsAcceptable newest
handle_client-call_requests_example = handle_client-call_requests counting [] calls fresh_client (
  ((omega arith, (omega arith, tt)), omega arith, omega arith, (ni-IsSendable, tt)),
  ((omega arith, omega arith, sample-IsSample), (tt, tt)),
)

-- A question for the mode, and a command that there is not.
handle_client-Serves_example :
    (d : ClientState ℕ) × (handle_client counting [] 3 (3 ∷ 9 ∷ []) fresh_client ≡ some d)
    × Serves counting [] (3 ∷ 9 ∷ []) fresh_client d
handle_client-Serves_example =
    handle_client-Serves counting [] 3 (3 ∷ 9 ∷ []) fresh_client (omega arith)

receive_prediction-write_response_example :
    receive_prediction (ni ∷ []) (write_response ((0x4f60 ∷ []) ∷ []) ++ [])
    ≡ (all_answered (ni ∷ []) ((0x4f60 ∷ []) ∷ []), some [])
receive_prediction-write_response_example =
    receive_prediction-write_response (ni ∷ []) ((0x4f60 ∷ []) ∷ []) [] (omega arith) (omega arith)
      ((omega arith, (omega arith, tt)), tt)

-- One answer, and an end in the middle of its only candidate.
merge_received-IsValid_example :
    IsValid
      (merge_conversion 7
        (ni ∷ [])
        (receive_prediction (ni ∷ []) (1 ∷ 0 ∷ 0 ∷ 0 ∷ 1 ∷ 0 ∷ 0 ∷ 0 ∷ 96 ∷ [])).0
        none
        waiting).0
merge_received-IsValid_example =
    merge_received-IsValid 7 none (ni ∷ []) (1 ∷ 0 ∷ 0 ∷ 0 ∷ 1 ∷ 0 ∷ 0 ∷ 0 ∷ 96 ∷ []) waiting
      (ni-IsValid, tt) waiting-IsValid ((λ _ _. refl), tt)

-- A service that is not there, and can be launched.
abbrev absent : System
absent = record {
  connects = false;
  has_mutex = true;
  acquires = true;
  connects_again = false;
  now = 9000;
}

abbrev unconnected : PipeEngine
unconnected = record {
  is_connected = false;
  is_aborted = false;
  last_launch_request = some 1000;
  next_commit_token = 1;
}

launch_times-IsSpaced_example : IsSpaced (some 1000) (
    launch_times
      (record { system = absent; is_lost = true }
        ∷ record { system = absent; is_lost = false }
        ∷ [])
      unconnected)
launch_times-IsSpaced_example =
    launch_times-IsSpaced
      (record { system = absent; is_lost = true }
        ∷ record { system = absent; is_lost = false }
        ∷ [])
      unconnected

abbrev recording : Recording
recording = record {
  exchange = record { system = record absent { connects = true }; is_sent = true; answer = [] };
  sample = sample;
}

handle_client-sent_bytes_example :
    (rs : List ClientRequest) × AllMean (sent_commits (recording ∷ recording ∷ []) unconnected) rs
    × ((fuel : ℕ) (rest : List ℕ)
        → handle_client counting []
            (length (sent_commits (recording ∷ recording ∷ []) unconnected) + fuel)
            (sent_bytes (recording ∷ recording ∷ []) unconnected ++ rest)
            fresh_client
          ≡ handle_client counting [] fuel rest (handle_requests counting [] rs fresh_client))
handle_client-sent_bytes_example =
    handle_client-sent_bytes counting [] (recording ∷ recording ∷ []) unconnected fresh_client
      (omega arith) (omega arith) (sample-IsSample, (sample-IsSample, tt))
