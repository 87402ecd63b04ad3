-- ===== src/Updates/Checking.antt =====
-- service/src/settings/update_checker.cpp: one check of both channels. What the downloads bring, and
-- whether they could be started, are inputs.
use ime_windows.Prelude.{ℕ, Bool, false, not, List, ◌==◌, if◌then◌else◌}
use ime_windows.Updates.Version.{is_commit_id}
use ime_windows.Updates.Manifest.{
  ReleaseChannel, UpdateCheckStatus, Message, Exception, Fallible, threw, returned, ◌>>=◌, ◌>>◌,
  throw_if, ChannelCheckResult, channel_result, failed_channel, UpdateCheckResult, Json,
  evaluate_manifest,
}

-- A download when the time is up: not done, or done with a body or an exception.
pub data Download : Type 0 where
  still_running : Download
  finished : Fallible (List ℕ) → Download

abbrev pub awaited : Download → Fallible (List ℕ)
awaited still_running = threw (Exception.runtime_error Message.timed_out)
awaited (finished body) = body

-- 0x80190194.
abbrev pub http_not_found : ℕ
http_not_found = 2149122452

-- The clauses of `catch`.
abbrev pub message_of : Exception → Message
message_of (Exception.hresult_error code text) = text
message_of (Exception.runtime_error text) = text
message_of Exception.other = Message.unknown_error

unfoldable pub is_not_found : Exception → Bool
is_not_found (Exception.hresult_error code text) = code == http_not_found
is_not_found _ = false

unfoldable pub caught : ReleaseChannel → Fallible ChannelCheckResult → ChannelCheckResult
caught channel (returned result) = result
caught channel (threw e) =
    if is_not_found e
    then channel_result channel UpdateCheckStatus.not_published
    else failed_channel channel (message_of e)

module _ (json : Json) (release_page : ReleaseChannel → List ℕ) (current_build : ℕ)
    (current_commit : List ℕ) where
  unfoldable pub resolve_channel : ReleaseChannel → Download → ChannelCheckResult
  resolve_channel channel download = caught channel (
      awaited download >>= λ body.
      evaluate_manifest json release_page channel body current_build current_commit)

  unfoldable pub base_result : UpdateCheckResult
  base_result = record {
    current_build = current_build;
    current_commit = current_commit;
    stable = channel_result ReleaseChannel.stable UpdateCheckStatus.failed;
    rolling = channel_result ReleaseChannel.rolling UpdateCheckStatus.failed;
  }

  unfoldable pub perform_check :
      Fallible (Unit {0}) → Download → Download → Fallible UpdateCheckResult
  perform_check requests stable rolling = do
    throw_if (not (is_commit_id current_commit)) Message.no_commit
    requests
    returned (record base_result {
      stable = resolve_channel ReleaseChannel.stable stable;
      rolling = resolve_channel ReleaseChannel.rolling rolling;
    })

  unfoldable pub fail_all : Message → UpdateCheckResult
  fail_all text = record base_result {
    stable = failed_channel ReleaseChannel.stable text;
    rolling = failed_channel ReleaseChannel.rolling text;
  }

  unfoldable pub or_fail_all : Fallible UpdateCheckResult → UpdateCheckResult
  or_fail_all (returned result) = result
  or_fail_all (threw e) = fail_all (message_of e)

  unfoldable pub check_now : Fallible (Unit {0}) → Download → Download → UpdateCheckResult
  check_now requests stable rolling = or_fail_all (perform_check requests stable rolling)
